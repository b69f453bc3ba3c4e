-- ===== src/Effect/Emits.antt =====
-- Which writing calls an action sends: one rule for each way to build an action.
use argora.Base.{
  String, Bool, true, false, Option, none, some, List, [], ◌∷◌, if◌then◌else◌, ◌≡◌, refl, All,
  All-of,
}
use argora.Errors.{Error, wrapped, Result, ok, err, panic}
use argora.World.{World}
use argora.Effect.{
  Call, Sys, Action, pure, raise, crash, gets, lift, ask, send, branch, on_result, ◌>>=◌,
  wrap_error, require, guard, first, for_each,
}

-- The calls `cs`, and later ones that satisfy `P`.
pub data Extends (P : Call → Type 0) (cs : List Call) : List Call → Type 0 where
  same : Extends P cs cs
  more : {c : Call} {ds : List Call} → P c → Extends P cs ds → Extends P cs (c ∷ ds)

pub Extends-trans :
    {P : Call → Type 0} {cs ds es : List Call} → Extends P cs ds → Extends P ds es → Extends P cs es
Extends-trans p same = p
Extends-trans p (more h q) = more h (Extends-trans p q)

pub Extends-weaken :
    {P Q : Call → Type 0} {cs ds : List Call}
    → ((c : Call) → P c → Q c)
    → Extends P cs ds
    → Extends Q cs ds
Extends-weaken f same = same
Extends-weaken f (more {c} h p) = more (f c h) (Extends-weaken f p)

-- Every call that `m` sends satisfies `P`, however it ends.
pub record Emits {W : World} {A : Type 0} (P : Call → Type 0) (m : Action W A) : Type 0 where
  pub at : (s : Sys W) → Extends P s.calls (m s).1.calls

module _ {W : World} {P : Call → Type 0} {A : Type 0} where
  pub Emits-pure : (a : A) → Emits {W = W} P (pure a)
  unfolding pure
  Emits-pure a = record { at = λ s. same }

  pub Emits-raise : (e : Error) → Emits {W = W} {A = A} P (raise e)
  unfolding raise
  Emits-raise e = record { at = λ s. same }

  pub Emits-crash : Emits {W = W} {A = A} P crash
  unfolding crash
  Emits-crash = record { at = λ s. same }

  pub Emits-gets : (f : Sys W → A) → Emits P (gets f)
  unfolding gets
  Emits-gets f = record { at = λ s. same }

  pub Emits-lift : (r : Result A) → Emits {W = W} P (lift r)
  unfolding lift
  Emits-lift r = record { at = λ s. same }

  pub Emits-ask : (call : W.State → Result A × W.State) → Emits P (ask {W = W} call)
  unfolding ask
  Emits-ask call = record { at = λ s. same }

  pub Emits-send :
      (c : Call) (call : W.State → Result A × W.State) → P c → Emits P (send {W = W} c call)
  unfolding send
  Emits-send c call h = record { at = λ s. more h same }

  pub Emits-require : (o : Option A) (e : Error) → Emits {W = W} P (require o e)
  unfolding require
  Emits-require none e = Emits-raise e
  Emits-require (some a) e = Emits-pure a

  pub Emits-first : (xs : List A) → Emits {W = W} P (first xs)
  unfolding first
  Emits-first [] = Emits-crash
  Emits-first (x ∷ xs) = Emits-pure x

  pub Emits-if :
      (b : Bool) (m n : Action W A)
      → (b ≡ true → Emits P m)
      → (b ≡ false → Emits P n)
      → Emits P (if b then m else n)
  Emits-if true m n km kn = km refl
  Emits-if false m n km kn = kn refl

module _ {W : World} {P : Call → Type 0} {A B : Type 0} where
  pub Emits-branch :
      (r : Result A) (f : A → Action W B) (h : Error → Action W B)
      → ((a : A) → r ≡ ok a → Emits P (f a))
      → ((e : Error) → r ≡ err e → Emits P (h e))
      → Emits P (branch r f h)
  unfolding crash
  Emits-branch (ok a) f h kf kh = kf a refl
  Emits-branch (err e) f h kf kh = kh e refl
  Emits-branch panic f h kf kh = Emits-crash

  pub Emits-on_result :
      (m : Action W A) (f : A → Action W B) (h : Error → Action W B)
      → Emits P m
      → ((a : A) → Emits P (f a))
      → ((e : Error) → Emits P (h e))
      → Emits P (on_result m f h)
  unfolding on_result
  Emits-on_result m f h km kf kh = record {
    at = λ s.
        Extends-trans (km.at s) ((Emits-branch (m s).0 f h (λ a _. kf a) (λ e _. kh e)).at (m s).1);
  }

  -- What was looked up is known to the branch that runs.
  pub Emits-on_result-lift :
      (r : Result A) (f : A → Action W B) (h : Error → Action W B)
      → ((a : A) → r ≡ ok a → Emits P (f a))
      → ((e : Error) → r ≡ err e → Emits P (h e))
      → Emits P (on_result (lift r) f h)
  unfolding on_result lift
  Emits-on_result-lift r f h kf kh = record { at = λ s. (Emits-branch r f h kf kh).at s }

  pub Emits-bind :
      (m : Action W A) (f : A → Action W B)
      → Emits P m
      → ((a : A) → Emits P (f a))
      → Emits P (m >>= f)
  unfolding ◌>>=◌
  Emits-bind m f km kf = Emits-on_result m f raise km kf Emits-raise

module _ {W : World} {P : Call → Type 0} where
  pub Emits-wrap_error :
      {A : Type 0} (t : String) (m : Action W A) → Emits P m → Emits P (wrap_error t m)
  unfolding wrap_error
  Emits-wrap_error t m km =
      Emits-on_result m pure (λ e. raise (wrapped t e)) km Emits-pure (λ e. Emits-raise _)

  pub Emits-guard : (b : Bool) (e : Error) → Emits {W = W} P (guard b e)
  unfolding guard
  Emits-guard true e = Emits-pure tt
  Emits-guard false e = Emits-raise e

  pub Emits-for_each :
      {A : Type 0} (f : A → Action W (Unit {0})) (xs : List A)
      → All (λ x. Emits P (f x)) xs
      → Emits P (for_each f xs)
  unfolding for_each
  Emits-for_each f [] h = Emits-pure tt
  Emits-for_each f (x ∷ xs) (h, hs) =
      Emits-bind (f x) (λ _. for_each f xs) h (λ _. Emits-for_each f xs hs)

pub ruleset emits_rules = (
  Emits-pure, Emits-raise, Emits-crash, Emits-gets, Emits-lift, Emits-ask, Emits-send,
  Emits-require, Emits-if, Emits-on_result, Emits-bind, Emits-wrap_error, Emits-guard, Emits-first,
  Emits-for_each, All-of,
)

-- A call that satisfies `P` satisfies `Q`.
pub weaken :
    {W : World} {A : Type 0} {P Q : Call → Type 0} (m : Action W A)
    → ((c : Call) → P c → Q c)
    → Emits P m
    → Emits Q m
weaken m f e = record { at = λ s. Extends-weaken f (e.at s) }
