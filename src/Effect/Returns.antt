-- ===== src/Effect/Returns.antt =====
-- What is known of the values that actions return.
use argora.Base.{Bool, true, false, if◌then◌else◌, String, Option, none, some, ◌≡◌, refl, sym}
use argora.Errors.{Error, wrapped, Result, ok, err, panic}
use argora.World.{World}
use argora.Effect.{
  Call, Sys, Action, gets, pure, raise, lift, branch, on_result, ◌>>=◌, wrap_error, require,
}
use argora.Effect.Emits.{Emits, Emits-branch, Emits-raise, Extends-trans}

-- What is known of a value that an action returns.
pub record Returns {W : World} {A : Type 0} (Q : A → Type 0) (m : Action W A) : Type 0 where
  pub at : (s : Sys W) (a : A) → (m s).0 ≡ ok a → Q a

ok-injective : {A : Type 0} (a b : A) → ok a ≡ ok b → a ≡ b
ok-injective a b h = cc

-- From some state, the action returns the value, or the error.
abbrev pub ReturnedBy : {W : World} {A : Type 0} → Action W A → A → Type 0
ReturnedBy {W} m a = (s : Sys W) × ((m s).0 ≡ ok a)

abbrev pub FailedBy : {W : World} {A : Type 0} → Action W A → Error → Type 0
FailedBy {W} m e = (s : Sys W) × ((m s).0 ≡ err e)

module _ {W : World} {A : Type 0} where
  pub Returns-any : (m : Action W A) → Returns (λ _. Unit {0}) m
  Returns-any m = record { at = λ s a h. tt }

  -- A value that an action returns is one that it returns from some state.
  pub Returns-self : (m : Action W A) → Returns (ReturnedBy m) m
  Returns-self m = record { at = λ s a h. (s, h) }

  pub Returns-pure : {Q : A → Type 0} (a : A) → Q a → Returns {W = W} Q (pure a)
  unfolding pure
  Returns-pure {Q} a q = record { at = λ s b h. rw (sym (ok-injective a b h)) q }

  pub Returns-raise : {Q : A → Type 0} (e : Error) → Returns {W = W} Q (raise e)
  unfolding raise
  Returns-raise e = record { at = λ s b h. absurd cc }

  pub Returns-if :
      {Q : A → Type 0} (b : Bool) (m n : Action W A)
      → (b ≡ true → Returns Q m)
      → (b ≡ false → Returns Q n)
      → Returns Q (if b then m else n)
  Returns-if true m n km kn = km refl
  Returns-if false m n km kn = kn refl

  pub Returns-gets : (f : Sys W → A) → Returns (λ a. (s : Sys W) × (a ≡ f s)) (gets f)
  unfolding gets
  Returns-gets f = record { at = λ s a h. (s, cc) }

  pub Returns-lift : (r : Result A) → Returns {W = W} (λ a. r ≡ ok a) (lift r)
  unfolding lift
  Returns-lift r = record { at = λ s a h. h }

  pub Returns-require : (o : Option A) (e : Error) → Returns {W = W} (λ a. o ≡ some a) (require o e)
  unfolding require pure raise
  Returns-require none e = record { at = λ s a h. cc }
  Returns-require (some b) e = record { at = λ s a h. cc }

module _ {W : World} {A B : Type 0} where
  branch-Returns :
      {Q : B → Type 0} (r : Result A) (f : A → Action W B) (s : Sys W) (b : B)
      → ((a : A) → r ≡ ok a → Returns Q (f a))
      → (branch r f raise s).0 ≡ ok b
      → Q b
  unfolding raise
  branch-Returns (ok a) f s b k h = (k a refl).at s b h
  branch-Returns (err e) f s b k h = absurd cc
  branch-Returns panic f s b k h = absurd cc

  pub Returns-bind :
      {R : A → Type 0} {Q : B → Type 0} (m : Action W A) (f : A → Action W B)
      → Returns R m
      → ((a : A) → R a → Returns Q (f a))
      → Returns Q (m >>= f)
  unfolding ◌>>=◌ on_result
  Returns-bind m f km kf = record {
    at = λ s b h. branch-Returns (m s).0 f (m s).1 b (λ a e. kf a (km.at s a e)) h;
  }

  pub Emits-on_result-Returns :
      {P : Call → Type 0} {R : A → Type 0} (m : Action W A) (f : A → Action W B)
      (g : Error → Action W B)
      → Emits P m
      → Returns R m
      → ((a : A) → R a → Emits P (f a))
      → ((e : Error) → Emits P (g e))
      → Emits P (on_result m f g)
  unfolding on_result
  Emits-on_result-Returns m f g km q kf kg = record {
    at = λ s.
        Extends-trans (km.at s)
          ((Emits-branch (m s).0 f g (λ a e. kf a (q.at s a e)) (λ e _. kg e)).at (m s).1);
  }

  reply-Returns :
      {Q : B → Type 0} (r : Result A) (f : A → Action W B) (g : Error → Action W B) (s : Sys W)
      (b : B)
      → ((a : A) → r ≡ ok a → Returns Q (f a))
      → ((e : Error) → r ≡ err e → Returns Q (g e))
      → (branch r f g s).0 ≡ ok b
      → Q b
  reply-Returns (ok a) f g s b kf kg h = (kf a refl).at s b h
  reply-Returns (err e) f g s b kf kg h = (kg e refl).at s b h
  reply-Returns panic f g s b kf kg h = absurd cc

  pub Returns-on_result :
      {Q : B → Type 0} (m : Action W A) (f : A → Action W B) (g : Error → Action W B)
      → ((a : A) → ReturnedBy m a → Returns Q (f a))
      → ((e : Error) → FailedBy m e → Returns Q (g e))
      → Returns Q (on_result m f g)
  unfolding on_result
  Returns-on_result m f g kf kg = record {
    at = λ s b h. reply-Returns (m s).0 f g (m s).1 b (λ a k. kf a (s, k)) (λ e k. kg e (s, k)) h;
  }

  -- Each branch knows what was returned, or the error.
  pub Emits-on_result-reply :
      {P : Call → Type 0} (m : Action W A) (f : A → Action W B) (g : Error → Action W B)
      → Emits P m
      → ((a : A) → ReturnedBy m a → Emits P (f a))
      → ((e : Error) → FailedBy m e → Emits P (g e))
      → Emits P (on_result m f g)
  unfolding on_result
  Emits-on_result-reply m f g km kf kg = record {
    at = λ s.
        Extends-trans (km.at s)
          ((Emits-branch (m s).0 f g (λ a h. kf a (s, h)) (λ e h. kg e (s, h))).at (m s).1);
  }

  -- Where the reply is never an error, the branch for errors is not taken.
  pub Emits-on_result-answered :
      {P : Call → Type 0} (m : Action W A) (f : A → Action W B) (g : Error → Action W B)
      → Emits P m
      → ((s : Sys W) → (a : A) × ((m s).0 ≡ ok a))
      → ((a : A) → ReturnedBy m a → Emits P (f a))
      → Emits P (on_result m f g)
  unfolding on_result
  Emits-on_result-answered m f g km answers kf = record {
    at = λ s.
        let (a, answer) = answers s in
        Extends-trans (km.at s) (rw answer ((kf a (s, answer)).at (m s).1));
  }

  pub Emits-bind-Returns :
      {P : Call → Type 0} {R : A → Type 0} (m : Action W A) (f : A → Action W B)
      → Emits P m
      → Returns R m
      → ((a : A) → R a → Emits P (f a))
      → Emits P (m >>= f)
  unfolding ◌>>=◌ on_result
  Emits-bind-Returns m f km q kf = record {
    at = λ s. Extends-trans (km.at s) (
        (Emits-branch (m s).0 f raise (λ a e. kf a (q.at s a e)) (λ e _. Emits-raise e)).at
          (m s).1);
  }

module _ {W : World} {A : Type 0} (t : String) where
  wrapped-Returns :
      (r : Result A) (s : Sys W) (b : A)
      → (branch r pure (λ e. raise (wrapped t e)) s).0 ≡ ok b
      → r ≡ ok b
  unfolding pure raise
  wrapped-Returns (ok a) s b h = h
  wrapped-Returns (err e) s b h = absurd cc
  wrapped-Returns panic s b h = absurd cc

  pub Returns-wrap_error :
      {Q : A → Type 0} (m : Action W A) → Returns Q m → Returns Q (wrap_error t m)
  unfolding wrap_error on_result
  Returns-wrap_error m km = record { at = λ s b h. km.at s b (wrapped-Returns (m s).0 (m s).1 b h) }
