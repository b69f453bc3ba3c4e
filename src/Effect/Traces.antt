-- ===== src/Effect/Traces.antt =====
-- In which order an action sends its calls, and how that depends on how it ends.
pub mod Replies
pub mod Calls
pub mod Sequences
use mathlib.Core.List.{append-nil}
use argora.Base.{
  Bool, true, false, if◌then◌else◌, ◌≡◌, refl, sym, ap, ◌∙◌, String, Option, none, some, List, [],
  ◌∷◌, ◌++◌,
}
use argora.Errors.{Error, Result, ok, err, panic}
use argora.World.{World}
use argora.Effect.{
  Call, Sys, Action, pure, raise, crash, send, lift, branch, on_result, ◌>>=◌, wrap_error,
}
use argora.Effect.Emits.{Extends, same, more, Emits}
use argora.Effect.Returns.{Returns, ReturnedBy, FailedBy}

-- `past`, and then the calls of the list, which has the first one first.
abbrev pub sent : List Call → List Call → List Call
sent [] past = past
sent (c ∷ cs) past = sent cs (c ∷ past)

pub sent-append : (cs ds past : List Call) → sent (cs ++ ds) past ≡ sent ds (sent cs past)
sent-append [] ds past = refl
sent-append (c ∷ cs) ds past = sent-append cs ds (c ∷ past)

-- `Q` of the value and the calls if a value is returned, and `F` of the calls otherwise
abbrev pub Ends :
    {A : Type 0} → (A → List Call → Type 0) → (List Call → Type 0) → Result A → List Call → Type 0
Ends Q F (ok a) cs = Q a cs
Ends Q F (err e) cs = F cs
Ends Q F panic cs = F cs

-- A run that ends so, from the calls `past` to the calls `now`.
pub record Ran {A : Type 0} (Q : A → List Call → Type 0) (F : List Call → Type 0) (r : Result A)
    (past now : List Call) : Type 0 where
  pub calls : List Call
  pub is_now : now ≡ sent calls past
  pub ends : Ends Q F r calls

-- If `m` returns a value, `Q` holds of it and of the calls that `m` has sent, in their order; if it
-- fails or panics, `F` holds of them.
pub record Traces {W : World} {A : Type 0} (Q : A → List Call → Type 0) (F : List Call → Type 0)
    (m : Action W A) : Type 0 where
  pub at : (s : Sys W) → Ran Q F (m s).0 s.calls (m s).1.calls

-- Nothing is sent.
abbrev pub Nothing : Call → Type 0
Nothing c = ⊥

-- At most that call is sent.
pub data AtMost (c : Call) : List Call → Type 0 where
  unsent : AtMost c []
  once : AtMost c (c ∷ [])

module _ {A : Type 0} (Q : A → List Call → Type 0) (F : List Call → Type 0) where
  Ends-later :
      (cs ds : List Call) (r : Result A)
      → Ends (λ a ds. Q a (cs ++ ds)) (λ ds. F (cs ++ ds)) r ds
      → Ends Q F r (cs ++ ds)
  Ends-later cs ds (ok a) h = h
  Ends-later cs ds (err e) h = h
  Ends-later cs ds panic h = h

module _ {A : Type 0} {Q : A → List Call → Type 0} {F : List Call → Type 0} where
  Ran-later :
      (cs past middle now : List Call) (r : Result A)
      → middle ≡ sent cs past
      → Ran (λ a ds. Q a (cs ++ ds)) (λ ds. F (cs ++ ds)) r middle now
      → Ran Q F r past now
  Ran-later cs past middle now r m h = record {
    calls = cs ++ h.calls;
    is_now = h.is_now ∙ ap (sent h.calls) m ∙ sym (sent-append cs h.calls past);
    ends = Ends-later Q F cs h.calls r h.ends;
  }

  Ran-none : {r : Result A} (cs : List Call) → Ends Q F r [] → Ran Q F r cs cs
  Ran-none cs h = record { calls = []; is_now = refl; ends = h }

module _ {W : World} {A : Type 0} {Q : A → List Call → Type 0} {F : List Call → Type 0} where
  pub Traces-pure : (a : A) → Q a [] → Traces {W = W} Q F (pure a)
  unfolding pure
  Traces-pure a h = record { at = λ s. Ran-none s.calls h }

  pub Traces-raise : (e : Error) → F [] → Traces {W = W} Q F (raise e)
  unfolding raise
  Traces-raise e h = record { at = λ s. Ran-none s.calls h }

  pub Traces-if :
      (b : Bool) (m n : Action W A)
      → (b ≡ true → Traces Q F m)
      → (b ≡ false → Traces Q F n)
      → Traces Q F (if b then m else n)
  Traces-if true m n km kn = km refl
  Traces-if false m n km kn = kn refl

  -- The value is one that the action returns.
  pub Traces-returned :
      (m : Action W A) → Traces Q F m → Traces (λ a cs. ReturnedBy m a × Q a cs) F m
  Traces-returned m t = record {
    at = λ s.
        let h = t.at s in
        record {
          calls = h.calls;
          is_now = h.is_now;
          ends = returned s (m s).0 h.calls refl h.ends;
        };
  }
    where
      returned :
          (s : Sys W) (r : Result A) (cs : List Call)
          → (m s).0 ≡ r
          → Ends Q F r cs
          → Ends (λ a cs. ReturnedBy m a × Q a cs) F r cs
      returned s (ok a) cs e h = ((s, e), h)
      returned s (err x) cs e h = h
      returned s panic cs e h = h

module _ {A : Type 0} {Q R : A → List Call → Type 0} {F G : List Call → Type 0} where
  Ends-weaken :
      (r : Result A) (cs : List Call)
      → ((a : A) (cs : List Call) → Q a cs → R a cs)
      → ((cs : List Call) → F cs → G cs)
      → Ends Q F r cs
      → Ends R G r cs
  Ends-weaken (ok a) cs f g h = f a cs h
  Ends-weaken (err e) cs f g h = g cs h
  Ends-weaken panic cs f g h = g cs h

  pub Traces-weaken :
      {W : World} (m : Action W A)
      → ((a : A) (cs : List Call) → Q a cs → R a cs)
      → ((cs : List Call) → F cs → G cs)
      → Traces Q F m
      → Traces R G m
  Traces-weaken m f g t = record {
    at = λ s.
        let h = t.at s in
        record {
          calls = h.calls;
          is_now = h.is_now;
          ends = Ends-weaken (m s).0 h.calls f g h.ends;
        };
  }

-- What is sent after the calls `cs`
abbrev pub After : {A : Type 0} → List Call → (A → List Call → Type 0) → A → List Call → Type 0
After cs Q a ds = Q a (cs ++ ds)

abbrev pub FailsAfter : List Call → (List Call → Type 0) → List Call → Type 0
FailsAfter cs F ds = F (cs ++ ds)

module _ {W : World} {A B : Type 0} {Q : A → List Call → Type 0} {F G : List Call → Type 0}
    {R : B → List Call → Type 0} where
  branch-Ran :
      (m : Action W A) (r : Result A) (f : A → Action W B) (h : Error → Action W B) (s t : Sys W)
      → (m s).0 ≡ r
      → Ran Q F r s.calls t.calls
      → ((a : A) (cs : List Call) → Q a cs → Traces (After cs R) (FailsAfter cs G) (f a))
      → ((e : Error) (cs : List Call)
          → FailedBy m e
          → F cs
          → Traces (After cs R) (FailsAfter cs G) (h e))
      → ((cs : List Call) → F cs → G cs)
      → Ran R G (branch r f h t).0 s.calls (branch r f h t).1.calls
  branch-Ran m (ok a) f h s t eq ran kf kh kp =
      Ran-later ran.calls s.calls _ _ _ ran.is_now ((kf a ran.calls ran.ends).at t)
  branch-Ran m (err e) f h s t eq ran kf kh kp =
      Ran-later ran.calls s.calls _ _ _ ran.is_now ((kh e ran.calls (s, eq) ran.ends).at t)
  branch-Ran m panic f h s t eq ran kf kh kp = record {
    calls = ran.calls;
    is_now = ran.is_now;
    ends = kp ran.calls ran.ends;
  }

  pub Traces-on_result :
      (m : Action W A) (f : A → Action W B) (h : Error → Action W B)
      → Traces Q F m
      → ((a : A) (cs : List Call) → Q a cs → Traces (After cs R) (FailsAfter cs G) (f a))
      → ((e : Error) (cs : List Call)
          → FailedBy m e
          → F cs
          → Traces (After cs R) (FailsAfter cs G) (h e))
      → ((cs : List Call) → F cs → G cs)
      → Traces R G (on_result m f h)
  unfolding on_result
  Traces-on_result m f h t kf kh kp = record {
    at = λ s. branch-Ran m (m s).0 f h s (m s).1 refl (t.at s) kf kh kp;
  }

  pub Traces-bind :
      (m : Action W A) (f : A → Action W B)
      → Traces Q F m
      → ((cs : List Call) → F cs → G cs)
      → ((a : A) (cs : List Call) → Q a cs → Traces (After cs R) (FailsAfter cs G) (f a))
      → Traces R G (m >>= f)
  unfolding ◌>>=◌
  Traces-bind m f t kp kf =
      Traces-on_result m f raise t kf (λ e cs _ h. Traces-raise e (rw (append-nil cs) (kp cs h))) kp
