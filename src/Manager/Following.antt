-- ===== src/Manager/Following.antt =====
-- A start of the program that follows a plan: what was asked of the libraries, and what they answered.
use mathlib.Core.List.{append_assoc}
use argora.Base.{List, [], ◌∷◌, ◌++◌, ◌≡◌, refl, sym, ap, ◌∙◌}
use argora.Errors.{Error, Result, ok, err, panic}
use argora.Manager.{
  Request, Runtime, Progress, goes_on, exited, panicked, Running, Boot, after, ◌>>=◌,
}

-- The libraries answer all the requests, asked one after the other from a state, without an error.
abbrev pub Accepts : (M : Runtime) → List Request → M.State → Type 0
Accepts M [] state = Unit
Accepts M (q ∷ qs) state = ((M.answer q state).0 ≡ ok tt) × Accepts M qs (M.answer q state).1

-- The state that they leave
abbrev pub state_after : (M : Runtime) → List Request → M.State → M.State
state_after M [] state = state
state_after M (q ∷ qs) state = state_after M qs (M.answer q state).1

-- All of the plan was asked for, and accepted.
pub record Accepted (M : Runtime) (plan : List Request) (s s' : Running M) : Type 0 where
  pub is_done : s'.requests ≡ s.requests ++ plan
  pub accepts : Accepts M plan s.state
  pub state : s'.state ≡ state_after M plan s.state

-- The plan was asked for up to the first request that was not accepted.
pub record Stopped (M : Runtime) (IsFailure : Result (Unit {0}) → Type 0) (plan : List Request)
    (s s' : Running M) : Type 0 where
  pub accepted : List Request
  pub refused : Request
  pub left : List Request
  pub is_plan : accepted ++ (refused ∷ left) ≡ plan
  pub is_done : s'.requests ≡ s.requests ++ (accepted ++ (refused ∷ []))
  pub accepts : Accepts M accepted s.state
  pub refuses : IsFailure (M.answer refused (state_after M accepted s.state)).0

abbrev pub IsError : Result (Unit {0}) → Type 0
IsError r = (e : Error) × (r ≡ err e)

-- Going on means that all was accepted, an exit that an error was returned, a panic that one happened.
abbrev pub Follows :
    {M : Runtime} {A : Type 0} → List Request → Running M → Progress A → Running M → Type 0
Follows {M} plan s (goes_on a) s' = Accepted M plan s s'
Follows {M} plan s (exited t) s' = Stopped M IsError plan s s'
Follows {M} plan s panicked s' = Stopped M (λ r. r ≡ panic) plan s s'

pub record IsStart {M : Runtime} {A : Type 0} (plan : List Request) (m : Boot M A) : Type 0 where
  pub at : (s : Running M) → Follows plan s (m s).0 (m s).1

requests-append :
    (before middle after xs ys : List Request)
    → middle ≡ before ++ xs
    → after ≡ middle ++ ys
    → after ≡ before ++ (xs ++ ys)
requests-append before middle after xs ys m h = h ∙ ap (λ l. l ++ ys) m ∙ append_assoc before xs ys

module _ (M : Runtime) where
  Accepts-append :
      (xs ys : List Request) (state : M.State)
      → Accepts M xs state
      → Accepts M ys (state_after M xs state)
      → Accepts M (xs ++ ys) state
  Accepts-append [] ys state h k = k
  Accepts-append (x ∷ xs) ys state h k = (h.0, Accepts-append xs ys (M.answer x state).1 h.1 k)

  state_after-append :
      (xs ys : List Request) (state : M.State)
      → state_after M (xs ++ ys) state ≡ state_after M ys (state_after M xs state)
  state_after-append [] ys state = refl
  state_after-append (x ∷ xs) ys state = state_after-append xs ys (M.answer x state).1

module _ {M : Runtime} where
  Stopped-append :
      {IsFailure : Result (Unit {0}) → Type 0} (xs ys : List Request) (s s' : Running M)
      → Stopped M IsFailure xs s s'
      → Stopped M IsFailure (xs ++ ys) s s'
  Stopped-append xs ys s s' h = record {
    accepted = h.accepted;
    refused = h.refused;
    left = h.left ++ ys;
    is_plan = sym (append_assoc h.accepted (h.refused ∷ h.left) ys) ∙ ap (λ l. l ++ ys) h.is_plan;
    is_done = h.is_done;
    accepts = h.accepts;
    refuses = h.refuses;
  }

  Accepted-append :
      (xs ys : List Request) (s s' s'' : Running M)
      → Accepted M xs s s'
      → Accepted M ys s' s''
      → Accepted M (xs ++ ys) s s''
  Accepted-append xs ys s s' s'' h k = record {
    is_done = requests-append _ _ _ xs ys h.is_done k.is_done;
    accepts = Accepts-append M xs ys s.state h.accepts (rw (← h.state) k.accepts);
    state = k.state ∙ ap (state_after M ys) h.state ∙ sym (state_after-append M xs ys s.state);
  }

  Stopped-later :
      {IsFailure : Result (Unit {0}) → Type 0} (xs ys : List Request) (s s' s'' : Running M)
      → Accepted M xs s s'
      → Stopped M IsFailure ys s' s''
      → Stopped M IsFailure (xs ++ ys) s s''
  Stopped-later xs ys s s' s'' h k = record {
    accepted = xs ++ k.accepted;
    refused = k.refused;
    left = k.left;
    is_plan = append_assoc xs k.accepted (k.refused ∷ k.left) ∙ ap (λ l. xs ++ l) k.is_plan;
    is_done =
        requests-append _ _ _ xs (k.accepted ++ (k.refused ∷ [])) h.is_done k.is_done
        ∙ ap (λ l. s.requests ++ l) (sym (append_assoc xs k.accepted (k.refused ∷ [])));
    accepts = Accepts-append M xs k.accepted s.state h.accepts (rw (← h.state) k.accepts);
    refuses = rw (state_after-append M xs k.accepted s.state, ← h.state) k.refuses;
  }

  pub Follows-later :
      {B : Type 0} (xs ys : List Request) (s s' s'' : Running M) (r : Progress B)
      → Accepted M xs s s'
      → Follows ys s' r s''
      → Follows (xs ++ ys) s r s''
  Follows-later xs ys s s' s'' (goes_on b) h k = Accepted-append xs ys s s' s'' h k
  Follows-later xs ys s s' s'' (exited t) h k = Stopped-later xs ys s s' s'' h k
  Follows-later xs ys s s' s'' panicked h k = Stopped-later xs ys s s' s'' h k

  Follows-after :
      {A B : Type 0} (xs ys : List Request) (r : Progress A) (f : A → Boot M B) (s s' : Running M)
      → Follows xs s r s'
      → ((a : A) → IsStart ys (f a))
      → Follows (xs ++ ys) s (after r f s').0 (after r f s').1
  Follows-after xs ys (goes_on a) f s s' h k =
      Follows-later xs ys s s' (f a s').1 (f a s').0 h ((k a).at s')
  Follows-after xs ys (exited t) f s s' h k = Stopped-append xs ys s s' h
  Follows-after xs ys panicked f s s' h k = Stopped-append xs ys s s' h

  pub bind-IsStart :
      {A B : Type 0} (xs ys : List Request) (m : Boot M A) (f : A → Boot M B)
      → IsStart xs m
      → ((a : A) → IsStart ys (f a))
      → IsStart (xs ++ ys) (m >>= f)
  unfolding ◌>>=◌
  bind-IsStart xs ys m f h k = record {
    at = λ s. Follows-after xs ys (m s).0 f s (m s).1 (h.at s) k;
  }
