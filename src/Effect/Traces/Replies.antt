-- ===== src/Effect/Traces/Replies.antt =====
-- The order of the calls of actions that only read, and of those that send one call.
use mathlib.Core.List.{append-nil}
use argora.Base.{◌≡◌, refl, sym, String, List, [], ◌∷◌}
use argora.Errors.{Error, Result, ok, err, panic}
use argora.World.{World}
use argora.Effect.{Call, Sys, Action, pure, raise, send, branch, on_result, ◌>>=◌, wrap_error}
use argora.Effect.Emits.{Extends, same, more, Emits}
use argora.Effect.Returns.{Returns, ReturnedBy, FailedBy}
use argora.Effect.Traces.{
  Ends, Ran, Traces, Nothing, AtMost, once, Traces-pure, Traces-raise, Traces-returned,
  Traces-on_result,
}

Extends-Nothing : {cs ds : List Call} → Extends Nothing cs ds → ds ≡ cs
Extends-Nothing same = refl
Extends-Nothing (more h e) = absurd h

module _ {W : World} {A : Type 0} where
  silent-Ends :
      (F : List Call → Type 0) (m : Action W A) (s : Sys W) (r : Result A)
      → (m s).0 ≡ r
      → F []
      → Ends (λ a cs. ReturnedBy m a × (cs ≡ [])) F r []
  silent-Ends F m s (ok a) e h = ((s, e), refl)
  silent-Ends F m s (err x) e h = h
  silent-Ends F m s panic e h = h

  pub Traces-silent :
      {F : List Call → Type 0} (m : Action W A)
      → Emits Nothing m
      → F []
      → Traces (λ a cs. ReturnedBy m a × (cs ≡ [])) F m
  Traces-silent {F} m e h = record {
    at = λ s. record {
      calls = [];
      is_now = Extends-Nothing (e.at s);
      ends = silent-Ends F m s (m s).0 refl h;
    };
  }

module _ {W : World} {A B : Type 0} {F : List Call → Type 0} {R : B → List Call → Type 0} where
  branch-silent :
      (m : Action W A) (r : Result A) (f : A → Action W B) (h : Error → Action W B) (s t : Sys W)
      → (m s).0 ≡ r
      → t.calls ≡ s.calls
      → F []
      → ((a : A) → ReturnedBy m a → Traces R F (f a))
      → ((e : Error) → FailedBy m e → Traces R F (h e))
      → Ran R F (branch r f h t).0 s.calls (branch r f h t).1.calls
  branch-silent m (ok a) f h s t e same_calls p kf kh = rw (sym same_calls) ((kf a (s, e)).at t)
  branch-silent m (err x) f h s t e same_calls p kf kh = rw (sym same_calls) ((kh x (s, e)).at t)
  branch-silent m panic f h s t e same_calls p kf kh = record {
    calls = [];
    is_now = same_calls;
    ends = p;
  }

  -- What only reads, and what is done with its reply
  pub Traces-on_reply :
      (m : Action W A) (f : A → Action W B) (h : Error → Action W B)
      → Emits Nothing m
      → F []
      → ((a : A) → ReturnedBy m a → Traces R F (f a))
      → ((e : Error) → FailedBy m e → Traces R F (h e))
      → Traces R F (on_result m f h)
  unfolding on_result
  Traces-on_reply m f h em p kf kh = record {
    at = λ s. branch-silent m (m s).0 f h s (m s).1 refl (Extends-Nothing (em.at s)) p kf kh;
  }

  pub Traces-after_reply :
      {Q : A → Type 0} (m : Action W A) (f : A → Action W B)
      → Emits Nothing m
      → Returns Q m
      → F []
      → ((a : A) → Q a → Traces R F (f a))
      → Traces R F (m >>= f)
  unfolding ◌>>=◌
  Traces-after_reply m f em q p kf =
      Traces-on_reply m f raise em p (λ a (s, h). kf a (q.at s a h)) (λ e _. Traces-raise e p)

send-Ends :
    {A : Type 0} (c : Call) (r : Result A) → Ends (λ a cs. cs ≡ c ∷ []) (AtMost c) r (c ∷ [])
send-Ends c (ok a) = refl
send-Ends c (err e) = once
send-Ends c panic = once

module _ {W : World} {A : Type 0} where
  pub Traces-send :
      (c : Call) (call : W.State → Result A × W.State)
      → Traces {W = W} (λ a cs. cs ≡ c ∷ []) (AtMost c) (send {W = W} c call)
  unfolding send
  Traces-send c call = record {
    at = λ s. record { calls = c ∷ []; is_now = refl; ends = send-Ends c (call s.world).0 };
  }

  pub Traces-wrap_error :
      {Q : A → List Call → Type 0} {F : List Call → Type 0} (t : String) (m : Action W A)
      → Traces Q F m
      → Traces Q F (wrap_error t m)
  unfolding wrap_error
  Traces-wrap_error {Q} {F} t m k =
      Traces-on_result m pure _ k (λ a cs h. Traces-pure a (rw (append-nil cs) h))
        (λ e cs _ h. Traces-raise _ (rw (append-nil cs) h)) (λ cs h. h)

sent-Ends :
    {A : Type 0} (c : Call) (r : Result A)
    → Ends (λ a cs. cs ≡ c ∷ []) (λ cs. cs ≡ c ∷ []) r (c ∷ [])
sent-Ends c (ok a) = refl
sent-Ends c (err e) = refl
sent-Ends c panic = refl

-- The call is sent also if it fails.
pub Traces-sent :
    {W : World} {A : Type 0} (c : Call) (call : W.State → Result A × W.State)
    → Traces {W = W} (λ a cs. cs ≡ c ∷ []) (λ cs. cs ≡ c ∷ []) (send {W = W} c call)
unfolding send
Traces-sent {W} c call = record {
  at = λ s. record { calls = c ∷ []; is_now = refl; ends = sent-Ends c (call s.world).0 };
}

-- The value is one that the action returns, without the wrapping of the errors.
pub Traces-wrap_returned :
    {W : World} {A : Type 0} {Q : A → List Call → Type 0} {F : List Call → Type 0} (t : String)
    (m : Action W A)
    → Traces Q F m
    → Traces (λ a cs. ReturnedBy m a × Q a cs) F (wrap_error t m)
Traces-wrap_returned t m k = Traces-wrap_error t m (Traces-returned m k)
