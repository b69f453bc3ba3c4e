-- ===== src/Effect/Sends.antt =====
-- That an action sends a call in a run from a given state.
use argora.Base.{String, Option, some, List, ◌≡◌, refl, Among, here, later}
use argora.Errors.{Error, wrapped, Result, ok, err}
use argora.World.{World}
use argora.Effect.{
  Call, Sys, Action, pure, raise, lift, send, on_result, ◌>>=◌, wrap_error, require,
}
use argora.Effect.Emits.{Emits, Emits-pure, Emits-raise, Emits-branch, Extends, same, more}

-- The call is among those that have been sent when `m` ends.
pub record Sends {W : World} {A : Type 0} (c : Call) (m : Action W A) (s : Sys W) : Type 0 where
  pub at : Among c (m s).1.calls

Among-Extends :
    {c : Call} {P : Call → Type 0} {cs ds : List Call} → Among c cs → Extends P cs ds → Among c ds
Among-Extends m same = m
Among-Extends m (more h e) = later (Among-Extends m e)

module _ {W : World} {A : Type 0} where
  pub Sends-send :
      (c : Call) (call : W.State → Result A × W.State) (s : Sys W) → Sends c (send {W = W} c call) s
  unfolding send
  Sends-send c call s = record { at = here }

  pub run-wrap_error :
      (t : String) (m : Action W A) (s s' : Sys W) (a : A)
      → m s ≡ (ok a, s')
      → wrap_error t m s ≡ (ok a, s')
  unfolding wrap_error on_result pure
  run-wrap_error t m s s' a h = rw h refl

  pub run-lift : (r : Result A) (s : Sys W) (a : A) → r ≡ ok a → lift {W = W} r s ≡ (ok a, s)
  unfolding lift
  run-lift r s a h = rw h refl

  pub run-require :
      (o : Option A) (e : Error) (s : Sys W) (a : A)
      → o ≡ some a
      → require {W = W} o e s ≡ (ok a, s)
  unfolding require pure
  run-require o e s a h = rw h refl

module _ {W : World} {A B : Type 0} (c : Call) where
  pub Sends-bind :
      (m : Action W A) (f : A → Action W B) (s s' : Sys W) (a : A)
      → m s ≡ (ok a, s')
      → Sends c (f a) s'
      → Sends c (m >>= f) s
  unfolding ◌>>=◌ on_result
  Sends-bind m f s s' a runs h = record { at = rw runs h.at }

  -- The branch for errors sends it.
  pub Sends-on_result-err :
      (m : Action W A) (f : A → Action W B) (g : Error → Action W B) (s s' : Sys W) (e : Error)
      → m s ≡ (err e, s')
      → Sends c (g e) s'
      → Sends c (on_result m f g) s
  unfolding on_result
  Sends-on_result-err m f g s s' e fails h = record { at = rw fails h.at }

  -- What was sent stays sent.
  pub Sends-on_result :
      (m : Action W A) (f : A → Action W B) (g : Error → Action W B) (s : Sys W)
      → Sends c m s
      → ((a : A) → Emits (λ _. Unit {0}) (f a))
      → ((e : Error) → Emits (λ _. Unit {0}) (g e))
      → Sends c (on_result m f g) s
  unfolding on_result
  Sends-on_result m f g s h kf kg = record {
    at = Among-Extends h.at ((Emits-branch (m s).0 f g (λ a _. kf a) (λ e _. kg e)).at (m s).1);
  }

  pub Sends-first :
      (m : Action W A) (f : A → Action W B) (s : Sys W)
      → Sends c m s
      → ((a : A) → Emits (λ _. Unit {0}) (f a))
      → Sends c (m >>= f) s
  unfolding ◌>>=◌
  Sends-first m f s h rest = Sends-on_result m f raise s h rest Emits-raise

module _ {W : World} {A : Type 0} where
  pub Sends-wrap_error :
      (t : String) (c : Call) (m : Action W A) (s : Sys W)
      → Sends c m s
      → Sends c (wrap_error t m) s
  unfolding wrap_error
  Sends-wrap_error t c m s h =
      Sends-on_result c m pure (λ e. raise (wrapped t e)) s h Emits-pure (λ e. Emits-raise _)
