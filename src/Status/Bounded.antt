-- ===== src/Status/Bounded.antt =====
-- How long an update of a status goes on.
use argora.Base.{ℕ, zero, suc, ◌+◌, ◌≤◌, ◌≡◌, refl, Bool, true, false, length, arith, if◌then◌else◌}
use argora.Errors.{Result, ok, err, panic}
use argora.Api.{Status}
use argora.World.{World}
use argora.World.Documented.{attempts, is_conflict_result, RetriesOnConflict}
use argora.Effect.{Sys, send}
use argora.Status.{Kind, settle, write_fresh, write_status, update}

-- A function that adds one at most adds at most the number of its runs.
module _ {S : Type 0} (μ : S → ℕ) (fn : S → Result (Unit {0}) × S)
    (grows : (s : S) → μ (fn s).1 ≤ μ s + 1) where
  again-grows :
      (n : ℕ) (s : S) (x y : Result (Unit {0}) × S) (b : Bool)
      → μ x.1 ≤ μ s + 1
      → μ y.1 ≤ μ x.1 + (n + 1)
      → μ (if b then y else x).1 ≤ μ s + (suc n + 1)
  again-grows n s x y true h k = omega (arith, h, k)
  again-grows n s x y false h k = omega (arith, h)

  attempts-grows : (n : ℕ) (s : S) → μ (attempts n fn s).1 ≤ μ s + (n + 1)
  unfolding attempts
  attempts-grows zero s = grows s
  attempts-grows (suc n) s =
      again-grows n s (fn s) (attempts n fn (fn s).1) (is_conflict_result (fn s).0) (grows s)
        (attempts-grows n (fn s).1)

module _ {W : World} {Obj : Type 0} (k : Kind W Obj) (st : Status) where
  abbrev sent : Obj × Sys W → ℕ
  sent x = length x.1.calls

  settle-sent : (cr : Obj) (r : Result Obj) (s : Sys W) → (settle k cr (r, s)).1.1.calls ≡ s.calls
  unfolding settle
  settle-sent cr (ok stored) s = refl
  settle-sent cr (err e) s = refl
  settle-sent cr panic s = refl

  write_fresh-sent :
      (cr : Obj) (r : Result Obj) (s : Sys W)
      → sent (write_fresh k st cr (r, s)).1 ≤ length s.calls + 1
  unfolding write_fresh send
  write_fresh-sent cr (ok fresh) s = rw (settle-sent (k.with_status st fresh) _ _) (omega arith)
  write_fresh-sent cr (err e) s = omega arith
  write_fresh-sent cr panic s = omega arith

  write_status-sent : (x : Obj × Sys W) → sent (write_status k st x).1 ≤ sent x + 1
  unfolding write_status
  write_status-sent (cr, s) =
      let reply = k.resource.get (k.key cr) s.world in
      write_fresh-sent cr reply.0 (record s { world = reply.1 })

module _ {W : World} (R : RetriesOnConflict W) {Obj : Type 0} (k : Kind W Obj) where
  -- `update` comes to an end also where every write meets a conflict: it sends five calls at most.
  pub length-update : (cr : Obj) (s : Sys W) → length (update k cr s).1.calls ≤ length s.calls + 5
  unfolding update
  length-update cr s = rw (R.retries _ (write_status k (k.status cr)) (cr, s)) (
      attempts-grows (sent k (k.status cr)) (write_status k (k.status cr))
        (write_status-sent k (k.status cr)) 4 (cr, s))
