-- ===== src/Status/Store.antt =====
-- The status handlers against the store that they stand for: a table of the statuses by the keys of
-- the resources.
use argora.Base.{
  ℕ, zero, suc, ◌≡◌, refl, ◌∙◌, Bool, true, ◌&&◌, Option, some, str_eq, if◌then◌else◌, inl, inr,
  Bool-cases,
}
use argora.Errors.{Error, Result, ok, err, panic, is_conflict}
use argora.Api.{Status}
use argora.Models.Kubernetes.{ObjectKey}
use argora.World.{World}
use argora.World.Documented.{attempts, is_conflict_result, RetriesOnConflict}
use argora.Effect.{Sys, send}
use argora.Status.{Kind, settle, write_fresh, write_status, update}

abbrev pub same_key : ObjectKey → ObjectKey → Bool
same_key a b = str_eq a.namespace b.namespace && str_eq a.name b.name

abbrev pub StatusStore : Type 0
StatusStore = ObjectKey → Option Status

-- The one operation of the store
abbrev pub put_status : ObjectKey → Status → StatusStore → StatusStore
put_status key st store = λ j. if same_key key j then some st else store j

-- The documented behaviour of the API server while nobody else writes: `Get` returns an object with the
-- key and changes no status; `Status().Update` replaces the status of that object and no other, and
-- changes nothing if it ends in a conflict.
pub record StoresStatus {W : World} {Obj : Type 0} (k : Kind W Obj) : Type 0 where
  pub view : W.State → StatusStore
  pub get_keeps :
      (key : ObjectKey) (w : W.State) (j : ObjectKey) → view (k.resource.get key w).1 j ≡ view w j
  pub get_finds :
      (key : ObjectKey) (w : W.State) (o : Obj) → (k.resource.get key w).0 ≡ ok o → k.key o ≡ key
  pub update_puts :
      (o stored : Obj) (w : W.State) (j : ObjectKey)
      → (k.resource.update_status o w).0 ≡ ok stored
      → view (k.resource.update_status o w).1 j ≡ put_status (k.key o) (k.status o) (view w) j
  pub conflict_keeps :
      (o : Obj) (e : Error) (w : W.State) (j : ObjectKey)
      → (k.resource.update_status o w).0 ≡ err e
      → is_conflict e ≡ true
      → view (k.resource.update_status o w).1 j ≡ view w j

-- A resource with a new status has that status, and its old key.
pub record IsLawful {W : World} {Obj : Type 0} (k : Kind W Obj) : Type 0 where
  pub status_of : (st : Status) (o : Obj) → k.status (k.with_status st o) ≡ st
  pub key_of : (st : Status) (o : Obj) → k.key (k.with_status st o) ≡ k.key o

module _ {W : World} {Obj : Type 0} (k : Kind W Obj) (L : IsLawful k) (D : StoresStatus k)
    (st : Status) (key j : ObjectKey) (old : Option Status) where
  -- What holds after an attempt: a success has put the status, and a conflict leaves the table and the
  -- key for the next attempt.
  abbrev Put : Result (Unit {0}) → Obj × Sys W → Type 0
  Put (ok u) x = D.view x.1.world j ≡ (if same_key key j then some st else old)
  Put (err e) x = is_conflict e ≡ true → (D.view x.1.world j ≡ old) × (k.key x.0 ≡ key)
  Put panic x = Unit

  settle-Put :
      (o : Obj) (w : W.State) (s : Sys W) (r : Result Obj)
      → k.key o ≡ key
      → k.status o ≡ st
      → D.view w j ≡ old
      → (k.resource.update_status o w).0 ≡ r
      → s.world ≡ (k.resource.update_status o w).1
      → Put (settle k o (r, s)).0 (settle k o (r, s)).1
  unfolding settle
  settle-Put o w s (ok stored) hk hs hv hr hw =
      rw hw (D.update_puts o stored w j hr ∙ rw (hk, hs, hv) refl)
  settle-Put o w s (err e) hk hs hv hr hw =
      λ conflict. (rw hw (D.conflict_keeps o e w j hr conflict ∙ hv), hk)
  settle-Put o w s panic hk hs hv hr hw = tt

  write_fresh-Put :
      (cr : Obj) (s : Sys W) (r : Result Obj)
      → k.key cr ≡ key
      → D.view s.world j ≡ old
      → ((o : Obj) → r ≡ ok o → k.key o ≡ key)
      → Put (write_fresh k st cr (r, s)).0 (write_fresh k st cr (r, s)).1
  unfolding write_fresh send
  write_fresh-Put cr s (ok fresh) hk hv found =
      settle-Put (k.with_status st fresh) s.world _ _ (L.key_of st fresh ∙ found fresh refl)
        (L.status_of st fresh) hv refl refl
  write_fresh-Put cr s (err e) hk hv found = λ conflict. (hv, hk)
  write_fresh-Put cr s panic hk hv found = tt

  write_status-Put :
      (x : Obj × Sys W)
      → k.key x.0 ≡ key
      → D.view x.1.world j ≡ old
      → Put (write_status k st x).0 (write_status k st x).1
  unfolding write_status
  write_status-Put (cr, s) hk hv =
      let reply = k.resource.get (k.key cr) s.world in
      write_fresh-Put cr (record s { world = reply.1 }) reply.0 hk
        (D.get_keeps (k.key cr) s.world j ∙ hv) (λ o h. D.get_finds (k.key cr) s.world o h ∙ hk)

  again-Put :
      (n : ℕ) (r : Result (Unit {0})) (x : Obj × Sys W)
      → Put r x
      → ((y : Obj × Sys W)
          → k.key y.0 ≡ key
          → D.view y.1.world j ≡ old
          → Put (attempts n (write_status k st) y).0 (attempts n (write_status k st) y).1)
      → Put
          (if is_conflict_result r then attempts n (write_status k st) x else (r, x)).0
          (if is_conflict_result r then attempts n (write_status k st) x else (r, x)).1
  again-Put n (ok u) x h next = h
  again-Put n (err e) x h next = elim (Bool-cases (is_conflict e)) [
    | inl met ↦ rw met (next x (h met).1 (h met).0)
    | inr other ↦ rw other h
  ]
  again-Put n panic x h next = h

  attempts-Put :
      (n : ℕ) (x : Obj × Sys W)
      → k.key x.0 ≡ key
      → D.view x.1.world j ≡ old
      → Put (attempts n (write_status k st) x).0 (attempts n (write_status k st) x).1
  unfolding attempts
  attempts-Put zero x hk hv = write_status-Put x hk hv
  attempts-Put (suc n) x hk hv =
      again-Put n (write_status k st x).0 (write_status k st x).1 (write_status-Put x hk hv)
        (attempts-Put n)

  success-Put :
      (r : Result (Unit {0})) (x : Obj × Sys W)
      → Put r x
      → r ≡ ok tt
      → D.view x.1.world j ≡ (if same_key key j then some st else old)
  success-Put (ok u) x h k = h
  success-Put (err e) x h k = absurd cc
  success-Put panic x h k = absurd cc

module _ {W : World} (R : RetriesOnConflict W) {Obj : Type 0} (k : Kind W Obj) (L : IsLawful k)
    (D : StoresStatus k) where
  -- `update` implements the one operation of the table of statuses: while nobody else writes, a
  -- successful run, after however many conflicts, leaves the table in which the key of the caller's
  -- object has the status that the object had, and every other key has what it had.
  pub update-put_status :
      (cr : Obj) (s : Sys W) (j : ObjectKey)
      → (update k cr s).0 ≡ ok tt
      → D.view (update k cr s).1.world j ≡ put_status (k.key cr) (k.status cr) (D.view s.world) j
  unfolding update
  update-put_status cr s j succeeds =
      let retries = R.retries _ (write_status k (k.status cr)) (cr, s) in
      rw retries (
        success-Put k L D (k.status cr) (k.key cr) j (D.view s.world j) _ _
          (attempts-Put k L D (k.status cr) (k.key cr) j (D.view s.world j) 4 (cr, s) refl refl)
          (rw retries at succeeds))
