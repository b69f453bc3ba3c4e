-- ===== src/Status/Updating.antt =====
-- What a handler has written when its update returns, whatever other writers did in between.
use argora.Base.{
  ℕ, zero, suc, ◌+◌, ◌≤◌, true, List, [], ◌∷◌, length, ◌≡◌, refl, Bool-cases, inl, inr,
}
use argora.Errors.{Result, ok, err, panic}
use argora.Api.{Status}
use argora.World.{World}
use argora.World.Documented.{attempts, is_conflict_result, RetriesOnConflict}
use argora.Effect.{Call, Sys, ask, send}
use argora.Effect.Emits.{Extends, same, more}
use argora.Status.{Kind, settle, write_fresh, write_status, update}
use argora.Status.Bounded.{length-update}

module _ {W : World} {Obj : Type 0} (k : Kind W Obj) (st : Status) where
  -- What the variable of the caller holds from attempt to attempt: the caller's object at first, and
  -- then one that was fetched for the key of what it held, with `st` as its status.
  pub data Held (cr : Obj) : Obj → Type 0 where
    at_first : Held cr cr
    fetched :
        (o fresh : Obj) (s : Sys W)
        → Held cr o
        → (ask {W = W} (k.resource.get (k.key o)) s).0 ≡ ok fresh
        → Held cr (k.with_status st fresh)

  -- The call writes `st` into an object that `Get` has returned for the key of what the variable
  -- held, when `sent` were the calls before: no write came in between.
  pub record WritesFresh (cr : Obj) (sent : List Call) (c : Call) : Type 0 where
    pub variable : Obj
    pub fresh : Obj
    pub at_fetch : Sys W
    pub held : Held cr variable
    pub sent_before : at_fetch.calls ≡ sent
    pub is_fetched : (ask {W = W} (k.resource.get (k.key variable)) at_fetch).0 ≡ ok fresh
    pub is_write : c ≡ k.status_call (k.with_status st fresh)

  -- The calls are the ones before and such writes.
  pub data Rewrites (cr : Obj) (before : List Call) : List Call → Type 0 where
    nothing : Rewrites cr before before
    write :
        {c : Call} {cs : List Call}
        → WritesFresh cr cs c
        → Rewrites cr before cs
        → Rewrites cr before (c ∷ cs)

  -- The last call is such a write.
  abbrev pub LastRewrites : Obj → List Call → Type 0
  LastRewrites cr [] = ⊥
  LastRewrites cr (c ∷ cs) = WritesFresh cr cs c

  -- A call that writes `st` to some object of the kind.
  abbrev pub Writes : Call → Type 0
  Writes c = (o : Obj) × (c ≡ k.status_call (k.with_status st o))

  -- The last call writes `st`.
  abbrev pub LastWrites : List Call → Type 0
  LastWrites [] = ⊥
  LastWrites (c ∷ cs) = Writes c

  pub Rewrites-Writes :
      {cr : Obj} {before cs : List Call} → Rewrites cr before cs → Extends Writes before cs
  Rewrites-Writes nothing = same
  Rewrites-Writes (write w h) = more (w.fresh, w.is_write) (Rewrites-Writes h)

  pub LastRewrites-LastWrites : (cr : Obj) (cs : List Call) → LastRewrites cr cs → LastWrites cs
  LastRewrites-LastWrites cr [] h = h
  LastRewrites-LastWrites cr (c ∷ cs) h = (h.fresh, h.is_write)

  -- After some attempts
  record Wrote (cr : Obj) (before : List Call) (x : Result (Unit {0}) × (Obj × Sys W))
      : Type 0 where
    pub rewrites : Rewrites cr before x.1.1.calls
    pub last : x.0 ≡ ok tt → LastRewrites cr x.1.1.calls
    pub held : is_conflict_result x.0 ≡ true → Held cr x.1.0

  module _ (cr : Obj) (before : List Call) where
    settle-Wrote :
        (o : Obj) (r : Result Obj) (s : Sys W)
        → Held cr o
        → Rewrites cr before s.calls
        → LastRewrites cr s.calls
        → Wrote cr before (settle k o (r, s))
    unfolding settle
    settle-Wrote o (ok stored) s h w l = record {
      rewrites = w;
      last = λ _. l;
      held = λ conflict. absurd cc;
    }
    settle-Wrote o (err e) s h w l = record { rewrites = w; last = λ _. l; held = λ _. h }
    settle-Wrote o panic s h w l = record { rewrites = w; last = λ _. l; held = λ _. h }

    write_fresh-Wrote :
        (o : Obj) (at_fetch s : Sys W) (r : Result Obj)
        → Held cr o
        → Rewrites cr before s.calls
        → at_fetch.calls ≡ s.calls
        → (ask {W = W} (k.resource.get (k.key o)) at_fetch).0 ≡ r
        → Wrote cr before (write_fresh k st o (r, s))
    unfolding write_fresh send
    write_fresh-Wrote o at_fetch s (ok fresh) h w same_calls got =
        let writes : WritesFresh cr s.calls (k.status_call (k.with_status st fresh)) = record {
          variable = o;
          fresh = fresh;
          at_fetch = at_fetch;
          held = h;
          sent_before = same_calls;
          is_fetched = got;
          is_write = refl;
        } in
        settle-Wrote (k.with_status st fresh) _ _ (fetched o fresh at_fetch h got) (write writes w)
          writes
    write_fresh-Wrote o at_fetch s (err e) h w same_calls got = record {
      rewrites = w;
      last = λ eq. absurd cc;
      held = λ _. h;
    }
    write_fresh-Wrote o at_fetch s panic h w same_calls got = record {
      rewrites = w;
      last = λ eq. absurd cc;
      held = λ _. h;
    }

    write_status-Wrote :
        (o : Obj) (s : Sys W)
        → Held cr o
        → Rewrites cr before s.calls
        → Wrote cr before (write_status k st (o, s))
    unfolding write_status ask
    write_status-Wrote o s h w =
        let reply = k.resource.get (k.key o) s.world in
        write_fresh-Wrote o s (record s { world = reply.1 }) reply.0 h w refl refl

    attempts-Wrote :
        (n : ℕ) (o : Obj) (s : Sys W)
        → Held cr o
        → Rewrites cr before s.calls
        → Wrote cr before (attempts n (write_status k st) (o, s))
    unfolding attempts
    attempts-Wrote zero o s h w = write_status-Wrote o s h w
    attempts-Wrote (suc n) o s h w =
        let first = write_status k st (o, s) in
        let wrote = write_status-Wrote o s h w in
        elim (Bool-cases (is_conflict_result first.0)) [
          | inl conflict ↦
              rw conflict
                (attempts-Wrote n first.1.0 first.1.1 (wrote.held conflict) wrote.rewrites)
          | inr settled ↦ rw settled wrote
        ]

-- What an update by the handler has sent: at most five such writes, and the last one if it succeeds.
pub record Updated {W : World} {Obj : Type 0} (k : Kind W Obj) (cr : Obj) (s : Sys W)
    (x : Result (Unit {0}) × Sys W) : Type 0 where
  pub rewrites : Rewrites k (k.status cr) cr s.calls x.1.calls
  pub last : x.0 ≡ ok tt → LastRewrites k (k.status cr) cr x.1.calls
  pub bounded : length x.1.calls ≤ length s.calls + 5

-- The writes, whatever the objects are
pub record Written {W : World} {Obj : Type 0} (k : Kind W Obj) (st : Status) (s : Sys W)
    (x : Result (Unit {0}) × Sys W) : Type 0 where
  pub writes : Extends (Writes k st) s.calls x.1.calls
  pub last : x.0 ≡ ok tt → LastWrites k st x.1.calls

module _ {W : World} (R : RetriesOnConflict W) {Obj : Type 0} (k : Kind W Obj) where
  pub update-Updated : (cr : Obj) (s : Sys W) → Updated k cr s (update k cr s)
  unfolding update
  update-Updated cr s =
      let wrote = attempts-Wrote k (k.status cr) cr s.calls 4 cr s at_first nothing in
      record {
        rewrites = rw (R.retries _ (write_status k (k.status cr)) (cr, s)) wrote.rewrites;
        last = rw (R.retries _ (write_status k (k.status cr)) (cr, s)) wrote.last;
        bounded = length-update R k cr s;
      }

  pub update-Written : (cr : Obj) (s : Sys W) → Written k (k.status cr) s (update k cr s)
  update-Written cr s =
      let updated = update-Updated cr s in
      record {
        writes = Rewrites-Writes k (k.status cr) updated.rewrites;
        last = λ h. LastRewrites-LastWrites k (k.status cr) cr _ (updated.last h);
      }
