-- ===== src/Tests/Statuses.antt =====
-- The theorems on the status handlers in the small world of Tests/Sample, and in a world whose cluster
-- holds one update.
use argora.Base.{
  Bool, true, false, ◌≡◌, refl, sym, ap, ◌∙◌, none, some, [], str_eq, str_eq_iff, if◌then◌else◌,
  arith,
}
use argora.Errors.{Error, Result, text, ok, err}
use argora.Models.Kubernetes.{ObjectKey, key_of}
use argora.Api.{Update}
use argora.World.{World, Resource}
use argora.World.Documented.{attempts}
use argora.Effect.{Sys}
use argora.Status
use argora.Status.{update_kind}
use argora.Status.Store.{
  StatusStore, same_key, put_status, StoresStatus, IsLawful, update-put_status,
}
use argora.Tests.Sample.{update, answering, start}

abbrev got : Bool → Update → Result Update × Update
got true held = (ok held, held)
got false held = (err (text "not found"), held)

abbrev stored : Bool → Update → Update → Result Update × Update
stored true o held = (ok o, record held { status = o.status })
stored false o held = (err (text "not found"), held)

-- The cluster holds the update `held`.
abbrev holding : Resource Update Update
holding = record {
  get = λ key held. got (same_key (key_of held.meta) key) held;
  create = λ o held. (ok o, held);
  patch = λ base o held. (ok o, held);
  update_status = λ o held. stored (same_key (key_of held.meta) (key_of o.meta)) o held;
}

abbrev store : World
store = answering Update (λ held. held) holding

same_key-path : (a b : ObjectKey) → same_key a b ≡ true → a ≡ b
same_key-path a b h =
    let p : a.namespace ≡ b.namespace =
      (str_eq_iff a.namespace b.namespace).0 (ground (arith, h)) in
    let q : a.name ≡ b.name = (str_eq_iff a.name b.name).0 (ground (arith, h)) in
    ap (λ n. record { namespace = n; name = a.name }) p
    ∙ ap (λ n. record { namespace = b.namespace; name = n }) q

abbrev view : Update → StatusStore
view held j = if same_key (key_of held.meta) j then some held.status else none

ok-path : (a b : Update) → ok a ≡ ok b → a ≡ b
ok-path a b h = cc

got_key :
    (held o : Update) (key : ObjectKey) (b : Bool)
    → same_key (key_of held.meta) key ≡ b
    → (got b held).0 ≡ ok o
    → key_of o.meta ≡ key
got_key held o key true same h =
    ap (λ u. key_of u.meta) (ok-path o held (sym h)) ∙ same_key-path (key_of held.meta) key same
got_key held o key false same h = absurd cc

got-view : (held : Update) (j : ObjectKey) (b : Bool) → view (got b held).1 j ≡ view held j
got-view held j true = refl
got-view held j false = refl

module _ (o held : Update) (j : ObjectKey) where
  either_way :
      (b c : Bool)
      → b ≡ c
      → (if b then some o.status else none)
        ≡ (if c then some o.status else (if b then some held.status else none))
  either_way true true h = refl
  either_way true false h = absurd cc
  either_way false true h = absurd cc
  either_way false false h = refl

  put_lem :
      (b : Bool) (p : Update)
      → same_key (key_of held.meta) (key_of o.meta) ≡ b
      → (stored b o held).0 ≡ ok p
      → view (stored b o held).1 j ≡ put_status (key_of o.meta) o.status (view held) j
  put_lem true p same h =
      either_way (same_key (key_of held.meta) j) (same_key (key_of o.meta) j)
        (ap (λ k. same_key k j) (same_key-path (key_of held.meta) (key_of o.meta) same))
  put_lem false p same h = absurd cc

  refused :
      (b : Bool) (e : Error)
      → (stored b o held).0 ≡ err e
      → view (stored b o held).1 j ≡ view held j
  refused true e h = absurd cc
  refused false e h = refl

stores : StoresStatus (update_kind store)
unfolding update_kind
stores = record {
  view = view;
  get_keeps = λ key held j. got-view held j (same_key (key_of held.meta) key);
  get_finds = λ key held o h. got_key held o key (same_key (key_of held.meta) key) refl h;
  update_puts =
      λ o p held j h. put_lem o held j (same_key (key_of held.meta) (key_of o.meta)) p refl h;
  conflict_keeps =
      λ o e held j h conflict. refused o held j (same_key (key_of held.meta) (key_of o.meta)) e h;
}

lawful : IsLawful (update_kind store)
unfolding update_kind
lawful = record { status_of = λ st o. refl; key_of = λ st o. refl }

abbrev begin : Sys store
begin = record {
  world = update;
  credentials = start.credentials;
  netbox = record {
    netbox_url = "netbox";
    virtualization = none;
    dcim = none;
    ipam = none;
    extras = none;
  };
  calls = [];
}

update-put_status_example :
    stores.view (Status.update (update_kind store) update begin).1.world (key_of update.meta)
    ≡ put_status (key_of update.meta) update.status (stores.view update) (key_of update.meta)
unfolding Status.update attempts Status.write_status update_kind str_eq
update-put_status_example =
    update-put_status (record { retries = λ S fn s. refl }) (update_kind store) lawful stores update
      begin (key_of update.meta) refl
