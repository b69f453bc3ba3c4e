-- ===== src/Controller/IpUpdate/Target/Owner.antt =====
-- When `findDeviceName` of internal/controller/ipupdate_controller.go panics.
use argora.Base.{
  String, Bool, true, false, not, ◌≡◌, ◌≢◌, refl, Option, none, some, inl, inr, str_eq, str_eq_iff,
  Bool-cases, ◌↔◌, arith,
}
use argora.Errors.{Error, wrapped, Result, ok, err, panic}
use argora.Models.Kubernetes.{ObjectKey, IpAddress, IpAddressClaim, ServerClaim, Server}
use argora.World.{World}
use argora.Effect.{
  Sys, Action, pure, raise, crash, ask, guard, require, wrap_error, on_result, branch, ◌>>=◌,
}
use argora.Controller.IpUpdate.Selection.{get_owner_by_kind}
use argora.Controller.IpUpdate.Target.{deref, find_device_name}

-- `Get` of the cluster returns an object or an error.
pub record GetsReturn (W : World) : Type 0 where
  pub claims : (key : ObjectKey) (w : W.State) → (W.ip_address_claims.get key w).0 ≢ panic
  pub server_claims : (key : ObjectKey) (w : W.State) → (W.server_claims.get key w).0 ≢ panic
  pub servers : (key : ObjectKey) (w : W.State) → (W.servers.get key w).0 ≢ panic

-- The claim of the address is owned by a claim that is bound to a server, and the server has no
-- `bmcRef`.
pub record LacksBmc (W : World) (namespace : String) (ip : IpAddress) (s : Sys W) : Type 0 where
  pub claim : IpAddressClaim
  pub server_claim : ServerClaim
  pub server_name : String
  pub server : Server
  pub w : W.State
  pub w' : W.State
  pub w'' : W.State
  pub got :
      W.ip_address_claims.get (record { namespace = namespace; name = ip.claim_ref_name }) s.world
      ≡ (ok claim, w)
  pub owned : get_owner_by_kind claim.meta.owner_references "ServerClaim" ≢ ""
  pub claimed :
      W.server_claims.get
        (record {
          namespace = namespace;
          name = get_owner_by_kind claim.meta.owner_references "ServerClaim";
        })
        w
      ≡ (ok server_claim, w')
  pub bound : server_claim.server_ref ≡ some server_name
  pub served :
      W.servers.get (record { namespace = namespace; name = server_name }) w' ≡ (ok server, w'')
  pub missing : server.bmc_ref ≡ none

module _ {W : World} {A B : Type 0} (f : A → Action W B) (s : Sys W) where
  reply_panics :
      (t : String) (r : Result A) (w : W.State)
      → r ≢ panic
      → (branch
          (branch r pure (λ e. raise (wrapped t e)) (record s { world = w })).0
          f
          raise
          (branch r pure (λ e. raise (wrapped t e)) (record s { world = w })).1).0
        ≡ panic
      → (a : A) × (r ≡ ok a) × ((f a (record s { world = w })).0 ≡ panic)
  unfolding pure raise
  reply_panics t (ok a) w returns h = (a, refl, h)
  reply_panics t (err e) w returns h = absurd cc
  reply_panics t panic w returns h = absurd (returns refl)

  -- After a lookup that returns, only the rest can panic, with what was found.
  asked_panics :
      (t : String) (get : W.State → Result A × W.State)
      → (get s.world).0 ≢ panic
      → ((wrap_error t (ask {W = W} get) >>= f) s).0 ≡ panic
      → (a : A) × (get s.world ≡ (ok a, (get s.world).1))
        × ((f a (record s { world = (get s.world).1 })).0 ≡ panic)
  unfolding wrap_error ask ◌>>=◌ on_result
  asked_panics t get returns h =
      let (a, found, later) = reply_panics t (get s.world).0 (get s.world).1 returns h in
      (a, (λ i. (found i, (get s.world).1)), later)

  required_panics :
      (o : Option A) (e : Error)
      → ((require o e >>= f) s).0 ≡ panic
      → (a : A) × (o ≡ some a) × ((f a s).0 ≡ panic)
  unfolding require ◌>>=◌ on_result pure raise
  required_panics none e h = absurd cc
  required_panics (some a) e h = (a, refl, h)

module _ {W : World} {B : Type 0} (s : Sys W) where
  guarded_panics :
      (b : Bool) (e : Error) (k : Action W B)
      → ((guard b e >>= λ _. k) s).0 ≡ panic
      → (b ≡ true) × ((k s).0 ≡ panic)
  unfolding guard ◌>>=◌ on_result pure raise
  guarded_panics true e k h = (refl, h)
  guarded_panics false e k h = absurd cc

-- The last steps: only a missing reference panics.
named_panics :
    {W : World} (s : Sys W) (o : Option String) (e : String → Error)
    → ((deref {W = W} o >>= λ name. guard (not (str_eq name "")) (e name) >>= λ _. pure name) s).0
      ≡ panic
    → o ≡ none
unfolding deref crash guard ◌>>=◌ on_result pure raise
named_panics s none e h = refl
named_panics s (some name) e h = elim (Bool-cases (str_eq name "")) [
  | inl empty ↦ absurd (ground (arith, empty, h))
  | inr named ↦ absurd (ground (arith, named, h))
]

module _ {W : World} (namespace : String) (ip : IpAddress) (s : Sys W) where
  LacksBmc-panics : LacksBmc W namespace ip s → (find_device_name namespace ip s).0 ≡ panic
  unfolding find_device_name ◌>>=◌ wrap_error ask guard require on_result raise pure crash deref
  LacksBmc-panics h =
      let record {
        claim = claim;
        server_claim = _;
        server_name = _;
        server = _;
        w = _;
        w' = _;
        w'' = _;
        got = got;
        owned = owned;
        claimed = claimed;
        bound = bound;
        served = served;
        missing = missing;
      } =
        h in
      ground (arith, str_eq_iff (get_owner_by_kind claim.meta.owner_references "ServerClaim") "")

  panics-LacksBmc :
      GetsReturn W → (find_device_name namespace ip s).0 ≡ panic → LacksBmc W namespace ip s
  unfolding find_device_name
  panics-LacksBmc R h =
      let (claim, got, h1) = asked_panics _ s _ _ (R.claims _ _) h in
      let owner = get_owner_by_kind claim.meta.owner_references "ServerClaim" in
      let (owned, h2) = guarded_panics _ _ _ _ h1 in
      let (server_claim, claimed, h3) = asked_panics _ _ _ _ (R.server_claims _ _) h2 in
      let (server_name, bound, h4) = required_panics _ _ _ _ h3 in
      let (server, served, h5) = asked_panics _ _ _ _ (R.servers _ _) h4 in
      record {
        claim = claim;
        server_claim = server_claim;
        server_name = server_name;
        server = server;
        w = _;
        w' = _;
        w'' = _;
        got = got;
        owned = ground (arith, str_eq_iff owner "");
        claimed = claimed;
        bound = bound;
        served = served;
        missing = named_panics _ server.bmc_ref _ h5;
      }

  -- Where the lookups in the cluster return an object or an error, `findDeviceName` panics exactly
  -- for an address whose claim is owned by a claim that is bound to a server without a `bmcRef`, which
  -- the API allows: the reference is read through a `nil` pointer, and no other step panics.
  pub find_device_name-LacksBmc :
      GetsReturn W → ((find_device_name namespace ip s).0 ≡ panic) ↔ LacksBmc W namespace ip s
  find_device_name-LacksBmc R = (panics-LacksBmc R, LacksBmc-panics)
