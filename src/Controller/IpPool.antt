-- ===== src/Controller/IpPool.antt =====
-- internal/controller/ippoolimport_controller.go: `IPPoolImportReconciler`, which makes one pool of
-- addresses for each NetBox prefix that an `IPPoolImport` resource selects.
pub mod Naming
pub mod Addresses
pub mod Pools
pub mod Finished
pub mod Whole
pub mod Completed
use argora.Base.{
  ℕ, zero, suc, ◌-◌, String, ◌<>◌, Bool, ◌&&◌, Option, none, some, List, [], ◌∷◌, ◌++◌, map, ◌*◌,
  ◌+◌, ◌^◌, ◌/◌, ◌%◌, str_eq, if◌then◌else◌, ℤ, pos, negsuc, leb_ℤ,
}
use Prim.Native.Nat.{bit_or}
use Prim.Native.String
use argora.Go.Strings.{codes, contains_text, trim_prefix, to_lower}
use argora.Go.Strconv.{itoa, itoa_int, atoi_codes}
use argora.Go.Netip.{
  Addr, NetPrefix, Bytes4, invalid, addr_from4, as4, masked, next, prev, contains_addr,
  parse_prefix, addr_string,
}
use argora.Go.Regexp.{find_compute}
use argora.Errors.{Error, text, wrapped, Result, ok, err, panic}
use argora.Models.Netbox.{Prefix}
use argora.Models.Kubernetes.{ObjectKey, object_meta, GlobalInClusterIpPool}
use argora.Api.{IpPoolSelector, IpPoolImport}
use argora.Api.Conditions.{ip_pool_import_succeeded, ip_pool_import_failed}
use argora.World.{World}
use argora.Effect.{
  create_ip_pool, Action, pure, lift, ask, send, gets, guard, on_result, require, wrap_error,
  for_each, ◌>>=◌, ◌>>◌,
}
use Naming.{generate_ip_pool_name}
use Addresses.{get_last_n_ips}
use argora.Netbox.Clients
use argora.Netbox.Ipam
use argora.Credentials
use argora.Status.{ip_pool_import_kind, fail_with, succeed}

abbrev parse_error : Error
parse_error = text "netip.ParsePrefix"

-- The three results of `generateNetGatewayIP`
pub record NetGateway : Type 0 where
  pub net : String
  pub gateway : String
  pub mask : ℕ

abbrev pub bits_of : Option ℕ → ℕ
bits_of none = 0
bits_of (some b) = b

module _ {W : World} where
  -- `generateNetGatewayIP`; what `ParsePrefix` returns is valid.
  unfoldable pub generate_net_gateway_ip : Prefix → Action W NetGateway
  generate_net_gateway_ip prefix = do
    p ← require (parse_prefix W.parse_ipv6 prefix.prefix) parse_error
    pure (record {
      net = addr_string W.print_ipv6 p.addr;
      gateway = addr_string W.print_ipv6 (next p.addr);
      mask = bits_of p.bits;
    })

  -- The addresses that `excludeMask` excludes: it must be longer than the mask.
  unfoldable pub excluded_by_mask : Option ℤ → NetGateway → Prefix → Action W (List String)
  excluded_by_mask none g prefix = pure []
  excluded_by_mask (some m) g prefix =
      if leb_ℤ m (pos g.mask)
      then lift (
          err (
            text (
              "excludeMask ("
              <> itoa_int m
              <> ") must be longer than prefix mask ("
              <> itoa g.mask
              <> ") for prefix "
              <> prefix.prefix)))
      else pure ((g.net <> "/" <> itoa_int m) ∷ [])

  -- The addresses that `excludeLastNAddresses` excludes
  unfoldable pub excluded_last : Option ℤ → Prefix → Action W (List String)
  excluded_last none prefix = pure []
  excluded_last (some n) prefix = do
    p ←
        require (parse_prefix W.parse_ipv6 prefix.prefix)
          (wrapped ("unable to parse prefix " <> prefix.prefix <> ": ") parse_error)
    ips ← lift (get_last_n_ips p n)
    pure (map (addr_string W.print_ipv6) ips)

  -- The pool that `reconcileIPPool` creates
  unfoldable pub new_ip_pool :
      String → IpPoolSelector → Prefix → NetGateway → Action W GlobalInClusterIpPool
  new_ip_pool name selector prefix g = do
    by_mask ← excluded_by_mask selector.exclude_mask g prefix
    last ← excluded_last selector.exclude_last_n_addresses prefix
    pure (record {
      meta = object_meta "" name;
      addresses = prefix.prefix ∷ [];
      excluded_addresses = (by_mask ++ selector.excluded_addresses) ++ last;
      gateway = g.gateway;
      prefix = pos g.mask;
    })

  -- `reconcileIPPool`: whatever error `Get` returns, the pool is taken to be missing.
  unfoldable pub reconcile_ip_pool : IpPoolSelector → Prefix → Action W (Unit {0})
  reconcile_ip_pool selector prefix = do
    name ←
        wrap_error ("unable to generate ippool name for prefix " <> prefix.prefix <> ": ")
          (lift (generate_ip_pool_name selector prefix))
    g ←
        wrap_error ("unable to generate gateway IP for prefix " <> prefix.prefix <> ": ")
          (generate_net_gateway_ip prefix)
    on_result (ask {W = W} (W.ip_pools.get (record { namespace = ""; name = name })))
        (λ pool. pure tt)
        (λ e. do
          pool ← new_ip_pool name selector prefix g
          send {W = W} (create_ip_pool pool) (W.ip_pools.create pool)
          pure tt)

  -- `reconcileIPPoolSelection`
  unfoldable pub reconcile_ip_pool_selection : IpPoolImport → IpPoolSelector → Action W (Unit {0})
  reconcile_ip_pool_selection cr selector =
      on_result (Ipam.get_prefixes_by_region_role selector.region selector.role)
        (for_each (λ prefix. on_result (reconcile_ip_pool selector prefix) pure (λ e.
          fail_with (ip_pool_import_kind W) cr ip_pool_import_failed
            (wrapped
              ("unable to reconcile prefix " <> prefix.prefix <> " on ippool "
                <> selector.name_prefix <> ": ")
              e)
            e)))
        (λ e.
          fail_with (ip_pool_import_kind W) cr ip_pool_import_failed
            (wrapped "unable to import prefix: " e) e)

  -- `Reconcile` returns the time after which it is to run again.
  unfoldable pub reconcile : ℕ → ObjectKey → Action W ℕ
  reconcile interval request = do
    cr ← ask {W = W} (W.ip_pool_imports.get request)
    on_result Credentials.reload pure
        (λ e. fail_with (ip_pool_import_kind W) cr ip_pool_import_failed e e)
    credentials ← gets (λ s. s.credentials)
    on_result (Clients.reload credentials.netbox_token) pure
        (λ e. fail_with (ip_pool_import_kind W) cr ip_pool_import_failed e e)
    for_each (reconcile_ip_pool_selection cr) cr.ip_pools
    succeed (ip_pool_import_kind W) cr ip_pool_import_succeeded
    pure interval
