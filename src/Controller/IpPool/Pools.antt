-- ===== src/Controller/IpPool/Pools.antt =====
-- Which pools `reconcileIPPool` creates.
use argora.Base.{
  String, ◌≡◌, refl, Option, none, some, List, [], ◌∷◌, ◌++◌, ◌<>◌, false, map, ℤ, pos, leb_ℤ,
}
use argora.Go.Netip.{Addr, NetPrefix, parse_prefix, addr_string, next}
use argora.Go.Strconv.{itoa_int}
use argora.Errors.{ok}
use argora.Models.Netbox.{Prefix}
use argora.Models.Kubernetes.{GlobalInClusterIpPool}
use argora.Api.{IpPoolSelector}
use argora.World.{World}
use argora.Effect.{Call, create_ip_pool, lift}
use argora.Effect.Emits.{
  Emits, Emits-lift, Emits-ask, Emits-pure, Emits-send, Emits-bind, Emits-on_result,
  Emits-wrap_error, emits_rules,
}
use argora.Effect.Returns.{
  Returns, Returns-pure, Returns-if, Returns-lift, Returns-require, Returns-bind,
  Returns-wrap_error, Emits-bind-Returns,
}
use argora.Controller.IpPool.Addresses.{get_last_n_ips}
use argora.Controller.IpPool.Naming.{generate_ip_pool_name}
use argora.Controller.IpPool.{
  NetGateway, bits_of, generate_net_gateway_ip, excluded_by_mask, excluded_last, new_ip_pool,
  reconcile_ip_pool,
}

-- The network is the address of the prefix, the gateway is the one after it, and the mask is the
-- prefix's.
pub record IsGatewayOf (W : World) (prefix : Prefix) (g : NetGateway) : Type 0 where
  pub parsed : NetPrefix
  pub parses : parse_prefix W.parse_ipv6 prefix.prefix ≡ some parsed
  pub net : g.net ≡ addr_string W.print_ipv6 parsed.addr
  pub gateway : g.gateway ≡ addr_string W.print_ipv6 (next parsed.addr)
  pub mask : g.mask ≡ bits_of parsed.bits

-- With `excludeMask`, which is longer than the mask, the network of that length is excluded.
abbrev pub ExcludesMask : NetGateway → Option ℤ → List String → Type 0
ExcludesMask g none by_mask = by_mask ≡ []
ExcludesMask g (some m) by_mask =
    (leb_ℤ m (pos g.mask) ≡ false) × (by_mask ≡ (g.net <> "/" <> itoa_int m) ∷ [])

-- With `excludeLastNAddresses`, the last addresses of the prefix are excluded.
abbrev pub ExcludesLast : World → Prefix → Option ℤ → List String → Type 0
ExcludesLast W prefix none last = last ≡ []
ExcludesLast W prefix (some n) last =
    (p : NetPrefix) × (ips : List Addr) × (parse_prefix W.parse_ipv6 prefix.prefix ≡ some p)
    × (get_last_n_ips p n ≡ ok ips)
    × (last ≡ map (addr_string W.print_ipv6) ips)

-- The pool that the selector asks for, for the prefix.
pub record IsPoolOf (W : World) (selector : IpPoolSelector) (prefix : Prefix)
    (pool : GlobalInClusterIpPool) : Type 0 where
  pub name : generate_ip_pool_name selector prefix ≡ ok pool.meta.name
  pub addresses : pool.addresses ≡ prefix.prefix ∷ []
  pub net_gateway : NetGateway
  pub is_gateway : IsGatewayOf W prefix net_gateway
  pub gateway : pool.gateway ≡ net_gateway.gateway
  pub mask : pool.prefix ≡ pos net_gateway.mask
  pub by_mask : List String
  pub last : List String
  pub excludes_mask : ExcludesMask net_gateway selector.exclude_mask by_mask
  pub excludes_last : ExcludesLast W prefix selector.exclude_last_n_addresses last
  pub excluded : pool.excluded_addresses ≡ (by_mask ++ selector.excluded_addresses) ++ last

module _ {W : World} (selector : IpPoolSelector) (prefix : Prefix) where
  pub generate_net_gateway_ip-IsGatewayOf :
      Returns {W = W} (IsGatewayOf W prefix) (generate_net_gateway_ip prefix)
  unfolding generate_net_gateway_ip
  generate_net_gateway_ip-IsGatewayOf = Returns-bind _ _ (Returns-require _ _) (λ p parses.
      Returns-pure _
        (record { parsed = p; parses = parses; net = refl; gateway = refl; mask = refl }))

  excluded_by_mask-ExcludesMask :
      (m : Option ℤ) (g : NetGateway)
      → Returns {W = W} (ExcludesMask g m) (excluded_by_mask m g prefix)
  unfolding excluded_by_mask lift
  excluded_by_mask-ExcludesMask none g = Returns-pure [] refl
  excluded_by_mask-ExcludesMask (some m) g =
      Returns-if (leb_ℤ m (pos g.mask)) _ _ (λ short. record { at = λ s a h. absurd cc })
        (λ longer. Returns-pure _ (longer, refl))

  excluded_last-ExcludesLast :
      (n : Option ℤ) → Returns {W = W} (ExcludesLast W prefix n) (excluded_last n prefix)
  unfolding excluded_last
  excluded_last-ExcludesLast none = Returns-pure [] refl
  excluded_last-ExcludesLast (some n) = Returns-bind _ _ (Returns-require _ _) (λ p parses.
      Returns-bind _ _ (Returns-lift _)
        (λ ips are_last. Returns-pure _ (p, ips, parses, are_last, refl)))

  pub new_ip_pool-IsPoolOf :
      (name : String) (g : NetGateway)
      → generate_ip_pool_name selector prefix ≡ ok name
      → IsGatewayOf W prefix g
      → Returns {W = W} (IsPoolOf W selector prefix) (new_ip_pool name selector prefix g)
  unfolding new_ip_pool
  new_ip_pool-IsPoolOf name g named is_gateway =
      Returns-bind _ _ (excluded_by_mask-ExcludesMask selector.exclude_mask g)
        (λ by_mask excludes_mask.
          Returns-bind _ _ (excluded_last-ExcludesLast selector.exclude_last_n_addresses)
            (λ last excludes_last. Returns-pure _ (record {
              name = named;
              addresses = refl;
              net_gateway = g;
              is_gateway = is_gateway;
              gateway = refl;
              mask = refl;
              by_mask = by_mask;
              last = last;
              excludes_mask = excludes_mask;
              excludes_last = excludes_last;
              excluded = refl;
            })))

  module _ {P : Call → Type 0} where
    pub generate_net_gateway_ip-Emits : Emits {W = W} P (generate_net_gateway_ip prefix)
    unfolding generate_net_gateway_ip
    generate_net_gateway_ip-Emits = search emits_rules depth 9

    excluded_by_mask-Emits :
        (m : Option _) (g : NetGateway) → Emits {W = W} P (excluded_by_mask m g prefix)
    unfolding excluded_by_mask
    excluded_by_mask-Emits none g = Emits-pure []
    excluded_by_mask-Emits (some m) g = search emits_rules depth 9

    excluded_last-Emits : (n : Option _) → Emits {W = W} P (excluded_last n prefix)
    unfolding excluded_last
    excluded_last-Emits none = Emits-pure []
    excluded_last-Emits (some n) = search emits_rules depth 9

    pub new_ip_pool-Emits :
        (name : String) (g : NetGateway) → Emits {W = W} P (new_ip_pool name selector prefix g)
    unfolding new_ip_pool
    new_ip_pool-Emits name g =
        search (emits_rules, excluded_by_mask-Emits, excluded_last-Emits) depth 9

-- The call creates the pool that the selector asks for.
abbrev pub CreatesPool : World → IpPoolSelector → Prefix → Call → Type 0
CreatesPool W selector prefix c =
    (pool : GlobalInClusterIpPool) × (c ≡ create_ip_pool pool) × IsPoolOf W selector prefix pool

module _ {W : World} (selector : IpPoolSelector) (prefix : Prefix) where
  -- `reconcileIPPool` sends no call but the creation of a pool that has the generated name, the prefix
  -- as its only range, the prefix's mask, and the address after the prefix's as its gateway; it excludes
  -- the network of the prefix with the length of `excludeMask`, which is longer than the mask, then the
  -- excluded addresses of the selector, then the last addresses that `excludeLastNAddresses` counts.
  pub reconcile_ip_pool-CreatesPool :
      Emits {W = W} (CreatesPool W selector prefix) (reconcile_ip_pool selector prefix)
  unfolding reconcile_ip_pool
  reconcile_ip_pool-CreatesPool =
      Emits-bind-Returns _ _ (Emits-wrap_error _ _ (Emits-lift _))
        (Returns-wrap_error _ _ (Returns-lift _))
        (λ name named.
          Emits-bind-Returns _ _
            (Emits-wrap_error _ _ (generate_net_gateway_ip-Emits selector prefix))
            (Returns-wrap_error _ _ (generate_net_gateway_ip-IsGatewayOf selector prefix))
            (λ g is_gateway.
              Emits-on_result _ _ _ (Emits-ask _) (λ pool. Emits-pure tt)
                (λ e.
                  Emits-bind-Returns _ _ (new_ip_pool-Emits selector prefix name g)
                    (new_ip_pool-IsPoolOf selector prefix name g named is_gateway)
                    (λ pool is_pool.
                      Emits-bind _ _ (Emits-send _ _ (pool, refl, is_pool)) (λ _. Emits-pure tt)))))
