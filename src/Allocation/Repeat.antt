-- ===== src/Allocation/Repeat.antt =====
-- What `getFreshPeerIpConfig` of internal/app/wireguard/wireguard_peers.go gives once the address that it
-- gave is in use, by `GetUsedIpsPerSubnet` of internal/adapters/database.go.
use awg_portal.Prelude.{
  ℕ, ◌==◌, bytes_eq, bytes_beq_iff, int_eq, Bool, true, false, Bool-cases, some, List, [], ◌∷◌,
  ◌++◌, if◌then◌else◌, ◌≡◌, ◌≢◌, inl, inr, refl, ap, subst, ◌↔◌, sym, ◌∙◌, arith, beq_ℤ_iff,
}
use awg_portal.Errors.{ok, ◌>>=◌, bind-eq-ok}
use awg_portal.Ip.{
  in_subnet, bit_len, Cidr, Addr, no_cidr, contains_cidr, equal_prefix, IpLibraries,
  cidrs_from_string,
}
use awg_portal.Ip.Subnets.{IsPrefix, contains_cidr-IsPrefix}
use awg_portal.Interface.{Interface}
use awg_portal.Database.PeerStore.{
  PeerGorm, get_used_ips_per_subnet, used_ips, subnet_of, per_subnet,
}
use awg_portal.Allocation.{fresh_address, fresh_addresses, get_fresh_peer_ip_config}
use awg_portal.Allocation.Loop.{IsUsed, address, same_addr_iff}
use awg_portal.Allocation.First.{
  IsAllocated, fresh_address-IsAllocated, get_fresh_peer_ip_config-AreAllocated,
}
use mathlib.Core.List.{append_assoc, append-nil}

per_subnet-snoc :
    (subnets known : List Cidr) (m : List (Cidr × Cidr)) (s ip : Cidr)
    → subnet_of subnets ip ≡ ok s
    → per_subnet subnets known ≡ ok m
    → per_subnet subnets (known ++ ip ∷ []) ≡ ok (m ++ (s, ip) ∷ [])
unfolding per_subnet
per_subnet-snoc subnets [] m s ip placed h =
    let e : m ≡ [] = cc in
    rw (placed) (ap (λ (r : List (Cidr × Cidr)). ok (r ++ (s, ip) ∷ [])) (sym e))
per_subnet-snoc subnets (k ∷ known) m s ip placed h =
    let (t, here, rest) = bind-eq-ok (subnet_of subnets k) _ h in
    let (m', more, last) = bind-eq-ok (per_subnet subnets known) _ rest in
    let tail = per_subnet-snoc subnets known m' s ip placed more in
    let e : (t, k) ∷ m' ≡ m = cc in
    rw (here, tail) (ap (λ (r : List (Cidr × Cidr)). ok (r ++ (s, ip) ∷ [])) e)

used_ips-snoc :
    (network s ip : Cidr) (m : List (Cidr × Cidr))
    → used_ips network (m ++ (s, ip) ∷ [])
      ≡ used_ips network m ++ (if equal_prefix s network then ip ∷ [] else [])
unfolding used_ips
used_ips-snoc network s ip [] = ground arith
used_ips-snoc network s ip ((t, k) ∷ m) = ground (arith, used_ips-snoc network s ip m)

IsUsed-snoc : (us : List Cidr) (ip : Cidr) (a : Addr) → ip.addr ≡ some a → IsUsed (us ++ ip ∷ []) a
IsUsed-snoc [] ip a e = inl e
IsUsed-snoc (u ∷ us) ip a e = inr (IsUsed-snoc us ip a e)

module _ (g : PeerGorm) (l : IpLibraries) (i : Interface) (network : Cidr)
    (filled : i.peer_def_network_str ≢ [])
    (parsed : cidrs_from_string l i.peer_def_network_str ≡ ok (network ∷ [])) where
  module _ (d : g.Db) (ifs ps : List Cidr) (has_interfaces : g.scan_interface_addresses d ≡ ok ifs)
      (has_peers : g.scan_peer_addresses d ≡ ok ps) where
    used_per_subnet :
        get_used_ips_per_subnet g d (network ∷ []) ≡ per_subnet (network ∷ []) (ifs ++ ps)
    unfolding get_used_ips_per_subnet
    used_per_subnet = rw (has_peers, has_interfaces)

    fresh_once :
        (m : List (Cidr × Cidr))
        → per_subnet (network ∷ []) (ifs ++ ps) ≡ ok m
        → get_fresh_peer_ip_config g l d i
          ≡ (fresh_address (used_ips network m) network >>= λ ip. ok (ip ∷ []))
    unfolding get_fresh_peer_ip_config fresh_addresses
    fresh_once m e = elim (Bool-cases (i.peer_def_network_str == [])) [
      | inl empty ↦ absurd (filled ((bytes_beq_iff i.peer_def_network_str []).0 empty))
      | inr named ↦ ground (arith, named, parsed, used_per_subnet, e)
    ]

  module _ (d d' : g.Db) (ifs ps : List Cidr) (ip : Cidr)
      (interfaces : g.scan_interface_addresses d ≡ ok ifs) (peers : g.scan_peer_addresses d ≡ ok ps)
      (interfaces' : g.scan_interface_addresses d' ≡ ok ifs)
      (peers' : g.scan_peer_addresses d' ≡ ok (ps ++ ip ∷ [])) (a : Addr) (n : ℕ)
      (is_prefix : IsPrefix a n network)
      (allocated : get_fresh_peer_ip_config g l d i ≡ ok (ip ∷ [])) where
    no_cidr-ne-network : equal_prefix no_cidr network ≡ false
    unfolding equal_prefix
    no_cidr-ne-network = ground (arith, is_prefix.addr)

    network-eq_self : equal_prefix network network ≡ true
    unfolding equal_prefix
    network-eq_self = ground (
      arith,
      (same_addr_iff network.addr network.addr).1 refl,
      (beq_ℤ_iff network.net_length network.net_length).1 refl,
    )

    -- The map of the first allocation.
    first_map : (m : List (Cidr × Cidr)) × (per_subnet (network ∷ []) (ifs ++ ps) ≡ ok m)
    first_map =
        let (networks, m, same, used, all) =
          get_fresh_peer_ip_config-AreAllocated g l d i (ip ∷ []) filled allocated in
        let single : networks ≡ network ∷ [] = cc in
        (
          m,
          sym (used_per_subnet d ifs ps interfaces peers)
              ∙ (ap (get_used_ips_per_subnet g d) (sym single) ∙ used),
        )

    second :
        (s : Cidr)
        → subnet_of (network ∷ []) ip ≡ ok s
        → get_fresh_peer_ip_config g l d' i ≡ (
            fresh_address
              (used_ips network first_map.0 ++ (if equal_prefix s network then ip ∷ [] else []))
              network
            >>= λ c. ok (c ∷ []))
    second s placed =
        let m = first_map.0 in
        let more = per_subnet-snoc (network ∷ []) (ifs ++ ps) m s ip placed first_map.1 in
        let again =
          fresh_once d' ifs (ps ++ ip ∷ []) interfaces' peers' (m ++ (s, ip) ∷ [])
            (ap (per_subnet (network ∷ [])) (sym (append_assoc ifs ps (ip ∷ []))) ∙ more) in
        again
        ∙ ap (λ us. fresh_address us network >>= λ c. ok (c ∷ [])) (used_ips-snoc network s ip m)

    outside : contains_cidr network ip ≡ ok false → get_fresh_peer_ip_config g l d' i ≡ ok (ip ∷ [])
    unfolding subnet_of
    outside away =
        let us = used_ips network first_map.0 in
        let placed : subnet_of (network ∷ []) ip ≡ ok no_cidr = rw away in
        let shrink =
          ap (λ b. us ++ (if b then ip ∷ [] else [])) no_cidr-ne-network ∙ append-nil us in
        second no_cidr placed
        ∙ (ap (λ vs. fresh_address vs network >>= λ c. ok (c ∷ [])) shrink
            ∙ (sym (fresh_once d ifs ps interfaces peers first_map.0 first_map.1) ∙ allocated))

    inside :
        (ip' : Cidr)
        → contains_cidr network ip ≡ ok true
        → get_fresh_peer_ip_config g l d' i ≡ ok (ip' ∷ [])
        → ip' ≢ ip
    unfolding subnet_of
    inside ip' within again same =
        let us = used_ips network first_map.0 in
        let placed : subnet_of (network ∷ []) ip ≡ ok network = rw within in
        let grow = ap (λ b. us ++ (if b then ip ∷ [] else [])) network-eq_self in
        let run =
          sym (ap (λ vs. fresh_address vs network >>= λ c. ok (c ∷ [])) grow)
          ∙ (sym (second network placed) ∙ again) in
        let (c, one, rest) = bind-eq-ok (fresh_address (us ++ ip ∷ []) network) _ run in
        let new = fresh_address-IsAllocated (us ++ ip ∷ []) network c one in
        let equal : c ≡ ip = cc in
        let where_it_is : ip.addr ≡ some (address new.base.is4 new.value) =
          sym (ap (λ (x : Cidr). x.addr) equal) ∙ ap (λ (x : Cidr). x.addr) new.single in
        new.first.unused (IsUsed-snoc us ip _ where_it_is)

    allocated_ip : IsAllocated (used_ips network first_map.0) network ip
    allocated_ip =
        let m = first_map.0 in
        let run = sym (fresh_once d ifs ps interfaces peers m first_map.1) ∙ allocated in
        let (c, one, rest) = bind-eq-ok (fresh_address (used_ips network m) network) _ run in
        let equal : c ≡ ip = cc in
        subst (IsAllocated (used_ips network m) network) equal
          (fresh_address-IsAllocated (used_ips network m) network c one)

    decided :
        contains_cidr network ip
        ≡ ok (in_subnet a n (address allocated_ip.base.is4 allocated_ip.value))
    decided =
        let b = address allocated_ip.base.is4 allocated_ip.value in
        contains_cidr-IsPrefix a n network is_prefix b (bit_len b) ip (record {
          addr = ap (λ (x : Cidr). x.addr) allocated_ip.single;
          length = ap (λ (x : Cidr). x.net_length) allocated_ip.single;
          fits = omega arith;
        })

    -- Let an interface have one default network, and `ip` be the address that `getFreshPeerIpConfig` gives on
    -- it. Once `ip` is stored as a further peer address, `getFreshPeerIpConfig` gives `ip` again exactly if
    -- `ip` does not lie in the network.
    pub get_fresh_peer_ip_config_again_iff :
        (get_fresh_peer_ip_config g l d' i ≡ ok (ip ∷ [])) ↔ (contains_cidr network ip ≡ ok false)
    get_fresh_peer_ip_config_again_iff = (
      λ again.
          elim (Bool-cases (in_subnet a n (address allocated_ip.base.is4 allocated_ip.value))) [
            | inl within ↦ absurd (inside ip (decided ∙ ap (λ (b : Bool). ok b) within) again refl)
            | inr away ↦ decided ∙ ap (λ (b : Bool). ok b) away
          ],
      outside,
    )
