-- ===== src/Allocation/First.antt =====
-- The new addresses of `getFreshPeerIpConfig` of internal/app/wireguard/wireguard_peers.go.
use awg_portal.Prelude.{
  ℕ, suc, ℤ, pos, ◌==◌, nat_eq, bytes_eq, bytes_beq_iff, Bool, Option, none, some, List, [], ◌∷◌,
  length, Bool-cases, ◌≡◌, ◌≢◌, inl, inr, refl, subst, arith,
}
use awg_portal.Errors.{Result, ok, ◌>>=◌, bind-eq-ok, wrapping, wrapping-eq-ok}
use awg_portal.Ip.{
  Cidr, Addr, next, next_addr, host_addr, prefix, kept_bits, bit_len, IpLibraries,
  cidrs_from_string,
}
use awg_portal.Interface.{Interface}
use awg_portal.Database.PeerStore.{PeerGorm, get_used_ips_per_subnet, used_ips}
use awg_portal.Allocation.{
  has_conflict, fresh_ip, fresh_address, fresh_addresses, fuelled, get_fresh_peer_ip_config,
}
use awg_portal.Allocation.Loop.{address, at, IsFirst, next-cases, fresh_ip-IsFirst}

-- The prefix of one address.
abbrev pub host : Bool → ℕ → Cidr
host is4 w = at is4 w (pos (bit_len (address is4 w)))

pub record IsAllocated (used : List Cidr) (network ip : Cidr) : Type 0 where
  pub base : Addr
  pub start : network.addr ≡ some base
  pub value : ℕ
  pub single : ip ≡ host base.is4 value
  pub first : IsFirst used base.is4 (suc base.value) value

next_addr-eq-ok :
    (o : Option Addr) (n : ℤ) (start : Cidr)
    → next_addr (record { addr = o; net_length = n }) ≡ ok start
    → (a : Addr) × (o ≡ some a) × (start ≡ record { addr = next a; net_length = kept_bits a n })
unfolding next_addr prefix
next_addr-eq-ok none n start h = cc
next_addr-eq-ok (some a) n start h = (a, refl, cc)

-- The host address of what the loop finds.
abbrev found_host : List Cidr → Cidr → Result Cidr
found_host used start = fuelled (fresh_ip (suc (length used)) used start) >>= host_addr

nowhere :
    (used : List Cidr) (n : ℤ) (ip : Cidr)
    → found_host used (record { addr = none; net_length = n }) ≡ ok ip
    → ⊥
unfolding fresh_ip host_addr prefix next_addr
nowhere used n ip h =
    elim (Bool-cases (has_conflict used (record { addr = none; net_length = n }))) [
      | inl taken ↦ ground (arith, taken)
      | inr free ↦ ground (arith, free)
    ]

host_addr-at : (is4 : Bool) (w : ℕ) (m : ℤ) → host_addr (at is4 w m) ≡ ok (host is4 w)
unfolding host_addr prefix
host_addr-at is4 w m = refl

fuelled-eq-ok : (r : Option (Result Cidr)) (c : Cidr) → fuelled r ≡ ok c → r ≡ some (ok c)
fuelled-eq-ok none c h = cc
fuelled-eq-ok (some r) c h = cc

found_host-IsFirst :
    (used : List Cidr) (is4 : Bool) (v : ℕ) (n : ℤ) (ip : Cidr)
    → found_host used (at is4 v n) ≡ ok ip
    → (w : ℕ) × (ip ≡ host is4 w) × IsFirst used is4 v w
found_host-IsFirst used is4 v n ip h =
    let (c, run, hosted) =
      bind-eq-ok (fuelled (fresh_ip (suc (length used)) used (at is4 v n))) host_addr h in
    let (w, m, same, first) =
      fresh_ip-IsFirst (suc (length used)) used is4 v n c (fuelled-eq-ok _ c run) in
    let single : ip ≡ host is4 w = cc (host_addr-at is4 w m) in (w, single, first)

pub fresh_address-IsAllocated :
    (used : List Cidr) (network ip : Cidr)
    → fresh_address used network ≡ ok ip
    → IsAllocated used network ip
unfolding fresh_address
fresh_address-IsAllocated used network ip h =
    let (start, moved, found) = bind-eq-ok (next_addr network) (found_host used) h in
    let (a, at_start, same) = next_addr-eq-ok network.addr network.net_length start moved in
    let n = kept_bits a network.net_length in
    elim (next-cases a.is4 a.value) [
      | inl last ↦ absurd (nowhere used n ip (cc))
      | inr more ↦
          let (w, single, first) = found_host-IsFirst used a.is4 (suc a.value) n ip (cc) in
          record { base = a; start = at_start; value = w; single = single; first = first }
    ]

-- One address for each network.
abbrev pub AreAllocated : List (Cidr × Cidr) → List Cidr → List Cidr → Type 0
AreAllocated existing [] [] = Unit
AreAllocated existing [] (ip ∷ ips) = ⊥
AreAllocated existing (n ∷ ns) [] = ⊥
AreAllocated existing (n ∷ ns) (ip ∷ ips) =
    IsAllocated (used_ips n existing) n ip × AreAllocated existing ns ips

fresh_addresses-AreAllocated :
    (existing : List (Cidr × Cidr)) (ns ips : List Cidr)
    → fresh_addresses existing ns ≡ ok ips
    → AreAllocated existing ns ips
unfolding fresh_addresses
fresh_addresses-AreAllocated existing [] [] h = tt
fresh_addresses-AreAllocated existing [] (ip ∷ ips) h = absurd (cc)
fresh_addresses-AreAllocated existing (n ∷ ns) ips h =
    let (ip, one, rest) = bind-eq-ok (fresh_address (used_ips n existing) n) _ h in
    let (others, more, all) = bind-eq-ok (fresh_addresses existing ns) _ rest in
    let same : ip ∷ others ≡ ips = cc in
    subst (AreAllocated existing (n ∷ ns)) same (
      fresh_address-IsAllocated (used_ips n existing) n ip one,
      fresh_addresses-AreAllocated existing ns others more,
    )

module _ (g : PeerGorm) (l : IpLibraries) where
  -- If `getFreshPeerIpConfig` succeeds for an interface with default networks, these parse, the used
  -- addresses can be read, and the result has for each network, in their order, the prefix of one address:
  -- the first one after the address of the network that is not among those used in that network.
  pub get_fresh_peer_ip_config-AreAllocated :
      (d : g.Db) (i : Interface) (ips : List Cidr)
      → i.peer_def_network_str ≢ []
      → get_fresh_peer_ip_config g l d i ≡ ok ips
      → (networks : List Cidr) × (existing : List (Cidr × Cidr)) × (cidrs_from_string l
            i.peer_def_network_str
          ≡ ok networks)
        × (get_used_ips_per_subnet g d networks ≡ ok existing)
        × AreAllocated existing networks ips
  unfolding get_fresh_peer_ip_config
  get_fresh_peer_ip_config-AreAllocated d i ips filled h =
      elim (Bool-cases (i.peer_def_network_str == [])) [
        | inl empty ↦ absurd (filled ((bytes_beq_iff i.peer_def_network_str []).0 empty))
        | inr named ↦
            let run : (wrapping "failed to parse default network address"
                    (cidrs_from_string l i.peer_def_network_str)
                  >>= λ networks.
                      wrapping "failed to get existing IP addresses"
                        (get_used_ips_per_subnet g d networks)
                      >>= λ existing. fresh_addresses existing networks)
                ≡ ok ips =
              ground (arith, named) in
            let (networks, parsed, rest) =
              bind-eq-ok
                (wrapping "failed to parse default network address"
                  (cidrs_from_string l i.peer_def_network_str))
                _ run in
            let (existing, read, last) =
              bind-eq-ok
                (wrapping "failed to get existing IP addresses"
                  (get_used_ips_per_subnet g d networks))
                _ rest in
            (
              networks,
              existing,
              wrapping-eq-ok _ _ parsed,
              wrapping-eq-ok _ _ read,
              fresh_addresses-AreAllocated existing networks ips last,
            )
      ]
