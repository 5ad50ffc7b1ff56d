-- ===== src/Allocation.antt =====
-- `getFreshPeerIpConfig` of internal/app/wireguard/wireguard_peers.go: new addresses for a peer.
pub mod Loop
pub mod First
pub mod Repeat
mod Tests
use awg_portal.Prelude.{
  ℕ, zero, suc, String, ◌==◌, bytes_eq, Bool, true, false, ◌||◌, Option, none, some, List, [], ◌∷◌,
  if◌then◌else◌, length,
}
use awg_portal.Errors.{Result, ok, err, panic, plain, wrapping, ◌>>=◌}
use awg_portal.Ip.{Cidr, same_addr, IpLibraries, cidrs_from_string, next_addr, host_addr, is_valid}
use awg_portal.Interface.{Interface}
use awg_portal.Database.PeerStore.{PeerGorm, get_used_ips_per_subnet, used_ips}

-- The inner loop, over the addresses that are used.
unfoldable pub has_conflict : List Cidr → Cidr → Bool
has_conflict [] ip = false
has_conflict (used ∷ rest) ip = same_addr used.addr ip.addr || has_conflict rest ip

-- The loop from the candidate `ip`. `none` means that the fuel ran out.
unfoldable pub fresh_ip : ℕ → List Cidr → Cidr → Option (Result Cidr)
unfolding has_conflict
fresh_ip zero used ip = none
fresh_ip (suc fuel) used ip = elim (has_conflict used ip) [
  | false ↦ some (ok ip)
  | true ↦ elim (next_addr ip) [
    | panic ↦ some panic
    | err e ↦ some (err e)
    | ok later ↦ elim (is_valid later) [
      | panic ↦ some panic
      | err e ↦ some (err e)
      | ok valid ↦ elim valid [
        | false ↦ some (err (plain "ip space on subnet is exhausted"))
        | true ↦ fresh_ip fuel used later
      ]
    ]
  ]
]

-- The fuel always suffices, so the first case does not occur.
abbrev pub fuelled : Option (Result Cidr) → Result Cidr
fuelled none = panic
fuelled (some r) = r

-- The new address on one network.
unfoldable pub fresh_address : List Cidr → Cidr → Result Cidr
unfolding fresh_ip
fresh_address used network = do
  start ← next_addr network
  ip ← fuelled (fresh_ip (suc (length used)) used start)
  host_addr ip

unfoldable pub fresh_addresses : List (Cidr × Cidr) → List Cidr → Result (List Cidr)
unfolding fresh_address
fresh_addresses existing [] = ok []
fresh_addresses existing (network ∷ rest) = do
  ip ← fresh_address (used_ips network existing) network
  ips ← fresh_addresses existing rest
  ok (ip ∷ ips)

module _ (g : PeerGorm) (l : IpLibraries) where
  unfoldable pub get_fresh_peer_ip_config : g.Db → Interface → Result (List Cidr)
  unfolding fresh_addresses
  get_fresh_peer_ip_config d i = if i.peer_def_network_str == [] then ok [] else do
    networks ←
        wrapping "failed to parse default network address"
          (cidrs_from_string l i.peer_def_network_str)
    existing ← wrapping "failed to get existing IP addresses" (get_used_ips_per_subnet g d networks)
    fresh_addresses existing networks
