-- ===== src/Allocation/Tests.antt =====
-- Runs of `getFreshPeerIpConfig` over the tables in memory, and the theorems at those inputs.
use awg_portal.Prelude.{pos, true, false, some, ◌≡◌, ◌≢◌, ◌↔◌, refl, List, [], ◌∷◌, ◌++◌, arith}
use awg_portal.Errors.{Result, ok}
use awg_portal.Ip.{
  Cidr, Addr, cidr_from_string, cidrs_from_array, cidrs_from_string, contains_cidr, next_addr,
  host_addr, is_valid, prefix, next, equal_prefix,
}
use awg_portal.Ip.Subnets.{IsPrefix}
use awg_portal.Text.{trim_space, split_at_commas}
use awg_portal.Database.PeerStore.{get_used_ips_per_subnet, used_ips}
use awg_portal.Database.PeerMemory.{Tables, memory, peer_addresses, interface_addresses}
use awg_portal.Allocation.{fresh_ip, get_fresh_peer_ip_config}
use awg_portal.Allocation.Loop.{fresh_ip-enough}
use awg_portal.Allocation.First.{AreAllocated, get_fresh_peer_ip_config-AreAllocated}
use awg_portal.Allocation.Repeat.{get_fresh_peer_ip_config_again_iff}
use awg_portal.Peers.Examples.{cidr, libraries, wg0, a_peer}

-- Interface wg0 has 10.0.0.1/30, and two peers have the other two addresses of the network.
abbrev full : Tables
full = record {
  interfaces = wg0 ∷ [];
  peers = a_peer "one" (cidr 2 32) ∷ a_peer "two" (cidr 3 32) ∷ [];
  users = [];
}

abbrev overfull : Tables
overfull = record full { peers = full.peers ++ a_peer "three" (cidr 4 32) ∷ [] }

outside_address : get_fresh_peer_ip_config memory libraries full wg0 ≡ ok (cidr 4 32 ∷ [])
unfolding get_fresh_peer_ip_config get_used_ips_per_subnet used_ips cidr_from_string
    cidrs_from_array cidrs_from_string contains_cidr next_addr host_addr is_valid prefix next
    equal_prefix trim_space split_at_commas peer_addresses interface_addresses
outside_address = refl

networks_of_wg0 : cidrs_from_string libraries wg0.peer_def_network_str ≡ ok (cidr 0 30 ∷ [])
unfolding cidr_from_string cidrs_from_array cidrs_from_string trim_space split_at_commas
networks_of_wg0 = refl

wg0_filled : wg0.peer_def_network_str ≢ []
wg0_filled e = cc

get_fresh_peer_ip_config-AreAllocated_example :
    (networks : List Cidr) × (existing : List (Cidr × Cidr)) × (cidrs_from_string libraries
        wg0.peer_def_network_str
      ≡ ok networks)
    × (get_used_ips_per_subnet memory full networks ≡ ok existing)
    × AreAllocated existing networks (cidr 4 32 ∷ [])
get_fresh_peer_ip_config-AreAllocated_example =
    get_fresh_peer_ip_config-AreAllocated memory libraries full wg0 (cidr 4 32 ∷ []) wg0_filled
      outside_address

abbrev start : Addr
start = record { is4 = true; value = 0x0a000002 }

fresh_ip-enough_example :
    (r : Result Cidr) × (fresh_ip 3
        (cidr 2 32 ∷ cidr 3 32 ∷ [])
        (record { addr = some start; net_length = pos 30 })
      ≡ some r)
fresh_ip-enough_example = fresh_ip-enough (cidr 2 32 ∷ cidr 3 32 ∷ []) start (pos 30)

full_interfaces : memory.scan_interface_addresses full ≡ ok (cidr 1 30 ∷ [])
unfolding interface_addresses
full_interfaces = refl

full_peers : memory.scan_peer_addresses full ≡ ok (cidr 2 32 ∷ cidr 3 32 ∷ [])
unfolding peer_addresses
full_peers = refl

overfull_peers :
    memory.scan_peer_addresses overfull ≡ ok ((cidr 2 32 ∷ cidr 3 32 ∷ []) ++ cidr 4 32 ∷ [])
unfolding peer_addresses
overfull_peers = refl

network_IsPrefix : IsPrefix (record { is4 = true; value = 0x0a000000 }) 30 (cidr 0 30)
network_IsPrefix = record { addr = refl; length = refl; fits = omega arith }

get_fresh_peer_ip_config_again_iff_example :
    (get_fresh_peer_ip_config memory libraries overfull wg0 ≡ ok (cidr 4 32 ∷ []))
    ↔ (contains_cidr (cidr 0 30) (cidr 4 32) ≡ ok false)
get_fresh_peer_ip_config_again_iff_example =
    get_fresh_peer_ip_config_again_iff memory libraries wg0 (cidr 0 30) wg0_filled networks_of_wg0
      full overfull (cidr 1 30 ∷ []) (cidr 2 32 ∷ cidr 3 32 ∷ []) (cidr 4 32) full_interfaces
      full_peers full_interfaces overfull_peers (record { is4 = true; value = 0x0a000000 }) 30
      network_IsPrefix outside_address
