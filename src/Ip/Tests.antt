-- ===== src/Ip/Tests.antt =====
-- Runs of the subnet arithmetic.
use awg_portal.Prelude.{ℕ, ◌≤◌, pos, true, some, ◌≡◌, ◌↔◌, refl, arith}
use awg_portal.Errors.{ok}
use awg_portal.Ip.{
  Cidr, Addr, network_addr, broadcast_addr, contains_cidr, next_subnet, prefix, set_bits, set_bit,
  next,
}
use awg_portal.Ip.Subnets.{at_prefix, contains-network-broadcast}

abbrev net : Addr
net = record { is4 = true; value = 0xc0a80164 }

abbrev net24 : Cidr
net24 = record { addr = some net; net_length = pos 24 }

abbrev other : Addr
other = record { is4 = true; value = 0xc0a80105 }

abbrev other_host : Cidr
other_host = record { addr = some other; net_length = pos 32 }

last_of_net24 : broadcast_addr net24 ≡ ok (at_prefix net 24 0xc0a801ff)
unfolding broadcast_addr set_bits set_bit prefix
last_of_net24 = refl

after_net24 : next_subnet net24 ≡ ok (at_prefix net 24 0xc0a80200)
unfolding next_subnet broadcast_addr set_bits set_bit prefix next
after_net24 = refl

contains-network-broadcast_example :
    (first last : ℕ) × (network_addr net24 ≡ ok (at_prefix net 24 first))
    × (broadcast_addr net24 ≡ ok (at_prefix net 24 last))
    × ((contains_cidr net24 other_host ≡ ok true)
        ↔ ((net.is4 ≡ other.is4) × (first ≤ other.value) × (other.value ≤ last)))
contains-network-broadcast_example =
    contains-network-broadcast net 24 net24
      (record { addr = refl; length = refl; fits = omega arith }) other 32 other_host
      (record { addr = refl; length = refl; fits = omega arith })
