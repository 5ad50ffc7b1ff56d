-- ===== src/Peer/Tests.antt =====
-- The routes of an interface with two peers.
use awg_portal.Prelude.{pos, none, List, [], ◌∷◌, ◌≡◌, refl}
use awg_portal.Errors.{ok, plain}
use awg_portal.Ip.{host_addr, prefix, cidrs_from_string, cidrs_from_array, cidr_from_string}
use awg_portal.Text.{trim_space, split_at_commas}
use awg_portal.Interface.Physical.{controller_type_local}
use awg_portal.Peer.{Peer}
use awg_portal.Peer.Physical.{PhysicalPeer, get_allowed_ips, host_addrs}
use awg_portal.Peer.Routes.{physical_ips, get_allowed_ips-eq-physical_ips}
use awg_portal.Peers.Examples.{cidr, libraries, wg0, a_peer}

abbrev fresh_physical : PhysicalPeer
fresh_physical = record {
  identifier = "";
  endpoint = "";
  allowed_ips = [];
  key_pair = record { private_key = ""; public_key = "" };
  preshared_key = "";
  persistent_keepalive = pos 0;
  last_handshake = 0;
  protocol_version = pos 1;
  bytes_upload = 0;
  bytes_download = 0;
  import_source = controller_type_local;
  extras = none;
}

-- The second peer has a further network.
abbrev two_peers : List Peer
two_peers =
    a_peer "one" (cidr 2 32)
    ∷ record (a_peer "two" (cidr 3 32)) { extra_allowed_ips_str = b'n' ∷ [] }
    ∷ []

routes : get_allowed_ips libraries wg0 two_peers ≡ ok (cidr 2 32 ∷ cidr 3 32 ∷ cidr 0 30 ∷ [])
unfolding get_allowed_ips host_addrs host_addr prefix cidrs_from_string cidrs_from_array
    cidr_from_string trim_space split_at_commas
routes = refl

get_allowed_ips-eq-physical_ips_example :
    get_allowed_ips libraries wg0 two_peers ≡ physical_ips libraries fresh_physical two_peers
get_allowed_ips-eq-physical_ips_example =
    get_allowed_ips-eq-physical_ips libraries fresh_physical refl (plain "no prefix") refl wg0
      two_peers refl (refl, (refl, tt))
