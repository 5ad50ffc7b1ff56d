-- ===== src/Peers/Examples.antt =====
-- Interfaces, peers and libraries for the runs of the peer manager and of the allocation of addresses.
use awg_portal.Prelude.{
  ℕ, pos, ◌+◌, String, true, false, ◌==◌, nat_eq, bytes_eq, none, some, [], ◌∷◌, if◌then◌else◌,
}
use awg_portal.Errors.{ok, err, plain}
use awg_portal.Access.{Context}
use awg_portal.Ip.{Cidr, IpLibraries}
use awg_portal.User.{BaseModel}
use awg_portal.Interface.{Interface, interface_type_server, KeyPair}
use awg_portal.Interface.Physical.{awg_off}
use awg_portal.Peer.{Peer}
use awg_portal.Preparation.{PeersConfig, Keys, fresh_peer}
use awg_portal.Database.PeerMemory.{Tables}
use awg_portal.Peers.{Controllers, State}

abbrev pub by_root : Context
by_root = some (record { id = "root"; is_admin = true })

abbrev pub by_ann : Context
by_ann = some (record { id = "ann"; is_admin = false })

-- 10.0.0.0 + v, with n bits
abbrev pub cidr : ℕ → ℕ → Cidr
cidr v n = record {
  addr = some (record { is4 = true; value = 0x0a000000 + v });
  net_length = pos n;
}

-- The text "n" stands for 10.0.0.0/30.
abbrev pub libraries : IpLibraries
libraries = record {
  parse_prefix = λ s. if s == (b'n' ∷ []) then ok (cidr 0 30) else err (plain "no prefix");
  print_prefix = λ p. [];
}

abbrev pub backends : Controllers
backends = record {
  Backends = Unit {0};
  save = λ name device id f w. (ok tt, w);
  delete = λ name device id w. (ok tt, w);
}

abbrev pub config : PeersConfig
config = record {
  self_provisioning_allowed = true;
  editable_keys = false;
  create_default_peer_on_login = false;
  create_default_peer_on_interface_creation = false;
  create_default_peer_on_user_creation = false;
  limit = pos 1;
  interface_filters = [];
  backends = "local" ∷ [];
}

abbrev old_base : BaseModel
old_base = record { created_by = "root"; updated_by = "root"; created_at = 1; updated_at = 1 }

abbrev pub wg0 : Interface
wg0 = record {
  base = old_base;
  identifier = "wg0";
  key_pair = record { private_key = "p"; public_key = "q" };
  listen_port = pos 51820;
  addresses = cidr 1 30 ∷ [];
  dns_str = "";
  dns_search_str = "";
  mtu = pos 1420;
  firewall_mark = 0;
  routing_table = [];
  pre_up = "";
  post_up = "";
  pre_down = "";
  post_down = "";
  save_config = false;
  display_name = "";
  type = interface_type_server;
  create_default_peer = false;
  backend = "";
  driver_type = "";
  disabled = none;
  disabled_reason = "";
  peer_def_network_str = b'n' ∷ [];
  peer_def_dns_str = "";
  peer_def_dns_search_str = "";
  peer_def_endpoint = "vpn.example.org:51820";
  peer_def_allowed_ips_str = b'n' ∷ [];
  peer_def_mtu = pos 1420;
  peer_def_persistent_keepalive = pos 25;
  peer_def_firewall_mark = 0;
  peer_def_routing_table = "";
  peer_def_pre_up = "";
  peer_def_post_up = "";
  peer_def_pre_down = "";
  peer_def_post_down = "";
  ldap_allowed_users = [];
  awg = awg_off;
}

abbrev pub a_key_pair : String → KeyPair
a_key_pair public = record { private_key = "secret"; public_key = public }

abbrev pub keys : Keys
keys = record { key_pair = ok (a_key_pair "fresh"); preshared_key = ok "psk" }

-- A peer of ann on wg0, with a key and an address.
abbrev pub a_peer : String → Cidr → Peer
a_peer key ip =
    record (fresh_peer (record { id = "ann"; is_admin = false }) 1 wg0 (a_key_pair key) "psk"
      (ip ∷ [])) { display_name = key }

abbrev pub before : State Tables (Unit {0})
before = record {
  db = record { interfaces = wg0 ∷ []; peers = a_peer "one" (cidr 2 32) ∷ []; users = [] };
  wg = tt;
  events = [];
}
