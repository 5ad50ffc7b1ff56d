-- ===== src/Interface/Physical.antt =====
-- `PhysicalInterface` of internal/domain/interface.go, and its conversions from and to `Interface`.
use awg_portal.Prelude.{
  ℕ, ℤ, pos, String, Bool, false, not, ◌==◌, string_eq, Option, none, some, List, [], ◌∷◌,
  if◌then◌else◌,
}
use awg_portal.Errors.{Result, ok, panic, ◌>>=◌}
use awg_portal.Awg.{AwgSettings, AwgParams}
use awg_portal.Ip.{Cidr, network_addr, IpLibraries, cidrs_to_string}
use awg_portal.User.{BaseModel, TimeRef}
use awg_portal.Interface.{Interface, KeyPair, is_disabled, interface_type_any}

-- internal/domain/controller.go
abbrev pub controller_type_mikrotik : String
controller_type_mikrotik = "mikrotik"

abbrev pub controller_type_local : String
controller_type_local = "wgctrl"

abbrev pub controller_type_pfsense : String
controller_type_pfsense = "pfsense"

pub record MikrotikInterfaceExtras : Type 0 where
  pub id : String
  pub comment : String
  pub disabled : Bool

pub record PfsenseInterfaceExtras : Type 0 where
  pub id : String
  pub comment : String
  pub disabled : Bool

-- The types that `SetExtras` accepts.
pub data InterfaceExtras : Type 0 where
  mikrotik : MikrotikInterfaceExtras → InterfaceExtras
  pfsense : PfsenseInterfaceExtras → InterfaceExtras

pub record PhysicalInterface : Type 0 where
  pub identifier : String
  pub key_pair : KeyPair
  pub listen_port : ℤ
  pub addresses : List Cidr
  pub mtu : ℤ
  pub firewall_mark : ℕ
  pub device_up : Bool
  pub import_source : String
  pub device_type : String
  pub bytes_upload : ℕ
  pub bytes_download : ℕ
  pub extras : Option InterfaceExtras
  pub awg : AwgSettings

abbrev set_interface_extras : Interface → PhysicalInterface → PhysicalInterface
set_interface_extras i pi =
    if pi.import_source == controller_type_mikrotik
    then record pi {
      extras =
          some (mikrotik (record { id = ""; comment = i.display_name; disabled = is_disabled i }));
    }
    else if pi.import_source == controller_type_pfsense
    then record pi {
      extras =
          some (pfsense (record { id = ""; comment = i.display_name; disabled = is_disabled i }));
    }
    else pi

unfoldable pub merge_to_physical_interface : PhysicalInterface → Interface → PhysicalInterface
merge_to_physical_interface pi i = set_interface_extras i (record pi {
  identifier = i.identifier;
  key_pair = i.key_pair;
  listen_port = i.listen_port;
  mtu = i.mtu;
  firewall_mark = i.firewall_mark;
  device_up = not (is_disabled i);
  addresses = i.addresses;
  awg = i.awg;
})

unfoldable pub network_addrs : List Cidr → Result (List Cidr)
network_addrs [] = ok []
network_addrs (c ∷ cs) = do n ← network_addr c; ns ← network_addrs cs; ok (n ∷ ns)

abbrev zero_params : AwgParams
zero_params = record {
  jc = pos 0;
  jmin = pos 0;
  jmax = pos 0;
  s1 = pos 0;
  s2 = pos 0;
  s3 = pos 0;
  s4 = pos 0;
  h1 = 0;
  h2 = 0;
  h3 = 0;
  h4 = 0;
}

abbrev pub awg_off : AwgSettings
awg_off = record { enabled = false; params = zero_params }

abbrev pub zero_base : BaseModel
zero_base = record { created_by = ""; updated_by = ""; created_at = 0; updated_at = 0 }

-- The basic interface; `networks` is the text of the networks of its addresses.
abbrev basic_interface : PhysicalInterface → List ℕ → Interface
basic_interface pi networks = record {
  base = zero_base;
  identifier = pi.identifier;
  key_pair = pi.key_pair;
  listen_port = pi.listen_port;
  addresses = pi.addresses;
  dns_str = "";
  dns_search_str = "";
  mtu = pi.mtu;
  firewall_mark = pi.firewall_mark;
  routing_table = [];
  pre_up = "";
  post_up = "";
  pre_down = "";
  post_down = "";
  save_config = false;
  display_name = pi.identifier;
  type = interface_type_any;
  create_default_peer = false;
  backend = "";
  driver_type = pi.device_type;
  disabled = none;
  disabled_reason = "";
  peer_def_network_str = networks;
  peer_def_dns_str = "";
  peer_def_dns_search_str = "";
  peer_def_endpoint = "";
  peer_def_allowed_ips_str = networks;
  peer_def_mtu = pi.mtu;
  peer_def_persistent_keepalive = pos 0;
  peer_def_firewall_mark = 0;
  peer_def_routing_table = "";
  peer_def_pre_up = "";
  peer_def_post_up = "";
  peer_def_pre_down = "";
  peer_def_post_down = "";
  ldap_allowed_users = [];
  awg = awg_off;
}

-- `now` is the address of the variable and its time.
abbrev set_disabled : Interface → String → Bool → TimeRef → Interface
set_disabled i comment disabled now = record i {
  display_name = comment;
  disabled = if disabled then some now else none;
}

-- A type assertion that fails panics.
unfoldable pub enrich_interface :
    Interface → String → Option InterfaceExtras → TimeRef → Result Interface
enrich_interface i source none now = ok i
enrich_interface i source (some (mikrotik e)) now =
    if source == controller_type_mikrotik
    then ok (set_disabled i e.comment e.disabled now)
    else if source == controller_type_pfsense
    then panic
    else ok i
enrich_interface i source (some (pfsense e)) now =
    if source == controller_type_mikrotik
    then panic
    else if source == controller_type_pfsense
    then ok (set_disabled i e.comment e.disabled now)
    else ok i

unfoldable pub convert_physical_interface :
    IpLibraries → PhysicalInterface → TimeRef → Result Interface
unfolding enrich_interface network_addrs
convert_physical_interface l pi now = do
  networks ← network_addrs pi.addresses
  text ← cidrs_to_string l networks
  enrich_interface (basic_interface pi text) pi.import_source pi.extras now
