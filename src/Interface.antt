-- ===== src/Interface.antt =====
-- internal/domain/interface.go, internal/domain/options.go, and the key pair of internal/domain/crypto.go.
-- A text that the code takes apart is the list of its code points; the others are strings.
pub mod RoutingTable
pub mod Physical
use awg_portal.Prelude.{
  ℕ, ℤ, pos, String, Bool, true, false, not, ◌&&◌, ◌||◌, Option, none, some, List, [], ◌∷◌, ◌==◌,
  Comparable, string_eq, if◌then◌else◌, contains, contains_func,
}
use awg_portal.Awg.{AwgSettings, AwgParams}
use awg_portal.Ip.{Cidr}
use awg_portal.User.{BaseModel, TimeRef, is_set}

pub record ConfigOption {ℓ} (T : Type ℓ) : Type ℓ where
  pub value : T
  pub overridable : Bool

module _ {ℓ} {T : Type ℓ} where
  abbrev pub get_value : ConfigOption T → T
  get_value o = o.value

  abbrev pub set_value : ConfigOption T → T → ConfigOption T
  set_value o v = record o { value = v }

  -- The option afterwards, and whether the value has been set.
  abbrev pub try_set_value : ConfigOption T → T → ConfigOption T × Bool
  try_set_value o v = if o.overridable then (record o { value = v }, true) else (o, false)

  abbrev pub new_config_option : T → Bool → ConfigOption T
  new_config_option v o = record { value = v; overridable = o }

pub record KeyPair : Type 0 where
  pub private_key : String
  pub public_key : String

abbrev pub interface_type_server : String
interface_type_server = "server"

abbrev pub interface_type_client : String
interface_type_client = "client"

abbrev pub interface_type_any : String
interface_type_any = "any"

pub record Interface : Type 0 where
  pub base : BaseModel
  pub identifier : String
  pub key_pair : KeyPair
  pub listen_port : ℤ
  pub addresses : List Cidr
  pub dns_str : String
  pub dns_search_str : String
  pub mtu : ℤ
  pub firewall_mark : ℕ
  pub routing_table : List ℕ
  pub pre_up : String
  pub post_up : String
  pub pre_down : String
  pub post_down : String
  pub save_config : Bool
  pub display_name : String
  pub type : String
  pub create_default_peer : Bool
  pub backend : String
  pub driver_type : String
  pub disabled : Option TimeRef
  pub disabled_reason : String
  pub peer_def_network_str : List ℕ
  pub peer_def_dns_str : String
  pub peer_def_dns_search_str : String
  pub peer_def_endpoint : String
  pub peer_def_allowed_ips_str : List ℕ
  pub peer_def_mtu : ℤ
  pub peer_def_persistent_keepalive : ℤ
  pub peer_def_firewall_mark : ℕ
  pub peer_def_routing_table : String
  pub peer_def_pre_up : String
  pub peer_def_post_up : String
  pub peer_def_pre_down : String
  pub peer_def_post_down : String
  pub ldap_allowed_users : List (String × List String)
  pub awg : AwgSettings

abbrev pub is_disabled : Interface → Bool
is_disabled i = is_set i.disabled

abbrev pub get_awg_params : Interface → AwgParams
get_awg_params i = i.awg.params

unfoldable pub copy_calculated_attributes : Interface → Interface → Interface
copy_calculated_attributes i src = record i { base = src.base }

-- The keys of `InterfaceFilter`, for each LDAP provider of the configuration.
unfoldable pub is_restricted : List (List String) → String → Bool
unfolding contains contains_func
is_restricted filters id = contains_func (λ filter. contains filter id) filters

unfoldable pub is_user_allowed : Interface → String → List (List String) → Bool
unfolding is_restricted
is_user_allowed i user_id filters =
    not (is_restricted filters i.identifier)
    || contains_func (λ allowed. contains (allowed.1) user_id) i.ldap_allowed_users

unfoldable pub create_default_peers : Interface → Bool
create_default_peers i =
    if not i.create_default_peer then false else i.type == interface_type_server
