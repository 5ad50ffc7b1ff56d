-- ===== src/Peer.antt =====
-- `Peer` of internal/domain/peer.go with its configuration, and the methods on it. A `*time.Time` is a
-- `TimeRef`, as for a user. `User`, which is loaded after each fetch, is left out: no code of the manager
-- reads it.
pub mod Physical
pub mod Convert
pub mod Editing
pub mod Routes
mod Tests
use Prim.Native.String
use Prim.Native.String.{len, slice}
use awg_portal.Prelude.{
  ℕ, ℤ, pos, ltb, leb, String, Bool, true, false, not, Option, none, some, List, [], ◌∷◌, ◌==◌,
  string_eq, if◌then◌else◌,
}
use awg_portal.Awg.{AwgSettings}
use awg_portal.Ip.{Cidr, Addr}
use awg_portal.User.{BaseModel, TimeRef, is_set}
use awg_portal.Interface.{Interface, KeyPair, ConfigOption, try_set_value, new_config_option}

pub record PeerInterfaceConfig : Type 0 where
  pub key_pair : KeyPair
  pub type : String
  pub addresses : List Cidr
  pub check_alive_address : String
  pub dns_str : ConfigOption String
  pub dns_search_str : ConfigOption String
  pub mtu : ConfigOption ℤ
  pub firewall_mark : ConfigOption ℕ
  pub routing_table : ConfigOption String
  pub pre_up : ConfigOption String
  pub post_up : ConfigOption String
  pub pre_down : ConfigOption String
  pub post_down : ConfigOption String
  pub awg : AwgSettings

pub record Peer : Type 0 where
  pub base : BaseModel
  pub endpoint : ConfigOption String
  pub endpoint_public_key : ConfigOption String
  pub allowed_ips_str : ConfigOption (List ℕ)
  pub extra_allowed_ips_str : List ℕ
  pub preshared_key : String
  pub persistent_keepalive : ConfigOption ℤ
  pub display_name : String
  pub identifier : String
  pub user_identifier : String
  pub interface_identifier : String
  pub disabled : Option TimeRef
  pub disabled_reason : String
  pub expires_at : Option TimeRef
  pub notes : String
  pub automatically_created : Bool
  pub interface : PeerInterfaceConfig

abbrev pub is_disabled : Peer → Bool
is_disabled p = is_set p.disabled

abbrev pub is_past : ℕ → Option TimeRef → Bool
is_past now none = false
is_past now (some t) = ltb t.instant now

unfoldable pub is_expired : ℕ → Peer → Bool
is_expired now p = is_past now p.expires_at

unfoldable pub copy_calculated_attributes : Peer → Peer → Peer
copy_calculated_attributes p src = record p { base = src.base }

unfoldable pub set_defaults : PeerInterfaceConfig → Interface → PeerInterfaceConfig
set_defaults p i = record p {
  dns_str = (try_set_value p.dns_str i.peer_def_dns_str).0;
  dns_search_str = (try_set_value p.dns_search_str i.peer_def_dns_search_str).0;
  mtu = (try_set_value p.mtu i.peer_def_mtu).0;
  firewall_mark = (try_set_value p.firewall_mark i.peer_def_firewall_mark).0;
  routing_table = (try_set_value p.routing_table i.peer_def_routing_table).0;
  pre_up = (try_set_value p.pre_up i.peer_def_pre_up).0;
  post_up = (try_set_value p.post_up i.peer_def_post_up).0;
  pre_down = (try_set_value p.pre_down i.peer_def_pre_down).0;
  post_down = (try_set_value p.post_down i.peer_def_post_down).0;
  awg = i.awg;
}

unfoldable pub apply_interface_defaults : Peer → Interface → Peer
unfolding set_defaults
apply_interface_defaults p i = record p {
  endpoint = (try_set_value p.endpoint i.peer_def_endpoint).0;
  endpoint_public_key = (try_set_value p.endpoint_public_key i.key_pair.public_key).0;
  allowed_ips_str = (try_set_value p.allowed_ips_str i.peer_def_allowed_ips_str).0;
  persistent_keepalive = (try_set_value p.persistent_keepalive i.peer_def_persistent_keepalive).0;
  interface = set_defaults p.interface i;
}

-- `internal.TruncateString`; it cuts at a byte, which the model does only between characters.
unfoldable pub truncate_string : String → ℕ → String
truncate_string s max = if ltb (len s) max then s else slice s 0 max

-- The prefix has no space around it, as all the prefixes that the program passes.
unfoldable pub generate_display_name : Peer → String → Peer
unfolding truncate_string
generate_display_name p prefix =
    let before = if not (prefix == "") then String.◌++◌ prefix " " else prefix in
    record p {
      display_name = String.◌++◌ before (String.◌++◌ "Peer " (truncate_string p.identifier 8));
    }

-- The part of `OverwriteUserEditableFields` under `cfg.Core.EditableKeys`
unfoldable pub overwrite_keys : Peer → Peer → Peer
overwrite_keys p user_peer =
    let named =
      if not (user_peer.interface.key_pair.private_key == "")
      then record p {
        interface = record p.interface { key_pair = user_peer.interface.key_pair };
        identifier = user_peer.identifier;
      }
      else p in
    if not (user_peer.preshared_key == "")
    then record named { preshared_key = user_peer.preshared_key }
    else named

unfoldable pub overwrite_user_editable_fields : Peer → Peer → Bool → Peer
unfolding overwrite_keys
overwrite_user_editable_fields p user_peer editable_keys =
    let q = if editable_keys then overwrite_keys p user_peer else p in
    record q {
      display_name = user_peer.display_name;
      interface = record q.interface { mtu = user_peer.interface.mtu };
      persistent_keepalive = user_peer.persistent_keepalive;
      expires_at = user_peer.expires_at;
      disabled = user_peer.disabled;
      disabled_reason = user_peer.disabled_reason;
    }
