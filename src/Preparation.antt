-- ===== src/Preparation.antt =====
-- internal/app/wireguard/wireguard_peers.go: what the peer operations read and check before they change
-- anything, `PreparePeer` and `prepareDefaultPeer`. The keys and the time that the code draws are arguments.
pub mod Prepared
use Prim.Native.String
use awg_portal.Prelude.{
  ℕ, suc, ◌+◌, leb, ltb_ℤ, ℤ, pos, negsuc, String, ◌==◌, string_eq, Bool, true, false, not, ◌&&◌,
  ◌||◌, Option, none, some, List, [], ◌∷◌, if◌then◌else◌, contains_func,
}
use awg_portal.Errors.{
  Error, Result, ok, err, panic, sentinel, plain, wrap, wrapping, no_permission, duplicate_entry,
  invalid_data, guard, ◌>>=◌, ◌>>◌,
}
use awg_portal.Access.{
  Context, ContextUserInfo, get_user_info, validate_user_access_rights,
  validate_admin_access_rights,
}
use awg_portal.User.{User}
use awg_portal.User as User
use awg_portal.Ip.{Cidr, IpLibraries}
use awg_portal.Interface.{
  Interface, KeyPair, new_config_option, is_user_allowed, create_default_peers,
  interface_type_server, interface_type_client,
}
use awg_portal.Peer.{Peer, is_disabled, generate_display_name}
use awg_portal.Database.PeerStore.{PeerGorm, get_interface, get_peer, get_user_peers}
use awg_portal.Allocation.{get_fresh_peer_ip_config}

-- The fields of the configuration that the code reads. `limit` is `LimitAdditionalUserPeers`,
-- `interface_filters` has the keys of the `InterfaceFilter` of each LDAP provider, and `backends` the names
-- of the registered controllers.
pub record PeersConfig : Type 0 where
  pub self_provisioning_allowed : Bool
  pub editable_keys : Bool
  pub create_default_peer_on_login : Bool
  pub create_default_peer_on_interface_creation : Bool
  pub create_default_peer_on_user_creation : Bool
  pub limit : ℤ
  pub interface_filters : List (List String)
  pub backends : List String

unfoldable pub default_peer_creation_enabled : PeersConfig → Bool
default_peer_creation_enabled cfg =
    cfg.create_default_peer_on_login
    || (cfg.create_default_peer_on_interface_creation || cfg.create_default_peer_on_user_creation)

-- What `NewFreshKeypair` and `NewPreSharedKey` return.
pub record Keys : Type 0 where
  pub key_pair : Result KeyPair
  pub preshared_key : Result String

-- The number of enabled peers.
unfoldable pub enabled_count : List Peer → ℕ
enabled_count [] = 0
enabled_count (p ∷ ps) = let rest = enabled_count ps in if is_disabled p then rest else rest + 1

-- The check of `CreatePeer` against `LimitAdditionalUserPeers`, once the limit is positive.
abbrev pub within_limit : ℤ → List Peer → Bool
within_limit (pos n) peers = not (leb (1 + n) (enabled_count peers))
within_limit (negsuc n) peers = true

abbrev pub fresh_peer : ContextUserInfo → ℕ → Interface → KeyPair → String → List Cidr → Peer
fresh_peer ui now i kp pk ips = record {
  base = record { created_by = ui.id; updated_by = ui.id; created_at = now; updated_at = now };
  endpoint = new_config_option i.peer_def_endpoint true;
  endpoint_public_key = new_config_option i.key_pair.public_key true;
  allowed_ips_str = new_config_option i.peer_def_allowed_ips_str true;
  extra_allowed_ips_str = [];
  preshared_key = pk;
  persistent_keepalive = new_config_option i.peer_def_persistent_keepalive true;
  display_name = "";
  identifier = kp.public_key;
  user_identifier = ui.id;
  interface_identifier = i.identifier;
  disabled = none;
  disabled_reason = "";
  expires_at = none;
  notes = "";
  automatically_created = false;
  interface = record {
    key_pair = kp;
    type = if i.type == interface_type_client then interface_type_server else interface_type_client;
    addresses = ips;
    check_alive_address = "";
    dns_str = new_config_option i.peer_def_dns_str true;
    dns_search_str = new_config_option i.peer_def_dns_search_str true;
    mtu = new_config_option i.peer_def_mtu true;
    firewall_mark = new_config_option i.peer_def_firewall_mark true;
    routing_table = new_config_option i.peer_def_routing_table true;
    pre_up = new_config_option i.peer_def_pre_up true;
    post_up = new_config_option i.peer_def_post_up true;
    pre_down = new_config_option i.peer_def_pre_down true;
    post_down = new_config_option i.peer_def_post_down true;
    awg = i.awg;
  };
}

unfoldable pub validate_peer_modifications : PeersConfig → Context → Result (Unit {0})
validate_peer_modifications cfg ctx =
    guard ((get_user_info ctx).is_admin || cfg.self_provisioning_allowed) (sentinel no_permission)

unfoldable pub validate_peer_deletion : PeersConfig → Context → Result (Unit {0})
validate_peer_deletion cfg ctx =
    guard ((get_user_info ctx).is_admin || cfg.self_provisioning_allowed) (sentinel no_permission)

-- Any error of the fetch becomes the one error.
abbrev pub replacing_error {ℓ} : {A : Type ℓ} → Error → Result A → Result (Unit {0})
replacing_error e (ok a) = ok tt
replacing_error e (err x) = err e
replacing_error e panic = panic

abbrev pub default_peer : User → Peer → Peer
default_peer user peer =
    generate_display_name
      (record peer {
        user_identifier = user.identifier;
        notes = String.◌++◌ "Default peer created for user " user.identifier;
        automatically_created = true;
      })
      "Default"

abbrev pub default_unless : Bool → User → Result Peer → Result (Option Peer)
default_unless exists user create =
    if exists then ok none else create >>= λ peer. ok (some (default_peer user peer))

module _ (g : PeerGorm) (l : IpLibraries) (cfg : PeersConfig) where
  open g use {Db}

  unfoldable pub check_interface_access : Context → String → Db → Result (Unit {0})
  check_interface_access ctx id d = if (get_user_info ctx).is_admin then ok tt else do
    i ← wrapping "failed to get interface" (get_interface g d id)
    guard (is_user_allowed i (get_user_info ctx).id cfg.interface_filters)
        (wrap "user is not allowed to access interface" (sentinel no_permission))

  unfoldable pub validate_peer_creation : Context → Peer → Db → Result (Unit {0})
  validate_peer_creation ctx new d =
      if new.identifier == ""
      then err (wrap "invalid peer identifier" (sentinel invalid_data))
      else if not (get_user_info ctx).is_admin && not cfg.self_provisioning_allowed
      then err (sentinel no_permission)
      else replacing_error (wrap "invalid interface" (sentinel invalid_data))
          (get_interface g d new.interface_identifier)

  -- The check of `CreatePeer` on the number of enabled peers.
  unfoldable pub check_peer_limit : Context → String → Db → Result (Unit {0})
  unfolding enabled_count
  check_peer_limit ctx user d =
      if cfg.self_provisioning_allowed
        && (not (get_user_info ctx).is_admin && ltb_ℤ (pos 0) cfg.limit)
      then (do
        peers ← wrapping "failed to fetch peers" (get_user_peers g d user)
        guard (within_limit cfg.limit peers) (wrap "peer limit reached" (sentinel no_permission)))
      else ok tt

  -- The checks of `CreatePeer` on who is acting
  unfoldable pub check_creation_access : Context → Peer → Db → Result (Unit {0})
  unfolding check_interface_access
  check_creation_access ctx peer d =
      if not cfg.self_provisioning_allowed then validate_admin_access_rights ctx else do
        validate_user_access_rights ctx peer.user_identifier
        check_interface_access ctx peer.interface_identifier d

  unfoldable pub prepare_peer : Context → ℕ → Keys → String → Db → Result Peer
  unfolding check_interface_access
  prepare_peer ctx now keys id d = do
    if cfg.self_provisioning_allowed then ok tt else validate_admin_access_rights ctx
    check_interface_access ctx id d
    i ← wrapping "unable to find interface" (get_interface g d id)
    guard
        (not (
          cfg.self_provisioning_allowed
          && (not (get_user_info ctx).is_admin && not (i.type == interface_type_server))))
        (wrap "self provisioning is only allowed for server interfaces" (sentinel no_permission))
    ips ← wrapping "unable to get fresh ip addresses" (get_fresh_peer_ip_config g l d i)
    kp ← wrapping "failed to generate keys" keys.key_pair
    pk ← wrapping "failed to generate preshared key" keys.preshared_key
    ok (generate_display_name (fresh_peer (get_user_info ctx) now i kp pk ips) "")

  -- `none` is a nil peer: there is nothing to create.
  unfoldable pub prepare_default_peer :
      Context → ℕ → Keys → Interface → User → Db → Result (Option Peer)
  unfolding contains_func
  prepare_default_peer ctx now keys i user d =
      if not (create_default_peers i) || not (User.create_default_peers user) then ok none else do
        peers ←
            wrapping "failed to retrieve existing peers prior to default peer creation"
              (get_user_peers g d user.identifier)
        let create =
            wrapping "failed to create default peer" (prepare_peer ctx now keys i.identifier d)
        default_unless (contains_func (λ p. p.interface_identifier == i.identifier) peers) user
            create

  -- `GetPeer`
  unfoldable pub fetch_peer : Context → String → Db → Result Peer
  fetch_peer ctx id d = do
    peer ← wrapping "unable to find peer" (get_peer g d id)
    validate_user_access_rights ctx peer.user_identifier
    ok peer

  -- `GetUserPeers`
  unfoldable pub fetch_user_peers : Context → String → Db → Result (List Peer)
  fetch_user_peers ctx id d = do validate_user_access_rights ctx id; get_user_peers g d id
