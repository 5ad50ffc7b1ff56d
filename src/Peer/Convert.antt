-- ===== src/Peer/Convert.antt =====
-- `ConvertPhysicalPeer` of internal/domain/peer.go.
use awg_portal.Prelude.{
  ℕ, ℤ, pos, String, Bool, true, false, not, ◌||◌, ◌==◌, string_eq, bytes_eq, Option, none, some,
  List, [], if◌then◌else◌,
}
use awg_portal.Errors.{Result, ok, panic, ◌>>=◌}
use awg_portal.Ip.{IpLibraries, cidrs_from_string}
use awg_portal.Interface.{
  ConfigOption, new_config_option, interface_type_server, interface_type_client,
}
use awg_portal.Interface.Physical.{
  controller_type_mikrotik, controller_type_local, controller_type_pfsense, awg_off, zero_base,
}
use awg_portal.User.{TimeRef}
use awg_portal.Peer.{Peer}
use awg_portal.Peer.Physical.{PhysicalPeer, PeerExtras, mikrotik, local, pfsense, ignoring_error}

abbrev zero_option {ℓ} : {T : Type ℓ} → T → ConfigOption T
zero_option v = new_config_option v false

abbrev basic_peer : PhysicalPeer → Peer
basic_peer pp = record {
  base = zero_base;
  endpoint = new_config_option pp.endpoint true;
  endpoint_public_key = new_config_option "" true;
  allowed_ips_str = new_config_option [] true;
  extra_allowed_ips_str = [];
  preshared_key = pp.preshared_key;
  persistent_keepalive = new_config_option pp.persistent_keepalive true;
  display_name = pp.identifier;
  identifier = pp.identifier;
  user_identifier = "";
  interface_identifier = "";
  disabled = none;
  disabled_reason = "";
  expires_at = none;
  notes = "";
  automatically_created = false;
  interface = record {
    key_pair = pp.key_pair;
    type = "";
    addresses = [];
    check_alive_address = "";
    dns_str = zero_option "";
    dns_search_str = zero_option "";
    mtu = zero_option (pos 0);
    firewall_mark = zero_option 0;
    routing_table = zero_option "";
    pre_up = zero_option "";
    post_up = zero_option "";
    pre_down = zero_option "";
    post_down = zero_option "";
    awg = awg_off;
  };
}

-- `now` is the address of the variable and its time.
abbrev disable : Peer → Bool → String → TimeRef → Peer
disable p disabled reason now =
    if disabled
    then record p { disabled = some now; disabled_reason = reason }
    else record p { disabled = none; disabled_reason = "" }

module _ (l : IpLibraries) where
  -- If the client endpoint is set, the peer is taken for a client.
  unfoldable pub convert_client :
      Peer → String → String → String → List ℕ → String → ℤ → Result Peer
  convert_client p comment name endpoint address dns keepalive =
      let named = record p { notes = comment; display_name = name } in
      if not (endpoint == "")
      then (do
        addresses ← ignoring_error (cidrs_from_string l address)
        ok (record named {
          endpoint = new_config_option endpoint true;
          persistent_keepalive = new_config_option keepalive true;
          interface = record named.interface {
            type = interface_type_client;
            addresses = addresses;
            dns_str = new_config_option dns true;
          };
        }))
      else ok (record named { interface = record named.interface { type = interface_type_server } })

  -- A type assertion that fails panics.
  unfoldable pub enrich_peer : Peer → String → Option PeerExtras → TimeRef → Result Peer
  unfolding convert_client
  enrich_peer p source none now = ok p
  enrich_peer p source (some (mikrotik e)) now =
      if source == controller_type_mikrotik
      then (do
        q ←
            convert_client p e.comment e.name e.client_endpoint e.client_address e.client_dns
              e.client_keepalive
        ok (disable q e.disabled "Disabled by Mikrotik controller" now))
      else if source == controller_type_local || source == controller_type_pfsense
      then panic
      else ok p
  enrich_peer p source (some (local e)) now =
      if source == controller_type_mikrotik || source == controller_type_pfsense
      then panic
      else if source == controller_type_local
      then ok (disable p e.disabled "Disabled by Local controller" now)
      else ok p
  enrich_peer p source (some (pfsense e)) now =
      if source == controller_type_mikrotik || source == controller_type_local
      then panic
      else if source == controller_type_pfsense
      then (do
        q ←
            convert_client p e.comment e.name e.client_endpoint e.client_address e.client_dns
              e.client_keepalive
        ok (disable q e.disabled "Disabled by pfSense controller" now))
      else ok p

  unfoldable pub convert_physical_peer : PhysicalPeer → TimeRef → Result Peer
  unfolding enrich_peer
  convert_physical_peer pp now = enrich_peer (basic_peer pp) pp.import_source pp.extras now
