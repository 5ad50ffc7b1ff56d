-- ===== src/Peer/Physical.antt =====
-- `PhysicalPeer` of internal/domain/peer.go, its conversions, and the allowed addresses of an interface
-- (`GetAllowedIPs` of internal/domain/interface.go).
use awg_portal.Prelude.{
  ℕ, ℤ, String, Bool, not, ◌||◌, ◌==◌, string_eq, bytes_eq, Option, some, List, [], ◌∷◌, ◌++◌,
  if◌then◌else◌,
}
use awg_portal.Errors.{Result, ok, err, panic, ◌>>=◌}
use awg_portal.Ip.{Cidr, host_addr, IpLibraries, cidrs_from_string, cidrs_to_string}
use awg_portal.Interface.{
  Interface, KeyPair, get_value, interface_type_server, interface_type_client, interface_type_any,
}
use awg_portal.Interface.Physical.{
  controller_type_mikrotik, controller_type_local, controller_type_pfsense,
}
use awg_portal.Peer.{Peer, is_disabled}

pub record MikrotikPeerExtras : Type 0 where
  pub id : String
  pub name : String
  pub comment : String
  pub is_responder : Bool
  pub disabled : Bool
  pub client_endpoint : String
  pub client_address : List ℕ
  pub client_dns : String
  pub client_keepalive : ℤ

pub record LocalPeerExtras : Type 0 where
  pub disabled : Bool

pub record PfsensePeerExtras : Type 0 where
  pub id : String
  pub name : String
  pub comment : String
  pub disabled : Bool
  pub client_endpoint : String
  pub client_address : List ℕ
  pub client_dns : String
  pub client_keepalive : ℤ

-- The types that `SetExtras` accepts.
pub data PeerExtras : Type 0 where
  mikrotik : MikrotikPeerExtras → PeerExtras
  local : LocalPeerExtras → PeerExtras
  pfsense : PfsensePeerExtras → PeerExtras

pub record PhysicalPeer : Type 0 where
  pub identifier : String
  pub endpoint : String
  pub allowed_ips : List Cidr
  pub key_pair : KeyPair
  pub preshared_key : String
  pub persistent_keepalive : ℤ
  pub last_handshake : ℕ
  pub protocol_version : ℤ
  pub bytes_upload : ℕ
  pub bytes_download : ℕ
  pub import_source : String
  pub extras : Option PeerExtras

unfoldable pub host_addrs : List Cidr → Result (List Cidr)
host_addrs [] = ok []
host_addrs (c ∷ cs) = do h ← host_addr c; hs ← host_addrs cs; ok (h ∷ hs)

-- `cidrs, _ := f()`: with an error the list is nil.
abbrev pub ignoring_error : Result (List Cidr) → Result (List Cidr)
ignoring_error (ok cs) = ok cs
ignoring_error (err e) = ok []
ignoring_error panic = panic

module _ (l : IpLibraries) where
  -- The part of `MergeToPhysicalPeer` on the type of the peer's interface
  unfoldable pub merge_addresses : PhysicalPeer → Peer → Result PhysicalPeer
  merge_addresses pp p =
      let extra = ignoring_error (cidrs_from_string l p.extra_allowed_ips_str) in
      if p.interface.type == interface_type_client
      then (do
        hosts ← host_addrs p.interface.addresses
        more ← extra
        ok (record pp { allowed_ips = hosts ++ more }))
      else if p.interface.type == interface_type_server
      then (do
        allowed ← ignoring_error (cidrs_from_string l (get_value p.allowed_ips_str))
        more ← extra
        ok (record pp {
          allowed_ips = allowed ++ more;
          endpoint = get_value p.endpoint;
          persistent_keepalive = get_value p.persistent_keepalive;
        }))
      else if p.interface.type == interface_type_any
      then (do
        hosts ← host_addrs p.interface.addresses
        more ← extra
        ok (record pp {
          allowed_ips = hosts ++ more;
          endpoint = get_value p.endpoint;
          persistent_keepalive = get_value p.persistent_keepalive;
        }))
      else ok pp

  -- The part on the import source
  unfoldable pub merge_extras : PhysicalPeer → Peer → Result PhysicalPeer
  merge_extras pp p =
      if pp.import_source == controller_type_mikrotik
      then (do
        addresses ← cidrs_to_string l p.interface.addresses
        ok (record pp {
          extras = some (
              mikrotik (record {
                id = "";
                name = p.display_name;
                comment = p.notes;
                is_responder = p.interface.type == interface_type_client;
                disabled = is_disabled p;
                client_endpoint = get_value p.endpoint;
                client_address = addresses;
                client_dns = get_value p.interface.dns_str;
                client_keepalive = get_value p.persistent_keepalive;
              }));
        }))
      else if pp.import_source == controller_type_local
      then ok (record pp { extras = some (local (record { disabled = is_disabled p })) })
      else if pp.import_source == controller_type_pfsense
      then (do
        addresses ← cidrs_to_string l p.interface.addresses
        ok (record pp {
          extras = some (
              pfsense (record {
                id = "";
                name = p.display_name;
                comment = p.notes;
                disabled = is_disabled p;
                client_endpoint = get_value p.endpoint;
                client_address = addresses;
                client_dns = get_value p.interface.dns_str;
                client_keepalive = get_value p.persistent_keepalive;
              }));
        }))
      else ok pp

  unfoldable pub merge_to_physical_peer : PhysicalPeer → Peer → Result PhysicalPeer
  unfolding merge_addresses merge_extras
  merge_to_physical_peer pp p = do
    merged ←
        merge_addresses
          (record pp {
            identifier = p.identifier;
            preshared_key = p.preshared_key;
            key_pair = record pp.key_pair { public_key = p.interface.key_pair.public_key };
          })
          p
    merge_extras merged p

  -- The texts that do not parse are skipped.
  unfoldable pub peer_hosts : List Peer → Result (List Cidr)
  peer_hosts [] = ok []
  peer_hosts (p ∷ ps) = do
    hosts ← host_addrs p.interface.addresses
    more ← ignoring_error (
        if not (p.extra_allowed_ips_str == [])
        then cidrs_from_string l p.extra_allowed_ips_str
        else ok [])
    rest ← peer_hosts ps
    ok (hosts ++ (more ++ rest))

  unfoldable pub peer_networks : List Peer → Result (List Cidr)
  peer_networks [] = ok []
  peer_networks (p ∷ ps) = do
    allowed ← ignoring_error (cidrs_from_string l (get_value p.allowed_ips_str))
    rest ← peer_networks ps
    ok (allowed ++ rest)

  unfoldable pub get_allowed_ips : Interface → List Peer → Result (List Cidr)
  unfolding peer_hosts peer_networks
  get_allowed_ips i peers =
      if i.type == interface_type_server || i.type == interface_type_any
      then peer_hosts peers
      else if i.type == interface_type_client
      then peer_networks peers
      else ok []
