-- ===== src/Peers.antt =====
-- internal/app/wireguard/wireguard_peers.go: the peers of the WireGuard manager, over the repository of
-- Database/PeerStore and the controllers of the backends, which are a parameter. An operation returns its
-- result and the state after it also when it fails, since what it has done before stays done.
--
-- Every caller of `savePeers` passes one peer, and so does the model. The keys and the time that an
-- operation draws are arguments.
pub mod Monad
pub mod Batches
pub mod Saving
pub mod Removal
pub mod Creation
pub mod Update
pub mod Examples
mod Tests
use awg_portal.Prelude.{
  ℕ, suc, ◌+◌, leb, ltb, ltb_ℤ, ℤ, pos, negsuc, String, ◌==◌, string_eq, Bool, true, false, not,
  ◌&&◌, ◌||◌, Option, none, some, List, [], ◌∷◌, ◌++◌, if◌then◌else◌, contains, length,
}
use Prim.Native.String
use awg_portal.Errors.{
  Error, Result, ok, err, panic, sentinel, wrap, join, wrapping, no_permission, duplicate_entry,
  invalid_data, guard,
}
use awg_portal.Access.{
  Context, ContextUserInfo, get_user_info, validate_user_access_rights,
  validate_admin_access_rights,
}
use awg_portal.Peers.Monad.{Run, ◌>>=◌, ◌>>◌, return, lift, naming}
use awg_portal.Database.{optional}
use awg_portal.Ip.{Cidr, IpLibraries}
use awg_portal.Interface as Interface
use awg_portal.User.{User}
use awg_portal.Interface.{
  Interface, KeyPair, new_config_option, is_user_allowed, interface_type_server,
  interface_type_client,
}
use awg_portal.Interface.RoutingTable.{RoutingTableInfo, get_routing_table, local_backend_name}
use awg_portal.Peer.{
  Peer, is_disabled, copy_calculated_attributes, generate_display_name,
  overwrite_user_editable_fields,
}
use awg_portal.Peer.Physical.{PhysicalPeer, merge_to_physical_peer, get_allowed_ips}
use awg_portal.Database.PeerStore.{
  PeerGorm, get_interface, get_peer, get_interface_peers, get_all_interfaces, get_user,
  get_all_users, save_peer, delete_peer,
}
use awg_portal.Preparation.{
  PeersConfig, Keys, default_peer_creation_enabled, prepare_peer, prepare_default_peer,
  check_creation_access, check_peer_limit, check_interface_access, validate_peer_creation,
  validate_peer_modifications, validate_peer_deletion,
}

pub data Event : Type 0 where
  route_update : RoutingTableInfo → Event
  peer_created peer_deleted peer_updated audit_peer_saved : Peer → Event
  peer_interface_updated : String → Event
  peer_identifier_updated : String → String → Event

-- `SavePeer` and `DeletePeer` of the controllers, by the names of backend, interface and peer.
pub record Controllers : Type 1 where
  pub Backends : Type 0
  pub save :
      String
      → String
      → String
      → (PhysicalPeer → Result PhysicalPeer)
      → Backends
      → Result (Unit {0}) × Backends
  pub delete : String → String → String → Backends → Result (Unit {0}) × Backends

pub record State (D W : Type 0) : Type 0 where
  pub db : D
  pub wg : W
  pub events : List Event

-- `ControllerManager.getController`: the name of the controller that is taken.
unfoldable pub get_controller : List String → Interface → Result String
unfolding contains
get_controller backends i =
    let name = if i.backend == "" then local_backend_name else i.backend in
    if contains backends name
    then ok name
    else if contains backends local_backend_name
    then ok local_backend_name
    else panic

module _ {D W : Type 0} where
  abbrev pub read : {A : Type 0} → (D → Result A) → Run (State D W) A
  read f s = (f s.db, s)

  abbrev pub publish : Event → Run (State D W) (Unit {0})
  publish e s = (ok tt, record s { events = s.events ++ e ∷ [] })

  abbrev pub on_wg : (W → Result (Unit {0}) × W) → Run (State D W) (Unit {0})
  on_wg f s = let r = f s.wg in (r.0, record s { wg = r.1 })

  -- A write that fails leaves the database as it was.
  abbrev pub write : (D → Result D) → Run (State D W) (Unit {0})
  write f s = elim (f s.db) [
    | panic ↦ (panic, s)
    | err e ↦ (err e, s)
    | ok d ↦ (ok tt, record s { db = d })
  ]

abbrev pub given : {A : Type 0} → A → Result (Unit {0}) → Result A
given a (ok u) = ok a
given a (err e) = err e
given a panic = panic

abbrev pub is_none : {A : Type 0} → Option A → Bool
is_none none = true
is_none (some a) = false

abbrev pub stored : {A D W : Type 0} → State D W → Result (A × D) → Result A × State D W
stored s (ok (a, d)) = (ok a, record s { db = d })
stored s (err e) = (err e, s)
stored s panic = (panic, s)

abbrev pub then_overwrite : Bool → Peer → Result Peer → Result Peer
then_overwrite editable_keys peer (ok prepared) =
    ok (overwrite_user_editable_fields prepared peer editable_keys)
then_overwrite editable_keys peer (err e) = err e
then_overwrite editable_keys peer panic = panic

module _ (g : PeerGorm) (c : Controllers) (l : IpLibraries) (cfg : PeersConfig) where
  open g use {Db}
  open c use {Backends}

  abbrev pub World : Type 0
  World = State Db Backends

  -- The function that `savePeers` gives to `SavePeer` of the repository.
  unfoldable pub push_peer : Interface → Peer → Peer → Backends → Result Peer × Backends
  unfolding get_controller
  push_peer i peer p w = elim (get_controller cfg.backends i) [
    | panic ↦ (panic, w)
    | err e ↦ (err e, w)
    | ok name ↦
        let q = copy_calculated_attributes peer p in
        let r =
          c.save name q.interface_identifier q.identifier (λ pp. merge_to_physical_peer l pp q) w in
        (wrapping "failed to save wireguard peer" (given q (r.0)), r.1)
  ]

  unfoldable pub store_peer : Context → ℕ → Interface → Peer → Run World Peer
  unfolding push_peer
  store_peer ctx now i peer s =
      let r = save_peer g ctx now peer.identifier (push_peer i peer) s.db s.wg in
      stored (record s { wg = r.1 }) (wrapping "save failure" (r.0))

  abbrev pub with_awg : Interface → Peer → Peer
  with_awg i peer = record peer { interface = record peer.interface { awg = i.awg } }

  -- The routes of an interface.
  unfoldable pub publish_routes : Interface → List Peer → Run World (Unit {0})
  publish_routes i peers = do
    allowed ← lift (get_allowed_ips l i peers)
    publish (
        route_update (record {
          interface = i;
          allowed_ips = allowed;
          fw_mark = i.firewall_mark;
          table = get_routing_table i;
          table_str = i.routing_table;
          is_deleted = false;
        }))

  unfoldable pub save_peers : Context → ℕ → Peer → Run World Peer
  unfolding store_peer publish_routes
  save_peers ctx now peer = do
    i ←
        read
          (λ d. wrapping "unable to find interface" (get_interface g d peer.interface_identifier))
    saved ← store_peer ctx now i (with_awg i peer)
    publish (audit_peer_saved saved)
    peers ← read (λ d.
        wrapping "failed to re-load peers" (get_interface_peers g d peer.interface_identifier))
    publish_routes i peers
    publish (peer_interface_updated peer.interface_identifier)
    return saved

  -- The peer that `CreatePeer` creates when it was asked for `peer`.
  unfoldable pub peer_to_create : Context → ℕ → Keys → Peer → Db → Result Peer
  unfolding prepare_peer
  peer_to_create ctx now keys peer d =
      if not (get_user_info ctx).is_admin || peer.interface.key_pair.private_key == ""
      then then_overwrite cfg.editable_keys peer (
          wrapping "failed to prepare peer"
            (prepare_peer g l cfg ctx now keys peer.interface_identifier d))
      else ok (record peer { identifier = peer.interface.key_pair.public_key })

  unfoldable pub create_peer : Context → ℕ → Keys → Peer → Run World Peer
  unfolding peer_to_create save_peers
  create_peer ctx now keys peer = do
    read (check_creation_access g l cfg ctx peer)
    read (check_peer_limit g l cfg ctx peer.user_identifier)
    existing ← read (λ d. optional "unable to load existing peer" (get_peer g d peer.identifier))
    lift (guard (is_none existing) (wrap "peer already exists" (sentinel duplicate_entry)))
    new ← read (peer_to_create ctx now keys peer)
    read (λ d. wrapping "creation not allowed" (validate_peer_creation g l cfg ctx new d))
    saved ← naming "creation failure" (save_peers ctx now new)
    publish (peer_created saved)
    return saved

  -- `DeletePeer`
  unfoldable pub remove_peer : Context → String → Run World (Unit {0})
  unfolding publish_routes get_controller
  remove_peer ctx id = do
    peer ← read (λ d. wrapping "unable to find peer" (get_peer g d id))
    lift (validate_user_access_rights ctx peer.user_identifier)
    read (check_interface_access g l cfg ctx peer.interface_identifier)
    lift (wrapping "delete not allowed" (validate_peer_deletion cfg ctx))
    i ←
        read
          (λ d. wrapping "unable to find interface" (get_interface g d peer.interface_identifier))
    name ← lift (get_controller cfg.backends i)
    naming "wireguard failed to delete peer" (on_wg (c.delete name peer.interface_identifier id))
    naming "failed to delete peer" (write (λ d. delete_peer g d id))
    peers ← read (λ d. wrapping "failed to load peers" (get_interface_peers g d i.identifier))
    publish (peer_deleted peer)
    publish_routes i peers
    publish (peer_interface_updated peer.interface_identifier)

  -- The part of `UpdatePeer` for a new public key
  unfoldable pub reidentify : Context → ℕ → Peer → Peer → Run World Peer
  unfolding remove_peer save_peers
  reidentify ctx now existing peer = do
    let new = record peer { identifier = peer.interface.key_pair.public_key }
    duplicate ← read (λ d. optional "unable to load existing peer" (get_peer g d new.identifier))
    lift (guard (is_none duplicate) (wrap "peer already exists" (sentinel duplicate_entry)))
    naming "failed to delete old peer" (remove_peer ctx existing.identifier)
    saved ← naming "update failure for re-identified peer" (save_peers ctx now new)
    publish (peer_identifier_updated existing.identifier saved.identifier)
    return saved

  -- The peer that `UpdatePeer` stores when it was asked for `peer`, but for a new identifier.
  unfoldable pub peer_to_update : Context → Peer → Db → Result Peer
  peer_to_update ctx peer d =
      if (get_user_info ctx).is_admin
      then ok peer
      else then_overwrite cfg.editable_keys peer
          (wrapping "unable to load existing peer" (get_peer g d peer.identifier))

  unfoldable pub update_peer : Context → ℕ → Peer → Run World Peer
  unfolding peer_to_update reidentify save_peers
  update_peer ctx now peer = do
    existing ← read (λ d. wrapping "unable to load existing peer" (get_peer g d peer.identifier))
    lift (validate_user_access_rights ctx existing.user_identifier)
    read (check_interface_access g l cfg ctx existing.interface_identifier)
    lift (wrapping "update not allowed" (validate_peer_modifications cfg ctx))
    new ← read (peer_to_update ctx peer)
    saved ←
        if existing.identifier == new.interface.key_pair.public_key
        then naming "update failure" (save_peers ctx now new)
        else reidentify ctx now existing new
    publish (peer_updated saved)
    return saved
