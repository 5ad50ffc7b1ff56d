-- ===== src/Database/PeerMemory.antt =====
-- A database in memory with the laws that Database/PeerStore states, for internal/adapters/database.go.
use awg_portal.Prelude.{
  String, ◌≡◌, Option, none, some, ◌==◌, string_eq, List, [], ◌∷◌, ◌++◌, if◌then◌else◌, arith,
  eq_iff, ◌∙◌,
}
use awg_portal.Errors.{Result, ok}
use awg_portal.User.{User}
use awg_portal.Ip.{Cidr}
use awg_portal.Interface.{Interface}
use awg_portal.Peer.{Peer}
use awg_portal.Database.PeerStore.{PeerGorm}

pub record Tables : Type 0 where
  pub interfaces : List Interface
  pub peers : List Peer
  pub users : List User

unfoldable pub find_interface : String → List Interface → Option Interface
find_interface id [] = none
find_interface id (i ∷ is) =
    let rest = find_interface id is in if i.identifier == id then some i else rest

unfoldable pub find_user : String → List User → Option User
find_user id [] = none
find_user id (u ∷ us) = let rest = find_user id us in if u.identifier == id then some u else rest

unfoldable pub find_peer : String → List Peer → Option Peer
find_peer id [] = none
find_peer id (p ∷ ps) = let rest = find_peer id ps in if p.identifier == id then some p else rest

unfoldable pub put : Peer → List Peer → List Peer
put p [] = p ∷ []
put p (q ∷ ps) = let rest = put p ps in if q.identifier == p.identifier then p ∷ ps else q ∷ rest

unfoldable pub remove : String → List Peer → List Peer
remove id [] = []
remove id (p ∷ ps) = let rest = remove id ps in if p.identifier == id then rest else p ∷ rest

unfoldable pub on_interface : String → List Peer → List Peer
on_interface id [] = []
on_interface id (p ∷ ps) =
    let rest = on_interface id ps in if p.interface_identifier == id then p ∷ rest else rest

unfoldable pub of_user : String → List Peer → List Peer
of_user id [] = []
of_user id (p ∷ ps) = let rest = of_user id ps in if p.user_identifier == id then p ∷ rest else rest

unfoldable pub peer_addresses : List Peer → List Cidr
peer_addresses [] = []
peer_addresses (p ∷ ps) = p.interface.addresses ++ peer_addresses ps

unfoldable pub interface_addresses : List Interface → List Cidr
interface_addresses [] = []
interface_addresses (i ∷ is) = i.addresses ++ interface_addresses is

find_peer-put :
    (p : Peer) (id : String) (ps : List Peer)
    → find_peer id (put p ps) ≡ (if p.identifier == id then some p else find_peer id ps)
unfolding find_peer put
find_peer-put p id [] = ground arith
find_peer-put p id (q ∷ ps) = ground (
  arith,
  eq_iff q.identifier p.identifier,
  eq_iff q.identifier id,
  eq_iff p.identifier id,
  find_peer-put p id ps,
)

find_peer-remove :
    (k id : String) (ps : List Peer)
    → find_peer id (remove k ps) ≡ (if k == id then none else find_peer id ps)
unfolding find_peer remove
find_peer-remove k id [] = ground arith
find_peer-remove k id (q ∷ ps) =
    ground
      (arith, eq_iff q.identifier k, eq_iff q.identifier id, eq_iff k id, find_peer-remove k id ps)

abbrev pub load : Tables → String → Result (Option Peer)
load d id = ok (find_peer id d.peers)

abbrev pub stored : Tables → Peer → Result Tables
stored d p = ok (record d { peers = put p d.peers })

pub load-stored :
    (d d' : Tables) (p : Peer) (id : String)
    → stored d p ≡ ok d'
    → load d' id ≡ (if p.identifier == id then ok (some p) else load d id)
load-stored d d' p id h = ground (arith, find_peer-put p id d.peers)

pub load-same : (d d' : Tables) (id : String) → ok d ≡ ok d' → load d' id ≡ load d id
load-same d d' id h = ground arith

pub load-removed :
    (d d' : Tables) (k id : String)
    → ok (record d { peers = remove k d.peers }) ≡ ok d'
    → load d' id ≡ (if k == id then ok none else load d id)
load-removed d d' k id h = ground (arith, find_peer-remove k id d.peers)

pub load-saved :
    (d d₁ d' : Tables) (p : Peer) (id : String)
    → stored d p ≡ ok d₁
    → ok d₁ ≡ ok d'
    → load d' id ≡ (if p.identifier == id then ok (some p) else load d id)
load-saved d d₁ d' p id h k = load-same d₁ d' id k ∙ load-stored d d₁ p id h

abbrev pub memory : PeerGorm
memory = record {
  Db = Tables;
  load_interface = λ d id. ok (find_interface id d.interfaces);
  load_peer = load;
  load_user = λ d id. ok (find_user id d.users);
  find_users = λ d. ok d.users;
  find_interfaces = λ d. ok d.interfaces;
  find_interface_peers = λ d id. ok (on_interface id d.peers);
  find_user_peers = λ d id. ok (of_user id d.peers);
  scan_interface_addresses = λ d. ok (interface_addresses d.interfaces);
  scan_peer_addresses = λ d. ok (peer_addresses d.peers);
  create = stored;
  save = stored;
  replace_addresses = λ d p. ok d;
  delete_status = λ d id. ok d;
  delete = λ d id. ok (record d { peers = remove id d.peers });
  commit = λ d. ok d;
  load_peer-create = load-stored;
  load_peer-save = load-saved;
  load_peer-delete_status = λ d d' k id h. load-same d d' id h;
  load_peer-delete = load-removed;
  load_peer-commit = load-same;
}
