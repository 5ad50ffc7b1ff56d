-- ===== src/Peers/Batches.antt =====
-- The operations of internal/app/wireguard/wireguard_peers.go that create several peers.
use awg_portal.Prelude.{
  ℕ, String, ◌==◌, string_eq, not, Option, none, some, List, [], ◌∷◌, if◌then◌else◌,
}
use Prim.Native.String
use awg_portal.Errors.{Error, Result, ok, err, panic, wrap, join, wrapping}
use awg_portal.Access.{Context, validate_admin_access_rights}
use awg_portal.Peers.Monad.{Run, ◌>>=◌, ◌>>◌, return, lift, naming}
use awg_portal.Ip.{IpLibraries}
use awg_portal.Interface as Interface
use awg_portal.User.{User}
use awg_portal.Interface.{
  Interface, KeyPair, new_config_option, is_user_allowed, interface_type_server,
  interface_type_client,
}
use awg_portal.Peer.{Peer}
use awg_portal.Database.PeerStore.{
  PeerGorm, get_interface, get_all_interfaces, get_user, get_all_users,
}
use awg_portal.Preparation.{
  PeersConfig, Keys, default_peer_creation_enabled, prepare_peer, prepare_default_peer,
  validate_peer_creation,
}
use awg_portal.Peers.{World, Controllers, publish, read, save_peers, create_peer, peer_created}

-- The errors of a loop so far, and its end.
abbrev pub joined : Option Error → Error → Option Error
joined none e = some e
joined (some f) e = some (join f e)

abbrev pub failed : Option Error → Result (Unit {0})
failed none = ok tt
failed (some e) = err (wrap "failed to create default peers for interface" e)

module _ (g : PeerGorm) (c : Controllers) (l : IpLibraries) (cfg : PeersConfig) where
  abbrev pub named_for : String → String → Peer → Peer
  named_for user prefix peer = record peer {
    user_identifier = user;
    display_name =
        if prefix == ""
        then peer.display_name
        else String.◌++◌ prefix (String.◌++◌ " " peer.display_name);
  }

  -- The loop of `CreateMultiplePeers` over the user identifiers, each with the keys that it draws.
  unfoldable pub create_for :
      Context → ℕ → String → String → List (String × Keys) → Run (World g c l cfg) (List Peer)
  unfolding save_peers
  create_for ctx now interface_id prefix [] = return []
  create_for ctx now interface_id prefix ((user, keys) ∷ rest) = do
    fresh ←
        read (λ d.
          wrapping "failed to prepare peer" (prepare_peer g l cfg ctx now keys interface_id d))
    let peer = named_for user prefix fresh
    read (λ d. wrapping "creation not allowed" (validate_peer_creation g l cfg ctx peer d))
    saved ← naming "failed to create new peer" (save_peers g c l cfg ctx now peer)
    publish (peer_created saved)
    others ← create_for ctx now interface_id prefix rest
    return (saved ∷ others)

  unfoldable pub create_multiple_peers :
      Context → ℕ → String → String → List (String × Keys) → Run (World g c l cfg) (List Peer)
  unfolding create_for
  create_multiple_peers ctx now interface_id prefix users = do
    lift (validate_admin_access_rights ctx)
    create_for ctx now interface_id prefix users

  -- The first loop of `CreateDefaultPeer`; `keys` gives what the preparation for an interface draws.
  unfoldable pub default_peers_for :
      Context → ℕ → (String → Keys) → User → List Interface → Run (World g c l cfg) (List Peer)
  default_peers_for ctx now keys user [] = return []
  default_peers_for ctx now keys user (i ∷ is) = do
    peer ← read (λ d.
        wrapping "failed to prepare default peer"
          (prepare_default_peer g l cfg ctx now (keys i.identifier) i user d))
    others ← default_peers_for ctx now keys user is
    return (elim peer [ none ↦ others | some p ↦ p ∷ others ])

  -- The second loop
  unfoldable pub create_all :
      Context → ℕ → (String → Keys) → List Peer → Run (World g c l cfg) (Unit {0})
  unfolding create_peer
  create_all ctx now keys [] = return tt
  create_all ctx now keys (p ∷ ps) = do
    saved ←
        naming "failed to create default peer"
          (create_peer g c l cfg ctx now (keys p.interface_identifier) p)
    create_all ctx now keys ps

  unfoldable pub create_default_peer :
      Context → ℕ → (String → Keys) → String → Run (World g c l cfg) (Unit {0})
  unfolding default_peers_for create_all
  create_default_peer ctx now keys user_id =
      if not (default_peer_creation_enabled cfg) then return tt else do
        lift (validate_admin_access_rights ctx)
        interfaces ← read (λ d. wrapping "failed to fetch all interfaces" (get_all_interfaces g d))
        user ← read (λ d. wrapping "failed to fetch user" (get_user g d user_id))
        peers ← default_peers_for ctx now keys user interfaces
        create_all ctx now keys peers

  -- One round of the loop of `CreateDefaultPeers`
  unfoldable pub create_default_for :
      Context → ℕ → Keys → Interface → User → Run (World g c l cfg) (Unit {0})
  unfolding create_peer
  create_default_for ctx now keys i user = do
    peer ← read (λ d.
        wrapping "failed to prepare default peer"
          (prepare_default_peer g l cfg ctx now keys i user d))
    elim peer [
      | none ↦ return tt
      | some p ↦ do
        saved ← naming "failed to create default peer" (create_peer g c l cfg ctx now keys p)
        return tt
    ]

  -- The loop goes on after an error. `errors.Join` of nothing and an error is taken for that error.
  unfoldable pub create_defaults :
      Context
      → ℕ
      → (String → Keys)
      → Interface
      → Option Error
      → List User
      → Run (World g c l cfg) (Unit {0})
  unfolding create_default_for
  create_defaults ctx now keys i errs [] s = (failed errs, s)
  create_defaults ctx now keys i errs (u ∷ us) s =
      let r = create_default_for ctx now (keys u.identifier) i u s in
      elim (r.0) [
        | panic ↦ (panic, r.1)
        | err e ↦ create_defaults ctx now keys i (joined errs e) us (r.1)
        | ok done ↦ create_defaults ctx now keys i errs us (r.1)
      ]

  unfoldable pub create_default_peers :
      Context → ℕ → (String → Keys) → String → Run (World g c l cfg) (Unit {0})
  unfolding create_defaults
  create_default_peers ctx now keys interface_id =
      if not (default_peer_creation_enabled cfg) then return tt else do
        lift (validate_admin_access_rights ctx)
        i ← read (λ d. wrapping "failed to fetch interface" (get_interface g d interface_id))
        if Interface.create_default_peers i
            then (do
              users ← read (λ d. wrapping "failed to fetch all users" (get_all_users g d))
              create_defaults ctx now keys i none users)
            else return tt
