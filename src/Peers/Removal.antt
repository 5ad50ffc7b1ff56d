-- ===== src/Peers/Removal.antt =====
-- `DeletePeer` of internal/app/wireguard/wireguard_peers.go.
use awg_portal.Prelude.{
  String, true, ◌||◌, ◌≡◌, ap, sym, ◌∙◌, none, ◌==◌, string_eq, if◌then◌else◌, arith, inl, inr, [],
  ◌∷◌, ◌++◌,
}
use awg_portal.Errors.{Result, ok, bind-eq-ok, wrapping, wrapping-eq-ok, Result-cases}
use awg_portal.Access.{Context, get_user_info, validate_user_access_rights}
use awg_portal.Ip.{IpLibraries}
use awg_portal.Peer.{Peer}
use awg_portal.Preparation.{PeersConfig, check_interface_access, validate_peer_deletion}
use awg_portal.Database.PeerStore.{
  PeerGorm, get_interface, get_interface_peers, get_peer, delete_peer,
}
use awg_portal.Peers.Monad.{run-eq-ok, lift-eq-ok, naming, naming-eq-ok}
use awg_portal.Peers.{
  Controllers, World, on_wg, write, get_controller, publish_routes, remove_peer, peer_deleted,
}
use awg_portal.Peers.Saving.{publish_routes-db}

module _ (g : PeerGorm) (c : Controllers) (l : IpLibraries) (cfg : PeersConfig) where
  open g use {Db}

  -- What a successful `DeletePeer` has checked and done.
  pub record Removed (ctx : Context) (id : String) (s s' : World g c l cfg) : Type 0 where
    pub peer : Peer
    pub found : get_peer g s.db id ≡ ok peer
    pub allowed : validate_user_access_rights ctx peer.user_identifier ≡ ok tt
    pub accessible : check_interface_access g l cfg ctx peer.interface_identifier s.db ≡ ok tt
    pub permitted : ((get_user_info ctx).is_admin || cfg.self_provisioning_allowed) ≡ true
    pub gone :
        (k : String) → g.load_peer s'.db k ≡ (if id == k then ok none else g.load_peer s.db k)

  delete_peer_lem :
      (d d' : Db) (id : String)
      → delete_peer g d id ≡ ok d'
      → (k : String) → g.load_peer d' k ≡ (if id == k then ok none else g.load_peer d k)
  unfolding delete_peer
  delete_peer_lem d d' id h k =
      let (d₁, e₁, h₁) = bind-eq-ok (g.delete_status d id) _ h in
      let (d₂, e₂, h₂) = bind-eq-ok (g.delete d₁ id) _ h₁ in
      ground (
        arith,
        g.load_peer-delete_status d d₁ id k,
        g.load_peer-delete d₁ d₂ id k,
        g.load_peer-commit d₂ d' k,
      )

  write-eq-ok :
      (f : Db → Result Db) (s s' : World g c l cfg) (u : Unit {0})
      → write f s ≡ (ok u, s')
      → f s.db ≡ ok s'.db
  write-eq-ok f s s' u h = elim (Result-cases (f s.db)) [
    | inl stop ↦ absurd (ground (arith, stop))
    | inr (inl (x, stop)) ↦ absurd (ground (arith, stop))
    | inr (inr (d, got)) ↦ ground (arith, got)
  ]

  validate_peer_deletion_lem :
      (ctx : Context)
      → validate_peer_deletion cfg ctx ≡ ok tt
      → ((get_user_info ctx).is_admin || cfg.self_provisioning_allowed) ≡ true
  unfolding validate_peer_deletion
  validate_peer_deletion_lem ctx h = ground arith

  -- A successful `DeletePeer` has found the peer, checked that the acting user may access its owner's data
  -- and its interface and is an admin or self provisioning is on, and has removed it from the table of peers,
  -- in which nothing else changes.
  pub remove_peer-Removed :
      (ctx : Context) (id : String) (s s' : World g c l cfg) (u : Unit {0})
      → remove_peer g c l cfg ctx id s ≡ (ok u, s')
      → Removed ctx id s s'
  unfolding remove_peer
  remove_peer-Removed ctx id s s' u h =
      let (peer, e₁, h₁) = lift-eq-ok (wrapping "unable to find peer" (get_peer g s.db id)) _ s h in
      let (t₂, e₂, h₂) = lift-eq-ok (validate_user_access_rights ctx peer.user_identifier) _ s h₁ in
      let (t₃, e₃, h₃) =
        lift-eq-ok (check_interface_access g l cfg ctx peer.interface_identifier s.db) _ s h₂ in
      let (t₄, e₄, h₄) =
        lift-eq-ok (wrapping "delete not allowed" (validate_peer_deletion cfg ctx)) _ s h₃ in
      let (i, e₅, h₅) =
        lift-eq-ok
          (wrapping "unable to find interface" (get_interface g s.db peer.interface_identifier)) _ s
          h₄ in
      let (name, e₆, h₆) = lift-eq-ok (get_controller cfg.backends i) _ s h₅ in
      let on_controller = on_wg (c.delete name peer.interface_identifier id) in
      let (t₇, v, e₇, h₇) =
        run-eq-ok (naming "wireguard failed to delete peer" on_controller) _ s h₆ in
      let (t₈, w, e₈, h₈) =
        run-eq-ok (naming "failed to delete peer" (write (λ d. delete_peer g d id))) _ v h₇ in
      let deleted =
        write-eq-ok (λ d. delete_peer g d id) v w t₈
          (naming-eq-ok "failed to delete peer" (write (λ d. delete_peer g d id)) v e₈) in
      let v_db : v.db ≡ s.db = sym (ap (λ (r : Result (Unit {0}) × World g c l cfg). r.1.db) e₇) in
      let (peers, e₉, h₉) =
        lift-eq-ok (wrapping "failed to load peers" (get_interface_peers g w.db i.identifier)) _ w
          h₈ in
      let x : World g c l cfg = record w { events = w.events ++ peer_deleted peer ∷ [] } in
      let (t₁₀, y, e₁₀, h₁₀) = run-eq-ok (publish_routes g c l cfg i peers) _ x h₉ in
      let end : s'.db ≡ w.db =
        sym (ap (λ (r : Result (Unit {0}) × World g c l cfg). r.1.db) h₁₀)
        ∙ publish_routes-db g c l cfg i peers x y t₁₀ e₁₀ in
      let deleted_here : delete_peer g s.db id ≡ ok s'.db =
        ap (λ d. delete_peer g d id) (sym v_db) ∙ (deleted ∙ ap (λ (d : Db). ok d) (sym end)) in
      record {
        peer = peer;
        found = wrapping-eq-ok _ _ e₁;
        allowed = e₂;
        accessible = e₃;
        permitted = validate_peer_deletion_lem ctx (wrapping-eq-ok _ _ e₄);
        gone = delete_peer_lem s.db s'.db id deleted_here;
      }
