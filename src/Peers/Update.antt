-- ===== src/Peers/Update.antt =====
-- `UpdatePeer` of internal/app/wireguard/wireguard_peers.go.
pub mod Steps
use awg_portal.Prelude.{
  ℕ, String, true, false, ◌≡◌, ◌⊎◌, ap, subst, sym, ◌∙◌, none, some, ◌==◌, string_eq, eq_iff,
  if◌then◌else◌, arith, inl, inr, Bool-cases,
}
use awg_portal.Errors.{Result, ok, wrap, sentinel, duplicate_entry, guard, wrapping, wrapping-eq-ok}
use awg_portal.Access.{Context, get_user_info, validate_user_access_rights}
use awg_portal.Ip.{IpLibraries}
use awg_portal.Peer.{Peer, overwrite_user_editable_fields}
use awg_portal.Peer.Editing.{DiffersInEditable, edited, overwrite-DiffersInEditable}
use awg_portal.Preparation.{PeersConfig, check_interface_access, validate_peer_modifications}
use awg_portal.Database.{optional}
use awg_portal.Database.PeerStore.{PeerGorm, get_peer}
use awg_portal.Peers.Monad.{run-eq-ok, lift-eq-ok, naming, naming-eq-ok}
use awg_portal.Peers.{
  Controllers, World, is_none, save_peers, remove_peer, then_overwrite, peer_to_update, reidentify,
  update_peer,
}
use awg_portal.Peers.Saving.{Saved, save_peers-Saved, Saved-same, then_overwrite-eq-ok}
use awg_portal.Database.PeerLaws.{Stores-self, Stores-other}
use awg_portal.Peers.Removal.{Removed, remove_peer-Removed}
use awg_portal.Peers.Update.Steps.{
  UpdateSteps, Confined, Saved-Confined, Reidentified, update_peer-UpdateSteps,
}

module _ (g : PeerGorm) (c : Controllers) (l : IpLibraries) (cfg : PeersConfig)
    (ctx : Context) where
  open g use {Db}

  -- What a successful `UpdatePeer` of a user without admin rights means.
  pub record UpdatedByUser (peer saved : Peer) (s s' : World g c l cfg) : Type 0 where
    pub self_provisioning : cfg.self_provisioning_allowed ≡ true
    pub existing : Peer
    pub found : get_peer g s.db peer.identifier ≡ ok existing
    pub owner : existing.user_identifier ≡ (get_user_info ctx).id
    pub confined : Confined existing saved
    pub disabled : saved.disabled ≡ peer.disabled
    pub keys : cfg.editable_keys ≡ false → saved.interface.key_pair ≡ existing.interface.key_pair
    pub stored : get_peer g s'.db saved.identifier ≡ ok saved
    pub others :
        (k : String)
        → (existing.identifier == k) ≡ false
        → (saved.identifier == k) ≡ false
        → g.load_peer s'.db k ≡ g.load_peer s.db k

  module _ (now : ℕ) (peer saved : Peer) (s s' : World g c l cfg)
      (by_user : (get_user_info ctx).is_admin ≡ false)
      (updated : update_peer g c l cfg ctx now peer s ≡ (ok saved, s')) where
    steps : UpdateSteps g c l cfg ctx peer saved s s'
    steps = update_peer-UpdateSteps g c l cfg ctx now peer saved s s' updated

    overwritten : steps.new ≡ overwrite_user_editable_fields steps.existing peer cfg.editable_keys
    unfolding peer_to_update
    overwritten =
        let again = wrapping "unable to load existing peer" (get_peer g s.db peer.identifier) in
        let run : then_overwrite cfg.editable_keys peer again ≡ ok steps.new =
          ground (arith, steps.updated, by_user) in
        let (p, e, same) = then_overwrite-eq-ok cfg.editable_keys peer again steps.new run in
        let equal : p ≡ steps.existing = cc (wrapping-eq-ok _ _ e, steps.found) in
        same ∙ ap (λ q. overwrite_user_editable_fields q peer cfg.editable_keys) equal

    new-DiffersInEditable : DiffersInEditable steps.existing steps.new
    new-DiffersInEditable =
        subst (DiffersInEditable steps.existing) (sym overwritten)
          (overwrite-DiffersInEditable steps.existing peer cfg.editable_keys)

    owned :
        (cfg.self_provisioning_allowed ≡ true)
        × (steps.existing.user_identifier ≡ (get_user_info ctx).id)
    unfolding validate_user_access_rights validate_peer_modifications
    owned = (
      ground (arith, steps.permitted, by_user),
      ground (
        arith,
        steps.allowed,
        by_user,
        eq_iff (get_user_info ctx).id steps.existing.user_identifier,
      ),
    )

    -- What the new peer gets from the request, whatever becomes of the identifier.
    disabled_from : (q : Peer) → q.disabled ≡ steps.new.disabled → q.disabled ≡ peer.disabled
    unfolding overwrite_user_editable_fields
    disabled_from q e = e ∙ ap (λ (x : Peer). x.disabled) overwritten

    keys_from :
        cfg.editable_keys ≡ false → steps.new.interface.key_pair ≡ steps.existing.interface.key_pair
    unfolding overwrite_user_editable_fields
    keys_from off =
        ap (λ (x : Peer). x.interface.key_pair)
          (overwritten ∙ ap (overwrite_user_editable_fields steps.existing peer) off)

    get_peer-stored :
        (d : Db) (p : Peer)
        → g.load_peer d p.identifier ≡ ok (some p)
        → get_peer g d p.identifier ≡ ok p
    unfolding get_peer
    get_peer-stored d p h = rw h

    -- A user without admin rights who updates a peer needs self provisioning and owns the stored peer. The
    -- new peer differs from it at most in the fields that a user may edit (its key pair only if keys are
    -- editable), in the `BaseModel` and in the AWG parameters. Whether it is disabled is what the request
    -- says. The new peer is stored, and no peer but it and the old one changes.
    pub update_peer-UpdatedByUser : UpdatedByUser peer saved s s'
    update_peer-UpdatedByUser = elim (steps.stored) [
      | inl done ↦ record {
        self_provisioning = owned.0;
        existing = steps.existing;
        found = steps.found;
        owner = owned.1;
        confined =
            Saved-Confined g c l cfg ctx steps.existing steps.new saved s s' new-DiffersInEditable
              done;
        disabled = disabled_from saved (ap (λ (x : Peer). x.disabled) done.fields);
        keys = λ off. ap (λ (x : Peer). x.interface.key_pair) done.fields ∙ keys_from off;
        stored = get_peer-stored s'.db saved (Stores-self g s.db s'.db saved done.stores);
        others = λ k old new. Stores-other g s.db s'.db saved k done.stores new;
      }
      | inr again ↦ record {
        self_provisioning = owned.0;
        existing = steps.existing;
        found = steps.found;
        owner = owned.1;
        confined =
            Saved-Confined g c l cfg ctx steps.existing
              (record steps.new { identifier = steps.new.interface.key_pair.public_key }) saved
              again.between s' new-DiffersInEditable again.done;
        disabled = disabled_from saved (ap (λ (x : Peer). x.disabled) again.done.fields);
        keys = λ off. ap (λ (x : Peer). x.interface.key_pair) again.done.fields ∙ keys_from off;
        stored =
            get_peer-stored s'.db saved
              (Stores-self g again.between.db s'.db saved again.done.stores);
        others = λ k old new.
            Stores-other g again.between.db s'.db saved k again.done.stores new
            ∙ (again.removed.gone k ∙ ap (λ b. if b then ok none else g.load_peer s.db k) old);
      }
    ]
