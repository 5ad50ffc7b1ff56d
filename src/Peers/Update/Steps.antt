-- ===== src/Peers/Update/Steps.antt =====
-- The steps of a successful `UpdatePeer` of internal/app/wireguard/wireguard_peers.go.
use awg_portal.Prelude.{
  ℕ, ◌≡◌, ◌⊎◌, ap, sym, ◌∙◌, ◌==◌, string_eq, if◌then◌else◌, inl, inr, Bool-cases,
}
use awg_portal.Errors.{Result, ok, wrap, sentinel, duplicate_entry, guard, wrapping, wrapping-eq-ok}
use awg_portal.Access.{Context, validate_user_access_rights}
use awg_portal.Ip.{IpLibraries}
use awg_portal.Peer.{Peer}
use awg_portal.Peer.Editing.{DiffersInEditable, edited}
use awg_portal.Preparation.{PeersConfig, check_interface_access, validate_peer_modifications}
use awg_portal.Database.{optional}
use awg_portal.Database.PeerStore.{PeerGorm, get_peer}
use awg_portal.Peers.Monad.{run-eq-ok, lift-eq-ok, naming, naming-eq-ok}
use awg_portal.Peers.{
  Controllers, World, is_none, save_peers, remove_peer, peer_to_update, reidentify, update_peer,
}
use awg_portal.Peers.Saving.{Saved, save_peers-Saved, Saved-same}
use awg_portal.Peers.Removal.{Removed, remove_peer-Removed}

-- Two peers that differ at most in what a user may edit, in the `BaseModel` and in the AWG parameters,
-- which are those of the interface.
abbrev pub Confined : Peer → Peer → Type 0
Confined old new =
    DiffersInEditable old
      (record new { base = old.base; interface = record new.interface { awg = old.interface.awg } })

module _ (g : PeerGorm) (c : Controllers) (l : IpLibraries) (cfg : PeersConfig)
    (ctx : Context) where
  open g use {Db}

  pub Saved-Confined :
      (old new saved : Peer) (s s' : World g c l cfg)
      → DiffersInEditable old new
      → Saved g c l cfg ctx new saved s s'
      → Confined old saved
  Saved-Confined old new saved s s' h done =
      ap
        (λ (x : Peer). edited old (record x {
          base = old.base;
          interface = record x.interface { awg = old.interface.awg };
        }))
        done.fields
      ∙ ap
          (λ (x : Peer). record x {
            base = old.base;
            interface = record x.interface { awg = old.interface.awg };
          })
          h

  -- What a successful change of the identifier has done: it has removed the old peer and stored the new one.
  pub record Reidentified (old new saved : Peer) (s s' : World g c l cfg) : Type 0 where
    pub between : World g c l cfg
    pub removed : Removed g c l cfg ctx old.identifier s between
    pub done : Saved g c l cfg ctx new saved between s'

  Reidentified-same :
      (old new p q : Peer) (s t u : World g c l cfg)
      → p ≡ q
      → t.db ≡ u.db
      → Reidentified old new p s t
      → Reidentified old new q s u
  Reidentified-same old new p q s t u same db r = record {
    between = r.between;
    removed = r.removed;
    done = Saved-same g c l cfg ctx new p q r.between t u same db r.done;
  }

  reidentify-Reidentified :
      (now : ℕ) (old peer saved : Peer) (s s' : World g c l cfg)
      → reidentify g c l cfg ctx now old peer s ≡ (ok saved, s')
      → Reidentified old
          (record peer { identifier = peer.interface.key_pair.public_key })
          saved
          s
          s'
  unfolding reidentify
  reidentify-Reidentified now old peer saved s s' h =
      let new : Peer = record peer { identifier = peer.interface.key_pair.public_key } in
      let (o, e₁, h₁) =
        lift-eq-ok (optional "unable to load existing peer" (get_peer g s.db new.identifier)) _ s
          h in
      let (t₂, e₂, h₂) =
        lift-eq-ok (guard (is_none o) (wrap "peer already exists" (sentinel duplicate_entry))) _ s
          h₁ in
      let (t₃, t, e₃, h₃) =
        run-eq-ok (naming "failed to delete old peer" (remove_peer g c l cfg ctx old.identifier)) _
          s h₂ in
      let (p, v, e₄, h₄) =
        run-eq-ok
          (naming "update failure for re-identified peer" (save_peers g c l cfg ctx now new)) _ t
          h₃ in
      let done = save_peers-Saved g c l cfg ctx now new p t v (
        naming-eq-ok "update failure for re-identified peer" (save_peers g c l cfg ctx now new) t
          e₄) in
      let kept : ok p ≡ ok saved = ap (λ (r : Result Peer × World g c l cfg). r.0) h₄ in
      let p_same : p ≡ saved = cc in
      record {
        between = t;
        removed = remove_peer-Removed g c l cfg ctx old.identifier s t t₃ (
            naming-eq-ok "failed to delete old peer" (remove_peer g c l cfg ctx old.identifier) s
              e₃);
        done =
            Saved-same g c l cfg ctx new p saved t v s' p_same
              (ap (λ (r : Result Peer × World g c l cfg). r.1.db) h₄) done;
      }

  -- The steps of a successful `UpdatePeer`.
  pub record UpdateSteps (peer saved : Peer) (s s' : World g c l cfg) : Type 0 where
    pub existing : Peer
    pub found : get_peer g s.db peer.identifier ≡ ok existing
    pub allowed : validate_user_access_rights ctx existing.user_identifier ≡ ok tt
    pub permitted : validate_peer_modifications cfg ctx ≡ ok tt
    pub new : Peer
    pub updated : peer_to_update g c l cfg ctx peer s.db ≡ ok new
    pub stored :
        Saved g c l cfg ctx new saved s s'
        ⊎ Reidentified existing
            (record new { identifier = new.interface.key_pair.public_key })
            saved
            s
            s'

  pub update_peer-UpdateSteps :
      (now : ℕ) (peer saved : Peer) (s s' : World g c l cfg)
      → update_peer g c l cfg ctx now peer s ≡ (ok saved, s')
      → UpdateSteps peer saved s s'
  unfolding update_peer
  update_peer-UpdateSteps now peer saved s s' h =
      let (old, e₁, h₁) =
        lift-eq-ok (wrapping "unable to load existing peer" (get_peer g s.db peer.identifier)) _ s
          h in
      let (t₂, e₂, h₂) = lift-eq-ok (validate_user_access_rights ctx old.user_identifier) _ s h₁ in
      let (t₃, e₃, h₃) =
        lift-eq-ok (check_interface_access g l cfg ctx old.interface_identifier s.db) _ s h₂ in
      let (t₄, e₄, h₄) =
        lift-eq-ok (wrapping "update not allowed" (validate_peer_modifications cfg ctx)) _ s h₃ in
      let (new, e₅, h₅) = lift-eq-ok (peer_to_update g c l cfg ctx peer s.db) _ s h₄ in
      let plain = naming "update failure" (save_peers g c l cfg ctx now new) in
      let again = reidentify g c l cfg ctx now old new in
      let same_id = old.identifier == new.interface.key_pair.public_key in
      let (p, t, e₆, h₆) = run-eq-ok (if same_id then plain else again) _ s h₅ in
      let kept : ok p ≡ ok saved = ap (λ (r : Result Peer × World g c l cfg). r.0) h₆ in
      let p_same : p ≡ saved = cc in
      let db_same : t.db ≡ s'.db = ap (λ (r : Result Peer × World g c l cfg). r.1.db) h₆ in
      record {
        existing = old;
        found = wrapping-eq-ok _ _ e₁;
        allowed = e₂;
        permitted = wrapping-eq-ok _ _ e₄;
        new = new;
        updated = e₅;
        stored = elim (Bool-cases same_id) [
          | inl yes_same ↦
              let run : plain s ≡ (ok p, t) =
                ap (λ b. (if b then plain else again) s) (sym yes_same) ∙ e₆ in
              inl (
                Saved-same g c l cfg ctx new p saved s t s' p_same db_same (
                  save_peers-Saved g c l cfg ctx now new p s t
                    (naming-eq-ok "update failure" (save_peers g c l cfg ctx now new) s run)))
          | inr other ↦
              let run : again s ≡ (ok p, t) =
                ap (λ b. (if b then plain else again) s) (sym other) ∙ e₆ in
              inr (
                Reidentified-same old
                  (record new { identifier = new.interface.key_pair.public_key }) p saved s t s'
                  p_same db_same (reidentify-Reidentified now old new p s t run))
        ];
      }
