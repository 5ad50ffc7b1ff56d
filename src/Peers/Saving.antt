-- ===== src/Peers/Saving.antt =====
-- What `savePeers` of internal/app/wireguard/wireguard_peers.go and `SavePeer` of
-- internal/adapters/database.go do to the table of peers.
use awg_portal.Prelude.{
  ℕ, ◌≡◌, refl, ap, subst, sym, ◌∙◌, string_eq, arith, Bool, ◌++◌, ◌∷◌, [], List, inl, inr,
}
use awg_portal.Errors.{Result, ok, err, panic, wrapping, wrapping-eq-ok, Result-cases}
use awg_portal.Access.{Context, ContextUserInfo, get_user_info}
use awg_portal.Ip.{IpLibraries}
use awg_portal.Interface.{Interface}
use awg_portal.Peer.{Peer, copy_calculated_attributes, overwrite_user_editable_fields}
use awg_portal.Peer.Physical.{merge_to_physical_peer, get_allowed_ips}
use awg_portal.Preparation.{PeersConfig}
use awg_portal.Database.PeerStore.{PeerGorm, stamped, get_interface, get_interface_peers, save_peer}
use awg_portal.Peers.Monad.{run-eq-ok, lift-eq-ok}
use awg_portal.Peers.{
  Controllers, World, push_peer, store_peer, stored, with_awg, save_peers, audit_peer_saved, given,
  get_controller, publish_routes, then_overwrite,
}
use awg_portal.Database.PeerLaws.{Stores, save_peer-eq-ok}

pub then_overwrite-eq-ok :
    (editable_keys : Bool) (peer : Peer) (r : Result Peer) (new : Peer)
    → then_overwrite editable_keys peer r ≡ ok new
    → (p : Peer) × (r ≡ ok p) × (new ≡ overwrite_user_editable_fields p peer editable_keys)
then_overwrite-eq-ok editable_keys peer (ok p) new h = (p, refl, cc)
then_overwrite-eq-ok editable_keys peer (err e) new h = absurd (cc)
then_overwrite-eq-ok editable_keys peer panic new h = absurd (cc)

module _ (g : PeerGorm) (c : Controllers) (l : IpLibraries) (cfg : PeersConfig) where
  open g use {Db}
  open c use {Backends}

  -- What a successful `savePeers` has done.
  pub record Saved (ctx : Context) (peer saved : Peer) (s s' : World g c l cfg) : Type 0 where
    pub on : Interface
    pub exists : get_interface g s.db peer.interface_identifier ≡ ok on
    pub updated_by : saved.base.updated_by ≡ (get_user_info ctx).id
    pub fields : saved ≡ record (with_awg g c l cfg on peer) { base = saved.base }
    pub stores : Stores g s.db s'.db saved

  given-eq-ok : (q' q : Peer) (r : Result (Unit {0})) → given q' r ≡ ok q → q ≡ q'
  given-eq-ok q' q (ok u) h = cc
  given-eq-ok q' q (err e) h = absurd (cc)
  given-eq-ok q' q panic h = absurd (cc)

  push_peer-eq-ok :
      (i : Interface) (peer p q : Peer) (w w' : Backends)
      → push_peer g c l cfg i peer p w ≡ (ok q, w')
      → q ≡ copy_calculated_attributes peer p
  unfolding push_peer
  push_peer-eq-ok i peer p q w w' h = elim (Result-cases (get_controller cfg.backends i)) [
    | inl stop ↦ absurd (ground (arith, stop))
    | inr (inl (x, stop)) ↦ absurd (ground (arith, stop))
    | inr (inr (name, got)) ↦
        let q' = copy_calculated_attributes peer p in
        let passed : wrapping "failed to save wireguard peer" (
              given q' (
                (c.save name q'.interface_identifier q'.identifier
                  (λ pp. merge_to_physical_peer l pp q') w).0))
            ≡ ok q =
          ground (arith, got) in
        given-eq-ok q' q _ (wrapping-eq-ok _ _ passed)
  ]

  stored-eq-ok :
      {A : Type 0} (s s' : World g c l cfg) (r : Result (A × Db)) (a : A)
      → stored s r ≡ (ok a, s')
      → (d : Db) × (r ≡ ok (a, d)) × (s' ≡ record s { db = d })
  stored-eq-ok s s' (ok (b, d)) a h =
      let same : b ≡ a = ground arith in (d, ap (λ x. ok (x, d)) same, ground arith)
  stored-eq-ok s s' (err e) a h = absurd (ground arith)
  stored-eq-ok s s' panic a h = absurd (ground arith)

  stamped-fields :
      (ui : ContextUserInfo) (now : ℕ) (peer p q saved : Peer)
      → q ≡ copy_calculated_attributes peer p
      → saved ≡ stamped ui now q
      → (saved ≡ record peer { base = saved.base }) × (saved.base.updated_by ≡ ui.id)
  unfolding copy_calculated_attributes
  stamped-fields ui now peer p q saved copied is_stamped =
      let whole : saved ≡ stamped ui now (copy_calculated_attributes peer p) =
        is_stamped ∙ ap (stamped ui now) copied in
      (
        whole ∙ ap (λ b. record peer { base = b }) (sym (ap (λ (x : Peer). x.base) whole)),
        ap (λ (x : Peer). x.base.updated_by) whole,
      )

  store_peer-eq-ok :
      (ctx : Context) (now : ℕ) (i : Interface) (peer saved : Peer) (s s' : World g c l cfg)
      → store_peer g c l cfg ctx now i peer s ≡ (ok saved, s')
      → (saved ≡ record peer { base = saved.base })
        × (saved.base.updated_by ≡ (get_user_info ctx).id)
        × Stores g s.db s'.db saved
  unfolding store_peer copy_calculated_attributes
  store_peer-eq-ok ctx now i peer saved s s' h =
      let r = save_peer g ctx now peer.identifier (push_peer g c l cfg i peer) s.db s.wg in
      let (d, e, same) =
        stored-eq-ok (record s { wg = r.1 }) s' (wrapping "save failure" (r.0)) saved h in
      let run : r ≡ (ok (saved, d), r.1) = ap (λ x. (x, r.1)) (wrapping-eq-ok _ (r.0) e) in
      let (p, q, pushed, is_stamped, stores) =
        save_peer-eq-ok g ctx now peer.identifier (push_peer g c l cfg i peer) s.db d s.wg (r.1)
          saved run in
      let copied = push_peer-eq-ok i peer p q s.wg (r.1) pushed in
      let fields = stamped-fields (get_user_info ctx) now peer p q saved copied is_stamped in
      let id_same : q.identifier ≡ peer.identifier = ap (λ (x : Peer). x.identifier) copied in
      let db_same : s'.db ≡ d = ap (λ (t : World g c l cfg). t.db) same in
      (fields.0, fields.1, subst (λ x. Stores g s.db x saved) (sym db_same) (stores id_same))

  pub publish_routes-db :
      (i : Interface) (peers : List Peer) (s s' : World g c l cfg) (u : Unit {0})
      → publish_routes g c l cfg i peers s ≡ (ok u, s')
      → s'.db ≡ s.db
  unfolding publish_routes
  publish_routes-db i peers s s' u h =
      let (allowed, e, h₁) = lift-eq-ok (get_allowed_ips l i peers) _ s h in
      ap (λ (r : Result (Unit {0}) × World g c l cfg). r.1.db) (sym h₁)

  pub save_peers-Saved :
      (ctx : Context) (now : ℕ) (peer saved : Peer) (s s' : World g c l cfg)
      → save_peers g c l cfg ctx now peer s ≡ (ok saved, s')
      → Saved ctx peer saved s s'
  unfolding save_peers
  save_peers-Saved ctx now peer saved s s' h =
      let (i, e₁, h₁) =
        lift-eq-ok
          (wrapping "unable to find interface" (get_interface g s.db peer.interface_identifier)) _ s
          h in
      let (p, t, e₂, h₂) =
        run-eq-ok (store_peer g c l cfg ctx now i (with_awg g c l cfg i peer)) _ s h₁ in
      let (fields, updated_by, stores) =
        store_peer-eq-ok ctx now i (with_awg g c l cfg i peer) p s t e₂ in
      let u : World g c l cfg = record t { events = t.events ++ audit_peer_saved p ∷ [] } in
      let (peers, e₃, h₃) =
        lift-eq-ok
          (wrapping "failed to re-load peers"
            (get_interface_peers g t.db peer.interface_identifier))
          _ u h₂ in
      let (done, v, e₄, h₄) = run-eq-ok (publish_routes g c l cfg i peers) _ u h₃ in
      let same : ok p ≡ ok saved = ap (λ (r : Result Peer × World g c l cfg). r.0) h₄ in
      let p_same : p ≡ saved = cc in
      let db_same : s'.db ≡ t.db =
        sym (ap (λ (r : Result Peer × World g c l cfg). r.1.db) h₄)
        ∙ publish_routes-db i peers u v done e₄ in
      subst (λ x. Saved ctx peer x s s') p_same
        (record {
          on = i;
          exists = wrapping-eq-ok _ _ e₁;
          updated_by = updated_by;
          fields = fields;
          stores = subst (λ x. Stores g s.db x p) (sym db_same) stores;
        })

  pub Saved-same :
      (ctx : Context) (peer p q : Peer) (s t u : World g c l cfg)
      → p ≡ q
      → t.db ≡ u.db
      → Saved ctx peer p s t
      → Saved ctx peer q s u
  Saved-same ctx peer p q s t u same db done =
      let moved : Saved ctx peer p s u = record {
        on = done.on;
        exists = done.exists;
        updated_by = done.updated_by;
        fields = done.fields;
        stores = subst (λ x. Stores g s.db x p) db done.stores;
      } in
      subst (λ x. Saved ctx peer x s u) same moved
