-- ===== src/Database/PeerLaws.antt =====
-- What `SavePeer` of internal/adapters/database.go does to the table of peers.
use awg_portal.Prelude.{
  ℕ, String, ◌≡◌, refl, subst, sym, some, ◌==◌, string_eq, eq_iff, if◌then◌else◌, arith, false, inl,
  inr,
}
use awg_portal.Errors.{Result, ok, err, panic, bind-eq-ok, wrapping, wrapping-eq-ok, Result-cases}
use awg_portal.Access.{Context, ContextUserInfo, get_user_info}
use awg_portal.Peer.{Peer}
use awg_portal.Database.PeerStore.{
  PeerGorm, stamped, peer_defaults, get_or_create_peer, upsert_peer, finish_save, save_peer,
}

module _ (g : PeerGorm) where
  open g use {Db}

  -- The table has the peer, and else is as it was.
  abbrev pub Stores : Db → Db → Peer → Type 0
  Stores d d' p =
      (k : String) → g.load_peer d' k ≡ (if p.identifier == k then ok (some p) else g.load_peer d k)

  pub Stores-self :
      (d d' : Db) (p : Peer) → Stores d d' p → g.load_peer d' p.identifier ≡ ok (some p)
  Stores-self d d' p stores = ground (arith, stores p.identifier, eq_iff p.identifier p.identifier)

  pub Stores-other :
      (d d' : Db) (p : Peer) (k : String)
      → Stores d d' p
      → (p.identifier == k) ≡ false
      → g.load_peer d' k ≡ g.load_peer d k
  Stores-other d d' p k stores e = ground (arith, stores k, e)

  get_or_create_peer_lem :
      (ui : ContextUserInfo) (now : ℕ) (d d' : Db) (id : String) (p : Peer)
      → get_or_create_peer g ui now d id ≡ ok (p, d')
      → (k : String) → (id == k) ≡ false
      → g.load_peer d' k ≡ g.load_peer d k
  unfolding get_or_create_peer
  get_or_create_peer_lem ui now d d' id p h k other =
      ground (arith, g.load_peer-create d d' (peer_defaults ui now id) k)

  upsert_peer_lem :
      (ui : ContextUserInfo) (now : ℕ) (d d' : Db) (p saved : Peer)
      → upsert_peer g ui now d p ≡ ok (saved, d')
      → (saved ≡ stamped ui now p) × Stores d d' (stamped ui now p)
  unfolding upsert_peer
  upsert_peer_lem ui now d d' p saved h =
      let q = stamped ui now p in
      let (d₁, e₁, h₁) = bind-eq-ok (g.save d q) _ h in
      let (d₂, e₂, h₂) =
        bind-eq-ok (wrapping "failed to update peer addresses" (g.replace_addresses d₁ q)) _ h₁ in
      let replaced = wrapping-eq-ok _ _ e₂ in
      (ground arith, λ k. ground (arith, g.load_peer-save d d₁ d₂ q k))

  finish_save_lem :
      (ctx : Context) (now : ℕ) (d d' : Db) (changed : Result Peer) (saved : Peer)
      → finish_save g ctx now d changed ≡ ok (saved, d')
      → (q : Peer) × (changed ≡ ok q)
        × (saved ≡ stamped (get_user_info ctx) now q)
        × Stores d d' (stamped (get_user_info ctx) now q)
  unfolding finish_save
  finish_save_lem ctx now d d' panic saved h = cc
  finish_save_lem ctx now d d' (err e) saved h = cc
  finish_save_lem ctx now d d' (ok q) saved h =
      let ((p', d₂), e₂, h₂) = bind-eq-ok (upsert_peer g (get_user_info ctx) now d q) _ h in
      let (d₅, e₅, h₅) = bind-eq-ok (g.commit d₂) _ h₂ in
      let (is_stamped, stores) = upsert_peer_lem (get_user_info ctx) now d d₂ q p' e₂ in
      (q, refl, ground arith, λ k. ground (arith, stores k, g.load_peer-commit d₂ d₅ k))

  Stores-created :
      (d d₁ d' : Db) (id : String) (p : Peer)
      → p.identifier ≡ id
      → ((k : String) → (id == k) ≡ false → g.load_peer d₁ k ≡ g.load_peer d k)
      → Stores d₁ d' p
      → Stores d d' p
  Stores-created d d₁ d' id p same kept stores k =
      ground (arith, stores k, kept k, eq_iff p.identifier k, eq_iff id k)

  pub save_peer-eq-ok :
      {E : Type 0} (ctx : Context) (now : ℕ) (id : String) (f : Peer → E → Result Peer × E)
      (d d' : Db) (e e' : E) (saved : Peer)
      → save_peer g ctx now id f d e ≡ (ok (saved, d'), e')
      → (p q : Peer) × (f p e ≡ (ok q, e'))
        × (saved ≡ stamped (get_user_info ctx) now q)
        × (q.identifier ≡ id → Stores d d' saved)
  unfolding save_peer
  save_peer-eq-ok ctx now id f d d' e e' saved h =
      elim (Result-cases (get_or_create_peer g (get_user_info ctx) now d id)) [
        | inl stop ↦ absurd (ground (arith, stop))
        | inr (inl (x, stop)) ↦ absurd (ground (arith, stop))
        | inr (inr ((p, d₁), got)) ↦
            let finished : finish_save g ctx now d₁ ((f p e).0) ≡ ok (saved, d') =
              ground (arith, got) in
            let left : (f p e).1 ≡ e' = ground (arith, got) in
            let (q, given_q, is_stamped, stores) =
              finish_save_lem ctx now d₁ d' ((f p e).0) saved finished in
            (
              p,
              q,
              ground (arith, given_q, left),
              is_stamped,
              λ same. subst (Stores d d') (sym is_stamped) (
                  Stores-created d d₁ d' id (stamped (get_user_info ctx) now q) same
                    (get_or_create_peer_lem (get_user_info ctx) now d d₁ id p got) stores),
            )
      ]
