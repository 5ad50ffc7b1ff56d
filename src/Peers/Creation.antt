-- ===== src/Peers/Creation.antt =====
-- `CreatePeer` of internal/app/wireguard/wireguard_peers.go.
use awg_portal.Prelude.{
  ℕ, ◌≤◌, ◌<◌, pos, true, false, ◌≡◌, ◌≢◌, ap, sym, ◌∙◌, Option, string_eq, eq_iff, arith, List,
}
use awg_portal.Errors.{
  Result, ok, err, panic, wrap, sentinel, duplicate_entry, guard, wrapping, wrapping-eq-ok,
}
use awg_portal.Access.{Context, get_user_info}
use awg_portal.Ip.{Cidr, IpLibraries}
use awg_portal.Interface.{Interface, is_user_allowed, interface_type_server}
use awg_portal.Peer.{Peer, overwrite_user_editable_fields}
use awg_portal.Peer.Editing.{overwrite-DiffersInEditable}
use awg_portal.Preparation.{
  PeersConfig, Keys, prepare_peer, check_creation_access, check_peer_limit, validate_peer_creation,
  enabled_count,
}
use awg_portal.Preparation.Prepared.{
  Prepared, prepare_peer-Prepared, check_creation_access_lem, check_interface_access_lem,
  check_peer_limit_lem,
}
use awg_portal.Allocation.{get_fresh_peer_ip_config}
use awg_portal.Database.{optional}
use awg_portal.Database.PeerStore.{PeerGorm, get_interface, get_peer, get_user_peers}
use awg_portal.Peers.Monad.{run-eq-ok, lift-eq-ok, naming, naming-eq-ok}
use awg_portal.Peers.{
  Controllers, World, is_none, peer_to_create, save_peers, create_peer, then_overwrite,
}
use awg_portal.Peers.Saving.{Saved, save_peers-Saved, Saved-same, then_overwrite-eq-ok}
use awg_portal.Database.PeerLaws.{Stores}

module _ (g : PeerGorm) (c : Controllers) (l : IpLibraries) (cfg : PeersConfig)
    (ctx : Context) where
  open g use {Db}

  -- The steps of a successful `CreatePeer`.
  record Steps (now : ℕ) (keys : Keys) (peer saved : Peer) (s s' : World g c l cfg) : Type 0 where
    accessible : check_creation_access g l cfg ctx peer s.db ≡ ok tt
    within : check_peer_limit g l cfg ctx peer.user_identifier s.db ≡ ok tt
    free : (p : Peer) → get_peer g s.db peer.identifier ≢ ok p
    new : Peer
    created : peer_to_create g c l cfg ctx now keys peer s.db ≡ ok new
    valid : validate_peer_creation g l cfg ctx new s.db ≡ ok tt
    stored : Saved g c l cfg ctx new saved s s'

  optional-is_none :
      (r : Result Peer) (o : Option Peer) (u : Unit {0})
      → optional "unable to load existing peer" r ≡ ok o
      → guard (is_none o) (wrap "peer already exists" (sentinel duplicate_entry)) ≡ ok u
      → (p : Peer) → r ≢ ok p
  unfolding optional
  optional-is_none (ok q) o u h k p e = ground (arith, h, k)
  optional-is_none (err x) o u h k p e = cc
  optional-is_none panic o u h k p e = cc

  create_peer-Steps :
      (now : ℕ) (keys : Keys) (peer saved : Peer) (s s' : World g c l cfg)
      → create_peer g c l cfg ctx now keys peer s ≡ (ok saved, s')
      → Steps now keys peer saved s s'
  unfolding create_peer
  create_peer-Steps now keys peer saved s s' h =
      let (t₁, e₁, h₁) = lift-eq-ok (check_creation_access g l cfg ctx peer s.db) _ s h in
      let (t₂, e₂, h₂) =
        lift-eq-ok (check_peer_limit g l cfg ctx peer.user_identifier s.db) _ s h₁ in
      let (o, e₃, h₃) =
        lift-eq-ok (optional "unable to load existing peer" (get_peer g s.db peer.identifier)) _ s
          h₂ in
      let (t₄, e₄, h₄) =
        lift-eq-ok (guard (is_none o) (wrap "peer already exists" (sentinel duplicate_entry))) _ s
          h₃ in
      let (new, e₅, h₅) = lift-eq-ok (peer_to_create g c l cfg ctx now keys peer s.db) _ s h₄ in
      let (t₆, e₆, h₆) =
        lift-eq-ok (wrapping "creation not allowed" (validate_peer_creation g l cfg ctx new s.db)) _
          s h₅ in
      let (p, t, e₇, h₇) =
        run-eq-ok (naming "creation failure" (save_peers g c l cfg ctx now new)) _ s h₆ in
      let done =
        save_peers-Saved g c l cfg ctx now new p s t
          (naming-eq-ok "creation failure" (save_peers g c l cfg ctx now new) s e₇) in
      let kept : ok p ≡ ok saved = ap (λ (r : Result Peer × World g c l cfg). r.0) h₇ in
      let p_same : p ≡ saved = cc in
      let db_same : t.db ≡ s'.db = ap (λ (r : Result Peer × World g c l cfg). r.1.db) h₇ in
      record {
        accessible = e₁;
        within = e₂;
        free = optional-is_none (get_peer g s.db peer.identifier) o t₄ e₃ e₄;
        new = new;
        created = e₅;
        valid = wrapping-eq-ok _ _ e₆;
        stored = Saved-same g c l cfg ctx new p saved s t s' p_same db_same done;
      }

  -- What a successful `CreatePeer` of a user without admin rights means.
  pub record CreatedByUser (peer saved : Peer) (s s' : World g c l cfg) : Type 0 where
    pub self_provisioning : cfg.self_provisioning_allowed ≡ true
    pub requested_for : peer.user_identifier ≡ (get_user_info ctx).id
    pub owner : saved.user_identifier ≡ (get_user_info ctx).id
    pub on : Interface
    pub exists : get_interface g s.db peer.interface_identifier ≡ ok on
    pub allowed : is_user_allowed on (get_user_info ctx).id cfg.interface_filters ≡ true
    pub server : on.type ≡ interface_type_server
    pub interface : saved.interface_identifier ≡ on.identifier
    pub addresses : get_fresh_peer_ip_config g l s.db on ≡ ok saved.interface.addresses
    pub stores : Stores g s.db s'.db saved

  module _ (now : ℕ) (keys : Keys) (peer saved : Peer) (s s' : World g c l cfg)
      (by_user : (get_user_info ctx).is_admin ≡ false)
      (created : create_peer g c l cfg ctx now keys peer s ≡ (ok saved, s')) where
    steps : Steps now keys peer saved s s'
    steps = create_peer-Steps now keys peer saved s s' created

    access :
        (cfg.self_provisioning_allowed ≡ true) × ((get_user_info ctx).id ≡ peer.user_identifier)
    access = check_creation_access_lem g l cfg ctx by_user peer s.db steps.accessible

    prepared :
        (p : Peer) × Prepared g l cfg ctx peer.interface_identifier s.db p
        × (steps.new ≡ overwrite_user_editable_fields p peer cfg.editable_keys)
    unfolding peer_to_create
    prepared =
        let made =
          wrapping "failed to prepare peer"
            (prepare_peer g l cfg ctx now keys peer.interface_identifier s.db) in
        let run : then_overwrite cfg.editable_keys peer made ≡ ok steps.new =
          ground (arith, steps.created, by_user) in
        let (p, e, same) = then_overwrite-eq-ok cfg.editable_keys peer made steps.new run in
        (
          p,
          prepare_peer-Prepared g l cfg ctx now keys peer.interface_identifier s.db p
              (wrapping-eq-ok _ _ e),
          same,
        )

    kept_field :
        {A : Type 0} (p : Peer) (f : Peer → A)
        → f saved ≡ f steps.new
        → steps.new ≡ overwrite_user_editable_fields p peer cfg.editable_keys
        → f (overwrite_user_editable_fields p peer cfg.editable_keys) ≡ f p
        → f saved ≡ f p
    kept_field p f a b e = a ∙ (ap f b ∙ e)

    -- If a user without admin rights creates a peer, self provisioning is on, the peer was requested for and
    -- belongs to that user, the interface of the request exists, is a server interface and is open to the
    -- user, the addresses are the fresh ones of that interface, and the table of peers changes only by the
    -- new peer.
    pub create_peer-CreatedByUser : CreatedByUser peer saved s s'
    create_peer-CreatedByUser =
        let (p, made, same) = prepared in
        let kept = overwrite-DiffersInEditable p peer cfg.editable_keys in
        let addresses =
          kept_field p (λ q. q.interface.addresses)
            (ap (λ (q : Peer). q.interface.addresses) steps.stored.fields) same
            (ap (λ (q : Peer). q.interface.addresses) kept) in
        record {
          self_provisioning = access.0;
          requested_for = sym access.1;
          owner =
              kept_field p (λ q. q.user_identifier)
                (ap (λ (q : Peer). q.user_identifier) steps.stored.fields) same
                (ap (λ (q : Peer). q.user_identifier) kept)
              ∙ made.owner;
          on = made.on;
          exists = made.exists;
          allowed =
              check_interface_access_lem g l cfg ctx by_user peer.interface_identifier s.db made.on
                made.exists made.accessible;
          server = made.server (ground (arith, access.0, by_user));
          interface =
              kept_field p (λ q. q.interface_identifier)
                (ap (λ (q : Peer). q.interface_identifier) steps.stored.fields) same
                (ap (λ (q : Peer). q.interface_identifier) kept)
              ∙ made.interface;
          addresses = made.addresses ∙ ap (λ (x : List Cidr). ok x) (sym addresses);
          stores = steps.stored.stores;
        }

    -- If there is a positive limit of `n` additional peers, a user without admin rights who creates a peer had
    -- at most `n` enabled peers before.
    pub create_peer-enabled_count :
        (n : ℕ)
        → cfg.limit ≡ pos n
        → 0 < n
        → (peers : List Peer) × (get_user_peers g s.db (get_user_info ctx).id ≡ ok peers)
          × (enabled_count peers ≤ n)
    create_peer-enabled_count n limited positive =
        let (peers, read, few) =
          check_peer_limit_lem g l cfg ctx by_user peer.user_identifier s.db n access.0 limited
            positive steps.within in
        (peers, ap (get_user_peers g s.db) access.1 ∙ read, few)

  -- If an admin creates a peer with a key pair, the duplicate check looks for the identifier of the request
  -- only: a peer that is stored under the public key is replaced by the new one.
  pub create_peer_replaces :
      (now : ℕ) (keys : Keys) (peer saved old : Peer) (s s' : World g c l cfg)
      → (get_user_info ctx).is_admin ≡ true
      → peer.interface.key_pair.private_key ≢ ""
      → get_peer g s.db peer.interface.key_pair.public_key ≡ ok old
      → create_peer g c l cfg ctx now keys peer s ≡ (ok saved, s')
      → (saved.user_identifier ≡ peer.user_identifier)
        × (get_peer g s'.db peer.interface.key_pair.public_key ≡ ok saved)
  unfolding peer_to_create get_peer
  create_peer_replaces now keys peer saved old s s' admin has_key found created =
      let steps = create_peer-Steps now keys peer saved s s' created in
      let new = record peer { identifier = peer.interface.key_pair.public_key } in
      let same : steps.new ≡ new =
        ground (arith, steps.created, admin, eq_iff peer.interface.key_pair.private_key "") in
      let id : saved.identifier ≡ peer.interface.key_pair.public_key =
        ap (λ (p : Peer). p.identifier) steps.stored.fields
        ∙ ap (λ (p : Peer). p.identifier) same in
      let owner : saved.user_identifier ≡ peer.user_identifier =
        ap (λ (p : Peer). p.user_identifier) steps.stored.fields
        ∙ ap (λ (p : Peer). p.user_identifier) same in
      (
        owner,
        ground (
          arith,
          steps.stored.stores peer.interface.key_pair.public_key,
          eq_iff saved.identifier peer.interface.key_pair.public_key,
          id,
        ),
      )
