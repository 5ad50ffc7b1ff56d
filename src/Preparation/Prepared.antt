-- ===== src/Preparation/Prepared.antt =====
-- What `PreparePeer` and the checks of `CreatePeer` of internal/app/wireguard/wireguard_peers.go ensure.
use awg_portal.Prelude.{
  ℕ, ◌≤◌, ◌<◌, pos, String, true, false, not, ◌&&◌, ◌≡◌, inl, inr, Bool-cases, ap, sym, ◌∙◌, ◌==◌,
  string_eq, eq_iff, if◌then◌else◌, arith, List,
}
use awg_portal.Errors.{
  ok, wrap, sentinel, no_permission, guard, bind-eq-ok, wrapping, wrapping-eq-ok, ◌>>=◌,
}
use awg_portal.Access.{
  Context, get_user_info, validate_user_access_rights, validate_admin_access_rights,
}
use awg_portal.Ip.{IpLibraries}
use awg_portal.Interface.{Interface, is_user_allowed, interface_type_server}
use awg_portal.Peer.{Peer, generate_display_name}
use awg_portal.Database.PeerStore.{PeerGorm, get_interface, get_user_peers}
use awg_portal.Allocation.{get_fresh_peer_ip_config}
use awg_portal.Preparation.{
  PeersConfig, Keys, fresh_peer, prepare_peer, check_interface_access, check_peer_limit,
  check_creation_access, enabled_count, within_limit,
}

module _ (g : PeerGorm) (l : IpLibraries) (cfg : PeersConfig) (ctx : Context) where
  open g use {Db}

  -- What a successful `PreparePeer` has checked, and where it has taken the fields of the peer from.
  pub record Prepared (id : String) (d : Db) (p : Peer) : Type 0 where
    pub on : Interface
    pub exists : get_interface g d id ≡ ok on
    pub accessible : check_interface_access g l cfg ctx id d ≡ ok tt
    pub addresses : get_fresh_peer_ip_config g l d on ≡ ok p.interface.addresses
    pub owner : p.user_identifier ≡ (get_user_info ctx).id
    pub interface : p.interface_identifier ≡ on.identifier
    pub awg : p.interface.awg ≡ on.awg
    pub server :
        (cfg.self_provisioning_allowed && not (get_user_info ctx).is_admin) ≡ true
        → on.type ≡ interface_type_server

  pub prepare_peer-Prepared :
      (now : ℕ) (keys : Keys) (id : String) (d : Db) (p : Peer)
      → prepare_peer g l cfg ctx now keys id d ≡ ok p
      → Prepared id d p
  unfolding prepare_peer generate_display_name
  prepare_peer-Prepared now keys id d p h =
      let (t₁, e₁, h₁) =
        bind-eq-ok
          (if cfg.self_provisioning_allowed then ok tt else validate_admin_access_rights ctx) _ h in
      let (t₂, e₂, h₂) = bind-eq-ok (check_interface_access g l cfg ctx id d) _ h₁ in
      let (i, e₃, h₃) =
        bind-eq-ok (wrapping "unable to find interface" (get_interface g d id)) _ h₂ in
      let (t₄, e₄, h₄) =
        bind-eq-ok
          (guard
            (not (
              cfg.self_provisioning_allowed
              && (not (get_user_info ctx).is_admin && not (i.type == interface_type_server))))
            (wrap "self provisioning is only allowed for server interfaces"
              (sentinel no_permission)))
          _ h₃ in
      let (ips, e₅, h₅) =
        bind-eq-ok (wrapping "unable to get fresh ip addresses" (get_fresh_peer_ip_config g l d i))
          _ h₄ in
      let (kp, e₆, h₆) = bind-eq-ok (wrapping "failed to generate keys" keys.key_pair) _ h₅ in
      let (pk, e₇, h₇) =
        bind-eq-ok (wrapping "failed to generate preshared key" keys.preshared_key) _ h₆ in
      let same : generate_display_name (fresh_peer (get_user_info ctx) now i kp pk ips) "" ≡ p =
        cc in
      record {
        on = i;
        exists = wrapping-eq-ok _ _ e₃;
        accessible = e₂;
        addresses = wrapping-eq-ok _ _ e₅ ∙ ap (λ (q : Peer). ok q.interface.addresses) same;
        owner = sym (ap (λ (q : Peer). q.user_identifier) same);
        interface = sym (ap (λ (q : Peer). q.interface_identifier) same);
        awg = sym (ap (λ (q : Peer). q.interface.awg) same);
        server = λ self. ground (arith, eq_iff i.type interface_type_server, e₄, self);
      }

  -- The checks for a user without admin rights
  module _ (by_user : (get_user_info ctx).is_admin ≡ false) where
    pub check_creation_access_lem :
        (peer : Peer) (d : Db)
        → check_creation_access g l cfg ctx peer d ≡ ok tt
        → (cfg.self_provisioning_allowed ≡ true) × ((get_user_info ctx).id ≡ peer.user_identifier)
    unfolding check_creation_access validate_admin_access_rights validate_user_access_rights
    check_creation_access_lem peer d h = elim (Bool-cases cfg.self_provisioning_allowed) [
      | inr off ↦ absurd (ground (arith, off, by_user))
      | inl on ↦
          let run : (validate_user_access_rights ctx peer.user_identifier >>= λ _.
          check_interface_access g l cfg ctx peer.interface_identifier d)
              ≡ ok tt =
            ground (arith, on) in
          let (t, e, rest) =
            bind-eq-ok (validate_user_access_rights ctx peer.user_identifier) _ run in
          (on, ground (arith, e, by_user, eq_iff (get_user_info ctx).id peer.user_identifier))
    ]

    pub check_interface_access_lem :
        (id : String) (d : Db) (i : Interface)
        → get_interface g d id ≡ ok i
        → check_interface_access g l cfg ctx id d ≡ ok tt
        → is_user_allowed i (get_user_info ctx).id cfg.interface_filters ≡ true
    unfolding check_interface_access
    check_interface_access_lem id d i found h = ground (arith, found, by_user)

    -- With a positive limit, fewer peers are enabled than the limit and the default peer make up.
    pub check_peer_limit_lem :
        (user : String) (d : Db) (n : ℕ)
        → cfg.self_provisioning_allowed ≡ true
        → cfg.limit ≡ pos n
        → 0 < n
        → check_peer_limit g l cfg ctx user d ≡ ok tt
        → (peers : List Peer) × (get_user_peers g d user ≡ ok peers) × (enabled_count peers ≤ n)
    unfolding check_peer_limit
    check_peer_limit_lem user d n self limited positive h =
        let full = wrap "peer limit reached" (sentinel no_permission) in
        let run : (wrapping "failed to fetch peers" (get_user_peers g d user) >>= λ peers.
        guard (within_limit cfg.limit peers) full)
            ≡ ok tt =
          ground (arith, self, by_user, limited) in
        let (peers, e, rest) =
          bind-eq-ok (wrapping "failed to fetch peers" (get_user_peers g d user)) _ run in
        let within : guard (within_limit (pos n) peers) full ≡ ok tt =
          ap (λ z. guard (within_limit z peers) full) (sym limited) ∙ rest in
        (peers, wrapping-eq-ok _ _ e, ground (arith, within))
