-- ===== src/Peer/Routes.antt =====
-- The routes of a server interface (`GetAllowedIPs` of internal/domain/interface.go) and the allowed
-- addresses of its physical peers (`MergeToPhysicalPeer` of internal/domain/peer.go).
use awg_portal.Prelude.{
  ℕ, true, false, not, ◌==◌, string_eq, bytes_eq, bytes_beq_iff, eq_iff, List, [], ◌∷◌, ◌++◌, All,
  if◌then◌else◌, ◌≡◌, inl, inr, refl, ap, sym, ◌∙◌, subst, arith, Bool-cases,
}
use mathlib.Core.List.{append_assoc}
use awg_portal.Errors.{Error, Result, ok, err, panic, ◌>>=◌}
use awg_portal.Text.{trim_space, split_at_commas}
use awg_portal.Ip.{Cidr, IpLibraries, cidrs_from_string, cidrs_from_array, cidr_from_string}
use awg_portal.Interface.{Interface, interface_type_server, interface_type_client}
use awg_portal.Interface.Physical.{controller_type_local, controller_type_mikrotik}
use awg_portal.Peer.{Peer}
use awg_portal.Peer.Physical.{
  PhysicalPeer, host_addrs, ignoring_error, merge_addresses, merge_extras, merge_to_physical_peer,
  peer_hosts, get_allowed_ips,
}

-- What `MergeToPhysicalPeer` makes the allowed addresses of the physical peers, one after the other; each
-- physical peer was `pp` before.
abbrev pub physical_ips : IpLibraries → PhysicalPeer → List Peer → Result (List Cidr)
physical_ips l pp [] = ok []
physical_ips l pp (p ∷ ps) = merge_to_physical_peer l pp p >>= λ q.
    physical_ips l pp ps >>= λ rest. ok (q.allowed_ips ++ rest)

through :
    (h m : Result (List Cidr)) (mk : List Cidr → PhysicalPeer)
    (r : PhysicalPeer → Result PhysicalPeer) (k : List Cidr → Result (List Cidr))
    → ((x : List Cidr) → (r (mk x) >>= λ y. k y.allowed_ips) ≡ k x)
    → (((h >>= λ a. m >>= λ b. ok (mk (a ++ b))) >>= r) >>= λ q. k q.allowed_ips)
      ≡ ((h >>= λ a. m >>= λ b. ok (a ++ b)) >>= k)
through panic m mk r k keep = refl
through (err e) m mk r k keep = refl
through (ok a) panic mk r k keep = refl
through (ok a) (err e) mk r k keep = refl
through (ok a) (ok b) mk r k keep = keep (a ++ b)

regroup :
    (h m n : Result (List Cidr))
    → (h >>= λ a. m >>= λ b. n >>= λ c. ok (a ++ (b ++ c)))
      ≡ ((h >>= λ a. m >>= λ b. ok (a ++ b)) >>= λ x. n >>= λ c. ok (x ++ c))
regroup panic m n = refl
regroup (err e) m n = refl
regroup (ok a) panic n = refl
regroup (ok a) (err e) n = refl
regroup (ok a) (ok b) panic = refl
regroup (ok a) (ok b) (err e) = refl
regroup (ok a) (ok b) (ok c) = ap (λ (x : List Cidr). ok x) (sym (append_assoc a b c))

module _ (l : IpLibraries) (pp : PhysicalPeer)
    (local_backend : pp.import_source ≡ controller_type_local) (e : Error)
    (no_prefix : l.parse_prefix [] ≡ err e) where
  -- The addresses that a client peer adds.
  abbrev own_ips : Peer → Result (List Cidr)
  own_ips p = host_addrs p.interface.addresses >>= λ hosts.
      ignoring_error (cidrs_from_string l p.extra_allowed_ips_str) >>= λ more. ok (hosts ++ more)

  empty_text : ignoring_error (cidrs_from_string l []) ≡ ok []
  unfolding cidrs_from_string cidrs_from_array cidr_from_string split_at_commas trim_space
  empty_text = ground (arith, no_prefix)

  extra_text :
      (s : List ℕ)
      → ignoring_error (if not (s == []) then cidrs_from_string l s else ok [])
        ≡ ignoring_error (cidrs_from_string l s)
  extra_text s = elim (Bool-cases (s == [])) [
    | inl empty ↦
        let same = (bytes_beq_iff s []).0 empty in
        subst
          (λ t.
            ignoring_error (if not (t == []) then cidrs_from_string l t else ok [])
            ≡ ignoring_error (cidrs_from_string l t))
          (sym same) (sym empty_text)
    | inr filled ↦ ground (arith, filled)
  ]

  merge_extras-allowed_ips :
      (q : PhysicalPeer) (p : Peer) (k : List Cidr → Result (List Cidr))
      → q.import_source ≡ controller_type_local
      → (merge_extras l q p >>= λ x. k x.allowed_ips) ≡ k q.allowed_ips
  unfolding merge_extras
  merge_extras-allowed_ips q p k same =
      let is_local : (q.import_source == controller_type_local) ≡ true =
        (eq_iff q.import_source controller_type_local).1 same in
      let not_mikrotik : (q.import_source == controller_type_mikrotik) ≡ false =
        ap (λ s. s == controller_type_mikrotik) same in
      rw (not_mikrotik, is_local) refl

  -- The physical peer of a client peer with the allowed addresses `x`.
  abbrev merged : Peer → List Cidr → PhysicalPeer
  merged p x = record pp {
    identifier = p.identifier;
    preshared_key = p.preshared_key;
    key_pair = record pp.key_pair { public_key = p.interface.key_pair.public_key };
    allowed_ips = x;
  }

  merge_addresses-client :
      (p : Peer)
      → p.interface.type ≡ interface_type_client
      → merge_addresses l (merged p pp.allowed_ips) p ≡ (
          host_addrs p.interface.addresses >>= λ hosts.
          ignoring_error (cidrs_from_string l p.extra_allowed_ips_str) >>= λ more.
          ok (merged p (hosts ++ more)))
  unfolding merge_addresses
  merge_addresses-client p client =
      let is_client : (p.interface.type == interface_type_client) ≡ true =
        (eq_iff p.interface.type interface_type_client).1 client in
      rw is_client refl

  merged-allowed_ips :
      (p : Peer) (k : List Cidr → Result (List Cidr))
      → p.interface.type ≡ interface_type_client
      → (merge_to_physical_peer l pp p >>= λ q. k q.allowed_ips) ≡ (own_ips p >>= k)
  unfolding merge_to_physical_peer
  merged-allowed_ips p k client =
      ap (λ r. (r >>= λ q. merge_extras l q p) >>= λ q. k q.allowed_ips)
        (merge_addresses-client p client)
      ∙ through (host_addrs p.interface.addresses)
          (ignoring_error (cidrs_from_string l p.extra_allowed_ips_str)) (merged p)
          (λ q. merge_extras l q p) k (λ x. merge_extras-allowed_ips (merged p x) p k local_backend)

  peer_hosts-eq-physical_ips :
      (peers : List Peer)
      → All (λ p. p.interface.type ≡ interface_type_client) peers
      → peer_hosts l peers ≡ physical_ips l pp peers
  unfolding peer_hosts
  peer_hosts-eq-physical_ips [] clients = refl
  peer_hosts-eq-physical_ips (p ∷ ps) (client, clients) =
      ap
        (λ r. host_addrs p.interface.addresses >>= λ hosts.
          r >>= λ more. peer_hosts l ps >>= λ rest. ok (hosts ++ (more ++ rest)))
        (extra_text p.extra_allowed_ips_str)
      ∙ (regroup (host_addrs p.interface.addresses)
            (ignoring_error (cidrs_from_string l p.extra_allowed_ips_str)) (peer_hosts l ps)
          ∙ (ap (λ r. own_ips p >>= λ ips. r >>= λ rest. ok (ips ++ rest))
                (peer_hosts-eq-physical_ips ps clients)
              ∙ sym (
                  merged-allowed_ips p (λ ips. physical_ips l pp ps >>= λ rest. ok (ips ++ rest))
                    client)))

  -- For a server interface whose peers are all clients of the local backend, and if the empty text is no
  -- prefix, the routes are the allowed addresses of the physical peers, one peer after the other.
  pub get_allowed_ips-eq-physical_ips :
      (i : Interface) (peers : List Peer)
      → i.type ≡ interface_type_server
      → All (λ p. p.interface.type ≡ interface_type_client) peers
      → get_allowed_ips l i peers ≡ physical_ips l pp peers
  unfolding get_allowed_ips
  get_allowed_ips-eq-physical_ips i peers server clients =
      let is_server : (i.type == interface_type_server) ≡ true =
        (eq_iff i.type interface_type_server).1 server in
      rw is_server (peer_hosts-eq-physical_ips peers clients)
