-- ===== src/Database/PeerStore.antt =====
-- The interface and peer functions of internal/adapters/database.go (`SqlRepo`), with GORM as a parameter
-- as in Database. The function that `SavePeer` is given may act on what stands outside the database, and
-- that is not rolled back.
use awg_portal.Prelude.{
  ℕ, ℤ, pos, String, ◌≡◌, Option, none, some, ◌==◌, string_eq, int_eq, false, List, [], ◌∷◌, ◌++◌,
  if◌then◌else◌,
}
use awg_portal.Errors.{Result, ok, err, panic, sentinel, wrapping, not_found, ◌>>=◌}
use awg_portal.Access.{Context, ContextUserInfo, get_user_info}
use awg_portal.User.{User}
use awg_portal.Ip.{Cidr, no_cidr, contains_cidr, equal_prefix}
use awg_portal.Interface.{Interface, ConfigOption, new_config_option}
use awg_portal.Interface.Physical.{awg_off}
use awg_portal.Peer.{Peer}

pub record PeerGorm : Type 1 where
  pub Db : Type 0
  -- `First` by primary key, with the addresses; `none` is "record not found"
  pub load_interface : Db → String → Result (Option Interface)
  pub load_peer : Db → String → Result (Option Peer)
  pub load_user : Db → String → Result (Option User)
  pub find_users : Db → Result (List User)
  -- `Find`, with all rows or with those of a condition on one column
  pub find_interfaces : Db → Result (List Interface)
  pub find_interface_peers : Db → String → Result (List Peer)
  pub find_user_peers : Db → String → Result (List Peer)
  -- the join of an address table with the table of prefixes
  pub scan_interface_addresses : Db → Result (List Cidr)
  pub scan_peer_addresses : Db → Result (List Cidr)
  pub create : Db → Peer → Result Db
  pub save : Db → Peer → Result Db
  pub replace_addresses : Db → Peer → Result Db
  pub delete_status : Db → String → Result Db
  pub delete : Db → String → Result Db
  pub commit : Db → Result Db
  pub load_peer-create :
      (d d' : Db) (p : Peer) (id : String)
      → create d p ≡ ok d'
      → load_peer d' id ≡ (if p.identifier == id then ok (some p) else load_peer d id)
  pub load_peer-save :
      (d d₁ d' : Db) (p : Peer) (id : String)
      → save d p ≡ ok d₁
      → replace_addresses d₁ p ≡ ok d'
      → load_peer d' id ≡ (if p.identifier == id then ok (some p) else load_peer d id)
  pub load_peer-delete_status :
      (d d' : Db) (k id : String) → delete_status d k ≡ ok d' → load_peer d' id ≡ load_peer d id
  pub load_peer-delete :
      (d d' : Db) (k id : String)
      → delete d k ≡ ok d'
      → load_peer d' id ≡ (if k == id then ok none else load_peer d id)
  pub load_peer-commit :
      (d d' : Db) (id : String) → commit d ≡ ok d' → load_peer d' id ≡ load_peer d id

-- The record that `getOrCreatePeer` creates when there is none.
abbrev pub peer_defaults : ContextUserInfo → ℕ → String → Peer
peer_defaults ui now id =
    let text : ConfigOption String = new_config_option "" false in
    let number : ConfigOption ℤ = new_config_option (pos 0) false in
    record {
      base = record { created_by = ui.id; updated_by = ui.id; created_at = now; updated_at = now };
      endpoint = text;
      endpoint_public_key = text;
      allowed_ips_str = new_config_option [] false;
      extra_allowed_ips_str = [];
      preshared_key = "";
      persistent_keepalive = number;
      display_name = "";
      identifier = id;
      user_identifier = "";
      interface_identifier = "";
      disabled = none;
      disabled_reason = "";
      expires_at = none;
      notes = "";
      automatically_created = false;
      interface = record {
        key_pair = record { private_key = ""; public_key = "" };
        type = "";
        addresses = [];
        check_alive_address = "";
        dns_str = text;
        dns_search_str = text;
        mtu = number;
        firewall_mark = new_config_option 0 false;
        routing_table = text;
        pre_up = text;
        post_up = text;
        pre_down = text;
        post_down = text;
        awg = awg_off;
      };
    }

-- What `upsertPeer` writes into the peer before it is saved.
abbrev pub stamped : ContextUserInfo → ℕ → Peer → Peer
stamped ui now p = record p { base = record p.base { updated_by = ui.id; updated_at = now } }

abbrev pub found {ℓ} : {A : Type ℓ} → Option A → Result A
found none = err (sentinel not_found)
found (some a) = ok a

-- The first of the subnets that contains the address, or the empty one.
unfoldable pub subnet_of : List Cidr → Cidr → Result Cidr
subnet_of [] ip = ok no_cidr
subnet_of (s ∷ rest) ip = do
  let later = subnet_of rest ip
  inside ← contains_cidr s ip
  if inside then ok s else later

-- The addresses of the map that `GetUsedIpsPerSubnet` returns, each with its key.
unfoldable pub per_subnet : List Cidr → List Cidr → Result (List (Cidr × Cidr))
unfolding subnet_of
per_subnet subnets [] = ok []
per_subnet subnets (ip ∷ ips) = do
  s ← subnet_of subnets ip
  rest ← per_subnet subnets ips
  ok ((s, ip) ∷ rest)

-- A read of that map.
unfoldable pub used_ips : Cidr → List (Cidr × Cidr) → List Cidr
unfolding equal_prefix
used_ips network [] = []
used_ips network ((s, ip) ∷ m) =
    let rest = used_ips network m in if equal_prefix s network then ip ∷ rest else rest

module _ (g : PeerGorm) where
  open g use {Db}

  unfoldable pub get_interface : Db → String → Result Interface
  get_interface d id = do r ← g.load_interface d id; found r

  unfoldable pub get_all_interfaces : Db → Result (List Interface)
  get_all_interfaces d = g.find_interfaces d

  unfoldable pub get_peer : Db → String → Result Peer
  get_peer d id = do r ← g.load_peer d id; found r

  unfoldable pub get_interface_peers : Db → String → Result (List Peer)
  get_interface_peers d id = g.find_interface_peers d id

  unfoldable pub get_interface_and_peers : Db → String → Result (Interface × List Peer)
  unfolding get_interface get_interface_peers
  get_interface_and_peers d id = do
    i ← wrapping "failed to load interface" (get_interface d id)
    peers ← wrapping "failed to load peers" (get_interface_peers d id)
    ok (i, peers)

  unfoldable pub get_user : Db → String → Result User
  get_user d id = do r ← g.load_user d id; found r

  unfoldable pub get_all_users : Db → Result (List User)
  get_all_users d = g.find_users d

  unfoldable pub get_user_peers : Db → String → Result (List Peer)
  get_user_peers d id = g.find_user_peers d id

  unfoldable pub get_used_ips_per_subnet : Db → List Cidr → Result (List (Cidr × Cidr))
  unfolding per_subnet
  get_used_ips_per_subnet d subnets = do
    peer_ips ← wrapping "failed to fetch peer IP's" (g.scan_peer_addresses d)
    interface_ips ← wrapping "failed to fetch interface IP's" (g.scan_interface_addresses d)
    per_subnet subnets (interface_ips ++ peer_ips)

  unfoldable pub get_or_create_peer : ContextUserInfo → ℕ → Db → String → Result (Peer × Db)
  get_or_create_peer ui now d id = do
    r ← g.load_peer d id
    elim r [
      | some p ↦ ok (p, d)
      | none ↦ do d' ← g.create d (peer_defaults ui now id); ok (peer_defaults ui now id, d')
    ]

  unfoldable pub upsert_peer : ContextUserInfo → ℕ → Db → Peer → Result (Peer × Db)
  upsert_peer ui now d peer = do
    let peer' = stamped ui now peer
    d₁ ← g.save d peer'
    d₂ ← wrapping "failed to update peer addresses" (g.replace_addresses d₁ peer')
    ok (peer', d₂)

  -- The rest of the transaction once `updateFunc` has returned.
  unfoldable pub finish_save : Context → ℕ → Db → Result Peer → Result (Peer × Db)
  unfolding upsert_peer
  finish_save ctx now d changed = do
    peer ← changed
    (saved, d') ← upsert_peer (get_user_info ctx) now d peer
    d″ ← g.commit d'
    ok (saved, d″)

  -- `E` is what `updateFunc` acts on.
  unfoldable pub save_peer :
      {E : Type 0}
      → Context
      → ℕ
      → String
      → (Peer → E → Result Peer × E)
      → Db
      → E
      → Result (Peer × Db) × E
  unfolding get_or_create_peer finish_save
  save_peer ctx now id update_func d e = elim (get_or_create_peer (get_user_info ctx) now d id) [
    | panic ↦ (panic, e)
    | err x ↦ (err x, e)
    | ok (peer, d₁) ↦ (finish_save ctx now d₁ ((update_func peer e).0), (update_func peer e).1)
  ]

  unfoldable pub delete_peer : Db → String → Result Db
  delete_peer d id = do d₁ ← g.delete_status d id; d₂ ← g.delete d₁ id; g.commit d₂
