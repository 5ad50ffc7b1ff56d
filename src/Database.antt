-- ===== src/Database.antt =====
-- The user functions of internal/adapters/database.go (`SqlRepo`). GORM and the database behind it are
-- not code of this repository: they are a parameter, `Gorm`, whose laws say what a read finds after a
-- write. A call that fails gives an error and no contents: Database/Transaction has `SaveUser` statement by
-- statement, with what a failure leaves.
pub mod Laws
pub mod Transaction
pub mod Memory
pub mod PeerStore
pub mod PeerLaws
pub mod PeerMemory
use awg_portal.Prelude.{
  ℕ, pos, String, ◌≡◌, Option, none, some, ◌==◌, string_eq, if◌then◌else◌, false, [],
}
use awg_portal.Errors.{Result, ok, err, sentinel, wrap, panic, wrapping, not_found, ◌>>=◌, is}
use awg_portal.Access.{Context, ContextUserInfo, get_user_info}
use awg_portal.User.{User, BaseModel}

-- `LinkedPeerCount` has the tag `gorm:"-"` and is not stored.
abbrev pub stored : User → User
stored u = record u { linked_peer_count = 0 }

pub record Gorm : Type 1 where
  pub Db : Type 0
  -- `Find` or `First` by primary key, with the associations; `none` is "record not found"
  pub load : Db → String → Result (Option User)
  pub create : Db → User → Result Db
  pub save : Db → User → Result Db
  pub replace_credentials : Db → User → Result Db
  pub replace_authentications : Db → User → Result Db
  pub delete : Db → String → Result Db
  pub commit : Db → Result Db
  pub load-identifier :
      (d : Db) (id : String) (u : User) → load d id ≡ ok (some u) → u.identifier ≡ id
  pub load-create :
      (d d' : Db) (u : User) (id : String)
      → create d u ≡ ok d'
      → load d' id ≡ (if u.identifier == id then ok (some (stored u)) else load d id)
  pub load-save :
      (d d₁ d₂ d' : Db) (u : User) (id : String)
      → save d u ≡ ok d₁
      → replace_credentials d₁ u ≡ ok d₂
      → replace_authentications d₂ u ≡ ok d'
      → load d' id ≡ (if u.identifier == id then ok (some (stored u)) else load d id)
  pub load-delete :
      (d d' : Db) (k id : String)
      → delete d k ≡ ok d'
      → load d' id ≡ (if k == id then ok none else load d id)
  pub load-commit : (d d' : Db) (id : String) → commit d ≡ ok d' → load d' id ≡ load d id

-- `errors.Is(err, domain.ErrNotFound)` after a fetch: the pointer is nil, and the code goes on.
unfoldable pub optional {ℓ} : {A : Type ℓ} → String → Result A → Result (Option A)
unfolding is
optional msg (ok a) = ok (some a)
optional msg (err e) = if is e not_found then ok none else err (wrap msg e)
optional msg panic = panic

-- The record that `getOrCreateUser` creates when there is none.
abbrev pub user_defaults : ContextUserInfo → ℕ → String → User
user_defaults ui now id = record {
  base = record { created_by = ui.id; updated_by = ui.id; created_at = now; updated_at = now };
  identifier = id;
  email = "";
  source = "";
  provider_name = "";
  is_admin = false;
  authentications = [];
  persist_local_changes = false;
  firstname = "";
  lastname = "";
  phone = "";
  department = "";
  notes = "";
  password = "";
  disabled = none;
  disabled_reason = "";
  locked = none;
  locked_reason = "";
  web_authn_id = "";
  web_authn_credential_list = [];
  api_token = "";
  api_token_created = none;
  totp_enabled = false;
  totp_secret = "";
  totp_recovery_codes = "";
  totp_last_used_step = pos 0;
  linked_peer_count = 0;
}

-- What `upsertUser` writes into the user before it is saved.
abbrev pub stamped : ContextUserInfo → ℕ → User → User
stamped ui now u = record u { base = record u.base { updated_by = ui.id; updated_at = now } }

module _ (g : Gorm) where
  open g use {Db}

  unfoldable pub get_user : Db → String → Result User
  get_user d id = do
    found ← g.load d id
    elim found [ none ↦ err (sentinel not_found) | some u ↦ ok u ]

  unfoldable pub get_or_create_user : ContextUserInfo → ℕ → Db → String → Result (User × Db)
  get_or_create_user ui now d id = do
    found ← g.load d id
    elim found [
      | some u ↦ ok (u, d)
      | none ↦ do d' ← g.create d (user_defaults ui now id); ok (user_defaults ui now id, d')
    ]

  unfoldable pub upsert_user : ContextUserInfo → ℕ → Db → User → Result (User × Db)
  upsert_user ui now d user = do
    let user' = stamped ui now user
    d₁ ← g.save d user'
    d₂ ← wrapping "failed to update users webauthn credentials" (g.replace_credentials d₁ user')
    d₃ ← wrapping "failed to update users authentications" (g.replace_authentications d₂ user')
    ok (user', d₃)

  -- The user that comes back is the caller's object, which the transaction has changed.
  unfoldable pub save_user : Context → ℕ → String → (User → Result User) → Db → Result (User × Db)
  unfolding get_or_create_user upsert_user
  save_user ctx now id update_func d = do
    (user, d₁) ← get_or_create_user (get_user_info ctx) now d id
    changed ← update_func user
    (saved, d₂) ← upsert_user (get_user_info ctx) now d₁ changed
    d₃ ← g.commit d₂
    ok (saved, d₃)

  unfoldable pub delete_user : Db → String → Result Db
  delete_user d id = g.delete d id
