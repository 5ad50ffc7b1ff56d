-- ===== src/Users.antt =====
-- internal/app/users/user_manager.go: the user manager over the repository of internal/adapters. A
-- method takes what it reads and returns an error, or its result with the database and the published
-- events after it. No method changes anything before its last call that can fail.
--
-- The object that a caller passes in and the one that comes back are two values here. Where a method
-- updates a user that it has fetched itself, the code passes one object twice, and so does the model.
pub mod Validation
pub mod Update
pub mod Safety
pub mod Creation
pub mod Removal
pub mod Steps
pub mod Invariants
mod Tests
use awg_portal.Prelude.{
  ℕ, ℤ, String, Bool, true, false, not, ◌&&◌, ◌||◌, Option, none, some, ◌==◌, string_eq,
  if◌then◌else◌, List, [], ◌∷◌, ◌++◌, length, ◌≡◌,
}
use awg_portal.Errors.{
  Error, Result, ok, err, panic, plain, wrap, join, sentinel, not_found, no_permission,
  duplicate_entry, invalid_data, ◌>>=◌, ◌>>◌, wrapping, guard,
}
use awg_portal.Access.{
  Context, get_user_info, system_admin_context_user_info, validate_user_access_rights,
  validate_admin_access_rights,
}
use awg_portal.User.{
  User, UserAuthentication, TimeRef, same_ref, bool_beq, is_disabled, is_locked, edit_allowed,
  can_change_password, has_weak_password, delete_allowed, copy_calculated_attributes,
  user_source_database, is_reserved_user_identifier, is_set,
}
use awg_portal.User.Password.{Bcrypt, hash_text}
use awg_portal.Database.{Gorm, get_user, save_user, delete_user, optional}

-- The fields of the configuration that the manager reads.
pub record UsersConfig : Type 0 where
  pub min_password_length : ℤ
  pub api_admin_only : Bool

-- The topics of internal/app that the manager publishes, with the user that goes with each.
pub data Event : Type 0 where
  user_registered user_created user_updated user_deleted user_disabled user_enabled : User → Event
  user_api_enabled user_api_disabled : User → Event

pub record World (D : Type 0) : Type 0 where
  pub db : D
  pub events : List Event

-- `if err := check; err != nil && !excused { return errors.Join(fmt.Errorf(msg, err), ErrInvalidData) }`
abbrev pub denied : String → Bool → Result (Unit {0}) → Result (Unit {0})
denied msg excused (ok u) = ok tt
denied msg excused (err e) =
    if excused then ok tt else err (join (wrap msg e) (sentinel invalid_data))
denied msg excused panic = panic

abbrev pub invalid : String → Error
invalid msg = wrap msg (sentinel invalid_data)

unfoldable pub validate_admin_modifications : Context → User → User → Result (Unit {0})
validate_admin_modifications ctx old new =
    let current_user = get_user_info ctx in
    if current_user.is_admin
    then guard (not (current_user.id == old.identifier && not new.is_admin))
        (invalid "cannot remove own admin rights")
    else if not (current_user.id == new.identifier)
    then err (invalid "insufficient permissions")
    else if new.is_admin
    then err (invalid "cannot grant admin rights")
    else if not (new.notes == old.notes)
    then err (invalid "cannot update notes")
    else if not (same_ref old.locked new.locked) || not (old.locked_reason == new.locked_reason)
    then err (invalid "cannot change lock state")
    else if not (same_ref old.disabled new.disabled)
        || not (old.disabled_reason == new.disabled_reason)
    then err (invalid "cannot change disabled state")
    else guard (bool_beq old.persist_local_changes new.persist_local_changes)
        (invalid "cannot change disabled state")

-- The checks of `validateModifications` on the acting user's own record.
unfoldable pub validate_own_record : Context → User → User → Result (Unit {0})
validate_own_record ctx old new =
    let own = (get_user_info ctx).id == old.identifier in
    if own && (old.is_admin && not new.is_admin)
    then err (invalid "cannot remove own admin rights")
    else if own && is_disabled new
    then err (invalid "cannot disable own user")
    else if own && is_locked new
    then err (invalid "cannot lock own user")
    else ok tt

unfoldable pub validate_modifications : UsersConfig → Context → User → User → Result (Unit {0})
validate_modifications cfg ctx old new = do
  validate_admin_modifications ctx old new
  denied "no access" ((get_user_info ctx).id == system_admin_context_user_info.id)
      (edit_allowed old new)
  denied "no access" (new.password == "") (can_change_password old)
  denied "password too weak" false (has_weak_password new cfg.min_password_length)
  validate_own_record ctx old new

-- `len(new.Authentications) != 1`, and the two checks on the one authentication
abbrev validate_authentications : Context → User → List UserAuthentication → Result (Unit {0})
validate_authentications ctx new (a ∷ []) =
    if not (a.source == user_source_database) && not (get_user_info ctx).is_admin
    then err (invalid "invalid user source")
    else if a.source == user_source_database && new.password == ""
    then err (invalid "missing password")
    else ok tt
validate_authentications ctx new [] = err (invalid "invalid number of authentications")
validate_authentications ctx new (a ∷ b ∷ rest) = err (invalid "invalid number of authentications")

unfoldable pub validate_creation : UsersConfig → Context → User → Result (Unit {0})
validate_creation cfg ctx new = do
  guard (get_user_info ctx).is_admin (plain "insufficient permissions")
  guard (not (new.identifier == "")) (invalid "invalid user identifier")
  guard (not (is_reserved_user_identifier new.identifier)) (invalid "reserved user identifier")
  validate_authentications ctx new new.authentications
  denied "password too weak" false (has_weak_password new cfg.min_password_length)

-- `del` is nil where the user was not found; `del.Identifier` is then a nil dereference.
unfoldable pub validate_deletion : Context → Option User → Result (Unit {0})
validate_deletion ctx del = do
  guard (get_user_info ctx).is_admin (sentinel no_permission)
  elim del [
    | none ↦ panic
    | some u ↦ do
      denied "no access" false (delete_allowed u)
      guard (not ((get_user_info ctx).id == u.identifier)) (invalid "cannot delete own user")
  ]

unfoldable pub validate_api_change : UsersConfig → Context → Option User → Result (Unit {0})
validate_api_change cfg ctx user = do
  guard (not (not (get_user_info ctx).is_admin && cfg.api_admin_only))
      (wrap "insufficient permissions to change API access" (sentinel no_permission))
  elim user [
    | none ↦ panic
    | some u ↦
        guard ((get_user_info ctx).id == u.identifier)
          (wrap "cannot change API access of user" (sentinel no_permission))
  ]

abbrev is_some : Option User → Bool
is_some none = false
is_some (some u) = true

abbrev switched : Bool → Bool → User → List Event
switched false true u = user_disabled u ∷ []
switched true false u = user_enabled u ∷ []
switched _ _ u = []

-- `user.Password` after `HashPassword` and the test that keeps the old password.
abbrev pub with_password : User → User → String → User
with_password existing user hashed = record user {
  password = if hashed == "" then existing.password else hashed;
}

-- The default authentication that `create` adds.
abbrev pub with_default_authentication : Context → ℕ → User → User
with_default_authentication ctx now user = elim user.authentications [
  | [] ↦
      let id = (get_user_info ctx).id in
      record user {
        authentications =
            record {
              base = record {
                created_by = id;
                updated_by = id;
                created_at = now;
                updated_at = now;
              };
              user_identifier = user.identifier;
              source = user_source_database;
              provider_name = "";
            }
            ∷ [];
      }
  | a ∷ rest ↦ user
]

module _ (g : Gorm) (b : Bcrypt) (cfg : UsersConfig) where
  abbrev pub State : Type 0
  State = World g.Db

  unfoldable pub update : Context → ℕ → User → User → Bool → State → Result (User × State)
  update ctx now existing_user user keep_authentications w = do
    wrapping "update not allowed" (validate_modifications cfg ctx existing_user user)
    hashed ← hash_text b user.password
    let user' = with_password existing_user user hashed
    (saved, d) ← wrapping "update failure" (
        save_user g ctx now existing_user.identifier
          (λ u. ok (copy_calculated_attributes user' u keep_authentications)) w.db)
    let changes = switched (is_disabled existing_user) (is_disabled saved) saved
    ok (saved, record { db = d; events = w.events ++ user_updated saved ∷ changes })

  unfoldable pub update_user : Context → ℕ → User → State → Result (User × State)
  update_user ctx now user w = do
    validate_user_access_rights ctx user.identifier
    existing_user ← wrapping "unable to load existing user" (get_user g w.db user.identifier)
    update ctx now existing_user (copy_calculated_attributes user existing_user true) true w

  unfoldable pub update_user_internal : Context → ℕ → User → State → Result (User × State)
  update_user_internal ctx now user w = do
    existing_user ← wrapping "unable to load existing user" (get_user g w.db user.identifier)
    update ctx now existing_user user false w

  unfoldable pub create : Context → ℕ → User → State → Result (User × State)
  create ctx now user w = do
    guard (not (user.identifier == "")) (plain "missing user identifier")
    existing_user ← optional "unable to load existing user" (get_user g w.db user.identifier)
    guard (not (is_some existing_user))
        (join (plain "user already exists") (sentinel duplicate_entry))
    let user' = with_default_authentication ctx now user
    wrapping "creation not allowed" (validate_creation cfg ctx user')
    hashed ← hash_text b user'.password
    (saved, d) ← wrapping "creation failure" (
        save_user g ctx now user.identifier
          (λ u. ok (copy_calculated_attributes (record user' { password = hashed }) u false)) w.db)
    ok (saved, record { db = d; events = w.events ++ user_created saved ∷ [] })

  unfoldable pub create_user : Context → ℕ → User → State → Result (User × State)
  create_user ctx now user w = do validate_admin_access_rights ctx; create ctx now user w

  unfoldable pub register_user : Context → ℕ → User → State → Result State
  register_user ctx now user w = do
    validate_admin_access_rights ctx
    (created, w') ← create ctx now user w
    ok (record w' { events = w'.events ++ user_registered created ∷ [] })

  -- `DeleteUser`
  unfoldable pub remove_user : Context → String → State → Result State
  remove_user ctx id w = do
    validate_admin_access_rights ctx
    existing_user ← optional "unable to find user" (get_user g w.db id)
    wrapping "deletion not allowed" (validate_deletion ctx existing_user)
    d ← wrapping "deletion failure" (delete_user g w.db id)
    elim existing_user [
      | none ↦ panic
      | some u ↦ ok (record { db = d; events = w.events ++ user_deleted u ∷ [] })
    ]

  -- The second half of `ActivateApi` and `DeactivateApi`, on the user that was fetched.
  unfoldable pub store_api :
      Context
      → ℕ
      → String
      → Option TimeRef
      → (User → Event)
      → State
      → Option User
      → Result (User × State)
  store_api ctx now token created event w none = panic
  store_api ctx now token created event w (some u) = do
    let u' = record u { api_token = token; api_token_created = created }
    (saved, w') ← update ctx now u' u' true w
    ok (saved, record w' { events = w'.events ++ event saved ∷ [] })

  -- `ActivateApi` and `DeactivateApi`: the new token and its time are what the code writes.
  unfoldable pub change_api :
      Context
      → ℕ
      → String
      → String
      → Option TimeRef
      → (User → Event)
      → State
      → Result (User × State)
  unfolding store_api
  change_api ctx now id token created event w = do
    user ← optional "unable to find user" (get_user g w.db id)
    validate_api_change cfg ctx user
    store_api ctx now token created event w user

  unfoldable pub activate_api :
      Context → ℕ → String → String → Option TimeRef → State → Result (User × State)
  unfolding change_api
  activate_api ctx now id uuid created w = change_api ctx now id uuid created user_api_enabled w

  unfoldable pub deactivate_api : Context → ℕ → String → State → Result (User × State)
  unfolding change_api
  deactivate_api ctx now id w = change_api ctx now id "" none user_api_disabled w

  -- `GetUser`; `peer_count` is the number of the user's peers, 0 where they cannot be read.
  unfoldable pub fetch_user : (g.Db → String → ℕ) → Context → String → State → Result User
  fetch_user peer_count ctx id w = do
    validate_user_access_rights ctx id
    user ← wrapping "unable to load user" (get_user g w.db id)
    ok (record user { linked_peer_count = peer_count w.db user.identifier })
