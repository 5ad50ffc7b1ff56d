-- ===== src/User/Editing.antt =====
-- `EditAllowed` and `CheckPassword` of internal/domain/user.go, in terms of what they let through.
use awg_portal.Prelude.{String, true, false, ◌≡◌, ◌≢◌, ◌↔◌, ◌⊎◌, arith, eq_iff, string_eq}
use awg_portal.Errors.{ok}
use awg_portal.User.{User, is_database_only, edit_allowed, has_database_source, is_disabled}
use awg_portal.User.Password.{Bcrypt, hash_text, check_password}

-- The fields that are reserved for the identity provider agree.
pub record HasReservedFields (u new : User) : Type 0 where
  pub identifier : u.identifier ≡ new.identifier
  pub is_admin : u.is_admin ≡ new.is_admin
  pub email : u.email ≡ new.email
  pub firstname : u.firstname ≡ new.firstname
  pub lastname : u.lastname ≡ new.lastname
  pub phone : u.phone ≡ new.phone
  pub department : u.department ≡ new.department

-- An edit is allowed exactly if the user authenticates against the database alone, or the changes are
-- to be persisted locally, or every reserved field stays as it is.
pub edit_allowed_iff :
    (u new : User)
    → (edit_allowed u new ≡ ok tt) ↔ (
        (is_database_only u.authentications ≡ true)
        ⊎ ((new.persist_local_changes ≡ true) ⊎ HasReservedFields u new))
unfolding edit_allowed
edit_allowed_iff u new = ground (
  arith,
  eq_iff u.identifier new.identifier,
  eq_iff u.email new.email,
  eq_iff u.firstname new.firstname,
  eq_iff u.lastname new.lastname,
  eq_iff u.phone new.phone,
  eq_iff u.department new.department,
)

module _ (b : Bcrypt) where
  -- A plain password that `HashPassword` has hashed is the one that `CheckPassword` accepts, for an
  -- enabled user with a database login.
  pub check_password-hash_text :
      (u : User) (p h : String)
      → p ≢ ""
      → b.is_hash p ≡ false
      → hash_text b p ≡ ok h
      → u.password ≡ h
      → has_database_source u ≡ true
      → is_disabled u ≡ false
      → check_password b u p ≡ ok tt
  unfolding check_password hash_text
  check_password-hash_text u p h named plain made same source enabled = ground (
    arith,
    eq_iff p "",
    eq_iff u.password "",
    b.compare-generate p h,
    b.is_hash-generate p h,
    b.not-is_hash-empty,
  )
