-- ===== src/User.antt =====
-- internal/domain/user.go and internal/domain/base.go: the user, its authentications, and the methods
-- that decide what may be done with it. A `*time.Time` is an address and the time stored there, since
-- the program compares some of these pointers with `==`.
pub mod Password
pub mod Sources
pub mod Editing
mod Tests
use Prim.Native.String
use Prim.Native.String.{len}
use mathlib.Core.Option
use awg_portal.Prelude.{
  ℕ, ℤ, pos, ltb_ℤ, String, Bool, true, false, ◌&&◌, ◌||◌, not, Option, none, some, List, [], ◌∷◌,
  ◌++◌, ◌==◌, Comparable, string_eq, nat_eq, if◌then◌else◌, contains, contains_func, length, ◌≡◌,
  ◌↔◌, arith, eq_iff, nat_beq_iff,
}
use awg_portal.Errors.{Result, ok, err, plain, guard}
use awg_portal.Access.{
  ctx_system_admin_id, ctx_unknown_user_id, ctx_system_ldap_syncer, ctx_system_wg_importer,
  ctx_system_v1_migrator, ctx_system_db_migrator,
}

pub record TimeRef : Type 0 where
  pub address : ℕ
  pub instant : ℕ

-- Go's `==` on `*time.Time`: both nil, or the same address.
abbrev pub same_ref : Option TimeRef → Option TimeRef → Bool
same_ref none none = true
same_ref none (some q) = false
same_ref (some p) none = false
same_ref (some p) (some q) = p.address == q.address

abbrev pub is_set : Option TimeRef → Bool
is_set none = false
is_set (some t) = true

pub record BaseModel : Type 0 where
  pub created_by : String
  pub updated_by : String
  pub created_at : ℕ
  pub updated_at : ℕ

abbrev pub bool_beq : Bool → Bool → Bool
bool_beq true b = b
bool_beq false b = not b

abbrev pub user_source_ldap : String
user_source_ldap = "ldap"

abbrev pub user_source_database : String
user_source_database = "db"

abbrev pub user_source_oauth : String
user_source_oauth = "oauth"

pub record UserAuthentication : Type 0 where
  pub base : BaseModel
  pub user_identifier : String
  pub source : String
  pub provider_name : String

abbrev pub authentication_beq : UserAuthentication → UserAuthentication → Bool
authentication_beq a b =
    a.base.created_by == b.base.created_by
    && (a.base.updated_by == b.base.updated_by
        && (a.base.created_at == b.base.created_at
            && (a.base.updated_at == b.base.updated_at
                && (a.user_identifier == b.user_identifier
                    && (a.source == b.source && a.provider_name == b.provider_name)))))

pub authentication_beq_iff : (a b : UserAuthentication) → (authentication_beq a b ≡ true) ↔ (a ≡ b)
authentication_beq_iff a b = ground (
  arith,
  eq_iff a.base.created_by b.base.created_by,
  eq_iff a.base.updated_by b.base.updated_by,
  eq_iff a.user_identifier b.user_identifier,
  eq_iff a.source b.source,
  eq_iff a.provider_name b.provider_name,
)

-- Go's `==` on the struct compares every field, the embedded `BaseModel` too.
instance abbrev pub authentication_eq : Comparable UserAuthentication
authentication_eq = record { same = authentication_beq; same_iff = authentication_beq_iff }

pub record UserWebauthnCredential : Type 0 where
  pub user_identifier : String
  pub credential_identifier : String
  pub created_at : ℕ
  pub display_name : String
  pub serialized_credential : String

pub record User : Type 0 where
  pub base : BaseModel
  pub identifier : String
  pub email : String
  pub source : String
  pub provider_name : String
  pub is_admin : Bool
  pub authentications : List UserAuthentication
  pub persist_local_changes : Bool
  pub firstname : String
  pub lastname : String
  pub phone : String
  pub department : String
  pub notes : String
  pub password : String
  pub disabled : Option TimeRef
  pub disabled_reason : String
  pub locked : Option TimeRef
  pub locked_reason : String
  pub web_authn_id : String
  pub web_authn_credential_list : List UserWebauthnCredential
  pub api_token : String
  pub api_token_created : Option TimeRef
  pub totp_enabled : Bool
  pub totp_secret : String
  pub totp_recovery_codes : String
  pub totp_last_used_step : ℤ
  pub linked_peer_count : ℕ

unfoldable pub has_database_source : User → Bool
unfolding contains_func
has_database_source u = contains_func (λ e. e.source == user_source_database) u.authentications

unfoldable pub can_use_totp : User → Bool
can_use_totp u = has_database_source u

abbrev pub is_disabled : User → Bool
is_disabled u = is_set u.disabled

abbrev pub is_locked : User → Bool
is_locked u = is_set u.locked

abbrev pub is_api_enabled : User → Bool
is_api_enabled u = not (u.api_token == "")

unfoldable pub can_change_password : User → Result (Unit {0})
can_change_password u =
    guard (has_database_source u) (plain "password change only allowed for database source")

-- `len` counts bytes, as Go's does.
unfoldable pub has_weak_password : User → ℤ → Result (Unit {0})
has_weak_password u min_length =
    if not (has_database_source u)
    then ok tt
    else if u.password == ""
    then ok tt
    else guard (not (ltb_ℤ (pos (len u.password)) min_length)) (plain "password is too short")

-- `len(u.Authentications) == 1 && u.Authentications[0].Source == UserSourceDatabase`
abbrev pub is_database_only : List UserAuthentication → Bool
is_database_only (a ∷ []) = a.source == user_source_database
is_database_only [] = false
is_database_only (a ∷ b ∷ rest) = false

unfoldable pub edit_allowed : User → User → Result (Unit {0})
edit_allowed u new =
    if is_database_only u.authentications
    then ok tt
    else if new.persist_local_changes
    then ok tt
    else guard
        (u.identifier == new.identifier
          && (bool_beq u.is_admin new.is_admin
              && (u.email == new.email
                  && (u.firstname == new.firstname
                      && (u.lastname == new.lastname
                          && (u.phone == new.phone && u.department == new.department))))))
        (plain "edit only allowed for reserved fields")

-- Every user may be deleted.
unfoldable pub delete_allowed : User → Result (Unit {0})
delete_allowed u = ok tt

unfoldable pub copy_calculated_attributes : User → User → Bool → User
copy_calculated_attributes u src with_authentications =
    let copied = record u { base = src.base; linked_peer_count = src.linked_peer_count } in
    if with_authentications
    then record copied {
      authentications = src.authentications;
      web_authn_id = src.web_authn_id;
      web_authn_credential_list = src.web_authn_credential_list;
    }
    else copied

unfoldable pub copy_admin_attributes : User → User → Bool → User
copy_admin_attributes u src api_admin_only =
    let copied = record u {
      base = src.base;
      identifier = src.identifier;
      email = src.email;
      source = src.source;
      provider_name = src.provider_name;
      is_admin = src.is_admin;
      authentications = src.authentications;
      persist_local_changes = src.persist_local_changes;
      firstname = src.firstname;
      lastname = src.lastname;
      phone = src.phone;
      department = src.department;
      notes = src.notes;
      disabled = src.disabled;
      disabled_reason = src.disabled_reason;
      locked = src.locked;
      locked_reason = src.locked_reason;
      linked_peer_count = src.linked_peer_count;
    } in
    if api_admin_only
    then record copied { api_token = src.api_token; api_token_created = src.api_token_created }
    else copied

-- The loop of `MergeAuthSources` over the external sources.
module _ {ℓ} {A : Type ℓ} ⦃e : Comparable A⦄ where
  unfoldable pub merge_sources : List A → List A → List A
  merge_sources have [] = have
  merge_sources have (src ∷ rest) =
      merge_sources (if contains have src then have else have ++ src ∷ []) rest

unfoldable pub merge_auth_sources : User → List UserAuthentication → User
merge_auth_sources u ext = record u { authentications = merge_sources u.authentications ext }

unfoldable pub display_name : User → String
display_name u =
    if not (u.firstname == "") && not (u.lastname == "")
    then String.◌++◌ u.firstname (String.◌++◌ " " u.lastname)
    else if not (u.firstname == "")
    then u.firstname
    else if not (u.lastname == "")
    then u.lastname
    else if not (u.email == "")
    then u.email
    else u.identifier

unfoldable pub create_default_peers : User → Bool
create_default_peers u = not (is_disabled u) && not (is_locked u)

-- `UpdateCredential`: the first credential of that id is renamed.
unfoldable pub rename_credential :
    List UserWebauthnCredential → String → String → Option (List UserWebauthnCredential)
rename_credential [] id name = none
rename_credential (c ∷ cs) id name =
    if c.credential_identifier == id
    then some (record c { display_name = name } ∷ cs)
    else Option.map (λ rest. c ∷ rest) (rename_credential cs id name)

unfoldable pub update_credential : User → String → String → Result User
update_credential u id name = elim (rename_credential u.web_authn_credential_list id name) [
  | some cs ↦ ok (record u { web_authn_credential_list = cs })
  | none ↦ err (plain "credential not found")
]

unfoldable pub drop_credential : List UserWebauthnCredential → String → List UserWebauthnCredential
drop_credential [] id = []
drop_credential (c ∷ cs) id =
    let rest = drop_credential cs id in if c.credential_identifier == id then rest else c ∷ rest

unfoldable pub remove_credential : User → String → User
unfolding drop_credential
remove_credential u id = record u {
  web_authn_credential_list = drop_credential u.web_authn_credential_list id;
}

abbrev reserved_user_identifiers : List String
reserved_user_identifiers =
    "all" ∷ "new" ∷ "id" ∷ ctx_system_admin_id ∷ ctx_unknown_user_id ∷ ctx_system_ldap_syncer
    ∷ ctx_system_wg_importer ∷ ctx_system_v1_migrator ∷ ctx_system_db_migrator ∷ []

-- internal/domain/sanitize.go
unfoldable pub is_reserved_user_identifier : String → Bool
unfolding contains
is_reserved_user_identifier id = contains reserved_user_identifiers id
