-- ===== src/Access.antt =====
-- internal/domain/context.go: who is acting, and the two access checks. The context carries at most
-- one `*ContextUserInfo`; `none` is a context with no value of that type.
use awg_portal.Prelude.{
  String, Bool, true, false, Option, none, some, ◌==◌, string_eq, if◌then◌else◌, ◌≡◌, ◌↔◌, ◌⊎◌,
  arith, eq_iff,
}
use awg_portal.Errors.{Result, ok, err, sentinel, no_permission}

abbrev pub ctx_system_admin_id : String
ctx_system_admin_id = "_WG_SYS_ADMIN_"

abbrev pub ctx_unknown_user_id : String
ctx_unknown_user_id = "_WG_SYS_UNKNOWN_"

abbrev pub ctx_system_ldap_syncer : String
ctx_system_ldap_syncer = "_WG_SYS_LDAP_SYNCER_"

abbrev pub ctx_system_wg_importer : String
ctx_system_wg_importer = "_WG_SYS_WG_IMPORTER_"

abbrev pub ctx_system_v1_migrator : String
ctx_system_v1_migrator = "_WG_SYS_V1_MIGRATOR_"

abbrev pub ctx_system_db_migrator : String
ctx_system_db_migrator = "_WG_SYS_DB_MIGRATOR_"

pub record ContextUserInfo : Type 0 where
  pub id : String
  pub is_admin : Bool

abbrev pub Context : Type 0
Context = Option ContextUserInfo

abbrev pub default_context_user_info : ContextUserInfo
default_context_user_info = record { id = ctx_unknown_user_id; is_admin = false }

abbrev pub system_admin_context_user_info : ContextUserInfo
system_admin_context_user_info = record { id = ctx_system_admin_id; is_admin = true }

abbrev pub ldap_sync_context_user_info : ContextUserInfo
ldap_sync_context_user_info = record { id = ctx_system_ldap_syncer; is_admin = true }

abbrev pub set_user_info : Context → ContextUserInfo → Context
set_user_info ctx info = some info

abbrev pub get_user_info : Context → ContextUserInfo
get_user_info none = default_context_user_info
get_user_info (some info) = info

unfoldable pub validate_user_access_rights : Context → String → Result (Unit {0})
validate_user_access_rights ctx required_user =
    let session_user = get_user_info ctx in
    if session_user.is_admin
    then ok tt
    else if session_user.id == required_user
    then ok tt
    else err (sentinel no_permission)

unfoldable pub validate_admin_access_rights : Context → Result (Unit {0})
validate_admin_access_rights ctx =
    let session_user = get_user_info ctx in
    if session_user.is_admin then ok tt else err (sentinel no_permission)

-- Access is granted exactly to admins and to the required user itself.
pub validate_user_access_rights_iff :
    (ctx : Context) (required_user : String)
    → (validate_user_access_rights ctx required_user ≡ ok tt)
      ↔ (((get_user_info ctx).is_admin ≡ true) ⊎ ((get_user_info ctx).id ≡ required_user))
unfolding validate_user_access_rights
validate_user_access_rights_iff ctx required_user =
    ground (arith, eq_iff (get_user_info ctx).id required_user)
