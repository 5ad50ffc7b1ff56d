-- ===== src/Ldap.antt =====
-- What the LDAP synchronisation of internal/app/users/ldap_sync.go and ldap_helper.go makes of a user that
-- exists already.
pub mod Settled
mod Tests
use awg_portal.Prelude.{
  ℕ, String, Bool, true, false, not, ◌&&◌, ◌||◌, Option, none, some, List, [], ◌∷◌, ◌==◌, string_eq,
  if◌then◌else◌, contains_func,
}
use awg_portal.Access.{ctx_system_ldap_syncer}
use awg_portal.Errors.{Result, ok, panic, ◌>>=◌}
use awg_portal.User.{User, UserAuthentication, bool_beq, is_disabled, merge_auth_sources}

abbrev pub disabled_reason_ldap_missing : String
disabled_reason_ldap_missing = "missing in ldap"

-- The comparisons of `userChangedInLdap` before the last one.
unfoldable pub fields_changed : User → User → Bool
fields_changed db ldap =
    not (db.firstname == ldap.firstname)
    || (not (db.lastname == ldap.lastname)
        || (not (db.email == ldap.email)
            || (not (db.phone == ldap.phone)
                || (not (db.department == ldap.department)
                    || (not (bool_beq (is_disabled db) (is_disabled ldap))
                        || not (bool_beq db.is_admin ldap.is_admin))))))

-- The last comparison of `userChangedInLdap`. Without a source in LDAP it panics, but it is only reached
-- if there is a source to compare with.
unfoldable pub lacks_source : List UserAuthentication → List UserAuthentication → Result Bool
lacks_source [] sources = ok true
lacks_source (h ∷ have) [] = panic
lacks_source (h ∷ have) (a ∷ rest) = ok (not (contains_func (λ e. e.source == a.source) (h ∷ have)))

unfoldable pub user_changed_in_ldap : User → User → Result Bool
user_changed_in_ldap db ldap =
    if fields_changed db ldap then ok true else lacks_source db.authentications ldap.authentications

-- Whether the user stays disabled.
unfoldable pub carry_disabled : Bool → User → User → User
carry_disabled auto_re_enable existing user =
    if auto_re_enable && (existing.disabled_reason == disabled_reason_ldap_missing)
    then record user { disabled = none; disabled_reason = "" }
    else record user { disabled = existing.disabled; disabled_reason = existing.disabled_reason }

-- The assignments to the user that is read a second time.
unfoldable pub synced_user : ℕ → User → User → User
synced_user now fresh user =
    let merged = merge_auth_sources fresh user.authentications in
    record merged {
      base = record fresh.base { updated_at = now; updated_by = ctx_system_ldap_syncer };
      email = user.email;
      firstname = user.firstname;
      lastname = user.lastname;
      phone = user.phone;
      department = user.department;
      is_admin = user.is_admin;
      disabled = user.disabled;
      disabled_reason = user.disabled_reason;
    }

-- The user that `updateLdapUsers` updates an existing user to, and `none` if it leaves it alone.
-- `fresh` is the user as it is read the second time.
unfoldable pub sync_existing : Bool → ℕ → User → User → User → Result (Option User)
sync_existing auto_re_enable now existing fresh ldap =
    let user = carry_disabled auto_re_enable existing ldap in
    if existing.persist_local_changes then ok none else do
      changed ← user_changed_in_ldap existing user
      ok (if changed then some (synced_user now fresh user) else none)
