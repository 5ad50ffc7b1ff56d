-- ===== src/Ldap/Tests.antt =====
-- Synchronisations of single users, and the theorem at such an input.
use awg_portal.Prelude.{true, false, some, none, [], ◌∷◌, ◌≡◌, refl}
use awg_portal.Errors.{ok, panic}
use awg_portal.User.{User, UserAuthentication}
use awg_portal.Database.{user_defaults}
use awg_portal.Ldap.{
  sync_existing, synced_user, carry_disabled, user_changed_in_ldap, fields_changed, lacks_source,
}
use awg_portal.Ldap.Settled.{sync_existing_settled}

abbrev corp : UserAuthentication
corp = record {
  base = record { created_by = ""; updated_by = ""; created_at = 5; updated_at = 5 };
  user_identifier = "eve";
  source = "ldap";
  provider_name = "corp";
}

abbrev eve : User
eve = record (user_defaults (record { id = "root"; is_admin = true }) 1 "eve") {
  authentications = corp ∷ [];
}

abbrev eve_in_ldap : User
eve_in_ldap = record eve { firstname = "Eve" }

abbrev eve_synced : User
eve_synced = synced_user 7 eve (carry_disabled false eve eve_in_ldap)

changes : sync_existing false 7 eve eve eve_in_ldap ≡ ok (some eve_synced)
unfolding sync_existing user_changed_in_ldap fields_changed carry_disabled
changes = refl

sync_existing_settled_example : sync_existing false 9 eve_synced eve_synced eve_in_ldap ≡ ok none
sync_existing_settled_example =
    sync_existing_settled false 7 9 eve eve_in_ldap eve_synced corp [] refl changes

-- A user that LDAP delivers without a source would stop the program.
unsourced : user_changed_in_ldap eve (record eve { authentications = [] }) ≡ panic
unfolding user_changed_in_ldap fields_changed lacks_source
unsourced = refl
