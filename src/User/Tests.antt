-- ===== src/User/Tests.antt =====
-- The theorems about users at concrete inputs.
use awg_portal.Prelude.{String, true, ◌≡◌, refl, [], ◌∷◌, arith, eq_iff, ◌==◌, string_eq}
use awg_portal.Errors.{Result, ok}
use awg_portal.User.{User, UserAuthentication, BaseModel, merge_auth_sources, authentication_eq}
use awg_portal.User.Password.{Bcrypt}
use awg_portal.User.Sources.{merge_auth_sources_same_key}
use awg_portal.Database.{user_defaults}

abbrev ldap_login : BaseModel → UserAuthentication
ldap_login base = record {
  base = base;
  user_identifier = "ann";
  source = "ldap";
  provider_name = "corp";
}

abbrev stamp : BaseModel
stamp = record { created_by = ""; updated_by = ""; created_at = 5; updated_at = 5 }

abbrev no_stamp : BaseModel
no_stamp = record { created_by = ""; updated_by = ""; created_at = 0; updated_at = 0 }

abbrev ann : User
ann = record (user_defaults (record { id = "root"; is_admin = true }) 1 "ann") {
  authentications = ldap_login stamp ∷ [];
}

merge_auth_sources_same_key_example :
    (merge_auth_sources ann (ldap_login no_stamp ∷ [])).authentications
    ≡ ldap_login stamp ∷ ldap_login no_stamp ∷ []
merge_auth_sources_same_key_example =
    merge_auth_sources_same_key ann (ldap_login no_stamp) [] (ldap_login stamp) refl
      (refl, refl, refl) ((λ e. omega (arith, e)), tt)

abbrev a_hash : String
a_hash = "$2a$10$hash"

compare-a_hash : (p h : String) → ◌≡◌ {A = Result String} (ok a_hash) (ok h) → (h == a_hash) ≡ true
compare-a_hash p h e = ground (arith, eq_iff h a_hash)

abbrev toy : Bcrypt
toy = record {
  compare = λ h p. h == a_hash;
  is_hash = λ h. h == a_hash;
  generate = λ p. ok a_hash;
  compare-generate = compare-a_hash;
  is_hash-generate = compare-a_hash;
  not-is_hash-empty = refl;
}

abbrev dan : User
dan = record (user_defaults (record { id = "root"; is_admin = true }) 1 "dan") {
  password = a_hash;
  authentications =
      record { base = stamp; user_identifier = "dan"; source = "db"; provider_name = "" } ∷ [];
}
