-- ===== src/Users/Tests.antt =====
-- Runs of the user manager over the table in memory, and the theorems at those inputs.
use awg_portal.Prelude.{
  pos, String, Bool, true, false, ◌≡◌, refl, ap, ◌==◌, string_eq, some, List, [], ◌∷◌, arith,
  eq_iff, contains_func, contains,
}
use awg_portal.Errors.{Result, ok, err, sentinel, invalid_data, panic, is}
use awg_portal.Access.{Context, validate_user_access_rights, validate_admin_access_rights}
use awg_portal.User.{
  User, BaseModel, UserAuthentication, edit_allowed, can_change_password, has_weak_password,
  has_database_source, delete_allowed, copy_calculated_attributes, is_reserved_user_identifier,
}
use awg_portal.User.Password.{Bcrypt, hash_text, IsHashed}
use awg_portal.Database.{stored, user_defaults, get_user, save_user, optional, delete_user}
use awg_portal.Database.Transaction.{
  GormTransactions, IsAtomic, save_user_body, get_or_create_user_in, upsert_user_in, save_user_run,
  save_user_run-IsAtomic,
}
use awg_portal.Database.Memory.{memory, find, put, drop}
use awg_portal.Users.{
  UsersConfig, State, user_created, user_updated, user_deleted, validate_modifications,
  validate_admin_modifications, validate_own_record, validate_creation, validate_deletion,
  validate_api_change, update, update_user, create, create_user, remove_user, activate_api,
  deactivate_api,
}
use awg_portal.Users.Safety.{IsConfined, update_user-IsConfined}
use awg_portal.Users.Creation.{Created, create_user-Created}
use awg_portal.Users.Removal.{IsRemoved, remove_user-IsRemoved}
use awg_portal.Users.Steps.{removed}
use awg_portal.Users.Invariants.{
  Reach, ReachBy, ArePasswordsHashed, HasOwnAccess, Reach-ArePasswordsHashed, ReachBy-HasOwnAccess,
}

abbrev a_hash : String
a_hash = "$2a$10$hash"

compare-a_hash : (p h : String) → ◌≡◌ {A = Result String} (ok a_hash) (ok h) → (h == a_hash) ≡ true
compare-a_hash p h e = ground (arith, eq_iff h a_hash)

-- A stand-in for bcrypt that hashes every password to one text.
abbrev toy : Bcrypt
toy = record {
  compare = λ h p. h == a_hash;
  is_hash = λ h. h == a_hash;
  generate = λ p. ok a_hash;
  compare-generate = compare-a_hash;
  is_hash-generate = compare-a_hash;
  not-is_hash-empty = refl;
}

abbrev config : UsersConfig
config = record { min_password_length = pos 4; api_admin_only = false }

abbrev by_root : Context
by_root = some (record { id = "root"; is_admin = true })

abbrev by_ann : Context
by_ann = some (record { id = "ann"; is_admin = false })

abbrev old_base : BaseModel
old_base = record { created_by = "root"; updated_by = "root"; created_at = 1; updated_at = 1 }

abbrev database_login : String → List UserAuthentication
database_login id =
    record { base = old_base; user_identifier = id; source = "db"; provider_name = "" } ∷ []

abbrev plain_user : String → Bool → User
plain_user id admin = record (user_defaults (record { id = "root"; is_admin = true }) 1 id) {
  is_admin = admin;
  password = a_hash;
  authentications = database_login id;
}

abbrev start : State memory toy config
start = record { db = plain_user "root" true ∷ plain_user "ann" false ∷ []; events = [] }

everything : Unit {0}
unfolding find put drop update_user update create create_user remove_user activate_api
    deactivate_api save_user get_user optional delete_user validate_modifications
    validate_admin_modifications validate_own_record validate_creation validate_deletion
    validate_api_change validate_user_access_rights validate_admin_access_rights edit_allowed
    can_change_password has_weak_password has_database_source delete_allowed
    copy_calculated_attributes is_reserved_user_identifier hash_text contains_func contains is
everything = tt

-- Ann sends a new first name and password, and asks for nothing else.
abbrev renamed : User
renamed = record (plain_user "ann" false) { firstname = "Ann"; password = "secret" }

abbrev ann_saved : User
ann_saved = record (plain_user "ann" false) {
  firstname = "Ann";
  base = record old_base { updated_by = "ann"; updated_at = 7 };
}

abbrev after_rename : State memory toy config
after_rename = record {
  db = plain_user "root" true ∷ ann_saved ∷ [];
  events = user_updated ann_saved ∷ [];
}

rename_runs : update_user memory toy config by_ann 7 renamed start ≡ ok (ann_saved, after_rename)
unfolding everything
rename_runs = refl

update_user-IsConfined_example : IsConfined memory toy config by_ann start ann_saved after_rename
update_user-IsConfined_example =
    update_user-IsConfined memory toy config by_ann 7 renamed start ann_saved after_rename refl
      rename_runs

-- Root creates Bob, with no authentication given.
abbrev bob : User
bob = record (user_defaults (record { id = "root"; is_admin = true }) 1 "bob") {
  password = "secret";
}

abbrev bob_saved : User
bob_saved = record (user_defaults (record { id = "root"; is_admin = true }) 9 "bob") {
  password = a_hash;
  authentications =
      record {
        base = record { created_by = "root"; updated_by = "root"; created_at = 9; updated_at = 9 };
        user_identifier = "bob";
        source = "db";
        provider_name = "";
      }
      ∷ [];
}

abbrev after_creation : State memory toy config
after_creation = record {
  db = plain_user "root" true ∷ plain_user "ann" false ∷ bob_saved ∷ [];
  events = user_created bob_saved ∷ [];
}

creation_runs : create_user memory toy config by_root 9 bob start ≡ ok (bob_saved, after_creation)
unfolding everything
creation_runs = refl

create_user-Created_example :
    Created memory toy config by_root 9 bob start bob_saved after_creation
    × IsHashed toy bob_saved.password
    × (memory.load after_creation.db "bob" ≡ ok (some (stored bob_saved)))
create_user-Created_example =
    create_user-Created memory toy config by_root 9 bob start bob_saved after_creation creation_runs

-- Root deletes Ann.
abbrev after_removal : State memory toy config
after_removal = record {
  db = plain_user "root" true ∷ [];
  events = user_deleted (plain_user "ann" false) ∷ [];
}

removal_runs : remove_user memory toy config by_root "ann" start ≡ ok after_removal
unfolding everything
removal_runs = refl

remove_user-IsRemoved_example : IsRemoved memory toy config by_root "ann" start after_removal
remove_user-IsRemoved_example =
    remove_user-IsRemoved memory toy config by_root "ann" start after_removal removal_runs

root_found : memory.load start.db "ann" ≡ ok (some (plain_user "ann" false))
unfolding find
root_found = refl

start-IsHashed :
    (k : String) (u : User) → memory.load start.db k ≡ ok (some u) → IsHashed toy u.password
unfolding find
start-IsHashed k u h = ground (arith, eq_iff u.password a_hash)

Reach-ArePasswordsHashed_example : ArePasswordsHashed memory toy config after_removal.db
Reach-ArePasswordsHashed_example =
    Reach-ArePasswordsHashed memory toy config
      (Reach.next {w₁ = start} by_root Reach.here (removed "ann" removal_runs))
      (record { at = start-IsHashed })

ReachBy-HasOwnAccess_example : HasOwnAccess memory toy config by_root after_removal.db
unfolding find
ReachBy-HasOwnAccess_example =
    ReachBy-HasOwnAccess memory toy config by_root
      (ReachBy.next {w₁ = start} ReachBy.here (removed "ann" removal_runs))
      (record {
        account = plain_user "root" true;
        loaded = refl;
        admin = refl;
        enabled = refl;
        unlocked = refl;
      })

kept_identifier :
    (o n : User)
    → o.identifier ≡ "ann"
    → ◌≡◌ {A = Result User} (ok (record o { firstname = "Ann" })) (ok n)
    → n.identifier ≡ "ann"
kept_identifier o n e h = ground arith

abbrev ann_named : User
ann_named = record (plain_user "ann" false) {
  firstname = "Ann";
  base = record old_base { updated_by = "root"; updated_at = 3 };
}

-- Transactions on the table in memory; after a failure the table within one is empty.
abbrev rolled_back : {A : Type 0} → List User → Result A × List User → Result A × List User
rolled_back d (ok a, d') = (ok a, d')
rolled_back d (err e, d') = (err e, d)
rolled_back d (panic, d') = (panic, d)

abbrev transactions : GormTransactions memory
transactions = record {
  half_written = λ d. [];
  transaction = λ body d. rolled_back d (body d);
  transaction-ok = λ body d d' a h. ap (rolled_back d) h;
  transaction-err = λ body d d' e h. ap (rolled_back d) h;
  transaction-panic = λ body d d' h. ap (rolled_back d) h;
}

save_user_run-IsAtomic_example :
    IsAtomic memory transactions by_root 3 "ann"
      (λ u. ok (record u { firstname = "Ann" }))
      start.db
      (save_user_run memory transactions by_root 3 "ann"
        (λ u. ok (record u { firstname = "Ann" }))
        start.db)
save_user_run-IsAtomic_example =
    save_user_run-IsAtomic memory transactions by_root 3 "ann"
      (λ u. ok (record u { firstname = "Ann" })) start.db kept_identifier

save_runs :
    save_user_run memory transactions by_root 3 "ann"
      (λ u. ok (record u { firstname = "Ann" }))
      start.db
    ≡ (ok ann_named, plain_user "root" true ∷ ann_named ∷ [])
unfolding everything save_user_run save_user_body get_or_create_user_in upsert_user_in
save_runs = refl

-- A new user has been written when the update function fails; it is gone afterwards.
refused_runs :
    save_user_run memory transactions by_root 3 "eve" (λ u. err (sentinel invalid_data)) start.db
    ≡ (err (sentinel invalid_data), start.db)
unfolding everything save_user_run save_user_body get_or_create_user_in upsert_user_in
refused_runs = refl
