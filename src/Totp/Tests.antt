-- ===== src/Totp/Tests.antt =====
-- The second factor over the user manager and the table in memory, and the theorems at those inputs.
use awg_portal.Prelude.{
  ℕ, ◌+◌, ◌%◌, ℤ, pos, negsuc, ◌<ℤ◌, ◌==◌, string_eq, nat_eq, int_eq, String, true, false, none,
  List, [], ◌∷◌, ◌≡◌, refl, if◌then◌else◌, arith, eq_iff, some, subst, contains, contains_func,
}
use Prim.Native.String.{[] as nil, ◌∷◌ as cons}
use awg_portal.Errors.{Result, ok, err, plain, bind-eq-ok, ◌>>=◌}
use awg_portal.Access.{
  Context, validate_user_access_rights, validate_admin_access_rights,
  system_admin_context_user_info,
}
use awg_portal.User.{
  can_use_totp, User, BaseModel, edit_allowed, can_change_password, has_database_source,
  has_weak_password, copy_calculated_attributes,
}
use awg_portal.User.Password.{Bcrypt, hash_text}
use awg_portal.Database.{
  user_defaults, get_user, save_user, get_or_create_user, upsert_user, stored,
}
use awg_portal.Database.Memory.{memory, find, put}
use awg_portal.Users.{
  UsersConfig, State, user_updated, update_user_internal, update, validate_modifications,
  validate_admin_modifications, validate_own_record,
}
use awg_portal.Text.{bytes, trim_space, trim_left, trim_right, is_space, rune_bytes}
use awg_portal.Totp.{
  Code, TotpLibraries, TotpUserManager, is_recovery_code_format, normalize_recovery_code,
  validate_code, check_totp_code, found_step, record_step, consume_recovery_code, consume,
  generate_recovery_codes, recovery_code, validate_totp_with_step, match_step, subtle_compare,
  compare_from, confirm_enrollment, disable, hash_recovery_codes, letter,
}
use awg_portal.Totp.Logins.{Logins, here, after as login}
use awg_portal.Totp.Once.{validate_code_twice, consume_recovery_code_twice}
use awg_portal.Totp.Replay.{Accepted, validate_code-Accepted}
use awg_portal.Totp.Enrollment.{Enrolled, confirm_enrollment-Enrolled}
use awg_portal.Totp.Manager.{user_manager}

-- A code of six digits for a time step.
abbrev code_of : ℤ → Code
code_of (pos n) = b'1' ∷ b'2' ∷ b'3' ∷ b'4' ∷ b'5' ∷ (48 + n % 10) ∷ []
code_of (negsuc n) = []

matches :
    {T : Type 0} (c : T) (s h : String) → ◌≡◌ {A = Result String} (ok s) (ok h) → (h == s) ≡ true
matches c s h e = ground (arith, e, eq_iff h s)

-- A list of so many hashes `h`.
abbrev write : List String → Result String
write [] = ok ""
write (h ∷ hs) = do s ← write hs; if h == "h" then ok (cons "a" s) else err (plain "json")

abbrev read : String → Result (List String)
read nil = ok []
read (cons c s) = do hs ← read s; ok ("h" ∷ hs)

read-write : (l : List String) (s : String) → write l ≡ ok s → read s ≡ ok l
read-write [] s h = let empty : "" ≡ s = ground (arith, h) in subst (λ t. read t ≡ ok []) empty refl
read-write (x ∷ l) s h =
    let (rest, written, h₁) = bind-eq-ok (write l) _ h in
    let same_hash : "h" ≡ x = ground (arith, h₁, eq_iff x "h") in
    let same_text : cons "a" rest ≡ s = ground (arith, h₁) in
    let back = read-write l rest written in
    subst (λ t. read t ≡ ok (x ∷ l)) same_text (cc (back, same_hash))

-- Stand-ins: one hash for every code, and a text for every list of this hash.
abbrev toy : TotpLibraries
toy = record {
  generate_code = λ secret step. ok (code_of step);
  validate = λ now code secret. true;
  compare = λ h code. h == "h";
  hash = λ code. ok "h";
  to_upper = λ code. code;
  marshal = write;
  unmarshal = read;
  compare-hash = λ c h e. matches c "h" h e;
  unmarshal-marshal = read-write;
}

abbrev bcrypt : Bcrypt
bcrypt = record {
  compare = λ h p. h == "hash";
  is_hash = λ h. h == "hash";
  generate = λ p. ok "hash";
  compare-generate = λ p h e. matches p "hash" h e;
  is_hash-generate = λ p h e. matches p "hash" h e;
  not-is_hash-empty = refl;
}

abbrev config : UsersConfig
config = record { min_password_length = pos 4; api_admin_only = false }

abbrev manager : TotpUserManager
manager = user_manager memory bcrypt config

abbrev base : BaseModel
base = record { created_by = "root"; updated_by = "root"; created_at = 1; updated_at = 1 }

abbrev ann : User
ann = record (user_defaults (record { id = "root"; is_admin = true }) 1 "ann") {
  password = "hash";
  authentications =
      record { base = base; user_identifier = "ann"; source = "db"; provider_name = "" } ∷ [];
  totp_enabled = true;
  totp_secret = "ABC";
  totp_recovery_codes = "a";
}

abbrev start : State memory bcrypt config
start = record { db = ann ∷ []; events = [] }

abbrev now : ℕ
now = 3000

-- The code of time step 100.
abbrev code : Code
code = code_of (pos 100)

everything : Unit {0}
unfolding find put update_user_internal update save_user get_user get_or_create_user upsert_user
    validate_modifications validate_admin_modifications validate_own_record hash_text
    copy_calculated_attributes validate_user_access_rights validate_admin_access_rights
    validate_code check_totp_code found_step record_step consume_recovery_code consume
    validate_totp_with_step match_step subtle_compare compare_from is_recovery_code_format
    trim_space trim_left trim_right is_space bytes rune_bytes normalize_recovery_code edit_allowed
    can_change_password has_database_source has_weak_password contains contains_func
everything = tt

-- The user after an update by the system's administrator at `time`.
abbrev after : ℕ → User → User
after time u = record u {
  base = record u.base { updated_by = system_admin_context_user_info.id; updated_at = time };
}

abbrev first_saved : User
first_saved = after now (record ann { totp_last_used_step = pos 100 })

abbrev after_first : State memory bcrypt config
after_first = record { db = stored first_saved ∷ []; events = user_updated first_saved ∷ [] }

first_runs : validate_code toy manager none now ann code start ≡ ok (first_saved, after_first)
unfolding everything
first_runs = refl

-- Half a minute later, with the code of time step 101.
abbrev second_saved : User
second_saved = after 3030 (record first_saved { totp_last_used_step = pos 101 })

abbrev after_second : State memory bcrypt config
after_second = record {
  db = stored second_saved ∷ [];
  events = user_updated first_saved ∷ user_updated second_saved ∷ [];
}

second_runs :
    validate_code toy manager none 3030 first_saved (code_of (pos 101)) after_first
    ≡ ok (second_saved, after_second)
unfolding everything
second_runs = refl

six_digits : is_recovery_code_format (trim_space code) ≡ false
unfolding everything
six_digits = refl

other_six_digits : is_recovery_code_format (trim_space (code_of (pos 101))) ≡ false
unfolding everything
other_six_digits = refl

validate_code-Accepted_example : Accepted toy manager now ann code start first_saved after_first
validate_code-Accepted_example =
    validate_code-Accepted toy manager none now ann code start first_saved after_first six_digits
      first_runs

validate_code_twice_example : pos 100 <ℤ pos 101
unfolding find
validate_code_twice_example =
    validate_code_twice toy manager none none now 3030 ann first_saved first_saved second_saved code
      (code_of (pos 101)) start after_first after_first after_second six_digits other_six_digits
      first_runs (omega arith) here refl second_runs

-- A request that has loaded Ann before the first one stored the step may use the code again.
loaded_before :
    validate_code toy manager none now ann code after_first
    ≡ ok (
      first_saved,
      record after_first { events = user_updated first_saved ∷ user_updated first_saved ∷ [] },
    )
unfolding everything
loaded_before = refl

-- The one recovery code of Ann, as the list of its code points.
abbrev lost_phone : Code
lost_phone = recovery_code (λ j. j)

abbrev spent : User
spent = after now (record ann { totp_recovery_codes = "" })

abbrev after_spent : State memory bcrypt config
after_spent = record { db = stored spent ∷ []; events = user_updated spent ∷ [] }

spent_runs :
    consume_recovery_code toy manager none now ann lost_phone start ≡ ok (spent, after_spent)
unfolding everything
spent_runs = refl

-- Ann logs in once more with a code of six digits.
abbrev spent_and_used : User
spent_and_used = record spent { totp_last_used_step = pos 100 }

abbrev after_used : State memory bcrypt config
after_used = record {
  db = stored spent_and_used ∷ [];
  events = user_updated spent ∷ user_updated spent_and_used ∷ [];
}

used_runs :
    validate_code toy manager none now spent code after_spent ≡ ok (spent_and_used, after_used)
unfolding everything
used_runs = refl

logged_in : Logins toy manager after_spent after_used
unfolding find
logged_in = login here none now spent spent_and_used code refl used_runs

consume_recovery_code_twice_example :
    consume_recovery_code toy manager none 9000 spent_and_used lost_phone after_used
    ≡ err (plain "invalid recovery code")
unfolding find
consume_recovery_code_twice_example =
    consume_recovery_code_twice toy manager none none now 9000 ann spent spent_and_used lost_phone
      start after_spent after_used ("h" ∷ []) refl refl spent_runs logged_in refl

-- Ann turns TOTP on for the first time.
abbrev newcomer : User
newcomer = record ann { totp_enabled = false; totp_secret = ""; totp_recovery_codes = "" }

abbrev eight_codes : List Code
eight_codes =
    lost_phone ∷ lost_phone ∷ lost_phone ∷ lost_phone ∷ lost_phone ∷ lost_phone ∷ lost_phone
    ∷ lost_phone ∷ []

abbrev enrolled : User
enrolled = record (after now (record ann { totp_recovery_codes = "aaaaaaaa" })) {
  base = record ann.base { updated_by = "ann"; updated_at = now };
}

abbrev by_ann : Context
by_ann = some (record { id = "ann"; is_admin = false })

abbrev after_enrollment : State memory bcrypt config
after_enrollment = record { db = stored enrolled ∷ []; events = user_updated enrolled ∷ [] }

enrollment_runs :
    confirm_enrollment toy manager by_ann now (λ i. ok (λ j. j)) newcomer "ABC" code start
    ≡ ok (eight_codes, enrolled, after_enrollment)
unfolding everything confirm_enrollment generate_recovery_codes hash_recovery_codes can_use_totp
    recovery_code letter
enrollment_runs = refl

confirm_enrollment-Enrolled_example :
    Enrolled toy manager now newcomer "ABC" code start eight_codes enrolled after_enrollment
confirm_enrollment-Enrolled_example =
    confirm_enrollment-Enrolled toy manager by_ann now (λ i. ok (λ j. j)) newcomer "ABC" code start
      eight_codes enrolled after_enrollment enrollment_runs

abbrev switched_off : User
switched_off = record enrolled { totp_enabled = false; totp_secret = ""; totp_recovery_codes = "" }

abbrev after_disable : State memory bcrypt config
after_disable = record { db = stored switched_off ∷ []; events = user_updated switched_off ∷ [] }

disable_runs : disable toy manager by_ann now ann start ≡ ok (switched_off, after_disable)
unfolding everything disable
disable_runs = refl
