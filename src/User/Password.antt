-- ===== src/User/Password.antt =====
-- The methods of internal/domain/user.go that need bcrypt, and the API token check. bcrypt is not
-- code of this repository: it is a parameter, with what the program relies on as laws.
use awg_portal.Prelude.{
  String, Bool, true, false, not, ◌==◌, string_eq, if◌then◌else◌, ◌≡◌, ◌⊎◌, arith, eq_iff,
}
use awg_portal.Errors.{Result, ok, err, plain, guard}
use awg_portal.User.{User, has_database_source, is_disabled, is_api_enabled}

-- `compare h p` is `CompareHashAndPassword(h, p) == nil`, `is_hash h` is `Cost(h)` with no error.
pub record Bcrypt : Type 0 where
  pub compare : String → String → Bool
  pub is_hash : String → Bool
  pub generate : String → Result String
  pub compare-generate : (p h : String) → generate p ≡ ok h → compare h p ≡ true
  pub is_hash-generate : (p h : String) → generate p ≡ ok h → is_hash h ≡ true
  pub not-is_hash-empty : is_hash "" ≡ false

unfoldable pub check_api_token : User → String → Result (Unit {0})
check_api_token u token =
    if not (is_api_enabled u)
    then err (plain "api access disabled")
    else guard (u.api_token == token) (plain "wrong token")

module _ (b : Bcrypt) where
  unfoldable pub check_password : User → String → Result (Unit {0})
  check_password u password =
      if not (has_database_source u)
      then err (plain "invalid user source")
      else if is_disabled u
      then err (plain "user disabled")
      else if u.password == ""
      then err (plain "empty user password")
      else guard (b.compare u.password password) (plain "wrong password")

  -- `HashPassword` changes nothing but the password.
  unfoldable pub hash_text : String → Result String
  hash_text p = if p == "" then ok p else if b.is_hash p then ok p else b.generate p

  -- What may be stored as a password: nothing, or a bcrypt hash.
  abbrev pub IsHashed : String → Type 0
  IsHashed p = (p ≡ "") ⊎ (b.is_hash p ≡ true)

  -- The text that `HashPassword` leaves is empty or a hash, and empty only if it was.
  pub hash_text-IsHashed : (p h : String) → hash_text p ≡ ok h → IsHashed h × (h ≡ "" → p ≡ "")
  unfolding hash_text
  hash_text-IsHashed p h e =
      ground (arith, eq_iff p "", b.is_hash-generate p h, b.not-is_hash-empty)
