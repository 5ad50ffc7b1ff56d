-- ===== src/Totp.antt =====
-- internal/app/auth/auth_totp.go: the second factor. A code is the list of its code points. The
-- libraries that compute codes, hashes and JSON are a parameter, and so is the user manager, of which
-- the authenticator uses `UpdateUserInternal`.
pub mod Codes
pub mod Recovery
pub mod Replay
pub mod Stored
pub mod Logins
pub mod Once
pub mod Manager
pub mod Enrollment
mod Tests
use awg_portal.Prelude.{
  ℕ, zero, suc, ◌+◌, ◌/◌, ◌%◌, ℤ, pos, negsuc, ltb_ℤ, int_eq, nat_eq, string_eq, ◌==◌, String, Bool,
  true, false, not, ◌&&◌, Option, none, some, List, [], ◌∷◌, if◌then◌else◌, ◌≡◌, length,
}
use Prim.Native.Nat.{bit_or, bit_xor}
use awg_portal.Errors.{Result, ok, err, plain, wrapping, ◌>>=◌, ◌>>◌, guard}
use awg_portal.Access.{Context, set_user_info, system_admin_context_user_info}
use awg_portal.User.{User, can_use_totp}
use awg_portal.Text.{bytes, byte_at?, trim_space, is_nil}

abbrev pub Code : Type 0
Code = List ℕ

abbrev pub totp_period : ℕ
totp_period = 30

abbrev pub recovery_code_count : ℕ
recovery_code_count = 8

-- The libraries. `generate_code secret step` is `GenerateCodeCustom` at the start of the time step, with
-- the options of the program; `validate` is `totp.Validate` at a time; `compare` and `hash` are bcrypt's;
-- `marshal` and `unmarshal` are `encoding/json` on a list of strings.
pub record TotpLibraries : Type 0 where
  pub generate_code : String → ℤ → Result Code
  pub validate : ℕ → Code → String → Bool
  pub compare : String → Code → Bool
  pub hash : Code → Result String
  pub to_upper : Code → Code
  pub marshal : List String → Result String
  pub unmarshal : String → Result (List String)
  pub compare-hash : (c : Code) (h : String) → hash c ≡ ok h → compare h c ≡ true
  pub unmarshal-marshal : (l : List String) (s : String) → marshal l ≡ ok s → unmarshal s ≡ ok l

-- The TOTP fields of two users agree.
pub record HasTotpOf (user saved : User) : Type 0 where
  pub enabled : saved.totp_enabled ≡ user.totp_enabled
  pub secret : saved.totp_secret ≡ user.totp_secret
  pub recovery_codes : saved.totp_recovery_codes ≡ user.totp_recovery_codes
  pub last_used_step : saved.totp_last_used_step ≡ user.totp_last_used_step

-- The interface `TotpUserManager`, with what a later read of the store finds, `load`. An update gives a user
-- with the given TOTP fields back and stores one with these fields; no other user changes.
pub record TotpUserManager : Type 1 where
  pub World : Type 0
  pub load : World → String → Result (Option User)
  pub update_user_internal : Context → ℕ → User → World → Result (User × World)
  pub update-HasTotpOf :
      (ctx : Context) (now : ℕ) (u saved : User) (w w' : World)
      → update_user_internal ctx now u w ≡ ok (saved, w')
      → HasTotpOf u saved
  pub load-update :
      (ctx : Context) (now : ℕ) (u saved : User) (w w' : World)
      → update_user_internal ctx now u w ≡ ok (saved, w')
      → (v : User) × (load w' u.identifier ≡ ok (some v)) × HasTotpOf u v
  pub load-update_other :
      (ctx : Context) (now : ℕ) (u saved : User) (w w' : World) (k : String)
      → update_user_internal ctx now u w ≡ ok (saved, w')
      → (u.identifier == k) ≡ false
      → load w' k ≡ load w k

-- The loop of `subtleCompare`: `v |= a[i] ^ b[i]`.
unfoldable pub compare_from : ℕ → List ℕ → List ℕ → ℕ
compare_from v (a ∷ as') (b ∷ bs) = compare_from (bit_or v (bit_xor a b)) as' bs
compare_from v [] bs = v
compare_from v (a ∷ as') [] = v

unfoldable pub subtle_compare : List ℕ → List ℕ → Bool
unfolding compare_from
subtle_compare a b = if not (length a == length b) then false else compare_from 0 a b == 0

-- `len(code) == 9 && code[4] == '-'`, on the bytes of the code
abbrev is_dash : Option ℕ → Bool
is_dash none = false
is_dash (some b) = b == b'-'

unfoldable pub is_recovery_code_format : Code → Bool
is_recovery_code_format code = length (bytes code) == 9 && is_dash (byte_at? (bytes code) 4)

-- c - 1
abbrev pub step_before : ℕ → ℤ
step_before zero = negsuc 0
step_before (suc c) = pos c

abbrev pub candidates : ℕ → List ℤ
candidates counter = pos counter ∷ pos (counter + 1) ∷ step_before counter ∷ []

-- The alphabet of the recovery codes.
abbrev pub alphabet : List ℕ
alphabet =
    b'2' ∷ b'3' ∷ b'4' ∷ b'5' ∷ b'6' ∷ b'7' ∷ b'8' ∷ b'9' ∷ b'A' ∷ b'B' ∷ b'C' ∷ b'D' ∷ b'E' ∷ b'F'
    ∷ b'G' ∷ b'H' ∷ b'J' ∷ b'K' ∷ b'M' ∷ b'N' ∷ b'P' ∷ b'Q' ∷ b'R' ∷ b'S' ∷ b'T' ∷ b'V' ∷ b'W'
    ∷ b'X' ∷ b'Y' ∷ b'Z' ∷ []

-- `alphabet[int(buf[j])%len(alphabet)]`; the index is in range, so the default is never taken.
abbrev letter_from : List ℕ → ℕ → ℕ
letter_from [] i = 0
letter_from (c ∷ cs) zero = c
letter_from (c ∷ cs) (suc i) = letter_from cs i

unfoldable pub letter : ℕ → ℕ
letter b = letter_from alphabet (b % 30)

-- One code, from the eight random bytes in the buffer.
unfoldable pub recovery_code : (ℕ → ℕ) → Code
recovery_code buf =
    letter (buf 0)
    ∷ letter (buf 1)
    ∷ letter (buf 2)
    ∷ letter (buf 3)
    ∷ b'-'
    ∷ letter (buf 4)
    ∷ letter (buf 5)
    ∷ letter (buf 6)
    ∷ letter (buf 7)
    ∷ []

-- `n` codes; `random i` is what the buffer holds in round `i`, or an error of the random source.
unfoldable pub generate_recovery_codes : ℕ → ℕ → (ℕ → Result (ℕ → ℕ)) → Result (List Code)
generate_recovery_codes zero i random = ok []
generate_recovery_codes (suc n) i random = do
  buf ← random i
  rest ← generate_recovery_codes n (i + 1) random
  ok (recovery_code buf ∷ rest)

-- The loop of `consumeRecoveryCode`: drop the first hash that the code matches.
unfoldable pub consume : (String → Bool) → Bool → List String → List String × Bool
consume matches matched [] = ([], matched)
consume matches matched (h ∷ hs) =
    let used = not matched && matches h in
    let rest = consume matches (if used then true else matched) hs in
    if used then rest else (h ∷ rest.0, rest.1)

module _ (l : TotpLibraries) where
  unfoldable pub normalize_recovery_code : Code → Code
  normalize_recovery_code code = l.to_upper (trim_space code)

  -- The loop over the candidates; `none` is the result `false, 0, nil`.
  unfoldable pub match_step : Code → String → List ℤ → Result (Option ℤ)
  match_step passcode secret [] = ok none
  match_step passcode secret (c ∷ cs) = do
    generated ← l.generate_code secret c
    let rest = match_step passcode secret cs
    if subtle_compare (bytes generated) (bytes passcode) then ok (some c) else rest

  -- `now` is the time in seconds.
  unfoldable pub validate_totp_with_step : ℕ → Code → String → Result (Option ℤ)
  unfolding match_step
  validate_totp_with_step now passcode secret =
      match_step passcode secret (candidates (now / totp_period))

  unfoldable pub hash_recovery_codes : List Code → Result (List String)
  hash_recovery_codes [] = ok []
  hash_recovery_codes (c ∷ cs) = do
    h ← l.hash (normalize_recovery_code c)
    hs ← hash_recovery_codes cs
    ok (h ∷ hs)

  module _ (m : TotpUserManager) where
    open m use {World, update_user_internal}

    unfoldable pub consume_recovery_code : Context → ℕ → User → Code → World → Result (User × World)
    consume_recovery_code ctx now user code w = do
      hashes ← wrapping "failed to read recovery codes" (l.unmarshal user.totp_recovery_codes)
      let normalized = normalize_recovery_code code
      let (remaining, matched) = consume (λ h. l.compare h normalized) false hashes
      guard matched (plain "invalid recovery code")
      json ← wrapping "failed to encode recovery codes" (l.marshal remaining)
      wrapping "failed to update recovery codes" (
          update_user_internal (set_user_info ctx system_admin_context_user_info) now
            (record user { totp_recovery_codes = json }) w)

    -- The part of `ValidateCode` after a step has been found.
    unfoldable pub record_step : Context → ℕ → User → ℤ → World → Result (User × World)
    record_step ctx now user step w = do
      guard
          (not
            (not (ltb_ℤ user.totp_last_used_step step) && not (user.totp_last_used_step == pos 0)))
          (plain "totp code already used")
      wrapping "failed to record totp usage" (
          update_user_internal (set_user_info ctx system_admin_context_user_info) now
            (record user { totp_last_used_step = step }) w)

    unfoldable pub found_step : Context → ℕ → User → Option ℤ → World → Result (User × World)
    unfolding record_step
    found_step ctx now user none w = err (plain "invalid totp code")
    found_step ctx now user (some step) w = record_step ctx now user step w

    unfoldable pub check_totp_code : Context → ℕ → User → Code → World → Result (User × World)
    unfolding found_step
    check_totp_code ctx now user code w = do
      found ← wrapping "totp validation failed" (validate_totp_with_step now code user.totp_secret)
      found_step ctx now user found w

    unfoldable pub validate_code : Context → ℕ → User → Code → World → Result (User × World)
    validate_code ctx now user code w = do
      guard user.totp_enabled (plain "totp is not enabled for this user")
      guard (not (user.totp_secret == "")) (plain "missing totp secret")
      let trimmed = trim_space code
      guard (not (is_nil trimmed)) (plain "empty totp code")
      if is_recovery_code_format trimmed
          then consume_recovery_code ctx now user trimmed w
          else check_totp_code ctx now user trimmed w

    unfoldable pub confirm_enrollment :
        Context
        → ℕ
        → (ℕ → Result (ℕ → ℕ))
        → User
        → String
        → Code
        → World
        → Result (List Code × User × World)
    confirm_enrollment ctx now random user pending_secret code w = do
      guard (can_use_totp user) (plain "totp is only available for database users")
      guard (not (pending_secret == "")) (plain "missing pending totp secret")
      guard (l.validate now code pending_secret) (plain "invalid totp code")
      codes ←
          wrapping "failed to generate recovery codes"
            (generate_recovery_codes recovery_code_count 0 random)
      hashes ← wrapping "failed to hash recovery codes" (hash_recovery_codes codes)
      json ← wrapping "failed to encode recovery codes" (l.marshal hashes)
      (saved, w') ← wrapping "failed to save totp enrollment" (
          update_user_internal ctx now
            (record user {
              totp_secret = pending_secret;
              totp_recovery_codes = json;
              totp_last_used_step = pos 0;
              totp_enabled = true;
            })
            w)
      ok (codes, saved, w')

    unfoldable pub disable : Context → ℕ → User → World → Result (User × World)
    disable ctx now user w = wrapping "failed to disable totp" (
        update_user_internal ctx now
          (record user {
            totp_enabled = false;
            totp_secret = "";
            totp_recovery_codes = "";
            totp_last_used_step = pos 0;
          })
          w)
