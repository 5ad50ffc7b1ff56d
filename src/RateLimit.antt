-- ===== src/RateLimit.antt =====
-- internal/app/api/v0/handlers/totp_ratelimit.go: the limiter for second-factor attempts. Times are
-- nanoseconds since some start before the first attempt, 0 is Go's zero time. The mutex makes each
-- operation one step. The map is a function from keys.
pub mod Window
pub mod Lockout
mod Tests
use awg_portal.Prelude.{
  ℕ, ◌+◌, ◌*◌, ltb, leb, String, Bool, true, false, not, ◌&&◌, Option, none, some, List, [], ◌∷◌,
  ◌++◌, ◌==◌, string_eq, if◌then◌else◌, length,
}

abbrev pub max_attempts : ℕ
max_attempts = 5

-- 15 minutes
abbrev pub window : ℕ
window = 900_000_000_000

pub record Entry : Type 0 where
  pub failures : List ℕ
  pub locked_till : ℕ

abbrev pub Entries : Type 0
Entries = String → Option Entry

-- `f.After(now.Add(-window))`
abbrev pub is_recent : ℕ → ℕ → Bool
is_recent now f = ltb now (f + window)

-- The loop that keeps the failures within the window.
unfoldable pub keep_recent : ℕ → List ℕ → List ℕ
keep_recent now [] = []
keep_recent now (f ∷ fs) =
    let rest = keep_recent now fs in if is_recent now f then f ∷ rest else rest

-- The methods on the entry of one key.
unfoldable pub allow_entry : ℕ → Option Entry → Bool
allow_entry now none = true
allow_entry now (some e) = not (ltb now e.locked_till)

abbrev pub entry_or_new : Option Entry → Entry
entry_or_new none = record { failures = []; locked_till = 0 }
entry_or_new (some e) = e

unfoldable pub fail_entry : ℕ → Option Entry → Entry
fail_entry now found =
    let e = entry_or_new found in
    let failures = keep_recent now e.failures ++ now ∷ [] in
    if leb max_attempts (length failures)
    then record { failures = []; locked_till = now + window }
    else record { failures = failures; locked_till = e.locked_till }

-- The loop of `cleanupLoop` that looks for a failure within the window.
unfoldable pub all_expired : ℕ → List ℕ → Bool
all_expired now [] = true
all_expired now (f ∷ fs) = if is_recent now f then false else all_expired now fs

abbrev pub is_empty : List ℕ → Bool
is_empty [] = true
is_empty (f ∷ fs) = false

-- One entry of one round of `cleanupLoop`.
unfoldable pub clean_entry : ℕ → Option Entry → Option Entry
clean_entry now none = none
clean_entry now (some e) =
    if ltb e.locked_till now && is_empty e.failures
    then none
    else if all_expired now e.failures && ltb e.locked_till now
    then none
    else some e

abbrev pub put : Entries → String → Option Entry → Entries
put m key e = λ k. if k == key then e else m k

unfoldable pub allow : ℕ → String → Entries → Bool
unfolding allow_entry
allow now key m = allow_entry now (m key)

unfoldable pub record_failure : ℕ → String → Entries → Entries
record_failure now key m = put m key (some (fail_entry now (m key)))

unfoldable pub reset : String → Entries → Entries
reset key m = put m key none

unfoldable pub cleanup : ℕ → Entries → Entries
cleanup now m = λ k. clean_entry now (m k)
