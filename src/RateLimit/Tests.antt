-- ===== src/RateLimit/Tests.antt =====
-- The limiter at concrete inputs.
use awg_portal.Prelude.{
  ℕ, true, Option, List, ◌<◌, ◌+◌, ◌≤◌, leb, ◌≡◌, refl, none, some, [], ◌∷◌, arith,
}
use awg_portal.RateLimit.{
  Entry, Entries, max_attempts, window, put, allow_entry, fail_entry, keep_recent, allow,
  record_failure, cleanup,
}
use awg_portal.RateLimit.Window.{recent_count, Trace, start, admit, fail, Trace-recent_count}
use awg_portal.RateLimit.Lockout.{allow-record_failure, allow-cleanup}

abbrev four : Entry
four = record { failures = 1 ∷ 2 ∷ 3 ∷ 4 ∷ []; locked_till = 0 }

abbrev table : Entries
table = put (λ k. none) "ann|10.0.0.1" (some four)

-- The entry after failures at these times, the last one first.
abbrev after : List ℕ → Option Entry
after [] = none
after (t ∷ ts) = some (fail_entry t (after ts))

-- One attempt that fails before the next one begins.
attempt :
    {past : ℕ} {history : List ℕ} (now : ℕ)
    → past ≤ now
    → allow_entry now (after history) ≡ true
    → Trace 2 past (after history) 0 history
    → Trace 2 now (after (now ∷ history)) 0 (now ∷ history)
attempt now later allowed tr = fail now (omega arith) (admit now later allowed (omega arith) tr)

four_failures : Trace 2 4 (after (4 ∷ 3 ∷ 2 ∷ 1 ∷ [])) 0 (4 ∷ 3 ∷ 2 ∷ 1 ∷ [])
unfolding allow_entry fail_entry keep_recent
four_failures = attempt 4 (omega arith) refl (
    attempt 3 (omega arith) refl
      (attempt 2 (omega arith) refl (attempt 1 (omega arith) refl (start 0))))

-- Two attempts begin before either of them has failed: six failures within the window.
six_failures : Trace 2 8 (after (8 ∷ 7 ∷ 4 ∷ 3 ∷ 2 ∷ 1 ∷ [])) 0 (8 ∷ 7 ∷ 4 ∷ 3 ∷ 2 ∷ 1 ∷ [])
unfolding allow_entry fail_entry keep_recent
six_failures = fail 8 (omega arith) (
    fail 7 (omega arith) (
      admit 6 (omega arith) refl (omega arith)
        (admit 5 (omega arith) refl (omega arith) four_failures)))

six_recent : recent_count 20 (8 ∷ 7 ∷ 4 ∷ 3 ∷ 2 ∷ 1 ∷ []) ≡ 6
unfolding recent_count
six_recent = refl

Trace-recent_count_example : recent_count 20 (8 ∷ 7 ∷ 4 ∷ 3 ∷ 2 ∷ 1 ∷ []) + 0 < 2 + max_attempts
Trace-recent_count_example = Trace-recent_count 20 six_failures (omega arith) (omega arith)

allow-record_failure_example :
    allow 30 "ann|10.0.0.1" (record_failure 9 "ann|10.0.0.1" table) ≡ leb (9 + window) 30
unfolding recent_count
allow-record_failure_example = allow-record_failure 9 30 "ann|10.0.0.1" table (omega arith)

allow-cleanup_example : allow 30 "bob" (cleanup 9 table) ≡ allow 30 "bob" table
allow-cleanup_example = allow-cleanup 9 30 "bob" table (omega arith)
