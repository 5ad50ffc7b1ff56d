-- ===== src/RateLimit/Lockout.antt =====
-- The lockout of a key, and what leaves it alone.
use awg_portal.Prelude.{
  ℕ, ◌+◌, ◌≤◌, leb, String, ◌≡◌, refl, ◌≢◌, Option, none, some, List, [], ◌∷◌, string_eq, length,
  length-append, arith, eq_iff, eq_refl,
}
use awg_portal.RateLimit.{
  Entry, Entries, max_attempts, window, keep_recent, allow_entry, entry_or_new, fail_entry,
  clean_entry, allow, record_failure, reset, cleanup,
}
use awg_portal.RateLimit.Window.{recent_count}

length-keep_recent : (now : ℕ) (fs : List ℕ) → length (keep_recent now fs) ≡ recent_count now fs
unfolding keep_recent recent_count
length-keep_recent now [] = refl
length-keep_recent now (f ∷ fs) = ground (arith, length-keep_recent now fs)

fail_entry-locked_till :
    (now : ℕ) (found : Option Entry)
    → max_attempts ≤ recent_count now (entry_or_new found).failures + 1
    → (fail_entry now found).locked_till ≡ now + window
unfolding fail_entry
fail_entry-locked_till now found h = ground (
  arith,
  length-keep_recent now (entry_or_new found).failures,
  length-append (keep_recent now (entry_or_new found).failures) (now ∷ []),
)

-- The failure that makes five within fifteen minutes locks the key for exactly fifteen minutes: from
-- then on an attempt is let through if and only if that time is over.
pub allow-record_failure :
    (now t : ℕ) (key : String) (m : Entries)
    → max_attempts ≤ recent_count now (entry_or_new (m key)).failures + 1
    → allow t key (record_failure now key m) ≡ leb (now + window) t
unfolding allow record_failure
allow-record_failure now t key m h =
    ground (arith, eq_refl key, fail_entry-locked_till now (m key) h)

-- A failure or a success of one key changes nothing for another key.
pub allow-other_key :
    (now t : ℕ) (key other : String) (m : Entries)
    → other ≢ key
    → (allow t other (record_failure now key m) ≡ allow t other m)
      × (allow t other (reset key m) ≡ allow t other m)
unfolding allow record_failure reset
allow-other_key now t key other m apart = ground (arith, eq_iff other key)

-- A round of the cleanup loop decides no later attempt: it drops no lock that still holds.
pub allow-cleanup :
    (now t : ℕ) (key : String) (m : Entries) → now ≤ t → allow t key (cleanup now m) ≡ allow t key m
unfolding allow cleanup
allow-cleanup now t key m later = kept (m key)
  where
    kept : (found : Option Entry) → allow_entry t (clean_entry now found) ≡ allow_entry t found
    kept none = unfold clean_entry in refl
    kept (some e) = unfold clean_entry in ground arith
