-- ===== src/RateLimit/Window.antt =====
-- How many failed attempts of one key fall into fifteen minutes.
use awg_portal.Prelude.{
  ℕ, suc, ◌+◌, ◌≤◌, ◌<◌, true, ◌≡◌, refl, Option, none, some, List, [], ◌∷◌, ◌++◌, if◌then◌else◌,
  length, All, arith,
}
use native.Mathlib.Nat.{le_refl}
use awg_portal.RateLimit.{
  Entry, max_attempts, window, is_recent, keep_recent, allow_entry, entry_or_new, fail_entry,
  all_expired, clean_entry, is_empty,
}

-- How many of the times lie within the window that ends now.
unfoldable pub recent_count : ℕ → List ℕ → ℕ
recent_count now [] = 0
recent_count now (f ∷ fs) =
    if is_recent now f then suc (recent_count now fs) else recent_count now fs

recent_count-le-length : (now : ℕ) (fs : List ℕ) → recent_count now fs ≤ length fs
unfolding recent_count
recent_count-le-length now [] = omega arith
recent_count-le-length now (f ∷ fs) = ground (arith, recent_count-le-length now fs)

recent_count-keep_recent :
    (t now : ℕ) (fs : List ℕ) → now ≤ t → recent_count t (keep_recent now fs) ≡ recent_count t fs
unfolding recent_count keep_recent
recent_count-keep_recent t now [] h = refl
recent_count-keep_recent t now (f ∷ fs) h = ground (arith, recent_count-keep_recent t now fs h)

recent_count-snoc :
    (t f : ℕ) (fs : List ℕ) → recent_count t (fs ++ f ∷ []) ≡ recent_count t (f ∷ fs)
unfolding recent_count
recent_count-snoc t f [] = refl
recent_count-snoc t f (g ∷ fs) = ground (arith, recent_count-snoc t f fs)

recent_count-expired :
    (t now : ℕ) (fs : List ℕ) → now ≤ t → all_expired now fs ≡ true → recent_count t fs ≡ 0
unfolding recent_count all_expired
recent_count-expired t now [] h e = refl
recent_count-expired t now (f ∷ fs) h e = ground (arith, recent_count-expired t now fs h)

recent_count-empty : (t : ℕ) (fs : List ℕ) → is_empty fs ≡ true → recent_count t fs ≡ 0
unfolding recent_count
recent_count-empty t [] e = refl
recent_count-empty t (f ∷ fs) e = cc

recent_count-old :
    (t now : ℕ) (fs : List ℕ) → All (λ f. f ≤ now) fs → now + window ≤ t → recent_count t fs ≡ 0
unfolding recent_count
recent_count-old t now [] a h = refl
recent_count-old t now (f ∷ fs) (here, a) h = ground (arith, recent_count-old t now fs a h)

All-mono : (s t : ℕ) (fs : List ℕ) → s ≤ t → All (λ f. f ≤ s) fs → All (λ f. f ≤ t) fs
All-mono s t [] h a = tt
All-mono s t (f ∷ fs) h (here, a) = (omega arith, All-mono s t fs h a)

-- What may happen to one key, cut where the limiter locks its mutex: `allow` lets an attempt through, a
-- round of the cleanup loop, and the ends of an attempt, between which others may come: a failure, a
-- success, which resets the key, or neither, if the user is gone. `active` counts the attempts that have been
-- let through and have not ended, at most `limit`; `history` has the times of the failures since the last
-- success.
pub data Trace (limit : ℕ) : ℕ → Option Entry → ℕ → List ℕ → Type 0 where
  start : (now : ℕ) → Trace limit now none 0 []
  admit :
      {past : ℕ} {e : Option Entry} {active : ℕ} {history : List ℕ} (now : ℕ)
      → past ≤ now
      → allow_entry now e ≡ true
      → active < limit
      → Trace limit past e active history
      → Trace limit now e (suc active) history
  fail :
      {past : ℕ} {e : Option Entry} {active : ℕ} {history : List ℕ} (now : ℕ)
      → past ≤ now
      → Trace limit past e (suc active) history
      → Trace limit now (some (fail_entry now e)) active (now ∷ history)
  succeed :
      {past : ℕ} {e : Option Entry} {active : ℕ} {history : List ℕ} (now : ℕ)
      → past ≤ now
      → Trace limit past e (suc active) history
      → Trace limit now none active []
  abandon :
      {past : ℕ} {e : Option Entry} {active : ℕ} {history : List ℕ} (now : ℕ)
      → past ≤ now
      → Trace limit past e (suc active) history
      → Trace limit now e active history
  clean :
      {past : ℕ} {e : Option Entry} {active : ℕ} {history : List ℕ} (now : ℕ)
      → past ≤ now
      → Trace limit past e active history
      → Trace limit now (clean_entry now e) active history

-- While the key is not locked, the entry counts every failure within the window.
pub record IsCounted (now : ℕ) (found : Option Entry) (history : List ℕ) : Type 0 where
  pub past : All (λ f. f ≤ now) history
  pub few : length (entry_or_new found).failures ≤ 4
  pub counted :
      (t : ℕ)
      → now ≤ t
      → (entry_or_new found).locked_till ≤ t
      → recent_count t history ≤ recent_count t (entry_or_new found).failures

unlocked_of_allow_entry :
    (now : ℕ) (found : Option Entry)
    → allow_entry now found ≡ true
    → (entry_or_new found).locked_till ≤ now
unfolding allow_entry
unlocked_of_allow_entry now none h = omega arith
unlocked_of_allow_entry now (some e) h = ground arith

fail_entry-IsCounted :
    (past now : ℕ) (found : Option Entry) (history : List ℕ)
    → past ≤ now
    → IsCounted past found history
    → IsCounted now (some (fail_entry now found)) (now ∷ history)
unfolding fail_entry recent_count
fail_entry-IsCounted past now found history later inv = record {
  past = (omega arith, All-mono past now history later inv.past);
  few = ground arith;
  counted = λ t after unlocked. ground (
    arith,
    inv.counted t,
    recent_count-old t now (now ∷ history) (le_refl now, All-mono past now history later inv.past),
    recent_count-snoc t now (keep_recent now (entry_or_new found).failures),
    recent_count-keep_recent t now (entry_or_new found).failures after,
  );
}

later-IsCounted :
    (past now : ℕ) (found : Option Entry) (history : List ℕ)
    → past ≤ now
    → IsCounted past found history
    → IsCounted now found history
later-IsCounted past now found history later inv = record {
  past = All-mono past now history later inv.past;
  few = inv.few;
  counted = λ t after unlocked. inv.counted t (omega arith) unlocked;
}

clean_entry-IsCounted :
    (past now : ℕ) (found : Option Entry) (history : List ℕ)
    → past ≤ now
    → IsCounted past found history
    → IsCounted now (clean_entry now found) history
unfolding clean_entry
clean_entry-IsCounted past now none history later inv = record {
  past = All-mono past now history later inv.past;
  few = inv.few;
  counted = λ t after unlocked. inv.counted t (omega arith) unlocked;
}
clean_entry-IsCounted past now (some e) history later inv = record {
  past = All-mono past now history later inv.past;
  few = ground (arith, inv.few);
  counted = λ t after unlocked. ground (
    arith,
    inv.counted t,
    recent_count-expired t now e.failures after,
    recent_count-empty t e.failures,
  );
}

none-IsCounted : (now : ℕ) → IsCounted now none []
unfolding recent_count
none-IsCounted now = record {
  past = tt;
  few = omega arith;
  counted = λ t after unlocked. omega arith;
}

Trace-IsCounted :
    {limit now : ℕ} {e : Option Entry} {active : ℕ} {history : List ℕ}
    → Trace limit now e active history
    → IsCounted now e history
Trace-IsCounted (start now) = none-IsCounted now
Trace-IsCounted (admit {past = p} {e = e} {history = h} now later allowed room tr) =
    later-IsCounted p now e h later (Trace-IsCounted tr)
Trace-IsCounted (fail {past = p} {e = e} {history = h} now later tr) =
    fail_entry-IsCounted p now e h later (Trace-IsCounted tr)
Trace-IsCounted (succeed now later tr) = none-IsCounted now
Trace-IsCounted (abandon {past = p} {e = e} {history = h} now later tr) =
    later-IsCounted p now e h later (Trace-IsCounted tr)
Trace-IsCounted (clean {past = p} {e = e} {history = h} now later tr) =
    clean_entry-IsCounted p now e h later (Trace-IsCounted tr)

-- When an attempt is let through, at most four failures lie within the window.
admitted_count :
    (now past : ℕ) (e : Option Entry) (history : List ℕ) (t : ℕ)
    → past ≤ now
    → now ≤ t
    → allow_entry now e ≡ true
    → IsCounted past e history
    → recent_count t history ≤ 4
admitted_count now past e history t later after allowed inv = ground (
  arith,
  unlocked_of_allow_entry now e allowed,
  inv.counted t,
  recent_count-le-length t (entry_or_new e).failures,
  inv.few,
)

-- For one key (user and address of the client), since its last success and in whatever order attempts
-- begin and end: if at most `limit` attempts are open at any time, then the failures within fifteen
-- minutes, together with the attempts that are open, are at most four more than `limit`. For attempts one
-- after the other that are five failures.
pub Trace-recent_count :
    {limit now : ℕ} {e : Option Entry} {active : ℕ} {history : List ℕ} (t : ℕ)
    → Trace limit now e active history
    → 0 < limit
    → now ≤ t
    → recent_count t history + active < limit + max_attempts
unfolding recent_count
Trace-recent_count t (start now) some_open after = omega arith
Trace-recent_count t (admit {past = p} {e = e} {history = h} now later allowed room tr) some_open
      after =
    omega (arith, admitted_count now p e h t later after allowed (Trace-IsCounted tr))
Trace-recent_count t (fail now later tr) some_open after =
    ground (arith, Trace-recent_count t tr some_open (omega arith))
Trace-recent_count t (succeed now later tr) some_open after =
    omega (arith, Trace-recent_count t tr some_open (omega arith))
Trace-recent_count t (abandon now later tr) some_open after =
    omega (arith, Trace-recent_count t tr some_open (omega arith))
Trace-recent_count t (clean now later tr) some_open after =
    Trace-recent_count t tr some_open (omega arith)
