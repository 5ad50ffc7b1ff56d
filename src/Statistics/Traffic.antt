-- ===== src/Statistics/Traffic.antt =====
-- `CalculateTrafficDelta` of internal/domain/statistics.go.
use awg_portal.Prelude.{ℕ, ◌+◌, ◌-◌, ◌*◌, ◌^◌, ◌≤◌, ◌<◌, ◌≡◌, if◌then◌else◌, nat_eq, leb}

-- `rate` is the quotient of `moved` and `seconds`, rounded down, or 0 if `seconds` is.
abbrev pub IsRate : ℕ → ℕ → ℕ → Type 0
IsRate seconds moved rate =
    (seconds ≡ 0 → rate ≡ 0)
    × (0 < seconds → (rate * seconds ≤ moved) × (moved < (rate + 1) * seconds))

-- What a counter of 64 bits has moved from `old` to `new`, if it only ever grows and wraps around.
abbrev pub moved : ℕ → ℕ → ℕ
moved old new = if leb old new then new - old else 2 ^ 64 - (old - new)
