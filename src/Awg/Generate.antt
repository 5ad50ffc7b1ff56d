-- ===== src/Awg/Generate.antt =====
-- `GenerateAWGParams` of internal/lowlevel/awg.go. `random i` is the number that the `i`-th call of
-- `rand.Read` fills the buffer with; a function that draws also gives the number of draws so far.
pub mod Ranges
pub mod Fuel
use awg_portal.Prelude.{
  ℕ, zero, suc, ◌+◌, ◌-◌, ◌%◌, ◌^◌, pos, leb, ltb, ◌==◌, nat_eq, Bool, ◌||◌, Option, none, some,
  List, [], ◌∷◌, if◌then◌else◌, contains,
}
use awg_portal.Awg.{AwgParams}

infixl 5 ◌>>=◌
abbrev pub ◌>>=◌ : {A B : Type 0} → Option A → (A → Option B) → Option B
o >>= next = elim o [ none ↦ none | some a ↦ next a ]

-- The draw in `rng` and in `randU32`.
abbrev pub uint64_at : (ℕ → ℕ) → ℕ → ℕ
uint64_at random i = random i % 2 ^ 64

abbrev pub uint32_at : (ℕ → ℕ) → ℕ → ℕ
uint32_at random i = random i % 2 ^ 32

unfoldable pub rng : (ℕ → ℕ) → ℕ → ℕ → ℕ → ℕ × ℕ
rng random i lo hi = if leb hi lo then (lo, i) else (lo + uint64_at random i % (hi - lo + 1), i + 1)

unfoldable pub rand_u32 : ℕ → (ℕ → ℕ) → ℕ → Option (ℕ × ℕ)
rand_u32 zero random i = none
rand_u32 (suc fuel) random i =
    let rest = rand_u32 fuel random (i + 1) in
    if leb 5 (uint32_at random i) then some (uint32_at random i, i + 1) else rest

-- The two tests after which the loop over the paddings draws again.
unfoldable pub is_clash : ℕ → ℕ → ℕ → ℕ → Bool
is_clash s1 s2 s3 s4 =
    (s1 == s2 || (s1 == s3 || (s1 == s4 || (s2 == s3 || (s2 == s4 || s3 == s4)))))
    || (s1 + 148 == s2 + 92 || (s3 + 64 == s1 + 148 || s3 + 64 == s2 + 92))

unfoldable pub paddings : ℕ → (ℕ → ℕ) → ℕ → Option ((ℕ × ℕ × ℕ × ℕ) × ℕ)
paddings zero random i = none
paddings (suc fuel) random i =
    let (s1, i₁) = rng random i 15 63 in
    let (s2, i₂) = rng random i₁ 15 63 in
    let (s3, i₃) = rng random i₂ 10 63 in
    let (s4, i₄) = rng random i₃ 1 15 in
    let rest = paddings fuel random i₄ in
    if is_clash s1 s2 s3 s4 then rest else some ((s1, s2, s3, s4), i₄)

-- `h()`; `used` lists the keys of the map `hs`.
unfoldable pub header : ℕ → (ℕ → ℕ) → List ℕ → ℕ → Option (ℕ × ℕ)
header zero random used i = none
header (suc fuel) random used i = rand_u32 (suc fuel) random i >>= λ drawn.
    let rest = header fuel random used (drawn.1) in
    if contains used (drawn.0) then rest else some drawn

unfoldable pub generate_awg_params : ℕ → (ℕ → ℕ) → Option AwgParams
generate_awg_params fuel random = do
  ((s1, s2, s3, s4), i) ← paddings fuel random 0
  let (jmin, i₁) = rng random i 64 113
  let (jc, i₂) = rng random i₁ 3 6
  let (jmax, i₃) = rng random i₂ (jmin + 50) (jmin + 149)
  (h1, i₄) ← header fuel random [] i₃
  (h2, i₅) ← header fuel random (h1 ∷ []) i₄
  (h3, i₆) ← header fuel random (h2 ∷ h1 ∷ []) i₅
  (h4, i₇) ← header fuel random (h3 ∷ h2 ∷ h1 ∷ []) i₆
  some (record {
    jc = pos jc;
    jmin = pos jmin;
    jmax = pos jmax;
    s1 = pos s1;
    s2 = pos s2;
    s3 = pos s3;
    s4 = pos s4;
    h1 = h1;
    h2 = h2;
    h3 = h3;
    h4 = h4;
  })
