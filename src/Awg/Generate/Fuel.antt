-- ===== src/Awg/Generate/Fuel.antt =====
-- Enough fuel for the loops of `GenerateAWGParams`.
use awg_portal.Prelude.{
  ℕ, zero, suc, ◌+◌, ◌-◌, ◌*◌, ◌%◌, ◌≤◌, ◌<◌, pos, ◌≡◌, ◌≢◌, Bool, Bool-cases, inl, inr, true,
  false, none, some, List, [], ◌∷◌, arith, contains, nat_eq, leb, subst, length, Option-cases,
}
use awg_portal.Errors.{ok}
use awg_portal.Awg.{AwgParams, validate}
use awg_portal.Awg.Validation.{IsSupported, validate_iff}
use awg_portal.Awg.Generate.Ranges.{IsGenerated, generate_awg_params-IsGenerated}
use awg_portal.Awg.Generate.{
  rng, rand_u32, is_clash, paddings, header, generate_awg_params, uint32_at, uint64_at,
}

-- Whether the draws from `i` on make the loop over the paddings draw again.
abbrev pub clash_at : (ℕ → ℕ) → ℕ → Bool
clash_at random i =
    is_clash (15 + uint64_at random i % 49) (15 + uint64_at random (i + 1) % 49)
      (10 + uint64_at random (i + 1 + 1) % 54) (1 + uint64_at random (i + 1 + 1 + 1) % 15)

paddings_total :
    (fuel k : ℕ) (random : ℕ → ℕ) (i : ℕ)
    → k < fuel
    → clash_at random (i + 4 * k) ≡ false
    → paddings fuel random i ≢ none
unfolding paddings rng
paddings_total zero k random i lt good = ground (arith, lt)
paddings_total (suc fuel) zero random i lt good =
    let clear : clash_at random i ≡ false =
      subst (λ j. clash_at random j ≡ false) {x = i + 4 * 0} {y = i} (omega arith) good in
    ground (arith, clear)
paddings_total (suc fuel) (suc k) random i lt good =
    let rest = paddings_total fuel k random (i + 1 + 1 + 1 + 1) (omega (arith, lt)) (
      subst (λ j. clash_at random j ≡ false) {x = i + 4 * suc k} {y = i + 1 + 1 + 1 + 1 + 4 * k}
        (omega arith) good) in
    elim (Bool-cases (clash_at random i)) [
      | inl clash ↦ ground (arith, clash, rest)
      | inr clear ↦ ground (arith, clear)
    ]

-- The `m`-th draw from `i` on, for some `m` up to `k`, is the first one that `randU32` accepts.
abbrev Draws : ℕ → ℕ → (ℕ → ℕ) → ℕ → Type 0
Draws fuel k random i =
    (m : ℕ) × (m ≤ k) × (rand_u32 fuel random i ≡ some (uint32_at random (i + m), i + m + 1))

Draws-here :
    (fuel k : ℕ) (random : ℕ → ℕ) (i : ℕ) → 5 ≤ uint32_at random i → Draws (suc fuel) k random i
unfolding rand_u32
Draws-here fuel k random i good = (
  0,
  omega arith,
  subst (λ j. rand_u32 (suc fuel) random i ≡ some (uint32_at random j, j + 1)) {x = i} {y = i + 0}
      (omega arith) (ground (arith, good)),
)

rand_u32_total :
    (fuel k : ℕ) (random : ℕ → ℕ) (i : ℕ)
    → k < fuel
    → 5 ≤ uint32_at random (i + k)
    → Draws fuel k random i
unfolding rand_u32
rand_u32_total zero k random i lt good = ground (arith, lt)
rand_u32_total (suc fuel) zero random i lt good =
    Draws-here fuel 0 random i
      (subst (λ j. 5 ≤ uint32_at random j) {x = i + 0} {y = i} (omega arith) good)
rand_u32_total (suc fuel) (suc k) random i lt good =
    let (m, le, e) =
      rand_u32_total fuel k random (i + 1) (omega (arith, lt))
        (subst (λ j. 5 ≤ uint32_at random j) {x = i + suc k} {y = i + 1 + k} (omega arith) good) in
    elim (Bool-cases (leb 5 (uint32_at random i))) [
      | inl hit ↦ Draws-here fuel (suc k) random i (ground (arith, hit))
      | inr miss ↦ (
        suc m,
        omega (arith, le),
        subst (λ j. rand_u32 (suc fuel) random i ≡ some (uint32_at random j, j + 1)) {x = i + 1 + m}
            {y = i + suc m} (omega arith) (ground (arith, miss, e)),
      )
    ]

-- Draw `i` is a header that is not used yet.
abbrev pub IsFresh : (ℕ → ℕ) → List ℕ → ℕ → Type 0
IsFresh random used i = (5 ≤ uint32_at random i) × (contains used (uint32_at random i) ≡ false)

header_total :
    (fuel k : ℕ) (random : ℕ → ℕ) (used : List ℕ) (i : ℕ)
    → k < fuel
    → IsFresh random used (i + k)
    → header fuel random used i ≢ none
unfolding header
header_total zero k random used i lt fresh = ground (arith, lt)
header_total (suc fuel) k random used i lt fresh =
    let (m, le, e) = rand_u32_total (suc fuel) k random i lt fresh.0 in
    elim (Bool-cases (contains used (uint32_at random (i + m)))) [
      | inl taken ↦
          let before : m ≢ k = λ same. ground (
            arith,
            fresh.1,
            taken,
            subst (λ n. contains used (uint32_at random (i + n)) ≡ true) same taken,
          ) in
          let rest =
            header_total fuel (k - m - 1) random used (i + m + 1) (omega (arith, le, lt, before)) (
              subst (λ j. IsFresh random used j) {x = i + k} {y = i + m + 1 + (k - m - 1)}
                (omega (arith, le, before)) fresh) in
          ground (arith, e, taken, rest)
      | inr new ↦ ground (arith, e, new)
    ]

-- A stream is fair with `fuel` draws if one of the first rounds has good paddings, and from every draw
-- on, whatever three headers are used, an unused header comes up.
pub record IsFair (fuel : ℕ) (random : ℕ → ℕ) : Type 0 where
  pub round : ℕ
  pub round_bound : round < fuel
  pub clear : clash_at random (4 * round) ≡ false
  pub fresh :
      (used : List ℕ) (i : ℕ) → length used ≤ 3 → (k : ℕ) × (k < fuel) × IsFresh random used (i + k)

header-some :
    (fuel : ℕ) (random : ℕ → ℕ) (used : List ℕ) (i : ℕ)
    → IsFair fuel random
    → length used ≤ 3
    → (v j : ℕ) × (header fuel random used i ≡ some (v, j))
header-some fuel random used i fair short =
    let (k, lt, fresh) = fair.fresh used i short in
    let total = header_total fuel k random used i lt fresh in
    elim (Option-cases (header fuel random used i)) [
      | inl nothing ↦ absurd (total nothing)
      | inr ((v, j), e) ↦ (v, j, e)
    ]

generate_awg_params-total :
    (fuel : ℕ) (random : ℕ → ℕ)
    → IsFair fuel random
    → (p : AwgParams) × (generate_awg_params fuel random ≡ some p)
unfolding generate_awg_params
generate_awg_params-total fuel random fair =
    let total = paddings_total fuel fair.round random 0 fair.round_bound (
      subst (λ j. clash_at random j ≡ false) {x = 4 * fair.round} {y = 0 + 4 * fair.round}
        (omega arith) fair.clear) in
    elim (Option-cases (paddings fuel random 0)) [
      | inl nothing ↦ absurd (total nothing)
      | inr (((s1, s2, s3, s4), i), e) ↦
          let jmin = rng random i 64 113 in
          let jc = rng random jmin.1 3 6 in
          let jmax = rng random jc.1 (jmin.0 + 50) (jmin.0 + 149) in
          let (h1, i₁, e1) = header-some fuel random [] jmax.1 fair (omega arith) in
          let (h2, i₂, e2) = header-some fuel random (h1 ∷ []) i₁ fair (omega arith) in
          let (h3, i₃, e3) = header-some fuel random (h2 ∷ h1 ∷ []) i₂ fair (omega arith) in
          let (h4, i₄, e4) = header-some fuel random (h3 ∷ h2 ∷ h1 ∷ []) i₃ fair (omega arith) in
          (
            record {
              jc = pos jc.0;
              jmin = pos jmin.0;
              jmax = pos jmax.0;
              s1 = pos s1;
              s2 = pos s2;
              s3 = pos s3;
              s4 = pos s4;
              h1 = h1;
              h2 = h2;
              h3 = h3;
              h4 = h4;
            },
            cc (e, e1, e2, e3, e4),
          )
    ]

IsGenerated-IsSupported : (p : AwgParams) → IsGenerated p → IsSupported p
IsGenerated-IsSupported p g =
    let (e1, e2, e3, e4, e5, e6, e7) = g.fields in
    let q = g.paddings_good in
    record {
      jc = ground (arith, e5, g.jc_range);
      jmin = ground (arith, e6, g.jmin_range);
      jmax = ground (arith, e7, g.jmax_range, g.jmin_range);
      order = λ positive. ground (arith, e6, e7, g.jmax_range);
      s1 = ground (arith, e1, q.s1_range);
      s2 = ground (arith, e2, q.s2_range);
      s3 = ground (arith, e3, q.s3_range);
      s4 = ground (arith, e4, q.s4_range);
      headers = g.headers;
      unique = g.unique;
    }

-- On a fair stream of random numbers `GenerateAWGParams` ends, and `Validate` accepts its parameters: the
-- paddings are in 15..63, 15..63, 10..63 and 1..15, pairwise different, and so are the sizes of the padded
-- packets; the headers are at least 5 and pairwise different; Jc is in 3..6, Jmin in 64..113 and Jmax in
-- Jmin + 50..Jmin + 149.
pub generate_awg_params_lem :
    (fuel : ℕ) (random : ℕ → ℕ)
    → IsFair fuel random
    → (p : AwgParams) × (generate_awg_params fuel random ≡ some p)
      × IsGenerated p
      × (validate p ≡ ok tt)
generate_awg_params_lem fuel random fair =
    let (p, e) = generate_awg_params-total fuel random fair in
    let g = generate_awg_params-IsGenerated fuel random p e in
    (p, e, g, (validate_iff p).1 (IsGenerated-IsSupported p g))
