-- ===== src/Awg/Generate/Ranges.antt =====
-- The parameters that `GenerateAWGParams` gives lie in its ranges, and `Validate` accepts them.
use awg_portal.Prelude.{
  ℕ, zero, suc, ◌+◌, ◌-◌, ◌≤◌, ◌<◌, pos, ◌≡◌, ◌≢◌, Bool-cases, inl, inr, false, Option, none, some,
  List, [], ◌∷◌, arith, contains, nat_eq, refl, subst,
}
use awg_portal.Awg.{AwgParams}
use awg_portal.Awg.Generate.{
  rng, rand_u32, is_clash, paddings, header, generate_awg_params, ◌>>=◌, uint64_at,
}
use native.Mathlib.Omega.{mod_fact}

abbrev pub Between : ℕ → ℕ → ℕ → Type 0
Between lo hi v = (lo ≤ v) × (v ≤ hi)

rng-Between : (random : ℕ → ℕ) (i lo hi : ℕ) → lo < hi → Between lo hi (rng random i lo hi).0
unfolding rng
rng-Between random i lo hi lt = ground (arith, lt, mod_fact (uint64_at random i) (hi - lo))

bind-eq-some :
    {A B : Type 0} (o : Option A) (next : A → Option B) {b : B}
    → (o >>= next) ≡ some b
    → (a : A) × (o ≡ some a) × (next a ≡ some b)
bind-eq-some none next e = ground arith
bind-eq-some (some a) next e = (a, refl, e)

-- The padding sizes: in their ranges, different, and different as the sizes of whole packets.
pub record ArePaddings (s1 s2 s3 s4 : ℕ) : Type 0 where
  pub s1_range : Between 15 63 s1
  pub s2_range : Between 15 63 s2
  pub s3_range : Between 10 63 s3
  pub s4_range : Between 1 15 s4
  pub different : (s1 ≢ s2) × (s1 ≢ s3) × (s1 ≢ s4) × (s2 ≢ s3) × (s2 ≢ s4) × (s3 ≢ s4)
  pub packets : (s1 + 148 ≢ s2 + 92) × (s3 + 64 ≢ s1 + 148) × (s3 + 64 ≢ s2 + 92)

is_clash-ArePaddings :
    (s1 s2 s3 s4 : ℕ)
    → Between 15 63 s1
    → Between 15 63 s2
    → Between 10 63 s3
    → Between 1 15 s4
    → is_clash s1 s2 s3 s4 ≡ false
    → ArePaddings s1 s2 s3 s4
unfolding is_clash
is_clash-ArePaddings s1 s2 s3 s4 a b c d h = ground arith

paddings-ArePaddings :
    (fuel : ℕ) (random : ℕ → ℕ) (i s1 s2 s3 s4 j : ℕ)
    → paddings fuel random i ≡ some ((s1, s2, s3, s4), j)
    → ArePaddings s1 s2 s3 s4
unfolding paddings
paddings-ArePaddings zero random i s1 s2 s3 s4 j h = ground arith
paddings-ArePaddings (suc fuel) random i s1 s2 s3 s4 j h =
    let a = rng random i 15 63 in
    let b = rng random a.1 15 63 in
    let c = rng random b.1 10 63 in
    let d = rng random c.1 1 15 in
    elim (Bool-cases (is_clash a.0 b.0 c.0 d.0)) [
      | inl clash ↦ paddings-ArePaddings fuel random d.1 s1 s2 s3 s4 j (ground (arith, clash, h))
      | inr good ↦
          let r =
            is_clash-ArePaddings a.0 b.0 c.0 d.0 (rng-Between random i 15 63 (omega arith))
              (rng-Between random a.1 15 63 (omega arith))
              (rng-Between random b.1 10 63 (omega arith))
              (rng-Between random c.1 1 15 (omega arith)) good in
          let drawn : ℕ × ℕ × ℕ × ℕ = (a.0, b.0, c.0, d.0) in
          let same : drawn ≡ (s1, s2, s3, s4) = ground (arith, good, h) in
          subst (λ t. ArePaddings t.0 t.1 t.2 t.3) same r
    ]

rand_u32_lem :
    (fuel : ℕ) (random : ℕ → ℕ) (i v j : ℕ) → rand_u32 fuel random i ≡ some (v, j) → 5 ≤ v
unfolding rand_u32
rand_u32_lem zero random i v j h = ground arith
rand_u32_lem (suc fuel) random i v j h = ground (arith, h, rand_u32_lem fuel random (i + 1) v j)

header_lem :
    (fuel : ℕ) (random : ℕ → ℕ) (used : List ℕ) (i v j : ℕ)
    → header fuel random used i ≡ some (v, j)
    → (5 ≤ v) × (contains used v ≡ false)
unfolding header
header_lem zero random used i v j h = ground arith
header_lem (suc fuel) random used i v j h =
    let (drawn, e, h₁) = bind-eq-some (rand_u32 (suc fuel) random i) _ h in
    elim (Bool-cases (contains used drawn.0)) [
      | inl seen ↦ header_lem fuel random used drawn.1 v j (ground (arith, seen, h₁))
      | inr fresh ↦ ground (arith, fresh, h₁, e, rand_u32_lem (suc fuel) random i v j)
    ]

-- What `GenerateAWGParams` gives, in the ranges that it draws from.
pub record IsGenerated (p : AwgParams) : Type 0 where
  pub s1 : ℕ
  pub s2 : ℕ
  pub s3 : ℕ
  pub s4 : ℕ
  pub jc : ℕ
  pub jmin : ℕ
  pub jmax : ℕ
  pub fields :
      (p.s1 ≡ pos s1)
      × (p.s2 ≡ pos s2)
      × (p.s3 ≡ pos s3)
      × (p.s4 ≡ pos s4)
      × (p.jc ≡ pos jc)
      × (p.jmin ≡ pos jmin)
      × (p.jmax ≡ pos jmax)
  pub paddings_good : ArePaddings s1 s2 s3 s4
  pub jc_range : Between 3 6 jc
  pub jmin_range : Between 64 113 jmin
  pub jmax_range : Between (jmin + 50) (jmin + 149) jmax
  pub headers : (5 ≤ p.h1) × (5 ≤ p.h2) × (5 ≤ p.h3) × (5 ≤ p.h4)
  pub unique :
      (p.h1 ≢ p.h2) × (p.h1 ≢ p.h3) × (p.h1 ≢ p.h4) × (p.h2 ≢ p.h3) × (p.h2 ≢ p.h4) × (p.h3 ≢ p.h4)

headers_unique :
    (a b c d : ℕ)
    → contains (a ∷ []) b ≡ false
    → contains (b ∷ a ∷ []) c ≡ false
    → contains (c ∷ b ∷ a ∷ []) d ≡ false
    → (a ≢ b) × (a ≢ c) × (a ≢ d) × (b ≢ c) × (b ≢ d) × (c ≢ d)
unfolding contains
headers_unique a b c d e f g = ground arith

pub generate_awg_params-IsGenerated :
    (fuel : ℕ) (random : ℕ → ℕ) (p : AwgParams)
    → generate_awg_params fuel random ≡ some p
    → IsGenerated p
unfolding generate_awg_params
generate_awg_params-IsGenerated fuel random p h =
    let (((s1, s2, s3, s4), i), padded, h₁) = bind-eq-some (paddings fuel random 0) _ h in
    let jmin = rng random i 64 113 in
    let jc = rng random jmin.1 3 6 in
    let jmax = rng random jc.1 (jmin.0 + 50) (jmin.0 + 149) in
    let ((h1, i₁), e1, h₂) = bind-eq-some (header fuel random [] jmax.1) _ h₁ in
    let ((h2, i₂), e2, h₃) = bind-eq-some (header fuel random (h1 ∷ []) i₁) _ h₂ in
    let ((h3, i₃), e3, h₄) = bind-eq-some (header fuel random (h2 ∷ h1 ∷ []) i₂) _ h₃ in
    let ((h4, i₄), e4, h₅) = bind-eq-some (header fuel random (h3 ∷ h2 ∷ h1 ∷ []) i₃) _ h₄ in
    let (b1, _) = header_lem fuel random [] jmax.1 h1 i₁ e1 in
    let (b2, f2) = header_lem fuel random (h1 ∷ []) i₁ h2 i₂ e2 in
    let (b3, f3) = header_lem fuel random (h2 ∷ h1 ∷ []) i₂ h3 i₃ e3 in
    let (b4, f4) = header_lem fuel random (h3 ∷ h2 ∷ h1 ∷ []) i₃ h4 i₄ e4 in
    subst IsGenerated (ground (arith, h₅)) (record {
      s1 = s1;
      s2 = s2;
      s3 = s3;
      s4 = s4;
      jc = jc.0;
      jmin = jmin.0;
      jmax = jmax.0;
      fields = (refl, refl, refl, refl, refl, refl, refl);
      paddings_good = paddings-ArePaddings fuel random 0 s1 s2 s3 s4 i padded;
      jc_range = rng-Between random jmin.1 3 6 (omega arith);
      jmin_range = rng-Between random i 64 113 (omega arith);
      jmax_range = rng-Between random jc.1 (jmin.0 + 50) (jmin.0 + 149) (omega arith);
      headers = (b1, b2, b3, b4);
      unique = headers_unique h1 h2 h3 h4 f2 f3 f4;
    })
