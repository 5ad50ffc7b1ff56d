-- ===== src/Csrf/Tokens.antt =====
-- Masked tokens of internal/app/api/core/middleware/csrf/token.go.
use awg_portal.Prelude.{
  ◌*◌, ◌/◌, nat_eq, true, [], ◌∷◌, ◌++◌, ◌≡◌, ◌↔◌, refl, ap, arith, length, length-append, inl, inr,
  String,
}
use awg_portal.Prelude.Bits.{bit_xor-twice}
use awg_portal.Errors.{ok, Result-cases}
use awg_portal.Csrf.{
  Bytes, CsrfLibraries, xor_lists, take, drop, mask_token, unmask_token, equal, token_equal,
}

length-xor_lists : (a b : Bytes) → length a ≡ length b → length (xor_lists a b) ≡ length b
unfolding xor_lists
length-xor_lists [] b h = h
length-xor_lists (x ∷ xs) [] h = refl
length-xor_lists (x ∷ xs) (y ∷ ys) h = omega (arith, length-xor_lists xs ys (omega (arith, h)))

xor_lists-twice :
    (key token : Bytes) → length token ≡ length key → xor_lists key (xor_lists token key) ≡ token
unfolding xor_lists
xor_lists-twice [] [] h = refl
xor_lists-twice [] (x ∷ xs) h = ground (arith, h)
xor_lists-twice (k ∷ ks) [] h = ground (arith, h)
xor_lists-twice (k ∷ ks) (x ∷ xs) h =
    cc (bit_xor-twice k x, xor_lists-twice ks xs (omega (arith, h)))

take-append : (a b : Bytes) → take (length a) (a ++ b) ≡ a
unfolding take
take-append [] b = refl
take-append (x ∷ xs) b = ap (λ l. x ∷ l) (take-append xs b)

drop-append : (a b : Bytes) → drop (length a) (a ++ b) ≡ b
unfolding drop
drop-append [] b = refl
drop-append (x ∷ xs) b = drop-append xs b

unmask_token-append :
    (key token : Bytes)
    → length token ≡ length key
    → unmask_token (key ++ xor_lists token key) ≡ token
unfolding unmask_token
unmask_token-append key token h =
    let hidden = xor_lists token key in
    let half : length (key ++ hidden) / 2 ≡ length key =
      omega (arith, length-append key hidden, length-xor_lists token key h) in
    cc (half, take-append key hidden, drop-append key hidden, xor_lists-twice key token h)

-- A token masked with a key of its length is unmasked to itself, and the masked token has twice its
-- length.
pub unmask_token-mask_token :
    (token key : Bytes)
    → length token ≡ length key
    → (masked : Bytes) × (mask_token token key ≡ ok masked)
      × (unmask_token masked ≡ token)
      × (length masked ≡ 2 * length token)
unfolding mask_token
unmask_token-mask_token token key h = (
  key ++ xor_lists token key,
  ground (arith, h),
  unmask_token-append key token h,
  omega (arith, h, length-append key (xor_lists token key), length-xor_lists token key h),
)

pub equal_iff : (a b : Bytes) → (equal a b ≡ true) ↔ (a ≡ b)
unfolding equal
equal_iff [] [] = ground arith
equal_iff [] (y ∷ ys) = ground arith
equal_iff (x ∷ xs) [] = ground arith
equal_iff (x ∷ xs) (y ∷ ys) = ground (arith, equal_iff xs ys)

module _ (l : CsrfLibraries) where
  -- Both texts are base64, and the masked tokens that they encode unmask to the same bytes.
  abbrev pub IsSameToken : String → String → Type 0
  IsSameToken a b =
      (c : Bytes) × (d : Bytes) × (l.decode a ≡ ok c)
      × (l.decode b ≡ ok d)
      × (unmask_token c ≡ unmask_token d)

  token_equal-decoded : (a b : String) → token_equal l a b ≡ true → IsSameToken a b
  unfolding token_equal
  token_equal-decoded a b h = elim (Result-cases (l.decode a)) [
    | inl e ↦ ground (arith, h, e)
    | inr (inl (x, e)) ↦ ground (arith, h, e)
    | inr (inr (c, e)) ↦ elim (Result-cases (l.decode b)) [
      | inl f ↦ ground (arith, h, e, f)
      | inr (inl (x, f)) ↦ ground (arith, h, e, f)
      | inr (inr (d, f)) ↦
          (c, d, e, f, ground (arith, h, e, f, equal_iff (unmask_token c) (unmask_token d)))
    ]
  ]

  token_equal-equal :
      (a b : String) (c d : Bytes)
      → l.decode a ≡ ok c
      → l.decode b ≡ ok d
      → unmask_token c ≡ unmask_token d
      → token_equal l a b ≡ true
  unfolding token_equal
  token_equal-equal a b c d p q e =
      ground (arith, p, q, e, equal_iff (unmask_token c) (unmask_token d))

  -- `tokenEqual` accepts two texts exactly if both decode and unmask to the same token.
  pub token_equal_iff : (a b : String) → (token_equal l a b ≡ true) ↔ IsSameToken a b
  token_equal_iff a b =
      (token_equal-decoded a b, λ (c, d, p, q, e). token_equal-equal a b c d p q e)
