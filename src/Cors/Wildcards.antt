-- ===== src/Cors/Wildcards.antt =====
-- internal/app/api/core/middleware/cors/wildcard.go.
use awg_portal.Prelude.{
  ℕ, zero, suc, ◌+◌, ◌-◌, ◌≤◌, leb, nat_eq, true, false, some, [], ◌∷◌, ◌++◌, ◌≡◌, ◌↔◌, refl, ap,
  sym, ◌∙◌, subst, arith, length, length-append, contains, bytes_eq, bytes_beq_iff,
}
use awg_portal.Cors.{
  Text, star, Wildcard, drop, has_prefix, has_suffix, matches, cut_at_star, new_wildcard,
}

has_prefix-split : (s p : Text) → has_prefix s p ≡ true → s ≡ p ++ drop (length p) s
unfolding has_prefix drop
has_prefix-split s [] h = refl
has_prefix-split [] (p ∷ ps) h = ground arith
has_prefix-split (c ∷ s) (p ∷ ps) h = ground (arith, h, has_prefix-split s ps)

has_prefix-append : (p t : Text) → has_prefix (p ++ t) p ≡ true
unfolding has_prefix
has_prefix-append [] t = refl
has_prefix-append (p ∷ ps) t = ground (arith, has_prefix-append ps t)

drop-append : (a b : Text) → drop (length a) (a ++ b) ≡ b
unfolding drop
drop-append [] b = refl
drop-append (x ∷ xs) b = drop-append xs b

drop_split :
    (n : ℕ) (a : Text)
    → n ≤ length a
    → (front : Text) × (a ≡ front ++ drop n a) × (length front ≡ n)
unfolding drop
drop_split zero a le = ([], refl, refl)
drop_split (suc n) [] le = ground (arith, le)
drop_split (suc n) (x ∷ a) le =
    let (front, e, f) = drop_split n a (omega (arith, le)) in
    (x ∷ front, ap (λ l. x ∷ l) e, omega (arith, f))

drop-length : (n : ℕ) (a : Text) → length (drop n a) ≡ length a - n
unfolding drop
drop-length zero a = omega arith
drop-length (suc n) [] = omega arith
drop-length (suc n) (x ∷ a) = omega (arith, drop-length n a)

drop_nil : (m : ℕ) → drop m [] ≡ []
unfolding drop
drop_nil zero = refl
drop_nil (suc m) = refl

drop-drop : (m n : ℕ) (a : Text) → drop m (drop n a) ≡ drop (n + m) a
unfolding drop
drop-drop m zero a = ap (λ k. drop k a) {x = m} {y = 0 + m} (omega arith)
drop-drop m (suc n) [] = drop_nil m ∙ sym (drop_nil (suc n + m))
drop-drop m (suc n) (x ∷ a) =
    drop-drop m n a ∙ ap (λ k. drop k (x ∷ a)) {x = suc (n + m)} {y = suc n + m} (omega arith)

append_assoc : (a b c : Text) → (a ++ b) ++ c ≡ a ++ (b ++ c)
append_assoc [] b c = refl
append_assoc (x ∷ a) b c = ap (λ l. x ∷ l) (append_assoc a b c)

matches-split :
    (w : Wildcard) (s : Text)
    → matches w s ≡ true
    → (middle : Text) × (s ≡ w.prefix ++ (middle ++ w.suffix))
unfolding matches has_suffix
matches-split w s h =
    let p = length w.prefix in
    let q = length w.suffix in
    let d = drop p s in
    let front_split = has_prefix-split s w.prefix (ground (arith, h)) in
    let long : p + q ≤ length s = ground (arith, h) in
    let tail : drop (length s - q) s ≡ w.suffix =
      ground (arith, h, bytes_beq_iff (drop (length s - q) s) w.suffix) in
    let size : length d ≡ length s - p = drop-length p s in
    let (middle, e, _) = drop_split (length d - q) d (omega arith) in
    let place : p + (length d - q) ≡ length s - q = omega (arith, size, long) in
    let end : drop (length d - q) d ≡ w.suffix =
      drop-drop (length d - q) p s ∙ (ap (λ k. drop k s) place ∙ tail) in
    (middle, front_split ∙ ap (λ t. w.prefix ++ t) (e ∙ ap (λ t. middle ++ t) end))

matches_split : (w : Wildcard) (middle : Text) → matches w (w.prefix ++ (middle ++ w.suffix)) ≡ true
unfolding matches has_suffix
matches_split w middle =
    let s = w.prefix ++ (middle ++ w.suffix) in
    let front = w.prefix ++ middle in
    let same : front ++ w.suffix ≡ s = append_assoc w.prefix middle w.suffix in
    let size = length-append w.prefix (middle ++ w.suffix) in
    let size' = length-append middle w.suffix in
    let size'' = length-append w.prefix middle in
    let start = has_prefix-append w.prefix (middle ++ w.suffix) in
    let place : length s - length w.suffix ≡ length front = omega (arith, size, size', size'') in
    let end : drop (length s - length w.suffix) s ≡ w.suffix =
      ap (λ k. drop k s) place
      ∙ (ap (drop (length front)) (sym same) ∙ drop-append front w.suffix) in
    let equal = (bytes_beq_iff (drop (length s - length w.suffix) s) w.suffix).1 end in
    let long : leb (length w.prefix + length w.suffix) (length s) ≡ true =
      ground (arith, size, size') in
    let long' : leb (length w.suffix) (length s) ≡ true = ground (arith, size, size') in
    cc (start, long, long', equal)

-- A wildcard matches exactly the texts that are its prefix, any text, and its suffix.
pub matches_iff :
    (w : Wildcard) (s : Text)
    → (matches w s ≡ true) ↔ ((middle : Text) × (s ≡ w.prefix ++ (middle ++ w.suffix)))
matches_iff w s = (matches-split w s, λ (middle, e). ap (matches w) e ∙ matches_split w middle)

-- What stands before and after the first star.
cut_at_star-append :
    (before after : Text)
    → contains before star ≡ false
    → cut_at_star (before ++ star ∷ after) ≡ some (before, after)
unfolding cut_at_star contains
cut_at_star-append [] after h = refl
cut_at_star-append (c ∷ before) after h = ground (arith, h, cut_at_star-append before after)

-- The wildcard of an origin with a star matches exactly the texts that arise from the origin when its
-- first star is replaced by any text.
pub matches-new_wildcard :
    (before after origin : Text)
    → contains before star ≡ false
    → (matches (new_wildcard (before ++ star ∷ after)) origin ≡ true)
      ↔ ((middle : Text) × (origin ≡ before ++ (middle ++ after)))
unfolding new_wildcard
matches-new_wildcard before after origin h =
    let w : Wildcard = record { prefix = before; suffix = after } in
    let same : new_wildcard (before ++ star ∷ after) ≡ w =
      rw (new_wildcard, cut_at_star-append before after h) in
    subst
      (λ v. (matches v origin ≡ true) ↔ ((middle : Text) × (origin ≡ before ++ (middle ++ after))))
      (sym same) (matches_iff w origin)
