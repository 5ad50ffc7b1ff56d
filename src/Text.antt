-- ===== src/Text.antt =====
-- Go's strings as lists of code points, where the program looks inside them: their UTF-8 bytes, which
-- `len` and indexing count, and `strings.TrimSpace`.
use awg_portal.Prelude.{
  ℕ, zero, suc, ◌+◌, ◌/◌, ◌%◌, ltb, leb, ◌==◌, nat_eq, Bool, true, false, ◌&&◌, ◌||◌, Option, none,
  some, List, [], ◌∷◌, ◌++◌, if◌then◌else◌,
}

-- The bytes of one code point.
unfoldable pub rune_bytes : ℕ → List ℕ
rune_bytes r =
    if ltb r 0x80
    then r ∷ []
    else if ltb r 0x800
    then (0xc0 + r / 64) ∷ (0x80 + r % 64) ∷ []
    else if ltb r 0x10000
    then (0xe0 + r / 4096) ∷ (0x80 + r / 64 % 64) ∷ (0x80 + r % 64) ∷ []
    else (0xf0 + r / 262144) ∷ (0x80 + r / 4096 % 64) ∷ (0x80 + r / 64 % 64) ∷ (0x80 + r % 64) ∷ []

unfoldable pub bytes : List ℕ → List ℕ
unfolding rune_bytes
bytes [] = []
bytes (r ∷ s) = rune_bytes r ++ bytes s

abbrev pub byte_at? : List ℕ → ℕ → Option ℕ
byte_at? [] i = none
byte_at? (b ∷ bs) zero = some b
byte_at? (b ∷ bs) (suc i) = byte_at? bs i

-- `unicode.IsSpace`
unfoldable pub is_space : ℕ → Bool
is_space r =
    leb 9 r && leb r 13
    || (r == 0x20
        || (r == 0x85
            || (r == 0xa0
                || (r == 0x1680
                    || (leb 0x2000 r && leb r 0x200a
                        || (r == 0x2028
                            || (r == 0x2029 || (r == 0x202f || (r == 0x205f || r == 0x3000)))))))))

unfoldable pub trim_left : List ℕ → List ℕ
trim_left [] = []
trim_left (r ∷ s) = let rest = trim_left s in if is_space r then rest else r ∷ s

abbrev pub is_nil : List ℕ → Bool
is_nil [] = true
is_nil (r ∷ s) = false

unfoldable pub trim_right : List ℕ → List ℕ
trim_right [] = []
trim_right (r ∷ s) = let rest = trim_right s in if is_nil rest && is_space r then [] else r ∷ rest

-- `strings.TrimSpace`
unfoldable pub trim_space : List ℕ → List ℕ
unfolding trim_left trim_right is_space
trim_space s = trim_right (trim_left s)

-- `strings.Split(s, ",")` and `strings.SplitSeq`
unfoldable pub split_at_commas : List ℕ → List (List ℕ)
split_at_commas [] = [] ∷ []
split_at_commas (c ∷ s) =
    let rest = split_at_commas s in
    if c == b',' then [] ∷ rest else elim rest [ [] ↦ (c ∷ []) ∷ [] | p ∷ ps ↦ (c ∷ p) ∷ ps ]
