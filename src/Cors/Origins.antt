-- ===== src/Cors/Origins.antt =====
-- Allowed origins: options.go and `originAllowed` of internal/app/api/core/middleware/cors/middleware.go.
use awg_portal.Prelude.{
  true, false, ◌||◌, List, [], ◌∷◌, ◌≡◌, ◌≢◌, ◌↔◌, ◌⊎◌, arith, Any, contains, bytes_eq,
  bytes_beq_iff,
}
use awg_portal.Cors.{
  Text, any_origin, Options, new_wildcard, matches, has_wildcard, plain_origins, origin_patterns,
  with_allowed_origins, is_star, matches_any, origin_allowed,
}

-- A configured origin permits the origin of a request: it has a star and its wildcard matches, or it
-- has none and is the same text.
abbrev pub Permits : Text → Text → Type 0
Permits origin o =
    ((has_wildcard o ≡ true) × (matches (new_wildcard o) origin ≡ true))
    ⊎ ((has_wildcard o ≡ false) × (o ≡ origin))

listed_iff :
    (os : List Text) (origin : Text)
    → ((contains (plain_origins os) origin || matches_any (origin_patterns os) origin) ≡ true)
      ↔ Any (Permits origin) os
unfolding contains plain_origins origin_patterns matches_any
listed_iff [] origin = ground arith
listed_iff (o ∷ os) origin = ground (arith, listed_iff os origin, bytes_beq_iff o origin)

is_star_iff : (l : List Text) → (is_star l ≡ true) ↔ (l ≡ any_origin ∷ [])
is_star_iff [] = ground arith
is_star_iff (x ∷ []) = ground (arith, bytes_beq_iff x any_origin)
is_star_iff (x ∷ y ∷ l) = ground arith

-- Configured with a list of origins, the middleware allows an origin exactly if one of the list permits
-- it, or "*" is the only origin of the list without a wildcard.
pub origin_allowed-with_allowed_origins :
    (os : List Text) (o : Options) (origin : Text)
    → (origin_allowed (with_allowed_origins os o) origin ≡ true)
      ↔ ((plain_origins os ≡ any_origin ∷ []) ⊎ Any (Permits origin) os)
unfolding origin_allowed with_allowed_origins
origin_allowed-with_allowed_origins os o origin =
    ground (arith, listed_iff os origin, is_star_iff (plain_origins os))

-- Configured with "*" and one other origin without a wildcard, the middleware refuses every origin but that
-- one and the text "*".
pub origin_allowed_star :
    (other origin : Text) (o : Options)
    → has_wildcard other ≡ false
    → origin ≢ other
    → origin ≢ any_origin
    → origin_allowed (with_allowed_origins (any_origin ∷ other ∷ []) o) origin ≡ false
unfolding origin_allowed with_allowed_origins has_wildcard contains matches_any plain_origins
    origin_patterns
origin_allowed_star other origin o simple new other_than_star = ground (
  arith,
  simple,
  new,
  other_than_star,
  bytes_beq_iff other origin,
  bytes_beq_iff any_origin origin,
)
