-- ===== src/Cors/Tests.antt =====
-- The CORS middleware at concrete inputs.
use awg_portal.Prelude.{
  ◌==◌, string_eq, bytes_eq, nat_eq, ◌++◌, true, false, arith, if◌then◌else◌, List, [], ◌∷◌, ◌≡◌,
  ◌↔◌, inl, refl, contains,
}
use awg_portal.Cors.{
  Text, star, any_origin, Options, CorsLibraries, Request, Write, set, no_content, requested,
  new_options, new_wildcard, matches, plain_origins, with_allowed_origins, origin_allowed,
  method_allowed, headers_allowed, preflight_writes, handle_preflight, origin_value, serve,
  has_wildcard, set_if, cut_at_star, has_prefix, has_suffix, drop, matches_any, origin_patterns,
  options_method,
}
use awg_portal.Cors.Wildcards.{matches-new_wildcard}
use awg_portal.Cors.Origins.{origin_allowed_star}
use awg_portal.Cors.Responses.{HasAllowedOrigin, serve-Shares}

-- Stand-ins that change nothing.
abbrev toy : CorsLibraries
toy = record {
  trim_space = λ s. s;
  to_lower = λ s. s;
  canonical_header_key = λ s. s;
  itoa = λ n. [];
  join = λ l. [];
}

-- "a*c", "b" and "axc"
abbrev pattern_origin : Text
pattern_origin = b'a' ∷ star ∷ b'c' ∷ []

abbrev plain_origin : Text
plain_origin = b'b' ∷ []

abbrev visitor : Text
visitor = b'a' ∷ b'x' ∷ b'c' ∷ []

abbrev configured : Options
configured = with_allowed_origins (pattern_origin ∷ plain_origin ∷ []) new_options

-- A preflight request for GET.
abbrev get : Text
get = b'G' ∷ b'E' ∷ b'T' ∷ []

abbrev ask : Request
ask = record {
  method = options_method;
  header = λ name.
      if name == "Origin"
      then visitor
      else if name == "Access-Control-Request-Method"
      then get
      else [];
}

matches-new_wildcard_example :
    (matches (new_wildcard pattern_origin) visitor ≡ true)
    ↔ ((middle : Text) × (visitor ≡ b'a' ∷ [] ++ (middle ++ b'c' ∷ [])))
unfolding contains
matches-new_wildcard_example = matches-new_wildcard (b'a' ∷ []) (b'c' ∷ []) visitor refl

origin_allowed_star_example :
    origin_allowed (with_allowed_origins (any_origin ∷ plain_origin ∷ []) new_options) visitor
    ≡ false
unfolding has_wildcard contains
origin_allowed_star_example =
    origin_allowed_star plain_origin visitor new_options refl (λ e. ground (arith, e))
      (λ e. ground (arith, e))

everything : Unit {0}
unfolding serve handle_preflight preflight_writes set_if origin_allowed method_allowed
    headers_allowed with_allowed_origins plain_origins origin_patterns has_wildcard matches_any
    matches new_wildcard cut_at_star has_prefix has_suffix drop new_options contains
everything = tt

abbrev answer : List Write
answer = set "Access-Control-Allow-Origin" visitor ∷ set "Access-Control-Allow-Methods" get ∷ []

ask_runs : serve toy configured ask ≡ no_content (requested, answer)
unfolding everything
ask_runs = refl

serve-Shares_example :
    HasAllowedOrigin toy configured ask × (visitor ≡ origin_value toy configured visitor)
serve-Shares_example =
    serve-Shares toy configured ask requested answer visitor (inl ask_runs) (inl refl)
