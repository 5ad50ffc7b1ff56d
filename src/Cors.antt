-- ===== src/Cors.antt =====
-- internal/app/api/core/middleware/cors: wildcards, options, and the middleware. A text is the list of its
-- bytes. Tables of Unicode and the canonical names of headers are parameters.
pub mod Wildcards
pub mod Origins
pub mod Responses
mod Tests
use awg_portal.Text.{split_at_commas}
use awg_portal.Prelude.{
  ℕ, zero, suc, ◌+◌, ◌-◌, ◌<◌, leb, ltb, ltb_ℤ, ℤ, pos, ◌==◌, nat_eq, string_eq, String, Bool, true,
  false, not, ◌&&◌, ◌||◌, Option, none, some, List, [], ◌∷◌, ◌++◌, if◌then◌else◌, ◌≡◌, length,
  contains, contains_func, map, Comparable, bytes_eq,
}

abbrev pub Text : Type 0
Text = List ℕ

abbrev pub star : ℕ
star = b'*'

pub record Wildcard : Type 0 where
  pub prefix : Text
  pub suffix : Text

unfoldable pub drop : ℕ → Text → Text
drop zero l = l
drop (suc n) [] = []
drop (suc n) (x ∷ l) = drop n l

-- `strings.HasPrefix` and `strings.HasSuffix`
unfoldable pub has_prefix : Text → Text → Bool
has_prefix s [] = true
has_prefix [] (p ∷ ps) = false
has_prefix (c ∷ s) (p ∷ ps) = c == p && has_prefix s ps

unfoldable pub has_suffix : Text → Text → Bool
has_suffix s q = leb (length q) (length s) && drop (length s - length q) s == q

unfoldable pub matches : Wildcard → Text → Bool
matches w s =
    leb (length w.prefix + length w.suffix) (length s)
    && (has_prefix s w.prefix && has_suffix s w.suffix)

-- The text before the first star and the text after it, where there is one.
unfoldable pub cut_at_star : Text → Option (Text × Text)
cut_at_star [] = none
cut_at_star (c ∷ s) =
    let rest = cut_at_star s in
    if c == star
    then some ([], s)
    else elim rest [ none ↦ none | some parts ↦ some (c ∷ parts.0, parts.1) ]

unfoldable pub new_wildcard : Text → Wildcard
new_wildcard s = elim (cut_at_star s) [
  | none ↦ record { prefix = s; suffix = [] }
  | some parts ↦ record { prefix = parts.0; suffix = parts.1 }
]

pub record Options : Type 0 where
  pub allowed_origins : List Text
  pub allowed_origin_patterns : List Wildcard
  pub allowed_methods : List Text
  -- the keys of the map
  pub allowed_headers : List Text
  pub exposed_headers : List Text
  pub allow_credentials : Bool
  pub allow_private_networks : Bool
  pub max_age : ℤ

-- `len(origin) > 1 && strings.Contains(origin, "*")`
unfoldable pub has_wildcard : Text → Bool
has_wildcard origin = ltb 1 (length origin) && contains origin star

unfoldable pub plain_origins : List Text → List Text
plain_origins [] = []
plain_origins (o ∷ os) = let rest = plain_origins os in if has_wildcard o then rest else o ∷ rest

unfoldable pub origin_patterns : List Text → List Wildcard
origin_patterns [] = []
origin_patterns (o ∷ os) =
    let rest = origin_patterns os in if has_wildcard o then new_wildcard o ∷ rest else rest

-- The loop of `WithAllowedOrigins` fills two lists.
unfoldable pub with_allowed_origins : List Text → Options → Options
unfolding plain_origins origin_patterns
with_allowed_origins origins o = record o {
  allowed_origins = plain_origins origins;
  allowed_origin_patterns = origin_patterns origins;
}

-- `len(l) == 1 && l[0] == "*"`
abbrev pub is_star : List Text → Bool
is_star [] = false
is_star (x ∷ []) = x == star ∷ []
is_star (x ∷ y ∷ l) = false

unfoldable pub matches_any : List Wildcard → Text → Bool
matches_any [] origin = false
matches_any (w ∷ ws) origin = matches w origin || matches_any ws origin

unfoldable pub origin_allowed : Options → Text → Bool
origin_allowed o origin =
    is_star o.allowed_origins
    || (contains o.allowed_origins origin || matches_any o.allowed_origin_patterns origin)

abbrev pub options_method : Text
options_method = b'O' ∷ b'P' ∷ b'T' ∷ b'I' ∷ b'O' ∷ b'N' ∷ b'S' ∷ []

unfoldable pub method_allowed : Options → Text → Bool
method_allowed o method =
    method == options_method || (is_star o.allowed_methods || contains o.allowed_methods method)

-- The library functions that read tables of Unicode, and the printing of a number.
pub record CorsLibraries : Type 0 where
  pub trim_space : Text → Text
  pub to_lower : Text → Text
  pub canonical_header_key : Text → Text
  pub itoa : ℤ → Text
  pub join : List Text → Text

-- A write to the header of a response, by `Set`; `Vary` is added before.
pub data Write : Type 0 where
  set : String → Text → Write

-- The part of a request that the middleware reads; a missing header is the empty text.
pub record Request : Type 0 where
  pub method : Text
  pub header : String → Text

-- The values of `Vary`, which are constants of the program.
pub data Vary : Type 0 where
  origin_only requested requested_private : Vary

-- What the middleware does: it answers with 204 No Content, or calls the next handler.
pub data Outcome : Type 0 where
  no_content next : Vary × List Write → Outcome

unfoldable pub new_options : Options
new_options = record {
  allowed_origins = (star ∷ []) ∷ [];
  allowed_origin_patterns = [];
  allowed_methods =
      (b'H' ∷ b'E' ∷ b'A' ∷ b'D' ∷ [])
      ∷ (b'G' ∷ b'E' ∷ b'T' ∷ [])
      ∷ (b'P' ∷ b'O' ∷ b'S' ∷ b'T' ∷ [])
      ∷ (b'P' ∷ b'U' ∷ b'T' ∷ [])
      ∷ (b'P' ∷ b'A' ∷ b'T' ∷ b'C' ∷ b'H' ∷ [])
      ∷ (b'D' ∷ b'E' ∷ b'L' ∷ b'E' ∷ b'T' ∷ b'E' ∷ [])
      ∷ [];
  allowed_headers = (star ∷ []) ∷ [];
  exposed_headers = [];
  allow_credentials = false;
  allow_private_networks = false;
  max_age = pos 0;
}

-- "*" and "true"
abbrev pub any_origin : Text
any_origin = star ∷ []

abbrev pub yes_text : Text
yes_text = b't' ∷ b'r' ∷ b'u' ∷ b'e' ∷ []

module _ (l : CorsLibraries) where
  unfoldable pub lower_all : List Text → List Text
  lower_all [] = []
  lower_all (h ∷ hs) = l.to_lower h ∷ lower_all hs

  unfoldable pub with_allowed_headers : List Text → Options → Options
  unfolding lower_all
  with_allowed_headers headers o = record o { allowed_headers = lower_all headers }

  unfoldable pub all_known : List Text → List Text → Bool
  all_known known [] = true
  all_known known (h ∷ hs) = contains known (l.trim_space h) && all_known known hs

  unfoldable pub headers_allowed : Options → Text → Bool
  headers_allowed o headers =
      headers == []
      || (not (length o.allowed_headers == 0)
          && (contains o.allowed_headers any_origin
              || all_known o.allowed_headers (split_at_commas headers)))

  -- `if b { w.Header().Set(name, value) }`
  unfoldable pub set_if : Bool → String → Text → List Write → List Write
  set_if b name value rest = if b then set name value ∷ rest else rest

  abbrev pub origin_value : Options → Text → Text
  origin_value o origin = if is_star o.allowed_origins then any_origin else origin

  unfoldable pub preflight_writes : Options → Request → List Write
  unfolding set_if
  preflight_writes o r =
      set "Access-Control-Allow-Origin" (origin_value o (r.header "Origin"))
      ∷ set "Access-Control-Allow-Methods" (r.header "Access-Control-Request-Method")
      ∷ set_if (not (r.header "Access-Control-Request-Headers" == []))
          "Access-Control-Allow-Headers" (r.header "Access-Control-Request-Headers")
          (set_if o.allow_credentials "Access-Control-Allow-Credentials" yes_text (
            set_if
              (o.allow_private_networks
                && r.header "Access-Control-Request-Private-Network" == yes_text)
              "Access-Control-Allow-Private-Network" yes_text
              (set_if (ltb_ℤ (pos 0) o.max_age) "Access-Control-Max-Age" (l.itoa o.max_age) [])))

  unfoldable pub handle_preflight : Options → Request → Vary × List Write
  handle_preflight o r =
      let vary = if o.allow_private_networks then requested_private else requested in
      if r.header "Origin" == []
      then (vary, [])
      else if not (origin_allowed o (r.header "Origin"))
      then (vary, [])
      else if not (method_allowed o (r.header "Access-Control-Request-Method"))
      then (vary, [])
      else if not (headers_allowed o (r.header "Access-Control-Request-Headers"))
      then (vary, [])
      else (vary, preflight_writes o r)

  unfoldable pub normal_writes : Options → Request → List Write
  unfolding set_if
  normal_writes o r =
      set "Access-Control-Allow-Origin" (origin_value o (r.header "Origin"))
      ∷ set_if (not (length o.exposed_headers == 0)) "Access-Control-Expose-Headers"
          (l.join o.exposed_headers)
          (set_if o.allow_credentials "Access-Control-Allow-Credentials" yes_text [])

  unfoldable pub handle_normal : Options → Request → Vary × List Write
  handle_normal o r =
      if r.header "Origin" == []
      then (origin_only, [])
      else if not (origin_allowed o (r.header "Origin"))
      then (origin_only, [])
      else if not (method_allowed o r.method)
      then (origin_only, [])
      else (origin_only, normal_writes o r)

  unfoldable pub serve : Options → Request → Outcome
  serve o r =
      if r.method == options_method && not (r.header "Access-Control-Request-Method" == [])
      then no_content (handle_preflight o r)
      else next (handle_normal o r)
