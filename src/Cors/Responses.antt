-- ===== src/Cors/Responses.antt =====
-- The responses of internal/app/api/core/middleware/cors/middleware.go.
use awg_portal.Prelude.{
  ◌==◌, String, string_eq, Bool, true, false, not, ◌&&◌, List, [], ◌≡◌, ◌≢◌, ◌↔◌, ◌⊎◌, inl, inr,
  refl, subst, arith, eq_iff, length, nat_eq, ltb_ℤ, pos, Any, bytes_eq, bytes_beq_iff,
}
use awg_portal.Cors.{
  Vary, yes_text, Text, CorsLibraries, Options, Request, Write, set, no_content, next,
  origin_allowed, method_allowed, headers_allowed, origin_value, handle_preflight, handle_normal,
  preflight_writes, normal_writes, set_if, serve,
}

module _ (l : CorsLibraries) (o : Options) where
  -- The origin of a request is there and allowed.
  abbrev pub HasAllowedOrigin : Request → Type 0
  HasAllowedOrigin r = (r.header "Origin" ≢ []) × (origin_allowed o (r.header "Origin") ≡ true)

  -- A preflight request gets the CORS headers of `preflight_writes` exactly if its origin, the method
  -- that it asks for and the headers that it asks for are all allowed.
  pub handle_preflight_iff :
      (r : Request)
      → ((handle_preflight l o r).1 ≡ preflight_writes l o r) ↔ (
          HasAllowedOrigin r
          × (method_allowed o (r.header "Access-Control-Request-Method") ≡ true)
          × (headers_allowed l o (r.header "Access-Control-Request-Headers") ≡ true))
  unfolding handle_preflight preflight_writes
  handle_preflight_iff r = ground (arith, bytes_beq_iff (r.header "Origin") [])

  -- Any other request gets the CORS headers of `normal_writes` exactly if its origin and its method are
  -- allowed.
  pub handle_normal_iff :
      (r : Request)
      → ((handle_normal l o r).1 ≡ normal_writes l o r)
        ↔ (HasAllowedOrigin r × (method_allowed o r.method ≡ true))
  unfolding handle_normal normal_writes
  handle_normal_iff r = ground (arith, bytes_beq_iff (r.header "Origin") [])

  -- What the response lets the browser share: the value of Access-Control-Allow-Origin.
  abbrev pub Shares : Text → List Write → Type 0
  Shares value ws = Any (λ w. w ≡ set "Access-Control-Allow-Origin" value) ws

  set_if-Shares :
      (b : Bool) (name : String) (v value : Text) (ws : List Write)
      → (name == "Access-Control-Allow-Origin") ≡ false
      → Shares value (set_if l b name v ws)
      → Shares value ws
  unfolding set_if
  set_if-Shares true name v value ws other (inl e) =
      ground (arith, other, e, eq_iff name "Access-Control-Allow-Origin")
  set_if-Shares true name v value ws other (inr s) = s
  set_if-Shares false name v value ws other s = s

  preflight_writes-Shares :
      (r : Request) (value : Text)
      → Shares value (preflight_writes l o r)
      → value ≡ origin_value l o (r.header "Origin")
  unfolding preflight_writes set_if
  preflight_writes-Shares r value (inl e) = ground (arith, e)
  preflight_writes-Shares r value (inr (inl e)) = absurd (
      set_if-Shares true "Access-Control-Allow-Methods" (r.header "Access-Control-Request-Method")
        value [] refl (inl e))
  preflight_writes-Shares r value (inr (inr s)) =
      let by_network =
        o.allow_private_networks && r.header "Access-Control-Request-Private-Network" == yes_text in
      let requested = r.header "Access-Control-Request-Headers" in
      let aged = ltb_ℤ (pos 0) o.max_age in
      let age = set_if l aged "Access-Control-Max-Age" (l.itoa o.max_age) [] in
      let network = set_if l by_network "Access-Control-Allow-Private-Network" yes_text age in
      let credentials =
        set_if l o.allow_credentials "Access-Control-Allow-Credentials" yes_text network in
      let s1 =
        set_if-Shares (not (requested == [])) "Access-Control-Allow-Headers" requested value
          credentials refl s in
      let s2 =
        set_if-Shares o.allow_credentials "Access-Control-Allow-Credentials" yes_text value network
          refl s1 in
      let s3 =
        set_if-Shares by_network "Access-Control-Allow-Private-Network" yes_text value age refl
          s2 in
      absurd (set_if-Shares aged "Access-Control-Max-Age" (l.itoa o.max_age) value [] refl s3)

  normal_writes-Shares :
      (r : Request) (value : Text)
      → Shares value (normal_writes l o r)
      → value ≡ origin_value l o (r.header "Origin")
  unfolding normal_writes
  normal_writes-Shares r value (inl e) = ground (arith, e)
  normal_writes-Shares r value (inr s) =
      let credentials =
        set_if l o.allow_credentials "Access-Control-Allow-Credentials" yes_text [] in
      let s1 =
        set_if-Shares (not (length o.exposed_headers == 0)) "Access-Control-Expose-Headers"
          (l.join o.exposed_headers) value credentials refl s in
      absurd (
        set_if-Shares o.allow_credentials "Access-Control-Allow-Credentials" yes_text value [] refl
          s1)

  handle_preflight-Shares :
      (r : Request) (value : Text)
      → Shares value (handle_preflight l o r).1
      → HasAllowedOrigin r × (value ≡ origin_value l o (r.header "Origin"))
  unfolding handle_preflight
  handle_preflight-Shares r value s =
      ground (arith, s, preflight_writes-Shares r value, bytes_beq_iff (r.header "Origin") [])

  handle_normal-Shares :
      (r : Request) (value : Text)
      → Shares value (handle_normal l o r).1
      → HasAllowedOrigin r × (value ≡ origin_value l o (r.header "Origin"))
  unfolding handle_normal
  handle_normal-Shares r value s =
      ground (arith, s, normal_writes-Shares r value, bytes_beq_iff (r.header "Origin") [])

  serve-writes :
      (r : Request) (vary : Vary) (ws : List Write)
      → (serve l o r ≡ no_content (vary, ws)) ⊎ (serve l o r ≡ next (vary, ws))
      → (ws ≡ (handle_preflight l o r).1) ⊎ (ws ≡ (handle_normal l o r).1)
  unfolding serve
  serve-writes r vary ws (inl e) = ground (arith, e)
  serve-writes r vary ws (inr e) = ground (arith, e)

  -- A response of the middleware names an origin only if the request's origin is allowed, and then it
  -- names that origin, or "*" when every origin is allowed; a preflight request ends there, and any
  -- other request goes on.
  pub serve-Shares :
      (r : Request) (vary : Vary) (ws : List Write) (value : Text)
      → (serve l o r ≡ no_content (vary, ws)) ⊎ (serve l o r ≡ next (vary, ws))
      → Shares value ws
      → HasAllowedOrigin r × (value ≡ origin_value l o (r.header "Origin"))
  serve-Shares r vary ws value h s = elim (serve-writes r vary ws h) [
    | inl e ↦ handle_preflight-Shares r value (subst (Shares value) e s)
    | inr e ↦ handle_normal-Shares r value (subst (Shares value) e s)
  ]
