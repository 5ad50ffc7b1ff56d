-- ===== src/Csrf/Handlers.antt =====
-- The handlers of internal/app/api/core/middleware/csrf/middleware.go.
use awg_portal.Prelude.{
  false, ℕ, ◌+◌, string_eq, String, true, [], ◌≡◌, ◌↔◌, ◌⊎◌, inr, refl, arith, eq_iff, contains,
}
use awg_portal.Errors.{ok}
use awg_portal.Csrf.{
  Bytes, CsrfLibraries, Request, Options, next, err_callback, generate_token, token_equal,
  set_token, get_token, handler, fresh_token, refresh_token,
}
use awg_portal.Csrf.Tokens.{IsSameToken, unmask_token-mask_token, token_equal_iff}

module _ (l : CsrfLibraries) {Session : Type 0} (o : Options Session) where
  passes_iff :
      (r : Request) (session : Session)
      → (handler l o r session ≡ next r session) ↔ (
          (contains o.ignore_methods r.method ≡ true)
          ⊎ (token_equal l (o.token_getter r) (o.session_getter session) ≡ true))
  unfolding handler
  passes_iff r session = ground arith

  -- `Handler` lets a request through exactly if its method is ignored, or its token and the token of the
  -- session are both base64 and unmask to the same bytes. In every other case it calls the error callback.
  pub handler_iff :
      (r : Request) (session : Session)
      → ((handler l o r session ≡ next r session) ↔ (
          (contains o.ignore_methods r.method ≡ true)
          ⊎ IsSameToken l (o.token_getter r) (o.session_getter session)))
        × ((handler l o r session ≡ err_callback) ↔ (
            (contains o.ignore_methods r.method ≡ false)
            × ¬ (IsSameToken l (o.token_getter r) (o.session_getter session))))
  unfolding handler
  handler_iff r session =
      let equal = token_equal_iff l (o.token_getter r) (o.session_getter session) in
      (ground (arith, passes_iff r session, equal), ground (arith, equal))

  -- Without a token in the session, `Handler` lets through every request that has no token either.
  pub handler_no_token :
      (r : Request) (session : Session)
      → o.token_getter r ≡ ""
      → o.session_getter session ≡ ""
      → handler l o r session ≡ next r session
  unfolding handler
  handler_no_token r session none_sent none_stored =
      let empty = (token_equal_iff l "" "").1 ([], [], l.decode-empty, l.decode-empty, refl) in
      let equal : token_equal l (o.token_getter r) (o.session_getter session) ≡ true =
        cc (none_sent, none_stored, empty) in
      ground (arith, equal)

  -- With enough random bytes, `RefreshToken` puts a new token into the context and the session, and
  -- `Handler` then lets through every request of that session that brings this token.
  pub handler-refresh_token :
      (i : ℕ) (r : Request) (session : Session) (token key : Bytes)
      → ((s : Session) (t : String) → o.session_getter (o.session_writer s t) ≡ t)
      → get_token r ≡ ""
      → l.read_full i o.token_length ≡ ok token
      → l.read_full (i + 1) o.token_length ≡ ok key
      → (t : String) × (refresh_token l o i r session
          ≡ ok (next (set_token r t) (o.session_writer session t)))
        × ((later : Request)
            → o.token_getter later ≡ t
            → handler l o later (o.session_writer session t)
              ≡ next later (o.session_writer session t))
  unfolding refresh_token fresh_token generate_token
  handler-refresh_token i r session token key stores no_token read read' =
      let long = l.length-read_full i o.token_length token read in
      let long' = l.length-read_full (i + 1) o.token_length key read' in
      let (masked, m, _, _) = unmask_token-mask_token token key (omega (arith, long, long')) in
      let t = l.encode masked in
      let decoded = l.decode-encode masked in
      let accepted = (token_equal_iff l t t).1 (masked, masked, decoded, decoded, refl) in
      (
        t,
        ground (arith, no_token, read, read', m, eq_iff (get_token r) ""),
        λ later sent.
            (passes_iff later (o.session_writer session t)).1
              (inr (cc (sent, stores session t, accepted))),
      )
