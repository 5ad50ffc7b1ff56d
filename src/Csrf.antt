-- ===== src/Csrf.antt =====
-- internal/app/api/core/middleware/csrf: the tokens of token.go, the handlers of middleware.go and the
-- defaults of options.go. A token is a list of bytes; base64, the random reader, the session and the
-- parts of a request are parameters.
pub mod Tokens
pub mod Handlers
mod Tests
use Prim.Native.Nat.{bit_xor}
use awg_portal.Prelude.{
  ℕ, zero, suc, ◌+◌, ◌*◌, ◌/◌, ◌==◌, nat_eq, string_eq, String, Bool, true, false, not, ◌&&◌,
  Option, none, some, List, [], ◌∷◌, ◌++◌, if◌then◌else◌, ◌≡◌, length, contains,
}
use awg_portal.Errors.{Result, ok, err, panic, ◌>>=◌, ◌>>◌, wrapping}

abbrev pub Bytes : Type 0
Bytes = List ℕ

-- `base64.URLEncoding` and `io.ReadFull(rand.Reader, …)`: reading number `i`, of so many bytes.
pub record CsrfLibraries : Type 0 where
  pub encode : Bytes → String
  pub decode : String → Result Bytes
  pub read_full : ℕ → ℕ → Result Bytes
  pub decode-encode : (b : Bytes) → decode (encode b) ≡ ok b
  pub decode-empty : decode "" ≡ ok []
  pub length-read_full : (i n : ℕ) (b : Bytes) → read_full i n ≡ ok b → length b ≡ n

-- The part of a request that the middleware reads; a missing value is the empty text.
pub record Request : Type 0 where
  pub method : String
  pub header : String → String
  pub query : String → String
  pub form_value : String → String
  -- the context value `ContextValueIdentifier`
  pub context_token : Option String

unfoldable pub xor_lists : Bytes → Bytes → Bytes
xor_lists (a ∷ as') (b ∷ bs) = bit_xor a b ∷ xor_lists as' bs
xor_lists [] bs = []
xor_lists (a ∷ as') [] = []

-- The token and the key fill the two halves of one buffer.
unfoldable pub mask_token : Bytes → Bytes → Result Bytes
mask_token token key =
    if not (length token == length key) then panic else ok (key ++ xor_lists token key)

unfoldable pub take : ℕ → Bytes → Bytes
take zero l = []
take (suc n) [] = []
take (suc n) (x ∷ l) = x ∷ take n l

unfoldable pub drop : ℕ → Bytes → Bytes
drop zero l = l
drop (suc n) [] = []
drop (suc n) (x ∷ l) = drop n l

unfoldable pub unmask_token : Bytes → Bytes
unmask_token masked =
    let token_length = length masked / 2 in
    xor_lists (take token_length masked) (drop token_length masked)

-- `slices.Equal`
unfoldable pub equal : Bytes → Bytes → Bool
equal [] [] = true
equal [] (b ∷ bs) = false
equal (a ∷ as') [] = false
equal (a ∷ as') (b ∷ bs) = a == b && equal as' bs

unfoldable pub get_token : Request → String
get_token r = elim (r.context_token) [ none ↦ "" | some t ↦ t ]

unfoldable pub set_token : Request → String → Request
set_token r token = record r { context_token = some token }

unfoldable pub default_token_getter : Request → String
default_token_getter r =
    if not (r.header "X-CSRF-TOKEN" == "")
    then r.header "X-CSRF-TOKEN"
    else if not (r.header "X-XSRF-TOKEN" == "")
    then r.header "X-XSRF-TOKEN"
    else if not (r.query "_csrf" == "")
    then r.query "_csrf"
    else r.form_value "_csrf"

pub record Options (Session : Type 0) : Type 0 where
  pub token_length : ℕ
  pub ignore_methods : List String
  pub token_getter : Request → String
  pub session_getter : Session → String
  pub session_writer : Session → String → Session

unfoldable pub new_options :
    {Session : Type 0} → (Session → String) → (Session → String → Session) → Options Session
new_options getter writer = record {
  token_length = 32;
  ignore_methods = "GET" ∷ "HEAD" ∷ "OPTIONS" ∷ [];
  token_getter = default_token_getter;
  session_getter = getter;
  session_writer = writer;
}

-- What a middleware does with a request: it calls the next handler, or answers with `errCallback`.
pub data Outcome (Session : Type 0) : Type 0 where
  next : Request → Session → Outcome Session
  err_callback : Outcome Session

module _ (l : CsrfLibraries) where
  unfoldable pub generate_token : ℕ → ℕ → Result Bytes
  generate_token i n = elim (l.read_full i n) [ panic ↦ panic | err e ↦ panic | ok b ↦ ok b ]

  unfoldable pub token_equal : String → String → Bool
  token_equal a b = elim (l.decode a) [
    | ok decoded_a ↦ elim (l.decode b) [
      | ok decoded_b ↦ equal (unmask_token decoded_a) (unmask_token decoded_b)
      | _ ↦ false
    ]
    | _ ↦ false
  ]

  module _ {Session : Type 0} (o : Options Session) where
    unfoldable pub handler : Request → Session → Outcome Session
    handler r session =
        if contains o.ignore_methods r.method
        then next r session
        else if not (token_equal (o.token_getter r) (o.session_getter session))
        then err_callback
        else next r session

    -- `i` counts the readings of random bytes.
    unfoldable pub fresh_token : ℕ → Request → Session → Result (Outcome Session)
    fresh_token i r session = do
      token ← generate_token i o.token_length
      key ← generate_token (i + 1) o.token_length
      masked ← mask_token token key
      let encoded = l.encode masked
      ok (next (set_token r encoded) (o.session_writer session encoded))

    unfoldable pub refresh_token : ℕ → Request → Session → Result (Outcome Session)
    unfolding fresh_token
    refresh_token i r session =
        if not (get_token r == "") then ok (next r session) else fresh_token i r session
