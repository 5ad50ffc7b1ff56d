-- ===== src/Csrf/Tests.antt =====
-- The CSRF middleware at concrete inputs.
use Prim.Native.String.{[] as nil, ◌∷◌ as cons}
use Prim.Native.Char.{code}
use awg_portal.Prelude.{
  ℕ, zero, suc, ◌+◌, ◌==◌, nat_eq, string_eq, String, true, false, none, [], ◌∷◌, ◌≡◌, ◌↔◌, ◌⊎◌,
  refl, ap, ◌∙◌, arith, length, contains, if◌then◌else◌,
}
use awg_portal.Errors.{Result, ok, err, plain, ◌>>=◌}
use awg_portal.Csrf.{
  Bytes, CsrfLibraries, Request, Options, next, err_callback, new_options, default_token_getter,
  set_token, get_token, handler, refresh_token,
}
use awg_portal.Csrf.Tokens.{IsSameToken}
use awg_portal.Csrf.Handlers.{handler_iff, handler_no_token, handler-refresh_token}

-- A stand-in for base64: a byte is so many `a` and a `b`.
abbrev write_byte : ℕ → String → String
write_byte zero s = cons "b" s
write_byte (suc n) s = cons "a" (write_byte n s)

abbrev write : Bytes → String
write [] = ""
write (b ∷ bs) = write_byte b (write bs)

abbrev read_from : ℕ → String → Result Bytes
read_from n nil = if n == 0 then ok [] else err (plain "illegal data")
read_from n (cons c s) =
    let longer = read_from (suc n) s in
    let rest = read_from 0 s in if code c == 97 then longer else (rest >>= λ bs. ok (n ∷ bs))

read-write_byte :
    (n b : ℕ) (s : String) (bs : Bytes)
    → read_from 0 s ≡ ok bs
    → read_from n (write_byte b s) ≡ ok ((n + b) ∷ bs)
read-write_byte n zero s bs h = let same : n + 0 ≡ n = omega arith in cc (h, same)
read-write_byte n (suc b) s bs h =
    let same : suc n + b ≡ n + suc b = omega arith in
    read-write_byte (suc n) b s bs h ∙ ap (λ m. ok (m ∷ bs)) same

read-write : (b : Bytes) → read_from 0 (write b) ≡ ok b
read-write [] = refl
read-write (b ∷ bs) =
    let same : 0 + b ≡ b = omega arith in
    read-write_byte 0 b (write bs) bs (read-write bs) ∙ ap (λ m. ok (m ∷ bs)) same

abbrev bytes : ℕ → Bytes
bytes zero = []
bytes (suc n) = n ∷ bytes n

length-bytes : (n : ℕ) → length (bytes n) ≡ n
length-bytes zero = refl
length-bytes (suc n) = omega (arith, length-bytes n)

length-drawn : (n : ℕ) (b : Bytes) → ◌≡◌ {A = Result Bytes} (ok (bytes n)) (ok b) → length b ≡ n
length-drawn n b h = ground (arith, h, length-bytes n)

abbrev toy : CsrfLibraries
toy = record {
  encode = write;
  decode = read_from 0;
  read_full = λ i n. ok (bytes n);
  decode-encode = read-write;
  decode-empty = refl;
  length-read_full = λ i n b h. length-drawn n b h;
}

-- The session holds its token.
abbrev options : Options String
options = new_options (λ s. s) (λ s t. t)

abbrev a_token : Bytes
a_token = 3 ∷ 5 ∷ []

abbrev a_key : Bytes
a_key = 6 ∷ 7 ∷ []

abbrev post : Request
post = record {
  method = "POST";
  header = λ name. "";
  query = λ name. "";
  form_value = λ name. "";
  context_token = none;
}

handler_iff_example :
    ((handler toy options post "ab" ≡ next post "ab") ↔ (
      (contains options.ignore_methods "POST" ≡ true)
      ⊎ IsSameToken toy (options.token_getter post) "ab"))
    × ((handler toy options post "ab" ≡ err_callback) ↔ (
        (contains options.ignore_methods "POST" ≡ false)
        × ¬ (IsSameToken toy (options.token_getter post) "ab")))
unfolding new_options
handler_iff_example = handler_iff toy options post "ab"

handler_no_token_example : handler toy options post "" ≡ next post ""
unfolding default_token_getter new_options
handler_no_token_example = handler_no_token toy options post "" refl refl

handler-refresh_token_example :
    (t : String) × (refresh_token toy options 0 post "" ≡ ok (next (set_token post t) t))
    × ((later : Request)
        → options.token_getter later ≡ t
        → handler toy options later t ≡ next later t)
unfolding get_token new_options
handler-refresh_token_example =
    handler-refresh_token toy options 0 post "" (bytes 32) (bytes 32) (λ s t. refl) refl refl refl
