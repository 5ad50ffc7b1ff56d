-- ===== src/Totp/Recovery.antt =====
-- internal/app/auth/auth_totp.go: the use of a recovery code.
use awg_portal.Prelude.{
  ℕ, suc, String, Bool, true, false, List, [], ◌∷◌, ◌++◌, if◌then◌else◌, ◌≡◌, refl, contains_func,
  arith, Bool-cases, inl, inr, ap,
}
use awg_portal.Errors.{ok, wrapping, wrapping-eq-ok, bind-eq-ok, guard}
use awg_portal.Access.{Context}
use awg_portal.User.{User}
use awg_portal.Totp.Stored.{IsStored, update-IsStored}
use awg_portal.Totp.{
  TotpLibraries, TotpUserManager, Code, consume, consume_recovery_code, normalize_recovery_code,
}

-- What a list is split into when its first element with `p` is taken out.
pub record FirstTaken (p : String → Bool) (l : List String) (rest : List String) : Type 0 where
  pub before : List String
  pub taken : String
  pub after : List String
  pub list : l ≡ before ++ taken ∷ after
  pub left : rest ≡ before ++ after
  pub none_before : contains_func p before ≡ false
  pub matches : p taken ≡ true

abbrev pub count : (String → Bool) → List String → ℕ
count p [] = 0
count p (h ∷ hs) = if p h then suc (count p hs) else count p hs

pub consume-matched : (p : String → Bool) (l : List String) → consume p true l ≡ (l, true)
unfolding consume
consume-matched p [] = refl
consume-matched p (h ∷ hs) = ground (arith, consume-matched p hs)

pub consume-FirstTaken :
    (p : String → Bool) (l rest : List String)
    → consume p false l ≡ (rest, true)
    → FirstTaken p l rest
unfolding consume contains_func
consume-FirstTaken p [] rest h = ground arith
consume-FirstTaken p (x ∷ xs) rest h = elim (Bool-cases (p x)) [
  | inl hit ↦ record {
    before = [];
    taken = x;
    after = xs;
    list = refl;
    left = ground (arith, consume-matched p xs);
    none_before = refl;
    matches = hit;
  }
  | inr miss ↦
      let rec = consume-FirstTaken p xs (consume p false xs).0 (ground arith) in
      record {
        before = x ∷ rec.before;
        taken = rec.taken;
        after = rec.after;
        list = ap (λ t. x ∷ t) rec.list;
        left = ground (arith, rec.left);
        none_before = ground (arith, rec.none_before);
        matches = rec.matches;
      }
]

pub count-consume :
    (p : String → Bool) (l rest : List String)
    → consume p false l ≡ (rest, true)
    → count p l ≡ suc (count p rest)
unfolding consume
count-consume p [] rest h = ground arith
count-consume p (x ∷ xs) rest h = elim (Bool-cases (p x)) [
  | inl hit ↦ ground (arith, consume-matched p xs)
  | inr miss ↦ ground (arith, count-consume p xs (consume p false xs).0 (ground arith))
]

pub consume_none :
    (p : String → Bool) (l : List String) → count p l ≡ 0 → (consume p false l).1 ≡ false
unfolding consume
consume_none p [] h = refl
consume_none p (x ∷ xs) h = elim (Bool-cases (p x)) [
  | inl hit ↦ ground arith
  | inr miss ↦ ground (arith, consume_none p xs (ground arith))
]

module _ (l : TotpLibraries) (m : TotpUserManager) where
  open m use {World}

  -- A recovery code has been used: the saved user lacks the first hash that the code matches, and has
  -- every other hash in its order.
  pub record Consumed (user : User) (code : Code) (w : World) (saved : User) (w' : World)
      : Type 0 where
    pub hashes : List String
    pub remaining : List String
    pub read : l.unmarshal user.totp_recovery_codes ≡ ok hashes
    pub taken :
        consume (λ h. l.compare h (normalize_recovery_code l code)) false hashes ≡ (remaining, true)
    pub split : FirstTaken (λ h. l.compare h (normalize_recovery_code l code)) hashes remaining
    pub written : l.unmarshal saved.totp_recovery_codes ≡ ok remaining
    pub same_step : saved.totp_last_used_step ≡ user.totp_last_used_step
    pub same_secret : saved.totp_secret ≡ user.totp_secret
    pub store : IsStored m saved user.identifier w w'

  -- A successful `consumeRecoveryCode` removes exactly the first hash that the code matches, keeps
  -- the others in order, and leaves the secret and the last used step alone; this is stored.
  pub consume_recovery_code-Consumed :
      (ctx : Context) (now : ℕ) (user : User) (code : Code) (w : World) (saved : User) (w' : World)
      → consume_recovery_code l m ctx now user code w ≡ ok (saved, w')
      → Consumed user code w saved w'
  unfolding consume_recovery_code
  consume_recovery_code-Consumed ctx now user code w saved w' h =
      let (hashes, read, h₁) = bind-eq-ok (wrapping _ (l.unmarshal user.totp_recovery_codes)) _ h in
      let normalized = normalize_recovery_code l code in
      let result = consume (λ h. l.compare h normalized) false hashes in
      let (_, matched, h₂) = bind-eq-ok (guard result.1 _) _ h₁ in
      let (json, encoded, h₃) = bind-eq-ok (wrapping _ (l.marshal result.0)) _ h₂ in
      let given = record user { totp_recovery_codes = json } in
      let updated = wrapping-eq-ok _ _ h₃ in
      let taken : result ≡ (result.0, true) = ground (arith, matched) in
      record {
        hashes = hashes;
        remaining = result.0;
        read = wrapping-eq-ok _ _ read;
        taken = taken;
        split = consume-FirstTaken (λ h. l.compare h normalized) hashes result.0 taken;
        written = cc (
          (m.update-HasTotpOf _ now _ saved w w' updated).recovery_codes,
          l.unmarshal-marshal result.0 json (wrapping-eq-ok _ _ encoded),
        );
        same_step = (m.update-HasTotpOf _ now _ saved w w' updated).last_used_step;
        same_secret = (m.update-HasTotpOf _ now _ saved w w' updated).secret;
        store = update-IsStored m _ now given saved w w' updated;
      }
