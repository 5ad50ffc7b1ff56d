-- ===== src/Errors.antt =====
-- internal/domain/errors.go, and Go's error values. A message is the constant text of the format
-- string; the arguments printed into it are left out, since no code of the program reads them back.
use awg_portal.Prelude.{String, ◌≡◌, refl, ◌⊎◌, inl, inr, Bool, true, false, ◌||◌, if◌then◌else◌}

-- The package-level errors.
pub data Sentinel : Type 0 where
  not_found not_unique no_permission duplicate_entry invalid_data : Sentinel

pub data Error : Type 0 where
  -- `errors.New`, or `fmt.Errorf` with no `%w`
  plain : String → Error
  sentinel : Sentinel → Error
  -- `fmt.Errorf("…: %w", err)`
  wrap : String → Error → Error
  -- `errors.Join`
  join : Error → Error → Error

abbrev same_sentinel : Sentinel → Sentinel → Bool
same_sentinel not_found not_found = true
same_sentinel not_unique not_unique = true
same_sentinel no_permission no_permission = true
same_sentinel duplicate_entry duplicate_entry = true
same_sentinel invalid_data invalid_data = true
same_sentinel _ _ = false

-- `errors.Is`
unfoldable pub is : Error → Sentinel → Bool
is (plain msg) s = false
is (sentinel t) s = same_sentinel t s
is (wrap msg e) s = is e s
is (join e f) s = is e s || is f s

-- What a Go function that returns `(T, error)` does: it returns the value, or a non-nil error, or it
-- panics by a nil dereference or an explicit `panic`.
pub data Result {ℓ} (T : Type ℓ) : Type ℓ where
  panic : Result T
  err : Error → Result T
  ok : T → Result T

infixl 5 ◌>>=◌ ◌>>◌
abbrev pub ◌>>=◌ {ℓ κ} : {T : Type ℓ} {V : Type κ} → Result T → (T → Result V) → Result V
◌>>=◌ r next = elim r [ panic ↦ panic | err e ↦ err e | ok t ↦ next t ]

abbrev pub ◌>>◌ {ℓ} : {V : Type ℓ} → Result (Unit {0}) → Result V → Result V
r >> next = r >>= λ _. next

-- `if err := m; err != nil { return fmt.Errorf("msg: %w", err) }`
abbrev pub wrapping {ℓ} : {A : Type ℓ} → String → Result A → Result A
wrapping msg (ok a) = ok a
wrapping msg (err e) = err (wrap msg e)
wrapping msg panic = panic

-- `if !b { return err }`
abbrev pub guard : Bool → Error → Result (Unit {0})
guard passed e = if passed then ok tt else err e

pub Result-cases {ℓ} :
    {T : Type ℓ} (r : Result T)
    → (r ≡ panic) ⊎ (((e : Error) × (r ≡ err e)) ⊎ ((t : T) × (r ≡ ok t)))
Result-cases panic = inl refl
Result-cases (err e) = inr (inl (e, refl))
Result-cases (ok t) = inr (inr (t, refl))

pub bind-eq-ok {ℓ κ} :
    {T : Type ℓ} {V : Type κ} (r : Result T) (next : T → Result V) {v : V}
    → (r >>= next) ≡ ok v
    → (t : T) × (r ≡ ok t) × (next t ≡ ok v)
bind-eq-ok panic next e = cc
bind-eq-ok (err x) next e = cc
bind-eq-ok (ok t) next e = (t, refl, e)

pub wrapping-eq-ok {ℓ} :
    {A : Type ℓ} (msg : String) (r : Result A) {a : A} → wrapping msg r ≡ ok a → r ≡ ok a
wrapping-eq-ok msg (ok b) h = h
wrapping-eq-ok msg (err e) h = cc
wrapping-eq-ok msg panic h = cc
