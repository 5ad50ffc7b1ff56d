-- ===== src/Peers/Monad.antt =====
-- Operations on a state that return a result or an error, with the state after them in both cases.
use awg_portal.Prelude.{String, ◌≡◌, refl, ap}
use awg_portal.Errors.{Result, ok, err, panic, wrapping, wrapping-eq-ok}

-- The steps of an operation on a state `S`.
abbrev pub Run : Type 0 → Type 0 → Type 0
Run S A = S → Result A × S

abbrev pub next : {A B S : Type 0} → (A → Run S B) → Result A × S → Result B × S
next f (panic, s) = (panic, s)
next f (err e, s) = (err e, s)
next f (ok a, s) = f a s

infixl 5 ◌>>=◌ ◌>>◌
abbrev pub ◌>>=◌ : {A B S : Type 0} → Run S A → (A → Run S B) → Run S B
◌>>=◌ m f s = next f (m s)

abbrev pub ◌>>◌ : {B S : Type 0} → Run S (Unit {0}) → Run S B → Run S B
◌>>◌ m k = m >>= λ _. k

abbrev pub return : {A S : Type 0} → A → Run S A
return a s = (ok a, s)

-- A call that changes nothing.
abbrev pub lift : {A S : Type 0} → Result A → Run S A
lift r s = (r, s)

-- `if err := m; err != nil { return fmt.Errorf("msg: %w", err) }`
abbrev pub naming : {A S : Type 0} → String → Run S A → Run S A
naming msg m s = let r = m s in (wrapping msg (r.0), r.1)

-- Inversion of a successful operation.
next-eq-ok :
    {A B S : Type 0} (r : Result A × S) (f : A → Run S B) {b : B} {s : S}
    → next f r ≡ (ok b, s)
    → (a : A) × (t : S) × (r ≡ (ok a, t)) × (f a t ≡ (ok b, s))
next-eq-ok (panic, t) f h = absurd (cc (ap (λ (p : Result _ × _). p.0) h))
next-eq-ok (err e, t) f h = absurd (cc (ap (λ (p : Result _ × _). p.0) h))
next-eq-ok (ok a, t) f h = (a, t, refl, h)

pub run-eq-ok :
    {A B S : Type 0} (m : Run S A) (f : A → Run S B) (s : S) {b : B} {s' : S}
    → (m >>= f) s ≡ (ok b, s')
    → (a : A) × (t : S) × (m s ≡ (ok a, t)) × (f a t ≡ (ok b, s'))
run-eq-ok m f s h = next-eq-ok (m s) f h

-- The same for a call that changes nothing.
pub lift-eq-ok :
    {A B S : Type 0} (r : Result A) (f : A → Run S B) (s : S) {b : B} {s' : S}
    → (lift r >>= f) s ≡ (ok b, s')
    → (a : A) × (r ≡ ok a) × (f a s ≡ (ok b, s'))
lift-eq-ok (ok a) f s h = (a, refl, h)
lift-eq-ok (err e) f s h = absurd (cc (ap (λ (p : Result _ × _). p.0) h))
lift-eq-ok panic f s h = absurd (cc (ap (λ (p : Result _ × _). p.0) h))

named-eq-ok :
    {A S : Type 0} (msg : String) (r : Result A × S) {a : A} {t : S}
    → ◌≡◌ {A = Result A × S} (wrapping msg (r.0), r.1) (ok a, t)
    → r ≡ (ok a, t)
named-eq-ok msg (r, s) {a = a} h =
    let passed : r ≡ ok a = wrapping-eq-ok msg r (ap (λ (p : Result _ × _). p.0) h) in
    let same = ap (λ (p : Result _ × _). p.1) h in cc

pub naming-eq-ok :
    {A S : Type 0} (msg : String) (m : Run S A) (s : S) {a : A} {t : S}
    → naming msg m s ≡ (ok a, t)
    → m s ≡ (ok a, t)
naming-eq-ok msg m s h = named-eq-ok msg (m s) h
