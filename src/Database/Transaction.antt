-- ===== src/Database/Transaction.antt =====
-- `SaveUser` of internal/adapters/database.go statement by statement. A statement that fails leaves the
-- transaction in some half-written state. GORM's `Transaction` is a parameter.
use awg_portal.Prelude.{
  ℕ, String, ◌≡◌, refl, ◌∙◌, arith, sym, subst, Option, none, some, ◌==◌, string_eq, if◌then◌else◌,
}
use awg_portal.Errors.{Result, Error, ok, err, panic}
use awg_portal.Access.{Context, ContextUserInfo, get_user_info}
use awg_portal.User.{User}
use awg_portal.Peers.Monad.{Run, ◌>>=◌, ◌>>◌, return, lift, naming}
use awg_portal.Database.{Gorm, stored, user_defaults, stamped, save_user}
use awg_portal.Database.Laws.{IsFetched, save_user_lem}

-- What is there after the commit of a transaction with this answer, begun on the first contents.
abbrev pub committed : {Db A : Type 0} → Db → A → Result Db → Result A × Db
committed d a (ok d') = (ok a, d')
committed d a (err e) = (err e, d)
committed d a panic = (panic, d)

-- `db.Transaction(func(tx *gorm.DB) error { … })` commits if its function returns nil, and rolls back if it
-- returns an error or panics, or if the commit fails. `half_written` are the contents within a transaction
-- after a statement that failed.
pub record GormTransactions (g : Gorm) : Type 1 where
  pub half_written : g.Db → g.Db
  pub transaction : {A : Type 0} → Run g.Db A → Run g.Db A
  pub transaction-ok :
      {A : Type 0} (body : Run g.Db A) (d d' : g.Db) (a : A)
      → body d ≡ (ok a, d')
      → transaction body d ≡ committed d a (g.commit d')
  pub transaction-err :
      {A : Type 0} (body : Run g.Db A) (d d' : g.Db) (e : Error)
      → body d ≡ (err e, d')
      → transaction body d ≡ (err e, d)
  pub transaction-panic :
      {A : Type 0} (body : Run g.Db A) (d d' : g.Db)
      → body d ≡ (panic, d')
      → transaction body d ≡ (panic, d)

module _ (g : Gorm) (t : GormTransactions g) where
  open g use {Db}
  open t use {half_written, transaction}

  abbrev executed : Db → Result Db → Result (Unit {0}) × Db
  executed d (ok d') = (ok tt, d')
  executed d (err e) = (err e, half_written d)
  executed d panic = (panic, half_written d)

  -- One call that writes.
  abbrev execute : (Db → Result Db) → Run Db (Unit {0})
  execute write d = executed d (write d)

  abbrev found_or_created : User → Option User → Run Db User
  found_or_created fresh none = execute (λ d. g.create d fresh) >> return fresh
  found_or_created fresh (some u) = return u

  unfoldable pub get_or_create_user_in : ContextUserInfo → ℕ → String → Run Db User
  get_or_create_user_in ui now id d =
      (lift (g.load d id) >>= found_or_created (user_defaults ui now id)) d

  unfoldable pub upsert_user_in : ContextUserInfo → ℕ → User → Run Db User
  upsert_user_in ui now user = do
    let user' = stamped ui now user
    execute (λ d. g.save d user')
    naming "failed to update users webauthn credentials"
        (execute (λ d. g.replace_credentials d user'))
    naming "failed to update users authentications"
        (execute (λ d. g.replace_authentications d user'))
    return user'

  -- The function that `SaveUser` passes to `Transaction`.
  unfoldable pub save_user_body : Context → ℕ → String → (User → Result User) → Run Db User
  unfolding get_or_create_user_in upsert_user_in
  save_user_body ctx now id update_func = do
    user ← get_or_create_user_in (get_user_info ctx) now id
    changed ← lift (update_func user)
    upsert_user_in (get_user_info ctx) now changed

  unfoldable pub save_user_run : Context → ℕ → String → (User → Result User) → Run Db User
  unfolding save_user_body
  save_user_run ctx now id update_func = transaction (save_user_body ctx now id update_func)

  -- What a caller sees of a step that does nothing if it fails.
  abbrev settled : {A : Type 0} → Db → Result (A × Db) → Result A × Db
  settled d (ok (a, d')) = (ok a, d')
  settled d (err e) = (err e, d)
  settled d panic = (panic, d)

  abbrev ended : {A : Type 0} → Db → Result A × Db → Result A × Db
  ended d (ok a, d') = committed d a (g.commit d')
  ended d (err e, d') = (err e, d)
  ended d (panic, d') = (panic, d)

  transaction-ended :
      {A : Type 0} (body : Run Db A) (d : Db) (r : Result A × Db)
      → body d ≡ r
      → transaction body d ≡ ended d r
  transaction-ended body d (ok a, d') h = t.transaction-ok body d d' a h
  transaction-ended body d (err e, d') h = t.transaction-err body d d' e h
  transaction-ended body d (panic, d') h = t.transaction-panic body d d' h

  save_user_body-settled :
      (ctx : Context) (now : ℕ) (id : String) (f : User → Result User) (d : Db)
      → ended d (save_user_body ctx now id f d) ≡ settled d (save_user g ctx now id f d)
  unfolding save_user_body save_user
  save_user_body-settled ctx now id f d = ground arith

  -- The transaction does to the database what `save_user` says, and nothing if that fails.
  save_user_run-settled :
      (ctx : Context) (now : ℕ) (id : String) (f : User → Result User) (d : Db)
      → save_user_run ctx now id f d ≡ settled d (save_user g ctx now id f d)
  unfolding save_user_run
  save_user_run-settled ctx now id f d =
      transaction-ended (save_user_body ctx now id f) d (save_user_body ctx now id f d) refl
      ∙ save_user_body-settled ctx now id f d

  -- What `SaveUser` may answer, and leave behind.
  abbrev pub IsAtomic : Context → ℕ → String → (User → Result User) → Db → Result User × Db → Type 0
  IsAtomic ctx now id f d (ok saved, d') =
      (old : User) × (new : User) × IsFetched g (get_user_info ctx) now d id old
      × (f old ≡ ok new)
      × (saved ≡ stamped (get_user_info ctx) now new)
      × ((k : String) → g.load d' k ≡ (if id == k then ok (some (stored saved)) else g.load d k))
  IsAtomic ctx now id f d (err e, d') = d' ≡ d
  IsAtomic ctx now id f d (panic, d') = d' ≡ d

  settled-IsAtomic :
      (ctx : Context) (now : ℕ) (id : String) (f : User → Result User) (d : Db)
      → ((old new : User) → old.identifier ≡ id → f old ≡ ok new → new.identifier ≡ id)
      → (r : Result (User × Db)) → save_user g ctx now id f d ≡ r
      → IsAtomic ctx now id f d (settled d r)
  settled-IsAtomic ctx now id f d keeps (ok (saved, d')) h =
      save_user_lem g ctx now id f d d' saved keeps h
  settled-IsAtomic ctx now id f d keeps (err e) h = refl
  settled-IsAtomic ctx now id f d keeps panic h = refl

  -- `SaveUser` is atomic, whatever a failing statement writes, for an update function that keeps the
  -- identifier. If it succeeds, the update function has been given the stored user, or a fresh one where
  -- there is none; its result, stamped with the acting user and the time, is what the caller's object holds
  -- and what a later read finds; every other user is as before. If any statement, the update function or
  -- the commit fails or panics, the contents are those from before.
  pub save_user_run-IsAtomic :
      (ctx : Context) (now : ℕ) (id : String) (f : User → Result User) (d : Db)
      → ((old new : User) → old.identifier ≡ id → f old ≡ ok new → new.identifier ≡ id)
      → IsAtomic ctx now id f d (save_user_run ctx now id f d)
  save_user_run-IsAtomic ctx now id f d keeps =
      subst (IsAtomic ctx now id f d) (sym (save_user_run-settled ctx now id f d))
        (settled-IsAtomic ctx now id f d keeps (save_user g ctx now id f d) refl)
