-- ===== src/Db.antt =====
-- The database behind internal/repository/persistence, and the effects of a request: statements
-- that may fail, transactions that roll back, the clock and the sources of randomness.
pub mod Laws
pub mod Keeps
use youthpreneur_be.Base.{Option, ℕ, suc, ◌/◌, Bool, true, false, String, List}
use youthpreneur_be.Errors.{Error, Result, ok, err, external, wrap}
use youthpreneur_be.Entity.{User, RefreshSession, TrainingCatalog, TrainingEnrollment}
use youthpreneur_be.Entity.Business.{Enterprise, AuditRow}

-- The tables of db/migrations; a user row carries its row of user_profiles.
pub record Db : Type 0 where
  pub users : List User
  pub refresh_sessions : List RefreshSession
  pub training_catalog : List TrainingCatalog
  pub training_enrollments : List TrainingEnrollment
  pub enterprises : List Enterprise
  pub enterprise_audit_events : List AuditRow

-- The tables, the next value of the sequences behind the SERIAL columns (one for all of them,
-- since only its growth matters; a rollback does not turn it back), and the number of effects so far.
pub record World : Type 0 where
  pub db : Db
  pub serial : ℕ
  pub ticks : ℕ

-- What the surroundings answer: the outcome of each effect, by its number, and the libraries that
-- the program calls.
pub record Env : Type 0 where
  -- whether the effect fails: a lost connection, a cancelled context, an exhausted reader
  pub fails : ℕ → Bool
  -- the clock, in nanoseconds since 1970
  pub clock : ℕ → ℕ
  -- `rand.Int(rand.Reader, max)`
  pub random_below : ℕ → ℕ → ℕ
  -- the byte at an index of the buffer that `rand.Read` fills
  pub random_byte : ℕ → ℕ → ℕ
  -- `strings.ToLower` and `strings.ToUpper`, whose tables are those of Unicode
  pub to_lower : String → String
  pub to_upper : String → String
  -- whether a text matches `ILIKE '%' || pattern || '%'`
  pub ilike : String → String → Bool
  -- the text that a column DECIMAL(15, 2) of a turnover gives back for a text that is cast to it
  pub decimal : String → Result String
  -- `url.Parse`: the scheme and the host
  pub parse_url : String → Option (String × String)
  -- `time.Parse("2006-01-02", text)`, as a day number
  pub parse_date : String → Option ℕ
  -- `bcrypt.CompareHashAndPassword(hash, password) == nil`
  pub password_matches : String → String → Bool
  -- `bcrypt.GenerateFromPassword`, with the number of the effect for its salt
  pub password_hash : String → ℕ → Result String

-- A call of the program: it returns a value or an error, and leaves a world.
abbrev pub M : Type 0 → Type 0
M A = World → Result A × World

abbrev pub pure : {A : Type 0} → A → M A
pure a w = (ok a, w)

abbrev pub throw : {A : Type 0} → Error → M A
throw e w = (err e, w)

infixl 5 ◌>>=◌ ◌>>◌
abbrev pub ◌>>=◌ : {A B : Type 0} → M A → (A → M B) → M B
◌>>=◌ m f w = let (r, w') = m w in elim r [ ok a ↦ f a w' | err e ↦ (err e, w') ]

abbrev pub ◌>>◌ : {A B : Type 0} → M A → M B → M B
m >> k = m >>= λ _. k

-- `if err != nil { return ..., g(err) }`
abbrev pub map_err : {A : Type 0} → (Error → Error) → M A → M A
map_err g m w = let (r, w') = m w in elim r [ ok a ↦ (ok a, w') | err e ↦ (err (g e), w') ]

abbrev pub wrap_err : {A : Type 0} → String → M A → M A
wrap_err s = map_err (wrap s)

-- A call whose error is only looked at.
abbrev pub attempt : {A : Type 0} → M A → M (Result A)
attempt m w = let (r, w') = m w in (ok r, w')

abbrev pub lift : {A : Type 0} → Result A → M A
lift r w = (r, w)

abbrev pub tock : World → World
tock w = record w { ticks = suc w.ticks }

-- A call of a library that consumes randomness.
abbrev pub effect : {A : Type 0} → (ℕ → Result A) → M A
effect f w = (f w.ticks, tock w)

abbrev pub driver_error : Error
driver_error = external "database"

module _ (env : Env) where
  -- `now()`
  abbrev pub now : M ℕ
  now w = (ok (env.clock w.ticks), tock w)

  -- A read of crypto/rand, which may fail.
  abbrev pub draw : {A : Type 0} → (ℕ → A) → M A
  draw f w = elim (env.fails w.ticks) [
    | true ↦ (err (external "crypto/rand"), tock w)
    | false ↦ (ok (f w.ticks), tock w)
  ]

  -- One round trip to the database.
  unfoldable pub statement : {A : Type 0} → M A → M A
  statement m w = elim (env.fails w.ticks) [
    | true ↦ (err driver_error, tock w)
    | false ↦ m (tock w)
  ]

  -- `defer tx.Rollback()` and `tx.Commit()`, with the tables of the start of the transaction.
  unfoldable pub settle : {A : Type 0} → Db → Result A × World → Result A × World
  settle before (err e, w) = (err e, record w { db = before })
  settle before (ok a, w) = elim (env.fails w.ticks) [
    | true ↦ (err (wrap "commit transaction" driver_error), record (tock w) { db = before })
    | false ↦ (ok a, tock w)
  ]

  unfoldable pub transaction : {A : Type 0} → M A → M A
  unfolding settle
  transaction m w = elim (env.fails w.ticks) [
    | true ↦ (err (wrap "begin transaction" driver_error), tock w)
    | false ↦ settle w.db (m (tock w))
  ]

  -- A transaction whose body says whether it reaches `tx.Commit()`; else the rollback ends it.
  unfoldable pub settle_if : {A : Type 0} → Db → Result (Bool × A) × World → Result A × World
  unfolding settle
  settle_if before (err e, w) = settle before (err e, w)
  settle_if before (ok (true, a), w) = settle before (ok a, w)
  settle_if before (ok (false, a), w) = (ok a, record w { db = before })

  unfoldable pub transaction_if : {A : Type 0} → M (Bool × A) → M A
  unfolding settle_if
  transaction_if m w = elim (env.fails w.ticks) [
    | true ↦ (err (wrap "begin transaction" driver_error), tock w)
    | false ↦ settle_if w.db (m (tock w))
  ]

-- `Unix()` of a clock reading.
abbrev pub nanoseconds : ℕ
nanoseconds = 1000000000

abbrev pub unix : ℕ → ℕ
unix t = t / nanoseconds
