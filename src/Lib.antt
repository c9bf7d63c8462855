-- ===== src/Lib.antt =====
-- The backend of the youth programme: accounts, refresh sessions, trainings and enrollments, as an
-- HTTP service in Go over a PostgreSQL database.
--
-- The layers of the program and their files here:
--   internal/entity                          Entity: users, sessions, catalogs, enrollments, and
--                                            Entity/Business: enterprises and their audit events
--   the error values of all packages         Errors: sentinels, wrapping, `errors.Is`
--   database/sql, transactions, the clock    Db: the tables, the effects and the monad of the calls
--   internal/repository/persistence
--     auth_postgres.go                       Session
--     user_postgres.go                       Users
--     training_catalog_postgres.go           Catalogs
--     training_enrollment_postgres.go        Enrollments
--     enterprise_postgres.go                 Enterprises
--   internal/usecase
--     auth_usecase.go                        Auth
--     user_usecase.go                        Accounts
--     training_enrollment_usecase.go         Enrolling
--     training_catalog_usecase.go            Trainings
--     enterprise_usecase.go                  Businesses
--   the keyset pages of the lists            Pages
--   internal/delivery/http/middleware
--     ratelimit.go                           RateLimiter
-- Base has the shared helpers, and Sample the data of the examples. A method of the program has its
-- Go name in snake case: `RotateRefreshSession` is Session's `rotate_refresh_session`, and
-- `authUsecase.Refresh` is Auth's `refresh`. The children of a module have its proofs.
--
-- State. A `World` has the tables as lists of rows in the order of insertion, the next value of the
-- sequences, and the number of effects so far. A call is a function from a world to a result and a
-- world. Each statement, beginning and commit of a transaction is an effect, numbered in order, and
-- may fail: an `Env` says which do. A failed transaction puts the tables back. Row locks and the
-- isolation of the database are not modelled: a transaction is one step, and an interleaving is a
-- sequence of calls. A statement is the condition and the assignment of its SQL text as a row test
-- and a row function; unique indexes and references are tests of the insertions.
--
-- Parameters, in `Env` and in Auth's `TokenService`: the clock, random numbers, the case tables of
-- Unicode, ILIKE, bcrypt, url.Parse, time.Parse of a date, the text of a DECIMAL(15, 2) column, and the
-- signing, hashing and sealing of tokens. Where a theorem relies on them it says so: `IsSound` is that
-- an opened seal gives back what was sealed and that signing works, and `KeepsAmounts` is that a
-- turnover column gives a canonical amount back as it was stored.
--
-- Numbers are natural numbers: ids, Unix times after 1970, and durations in nanoseconds. A day is a
-- number of days. An absent value of SQL or the zero value of Go is `none`, or the empty text for
-- text columns.
--
-- Loops. The attempts of registration, of enrolling and of the creation of enterprises and catalogs
-- run on their number, five, as in the program. A client that follows the cursors of a list runs on a
-- number of pages, and one more than there are rows is enough.
--
-- Enterprises. An update that changes no field is rolled back without an audit event. The audit trail
-- is its own specification: Enterprises/Trail reads the events of an enterprise from the oldest on,
-- and Enterprises/Invariant says that every audited column is what they say. A label of an
-- enumeration is its text, and the tests of the columns are those of the casts and the lengths.
--
-- Not modelled: the rest of the HTTP layer, configuration, seeders and migrations, logging and
-- uploads. Comparing a password with the constant hash, which only takes time, leaves no trace here.
pub mod Base
pub mod Errors
pub mod Entity
pub mod Db
pub mod Pages
pub mod Session
pub mod Users
pub mod Auth
pub mod Catalogs
pub mod Enrollments
pub mod Enterprises
pub mod Accounts
pub mod Enrolling
pub mod Businesses
pub mod Trainings
pub mod RateLimiter
pub mod Sample
