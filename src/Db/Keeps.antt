-- ===== src/Db/Keeps.antt =====
-- A property of the tables that a call keeps, whether it returns or reports an error: one rule for
-- each way to build a call.
use youthpreneur_be.Base.{ℕ, ◌≡◌, refl, Bool, true, false, arith, if◌then◌else◌}
use youthpreneur_be.Errors.{Error, Result, ok, err}
use youthpreneur_be.Db.{
  World, Db, Env, M, pure, throw, ◌>>=◌, map_err, attempt, lift, effect, now, draw, statement,
  transaction, transaction_if, tock,
}
use youthpreneur_be.Db.Laws.{transaction-keeps, transaction_if-keeps_ok, statement-keeps}

pub record Keeps {A : Type 0} (P : Db → Type 0) (m : M A) : Type 0 where
  pub at : (w : World) → P w.db → P (m w).1.db

module _ {A : Type 0} {P : Db → Type 0} where
  pub Keeps-pure : (a : A) → Keeps P (pure a)
  Keeps-pure a = record { at = λ w h. h }

  pub Keeps-throw : (e : Error) → Keeps P (throw {A = A} e)
  Keeps-throw e = record { at = λ w h. h }

  pub Keeps-lift : (r : Result A) → Keeps P (lift r)
  Keeps-lift r = record { at = λ w h. h }

  pub Keeps-effect : (f : ℕ → Result A) → Keeps P (effect f)
  Keeps-effect f = record { at = λ w h. h }

  pub Keeps-draw : (env : Env) (f : ℕ → A) → Keeps P (draw env f)
  Keeps-draw env f = record { at = λ w h. ground arith }

  pub Keeps-if : (b : Bool) (m n : M A) → Keeps P m → Keeps P n → Keeps P (if b then m else n)
  Keeps-if true m n km kn = km
  Keeps-if false m n km kn = kn

  pub Keeps-map_err : (g : Error → Error) (m : M A) → Keeps P m → Keeps P (map_err g m)
  Keeps-map_err g m km = record { at = λ w h. let k = km.at w h in ground arith }

  pub Keeps-attempt : (m : M A) → Keeps P m → Keeps P (attempt m)
  Keeps-attempt m km = record { at = λ w h. km.at w h }

  pub Keeps-statement : (env : Env) (m : M A) → Keeps P m → Keeps P (statement env m)
  Keeps-statement env m km = record { at = λ w h. statement-keeps env P m w h (km.at (tock w) h) }

  pub Keeps-transaction : (env : Env) (m : M A) → Keeps P m → Keeps P (transaction env m)
  Keeps-transaction env m km = record {
    at = λ w h. transaction-keeps env P m w h (km.at (tock w) h);
  }

  pub Keeps-transaction_if :
      (env : Env) (m : M (Bool × A)) → Keeps P m → Keeps P (transaction_if env m)
  Keeps-transaction_if env m km = record {
    at = λ w h. transaction_if-keeps_ok env P m w h (λ a r. km.at (tock w) h);
  }

module _ {P : Db → Type 0} where
  pub Keeps-now : (env : Env) → Keeps P (now env)
  Keeps-now env = record { at = λ w h. h }

module _ {A B : Type 0} {P : Db → Type 0} where
  pub Keeps-bind :
      (m : M A) (f : A → M B) → Keeps P m → ((a : A) → Keeps P (f a)) → Keeps P (m >>= f)
  Keeps-bind m f km kf = record { at = λ w h. let k = km.at w h in elim_result (m w).0 (m w).1 k }
    where
      elim_result :
          (r : Result A) (w : World)
          → P w.db
          → P (elim r as (λ _. Result B × World) [ ok a ↦ f a w | err e ↦ (err e, w) ]).1.db
      elim_result (ok a) w k = (kf a).at w k
      elim_result (err e) w k = k

module _ {A B : Type 0} {P : Db → Type 0} where
  -- A result that was only looked at decides how the call goes on.
  pub Keeps-result :
      (f : A → M B) (g : Error → M B) (r : Result A)
      → ((a : A) → Keeps P (f a))
      → ((e : Error) → Keeps P (g e))
      → Keeps P (elim r as (λ _. M B) [ ok a ↦ f a | err e ↦ g e ])
  Keeps-result f g (ok a) kf kg = kf a
  Keeps-result f g (err e) kf kg = kg e

module _ {A B : Type 0} {P : Db → Type 0} where
  -- A check between values decides how the call goes on.
  pub Keeps-checked :
      (r : Result A) (f : A → M B) → ((a : A) → r ≡ ok a → Keeps P (f a)) → Keeps P (lift r >>= f)
  Keeps-checked (ok a) f k = record { at = λ w h. (k a refl).at w h }
  Keeps-checked (err e) f k = record { at = λ w h. h }

pub ruleset keeps_rules = (
  Keeps-pure, Keeps-throw, Keeps-lift, Keeps-effect, Keeps-draw, Keeps-now, Keeps-if, Keeps-map_err,
  Keeps-attempt, Keeps-bind,
)
