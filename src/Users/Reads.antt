-- ===== src/Users/Reads.antt =====
-- Lookups of users change no table.
use youthpreneur_be.Base.{ℕ, String, Bool, arith}
use youthpreneur_be.Entity.{User}
use youthpreneur_be.Db.{Db, Env}
use youthpreneur_be.Db.Keeps.{Keeps}
use youthpreneur_be.Users.{find_user, find_user_by_id, find_user_by_email}

module _ {P : Db → Type 0} (env : Env) where
  find_user-Keeps : (p : User → Bool) → Keeps P (find_user env p)
  unfolding find_user
  find_user-Keeps p = record { at = λ w h. ground arith }

  pub find_user_by_id-Keeps : (i : ℕ) → Keeps P (find_user_by_id env i)
  unfolding find_user_by_id
  find_user_by_id-Keeps i = find_user-Keeps _

  pub find_user_by_email-Keeps : (e : String) → Keeps P (find_user_by_email env e)
  unfolding find_user_by_email
  find_user_by_email-Keeps e = find_user-Keeps _
