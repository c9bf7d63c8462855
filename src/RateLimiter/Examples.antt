-- ===== src/RateLimiter/Examples.antt =====
-- Examples of the limiter.
use youthpreneur_be.Base.{◌+◌, ◌≤◌, ◌≡◌, refl, arith, List, [], ◌∷◌}
use youthpreneur_be.RateLimiter.{Window, Limiter, allow, open_window}
use youthpreneur_be.RateLimiter.Budget.{Request, passed, passed-limit}

abbrev client : Window
client = record { key = "10.0.0.1"; start = 100; count = 1 }

abbrev limiter : Limiter
limiter = record { windows = client ∷ []; limit = 2; interval = 60 }

abbrev requests : List Request
requests = (110, "10.0.0.2") ∷ (120, "10.0.0.1") ∷ (130, "10.0.0.1") ∷ (140, "10.0.0.1") ∷ []

passed-one : passed "10.0.0.1" requests limiter ≡ 1
unfolding passed allow open_window
passed-one = refl

passed-limit_example : passed "10.0.0.1" requests limiter + 1 ≤ 2
passed-limit_example =
    passed-limit "10.0.0.1" requests limiter {w = client} refl (omega arith)
      (refl, (refl, (refl, (refl, tt))))
