-- ===== src/RateLimiter.antt =====
-- internal/delivery/http/middleware/ratelimit.go: a fixed-window counter for each client key. A call
-- holds the mutex for its whole body, so calls are steps. Times are in nanoseconds of a clock that
-- starts before every window.
mod Examples
pub mod Budget
use youthpreneur_be.Base.{
  ℕ, suc, ◌-◌, String, Bool, true, false, ◌||◌, not, none, some, List, [], ◌∷◌, ◌++◌, ltb, leb,
  str_eq, if◌then◌else◌, find, update, select, exists, length,
}

-- `maxTrackedWindows`
abbrev pub max_tracked_windows : ℕ
max_tracked_windows = 10000

-- An entry of the map of windows, with its key.
pub record Window : Type 0 where
  pub key : String
  pub start : ℕ
  pub count : ℕ

pub record Limiter : Type 0 where
  pub windows : List Window
  pub limit : ℕ
  pub interval : ℕ

abbrev pub has_key : String → Window → Bool
has_key k w = str_eq w.key k

-- `now.Sub(w.start) >= l.interval`
abbrev pub is_over : ℕ → ℕ → Window → Bool
is_over interval now w = leb interval (now - w.start)

-- `l.windows[key] = ...`
abbrev pub put : Window → List Window → List Window
put w rows =
    if exists (has_key w.key) rows then update (has_key w.key) (λ _. w) rows else rows ++ (w ∷ [])

-- `sweepLocked`
abbrev pub sweep : ℕ → ℕ → List Window → List Window
sweep interval now rows = select (λ w. not (is_over interval now w)) rows

-- A window that starts now, and the sweep when there are too many.
unfoldable pub open_window : ℕ → String → Limiter → Limiter
open_window now key l =
    let rows = put (record { key = key; start = now; count = 1 }) l.windows in
    record l {
      windows = (if ltb max_tracked_windows (length rows) then sweep l.interval now rows else rows);
    }

-- `allow`: whether the request may pass, and else how long to wait.
unfoldable pub allow : ℕ → String → Limiter → (Bool × ℕ) × Limiter
allow now key l = elim (find (has_key key) l.windows) [
  | none ↦ ((true, 0), open_window now key l)
  | some w ↦
      if is_over l.interval now w
      then ((true, 0), open_window now key l)
      else if leb l.limit w.count
      then ((false, l.interval - (now - w.start)), l)
      else ((true, 0), record l { windows = put (record w { count = suc w.count }) l.windows })
]
