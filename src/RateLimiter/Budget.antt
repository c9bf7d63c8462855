-- ===== src/RateLimiter/Budget.antt =====
-- What a window lets through, whatever other clients do meanwhile.
use youthpreneur_be.Base.{
  ℕ, suc, ◌+◌, ◌-◌, ◌≤◌, ◌≡◌, refl, String, Bool, true, false, not, some, List, [], ◌∷◌, ◌∙◌, ap,
  sym, arith, str_eq, eq_iff, if◌then◌else◌, leb, find, update, exists, Bool-cases, Option-cases,
  inl, inr,
}
use youthpreneur_be.Base.Rows.{find-append, find-select, find_kept, find-passes}
use youthpreneur_be.RateLimiter.{Window, Limiter, has_key, is_over, put, open_window, allow}

abbrev pub Request : Type 0
Request = ℕ × String

-- The requests of a key that a limiter lets through.
unfoldable pub passed : String → List Request → Limiter → ℕ
passed key [] l = 0
passed key ((now, k) ∷ rs) l =
    let rest = passed key rs (allow now k l).1 in
    if str_eq k key then (if (allow now k l).0.0 then suc rest else rest) else rest

-- Every request comes before the window is over.
abbrev pub AllWithin : ℕ → ℕ → List Request → Type 0
AllWithin interval start [] = Unit
AllWithin interval start ((now, k) ∷ rs) =
    (leb interval (now - start) ≡ false) × AllWithin interval start rs

module _ {ℓ} {A : Type ℓ} where
  find-update_apart :
      (p : A → Bool) (f : A → A) (q : A → Bool) (xs : List A)
      → ((x : A) → p x ≡ true → q x ≡ false)
      → ((x : A) → q (f x) ≡ false)
      → find q (update p f xs) ≡ find q xs
  find-update_apart p f q [] h k = refl
  find-update_apart p f q (x ∷ xs) h k = ground (arith, h x, k x, find-update_apart p f q xs h k)

  find-update_all :
      (p : A → Bool) (f : A → A) (xs : List A) {a b : A}
      → ((x : A) → f x ≡ b)
      → p b ≡ true
      → find p xs ≡ some a
      → find p (update p f xs) ≡ some b
  find-update_all p f [] h k e = cc
  find-update_all p f (x ∷ xs) {a} {b} h k e =
      ground (arith, ap p (h x), h x, find-update_all p f xs {a = a} {b = b} h k)

  exists-found : (p : A → Bool) (xs : List A) {a : A} → find p xs ≡ some a → exists p xs ≡ true
  exists-found p [] e = cc
  exists-found p (x ∷ xs) {a} e = ground (arith, exists-found p xs {a = a})

put_other :
    (key : String) (v : Window) (rows : List Window) {w : Window}
    → str_eq v.key key ≡ false
    → find (has_key key) rows ≡ some w
    → find (has_key key) (put v rows) ≡ some w
put_other key v rows {w} other found = ground (
  arith,
  find-update_apart (has_key v.key) (λ _. v) (has_key key) rows
      (λ x e. ground (arith, eq_iff x.key v.key, eq_iff x.key key, eq_iff v.key key)) (λ x. other),
  find-append (has_key key) rows (v ∷ []),
)

put_same :
    (key : String) (v : Window) (rows : List Window) {w : Window}
    → str_eq v.key key ≡ true
    → find (has_key key) rows ≡ some w
    → find (has_key key) (put v rows) ≡ some v
put_same key v rows {w} same found =
    let here : v.key ≡ key = (eq_iff v.key key).0 same in
    let there : find (has_key v.key) rows ≡ some w = ap (λ k. find (has_key k) rows) here ∙ found in
    ap (λ k. find (has_key k) (put v rows)) (sym here)
    ∙ ground (
      arith,
      eq_iff v.key v.key,
      exists-found (has_key v.key) rows there,
      find-update_all (has_key v.key) (λ _. v) rows (λ x. refl) ((eq_iff v.key v.key).1 refl) there,
    )

-- The opening of a window of another key leaves an open window alone.
open_window-other :
    (now : ℕ) (k key : String) (l : Limiter) {w : Window}
    → str_eq k key ≡ false
    → find (has_key key) l.windows ≡ some w
    → is_over l.interval now w ≡ false
    → find (has_key key) (open_window now k l).windows ≡ some w
unfolding open_window
open_window-other now k key l {w} other found early =
    let v : Window = record { key = k; start = now; count = 1 } in
    let rows = put v l.windows in
    let kept = put_other key v l.windows other found in
    ground (
      arith,
      kept,
      find-select (λ x. not (is_over l.interval now x)) (has_key key) rows,
      find_kept (has_key key) (λ x. not (is_over l.interval now x)) rows kept (ground arith),
    )

-- One more request before the window is over: the window counts it if it is of its key and passes.
record Counted (key k : String) (now : ℕ) (l : Limiter) (w : Window) : Type 0 where
  pub next : Window
  pub found : find (has_key key) (allow now k l).1.windows ≡ some next
  pub start : next.start ≡ w.start
  pub limit : (allow now k l).1.limit ≡ l.limit
  pub interval : (allow now k l).1.interval ≡ l.interval
  pub bound : next.count ≤ l.limit
  pub count :
      next.count ≡ w.count + (if str_eq k key then (if (allow now k l).0.0 then 1 else 0) else 0)

same-Counted :
    (key k : String) (now : ℕ) (l : Limiter) {w : Window}
    → find (has_key key) l.windows ≡ some w
    → is_over l.interval now w ≡ false
    → w.count ≤ l.limit
    → str_eq k key ≡ true
    → Counted key k now l w
unfolding allow open_window
same-Counted key k now l {w} found early bound same =
    let here = ap (λ x. find (has_key x) l.windows) ((eq_iff k key).0 same) ∙ found in
    let passes = find-passes (has_key key) l.windows found in
    let more : Window = record w { count = suc w.count } in
    let put_more = put_same key more l.windows passes found in
    elim (Bool-cases (leb l.limit w.count)) [
      | inl full ↦ record {
        next = w;
        found = ground (arith, here);
        start = refl;
        limit = ground (arith, here);
        interval = ground (arith, here);
        bound = bound;
        count = ground (arith, here);
      }
      | inr room ↦ record {
        next = more;
        found = ground (arith, here, put_more);
        start = refl;
        limit = ground (arith, here);
        interval = ground (arith, here);
        bound = ground arith;
        count = ground (arith, here);
      }
    ]

other-Counted :
    (key k : String) (now : ℕ) (l : Limiter) {w : Window}
    → find (has_key key) l.windows ≡ some w
    → is_over l.interval now w ≡ false
    → w.count ≤ l.limit
    → str_eq k key ≡ false
    → Counted key k now l w
unfolding allow open_window
other-Counted key k now l {w} found early bound other =
    let opened = open_window-other now k key l other found early in
    elim (Option-cases (find (has_key k) l.windows)) [
      | inl missing ↦ record {
        next = w;
        found = ground (arith, opened);
        start = refl;
        limit = ground arith;
        interval = ground arith;
        bound = bound;
        count = ground arith;
      }
      | inr (x, here) ↦
          let named = find-passes (has_key k) l.windows here in
          let kept =
            put_other key (record x { count = suc x.count }) l.windows
              (ap (λ y. str_eq y key) ((eq_iff x.key k).0 named) ∙ other) found in
          record {
            next = w;
            found = ground (arith, opened, kept);
            start = refl;
            limit = ground arith;
            interval = ground arith;
            bound = bound;
            count = ground arith;
          }
    ]

allow-Counted :
    (key k : String) (now : ℕ) (l : Limiter) {w : Window}
    → find (has_key key) l.windows ≡ some w
    → is_over l.interval now w ≡ false
    → w.count ≤ l.limit
    → Counted key k now l w
allow-Counted key k now l found early bound = elim (Bool-cases (str_eq k key)) [
  | inl same ↦ same-Counted key k now l found early bound same
  | inr other ↦ other-Counted key k now l found early bound other
]

-- A window that has counted no more than its limit lets, before it is over and whatever other keys
-- request, at most its limit through, what it has counted already included.
pub passed-limit :
    (key : String) (rs : List Request) (l : Limiter) {w : Window}
    → find (has_key key) l.windows ≡ some w
    → w.count ≤ l.limit
    → AllWithin l.interval w.start rs
    → passed key rs l + w.count ≤ l.limit
unfolding passed
passed-limit key [] l {w} found bound early = ground (arith, bound)
passed-limit key ((now, k) ∷ rs) l {w} found bound (early, more) =
    let c = allow-Counted key k now l found early bound in
    let within : AllWithin (allow now k l).1.interval c.next.start rs =
      rw (c.interval, c.start) more in
    let rest = passed-limit key rs (allow now k l).1 c.found (rw c.limit c.bound) within in
    let size = c.count in let same = c.limit in ground (arith, rest, size, same)
