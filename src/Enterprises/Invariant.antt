-- ===== src/Enterprises/Invariant.antt =====
-- What holds of enterprises and enterprise_audit_events between requests, on the tables alone: every
-- enterprise is what its audit trail says, and the keys hold.
use youthpreneur_be.Base.{
  ℕ, ◌≤◌, ◌≡◌, refl, ap, sym, ◌∙◌, arith, String, Bool, true, ◌&&◌, some, Option, none, List, [],
  ◌∷◌, ◌++◌, ==_iff, find, update, exists, count, All, inl, inr, Bool-cases, Option-cases,
}
use youthpreneur_be.Base.Rows.{
  count-update_same, exists-update_same, find-passes, find_unique, find_kept, find-update, find-eq,
  All-append, All-map, All-update,
}
use youthpreneur_be.Errors.{ok}
use youthpreneur_be.Entity.Business.{Enterprise, AuditRow}
use youthpreneur_be.Db.{Db, Env}
use youthpreneur_be.Enterprises.{has_id, has_public_id}
use youthpreneur_be.Enterprises.Trail.{Column, key, value, value_after, IsTold, replayed-event}

abbrev pub RefersTo : List Enterprise → AuditRow → Type 0
RefersTo rows r = exists (has_id r.event.enterprise_id) rows ≡ true

-- A row whose turnovers the columns give back as they are.
abbrev pub IsStable : Env → Enterprise → Type 0
IsStable env e =
    (env.decimal e.initial_turnover ≡ ok e.initial_turnover)
    × (env.decimal e.current_turnover ≡ ok e.current_turnover)

pub record IsAudited (env : Env) (d : Db) : Type 0 where
  pub told :
      (i : ℕ) (e : Enterprise)
      → find (has_id i) d.enterprises ≡ some e
      → IsTold i e d.enterprise_audit_events
  pub stable : All (IsStable env) d.enterprises
  pub unique_id : (i : ℕ) → count (has_id i) d.enterprises ≤ 1
  pub unique_public_id : (p : String) → count (has_public_id p) d.enterprises ≤ 1
  pub known : All (RefersTo d.enterprises) d.enterprise_audit_events

-- Two tests that single rows pass find the same row, where it passes both.
pub same_row :
    (p q : Enterprise → Bool) (rows : List Enterprise) {a b : Enterprise}
    → find p rows ≡ some a
    → find q rows ≡ some b
    → count p rows ≤ 1
    → p b ≡ true
    → a ≡ b
same_row p q rows {a} {b} found other single passes =
    let both = find_kept q p rows other passes in
    let swapped = find-eq (λ x. p x && q x) (λ x. q x && p x) rows (λ x. ground arith) ∙ both in
    let first = find_unique p q rows swapped single in
    ap (λ (o : Option Enterprise). elim o [ none ↦ a | some x ↦ x ]) (sym found ∙ first)

-- A found row is there for every test that it passes.
find-there :
    (p q : Enterprise → Bool) (rows : List Enterprise) {a : Enterprise}
    → find q rows ≡ some a
    → p a ≡ true
    → exists p rows ≡ true
find-there p q [] found passes = cc
find-there p q (x ∷ rows) {a} found passes = ground (arith, find-there p q rows {a = a})

-- A table and the event of its change.
abbrev pub changed : (Enterprise → Bool) → (Enterprise → Enterprise) → AuditRow → Db → Db
changed p f r d = record d {
  enterprises = update p f d.enterprises;
  enterprise_audit_events = d.enterprise_audit_events ++ (r ∷ []);
}

module _ (env : Env) (p : Enterprise → Bool) (f : Enterprise → Enterprise) (d : Db) {a : Enterprise}
    (v : IsAudited env d) (same_id : (i : ℕ) (x : Enterprise) → has_id i (f x) ≡ has_id i x)
    (same_public_id : (q : String) (x : Enterprise) → has_public_id q (f x) ≡ has_public_id q x)
    (found : find p d.enterprises ≡ some a) (single : count p d.enterprises ≤ 1) (r : AuditRow)
    (own : r.event.enterprise_id ≡ a.id)
    (says : (c : Column)
      → value_after (key c) r.event.changed_fields (value c a) ≡ value c (f a)) where
  changed-IsTold :
      (i : ℕ) (e : Enterprise)
      → find (has_id i) (update p f d.enterprises) ≡ some e
      → IsTold i e (d.enterprise_audit_events ++ (r ∷ []))
  changed-IsTold i e there c = elim (Option-cases (find (has_id i) d.enterprises)) [
    | inl missing ↦ absurd (ground (arith, find-update p f (has_id i) d.enterprises (same_id i)))
    | inr (old, known) ↦
        let now = find-update p f (has_id i) d.enterprises (same_id i) in
        let event = replayed-event (key c) i d.enterprise_audit_events r in
        let before = v.told i old known c in
        let named = (==_iff old.id i).0 (find-passes (has_id i) d.enterprises known) in
        elim (Bool-cases (p old)) [
          | inl hit ↦
              let same = same_row p (has_id i) d.enterprises found known single hit in
              ground (arith, says c)
          | inr miss ↦ elim (Bool-cases (has_id i a)) [
            | inl mine ↦
                let same = same_row (has_id i) p d.enterprises known found (v.unique_id i) mine in
                absurd (ground (arith, find-passes p d.enterprises found))
            | inr other ↦ ground arith
          ]
        ]
  ]

  changed-known :
      All (RefersTo (update p f d.enterprises)) (changed p f r d).enterprise_audit_events
  changed-known =
      let still = λ (x : AuditRow).
        exists-update_same p f (has_id x.event.enterprise_id) d.enterprises
          (same_id x.event.enterprise_id) in
      All-append (RefersTo (update p f d.enterprises)) d.enterprise_audit_events (r ∷ [])
        (All-map (RefersTo d.enterprises) (RefersTo (update p f d.enterprises))
          d.enterprise_audit_events (λ x h. still x ∙ h) v.known)
        (
          still r
              ∙ ap (λ j. exists (has_id j) d.enterprises) own
              ∙ find-there (has_id a.id) p d.enterprises found ((==_iff a.id a.id).1 refl),
          tt,
        )

  pub changed-IsAudited :
      ((x : Enterprise) → IsStable env x → IsStable env (f x)) → IsAudited env (changed p f r d)
  changed-IsAudited stable = record {
    told = changed-IsTold;
    stable = All-update (IsStable env) p f d.enterprises (λ x _ s. stable x s) v.stable;
    unique_id =
        λ i. rw (count-update_same p f (has_id i) d.enterprises (same_id i)) (v.unique_id i);
    unique_public_id = λ q.
        rw (count-update_same p f (has_public_id q) d.enterprises (same_public_id q))
          (v.unique_public_id q);
    known = changed-known;
  }
