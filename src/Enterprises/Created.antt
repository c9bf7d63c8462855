-- ===== src/Enterprises/Created.antt =====
-- A new enterprise and the event of its creation keep the audit trail.
use youthpreneur_be.Base.{
  ℕ, Bool, ◌≤◌, ◌≡◌, refl, ap, sym, ◌∙◌, arith, true, false, some, List, [], ◌∷◌, ◌++◌, ◌==◌,
  ==_iff, eq_iff, find, exists, count, All, inl, inr, Bool-cases, Option-cases,
}
use youthpreneur_be.Base.Rows.{
  count-append, count-exists, exists-append, find-append, find-exists, All-append, All-map,
}
use youthpreneur_be.Entity.Business.{Enterprise, AuditRow}
use youthpreneur_be.Db.{Db, Env}
use youthpreneur_be.Enterprises.{has_id, has_public_id}
use youthpreneur_be.Enterprises.Trail.{
  Column, key, value, value_after, replayed, trail, IsTold, replayed-event,
}
use youthpreneur_be.Enterprises.Invariant.{RefersTo, IsStable, IsAudited}

-- An id that no enterprise has is in no event.
trail-fresh :
    (i : ℕ) (rows : List Enterprise) (events : List AuditRow)
    → exists (has_id i) rows ≡ false
    → All (RefersTo rows) events
    → trail i events ≡ []
trail-fresh i rows [] fresh known = refl
trail-fresh i rows (r ∷ events) fresh known =
    let rest = trail-fresh i rows events fresh known.1 in
    elim (Bool-cases (r.event.enterprise_id == i)) [
      | inl mine ↦
          let same = ap (λ j. exists (has_id j) rows) ((==_iff r.event.enterprise_id i).0 mine) in
          absurd (ground (arith, known.0))
      | inr other ↦ ground arith
    ]

exists-last :
    (p : Enterprise → Bool) (row : Enterprise) (rows : List Enterprise)
    → p row ≡ true
    → exists p (rows ++ (row ∷ [])) ≡ true
exists-last p row [] h = ground arith
exists-last p row (x ∷ rows) h = ground (arith, exists-last p row rows h)

-- The one row that an insertion adds is new to a unique index.
inserted_unique :
    (p : Enterprise → Bool) (row : Enterprise) (rows : List Enterprise)
    → count p rows ≤ 1
    → (p row ≡ true → exists p rows ≡ false)
    → count p (rows ++ (row ∷ [])) ≤ 1
inserted_unique p row rows single new =
    ground (arith, count-append p rows (row ∷ []), count-exists p rows)

abbrev pub created : Enterprise → AuditRow → Db → Db
created row r d = record d {
  enterprises = d.enterprises ++ (row ∷ []);
  enterprise_audit_events = d.enterprise_audit_events ++ (r ∷ []);
}

module _ (env : Env) (row : Enterprise) (r : AuditRow) (d : Db) (v : IsAudited env d)
    (fresh_id : exists (has_id row.id) d.enterprises ≡ false)
    (fresh_public_id : exists (has_public_id row.public_id) d.enterprises ≡ false)
    (own : r.event.enterprise_id ≡ row.id)
    (says : (c : Column) → value_after (key c) r.event.changed_fields "" ≡ value c row) where
  created-IsTold :
      (i : ℕ) (e : Enterprise)
      → find (has_id i) (d.enterprises ++ (row ∷ [])) ≡ some e
      → IsTold i e (d.enterprise_audit_events ++ (r ∷ []))
  unfolding replayed
  created-IsTold i e there c =
      let now = find-append (has_id i) d.enterprises (row ∷ []) in
      let event = replayed-event (key c) i d.enterprise_audit_events r in
      let absent = find-exists (has_id row.id) d.enterprises fresh_id in
      elim (Option-cases (find (has_id i) d.enterprises)) [
        | inr (old, known) ↦
            let before = v.told i old known c in
            elim (Bool-cases (has_id i row)) [
              | inl mine ↦ absurd (ground (arith, (==_iff row.id i).0 mine))
              | inr other ↦ ground arith
            ]
        | inl missing ↦ elim (Bool-cases (has_id i row)) [
          | inl mine ↦
              let same = (==_iff row.id i).0 mine in
              let none_yet =
                trail-fresh i d.enterprises d.enterprise_audit_events
                  (ap (λ j. exists (has_id j) d.enterprises) (sym same) ∙ fresh_id) v.known in
              ground (arith, says c)
          | inr other ↦ absurd (ground arith)
        ]
      ]

  created-known :
      All (RefersTo (d.enterprises ++ (row ∷ []))) (created row r d).enterprise_audit_events
  created-known =
      let rows = d.enterprises ++ (row ∷ []) in
      All-append (RefersTo rows) d.enterprise_audit_events (r ∷ [])
        (All-map (RefersTo d.enterprises) (RefersTo rows) d.enterprise_audit_events
          (λ x h. exists-append (has_id x.event.enterprise_id) d.enterprises (row ∷ []) h) v.known)
        (
          exists-last (has_id r.event.enterprise_id) row d.enterprises
              ((==_iff row.id r.event.enterprise_id).1 (sym own)),
          tt,
        )

  pub created-IsAudited : IsStable env row → IsAudited env (created row r d)
  created-IsAudited stable = record {
    told = created-IsTold;
    stable = All-append (IsStable env) d.enterprises (row ∷ []) v.stable (stable, tt);
    unique_id = λ i.
        inserted_unique (has_id i) row d.enterprises (v.unique_id i)
          (λ h. ap (λ j. exists (has_id j) d.enterprises) (sym ((==_iff row.id i).0 h)) ∙ fresh_id);
    unique_public_id = λ q.
        inserted_unique (has_public_id q) row d.enterprises (v.unique_public_id q) (λ h.
          ap (λ j. exists (has_public_id j) d.enterprises) (sym ((eq_iff row.public_id q).0 h))
          ∙ fresh_public_id);
    known = created-known;
  }
