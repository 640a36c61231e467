-- ===== src/Core/Validate/Total.antt =====
-- About crates/evalhub-core/src/validate.rs: `validate` as a whole.
use mathlib.Core.List.{Perm}
use evalhub.Base.{
  ap, Option, none, some, is_some, ◌⊎◌, str_eq, eq_iff, String, ◌≡◌, refl, ◌↔◌, inl, inr, true,
  false, List, [], ◌∷◌, ◌++◌, arith, Bool-cases, ◌>>=◌,
}
use evalhub.Base.Lists.{append-eq-nil_iff, ↔_trans}
use evalhub.Json.{Value, null, bool, number, string, array, object, get_key, as_str, as_object}
use evalhub.Schema.{eval_schema, RecordKind, card, eval}
use evalhub.Schema.Codes.{runs_moved}
use evalhub.Core.Report.{push}
use evalhub.Core.Report.Order.{IsSorted, sort-IsSorted, sort-perm, sort-eq-nil_iff}
use evalhub.Core.Numbers.{numbers}
use evalhub.Core.Numbers.Laws.{AllFit, numbers-eq-nil_iff}
use evalhub.Core.Validate.{
  eval_schema_1_0, eval_moved, Validators, structural, record_validator, runs_moved_here, collected,
  validate,
}
use evalhub.Core.Validate.Record.{semantic}
use evalhub.Core.Validate.Accepted.{WhenSome, IsSoundRecord, IsSoundCard}
use evalhub.Core.Validate.Laws.{record_rules_iff, card_rules_iff}
use evalhub.Core.Validate.Counts.{AllFit-CountsFit}

pub structural-eq-nil_iff : (paths : List String) → (structural paths ≡ []) ↔ (paths ≡ [])
unfolding structural
structural-eq-nil_iff [] = (λ e. refl, λ e. refl)
structural-eq-nil_iff (p ∷ paths) = (λ e. absurd (ground arith), λ e. absurd (ground arith))

semantic_card_iff :
    (value : Value)
    → AllFit value
    → (semantic card value ≡ []) ↔ WhenSome (as_object value) IsSoundCard
unfolding semantic
semantic_card_iff (object obj) fit = card_rules_iff obj (AllFit-CountsFit obj fit)
semantic_card_iff null fit = (λ e. tt, λ p. refl)
semantic_card_iff (bool b) fit = (λ e. tt, λ p. refl)
semantic_card_iff (number n) fit = (λ e. tt, λ p. refl)
semantic_card_iff (string s) fit = (λ e. tt, λ p. refl)
semantic_card_iff (array vs) fit = (λ e. tt, λ p. refl)

semantic_eval_iff :
    (value : Value) → (semantic eval value ≡ []) ↔ WhenSome (as_object value) IsSoundRecord
unfolding semantic
semantic_eval_iff (object obj) = record_rules_iff obj
semantic_eval_iff null = (λ e. tt, λ p. refl)
semantic_eval_iff (bool b) = (λ e. tt, λ p. refl)
semantic_eval_iff (number n) = (λ e. tt, λ p. refl)
semantic_eval_iff (string s) = (λ e. tt, λ p. refl)
semantic_eval_iff (array vs) = (λ e. tt, λ p. refl)

-- The body still holds runs, or says that it is of the version in which it did.
abbrev pub HasMovedRuns : Value → Type 0
HasMovedRuns value =
    ((get_key value "schema" >>= as_str) ≡ some eval_schema_1_0)
    ⊎ (((get_key value "schema" >>= as_str) ≡ some eval_schema)
        × (is_some (get_key value "runs") ≡ true))

eval_moved_iff :
    (value : Value) (o : Option String)
    → (eval_moved value o ≡ true) ↔ (
        (o ≡ some eval_schema_1_0)
        ⊎ ((o ≡ some eval_schema) × (is_some (get_key value "runs") ≡ true)))
eval_moved_iff value none = ground arith
eval_moved_iff value (some id) = by_tests (eq_iff id eval_schema_1_0) (eq_iff id eval_schema)
  where
    some_inj : (s : String) → some id ≡ some s → id ≡ s
    some_inj s h = ground arith

    by_tests :
        (str_eq id eval_schema_1_0 ≡ true) ↔ (id ≡ eval_schema_1_0)
        → (str_eq id eval_schema ≡ true) ↔ (id ≡ eval_schema)
        → (eval_moved value (some id) ≡ true) ↔ (
            (some id ≡ some eval_schema_1_0)
            ⊎ ((some id ≡ some eval_schema) × (is_some (get_key value "runs") ≡ true)))
    by_tests old now = elim (Bool-cases (str_eq id eval_schema_1_0)) [
      | inl a ↦ rw a (λ h. inl (ap some (old.0 a)), λ h. refl)
      | inr a ↦ elim (Bool-cases (str_eq id eval_schema)) [
        | inl b ↦
            rw (a, b)
              (
                λ h. inr (ap some (now.0 b), h),
                λ h. elim h [
                  | inl is ↦ let t = old.1 (some_inj eval_schema_1_0 is) in absurd (ground arith)
                  | inr (is, r) ↦ r
                ],
              )
        | inr b ↦
            rw (a, b)
              (
                λ h. absurd (ground arith),
                λ h. elim h [
                  | inl is ↦ let t = old.1 (some_inj eval_schema_1_0 is) in absurd (ground arith)
                  | inr (is, r) ↦ let t = now.1 (some_inj eval_schema is) in absurd (ground arith)
                ],
              )
      ]
    ]

-- The runs of a body have moved exactly when it is an Eval that declares the old identifier, or that
-- declares the current one and has a key `runs`.
pub runs_moved_here_iff :
    (kind : RecordKind) (value : Value)
    → (runs_moved_here kind value ≡ true) ↔ ((kind ≡ eval) × HasMovedRuns value)
unfolding runs_moved_here
runs_moved_here_iff card value = ground arith
runs_moved_here_iff eval value =
    let (to, from) = eval_moved_iff value (get_key value "schema" >>= as_str) in
    (λ h. (refl, to h), λ h. from h.1)

-- The test fails exactly when the runs have not moved.
stayed_iff :
    (kind : RecordKind) (value : Value)
    → (runs_moved_here kind value ≡ false) ↔ (¬ ((kind ≡ eval) × HasMovedRuns value))
stayed_iff kind value =
    by_test (runs_moved_here_iff kind value) (Bool-cases (runs_moved_here kind value))
  where
    by_test :
        (runs_moved_here kind value ≡ true) ↔ ((kind ≡ eval) × HasMovedRuns value)
        → (runs_moved_here kind value ≡ true) ⊎ (runs_moved_here kind value ≡ false)
        → (runs_moved_here kind value ≡ false) ↔ (¬ ((kind ≡ eval) × HasMovedRuns value))
    by_test (to, from) (inl moved) = (λ e h. absurd (cc (moved, e)), λ no. absurd (no (to moved)))
    by_test (to, from) (inr here) = (λ e h. absurd (cc (here, from h)), λ no. here)

-- The document that checks a record has no failure to report.
abbrev pub FitsDocument : Validators → RecordKind → Value → Type 0
FitsDocument v kind value =
    v.record_errors (record_validator kind (get_key value "schema" >>= as_str)) value ≡ []

module _ (v : Validators) where
  collected-eq-nil_iff :
      (kind : RecordKind) (value : Value)
      → (collected v kind value ≡ [])
        ↔ (FitsDocument v kind value × (AllFit value × (semantic kind value ≡ [])))
  unfolding collected
  collected-eq-nil_iff kind value =
      let (to, from) =
        append-eq-nil_iff
          (structural
            (v.record_errors (record_validator kind (get_key value "schema" >>= as_str)) value))
          (numbers "" value ++ semantic kind value) in
      let (to', from') = append-eq-nil_iff (numbers "" value) (semantic kind value) in
      let shape =
        structural-eq-nil_iff
          (v.record_errors (record_validator kind (get_key value "schema" >>= as_str)) value) in
      let fit = numbers-eq-nil_iff "" value in
      (
        λ e.
            let (here, rest) = to e in
            let (num, sem) = to' rest in (shape.0 here, (fit.0 num, sem)),
        λ (here, (num, sem)). from (shape.1 here, from' (fit.1 num, sem)),
      )

  -- A Card is accepted exactly when it fits its JSON Schema document, every integer in it fits a
  -- double, and its attachments, extension keys, results, counts, judgements and relations keep
  -- their rules.
  pub validate_card_iff :
      (value : Value)
      → (validate v card value ≡ [])
        ↔ (FitsDocument v card value × (AllFit value × WhenSome (as_object value) IsSoundCard))
  unfolding validate runs_moved_here
  validate_card_iff value =
      let (to, from) =
        ↔_trans (sort-eq-nil_iff (collected v card value)) (collected-eq-nil_iff card value) in
      (
        λ e. let (doc, (fit, sem)) = to e in (doc, (fit, (semantic_card_iff value fit).0 sem)),
        λ (doc, (fit, sem)). from (doc, (fit, (semantic_card_iff value fit).1 sem)),
      )

  -- An Eval is accepted exactly when it neither declares the identifier of version 1.0 nor declares
  -- the current one with a key `runs`, and it fits its document, every integer in it fits a double,
  -- and it keeps the rules on every record.
  pub validate_eval_iff :
      (value : Value)
      → (validate v eval value ≡ []) ↔ (
          (¬ HasMovedRuns value)
          × (FitsDocument v eval value × (AllFit value × WhenSome (as_object value) IsSoundRecord)))
  unfolding validate
  validate_eval_iff value = elim (Bool-cases (runs_moved_here eval value)) [
    | inl moved ↦
        let is : HasMovedRuns value = ((runs_moved_here_iff eval value).0 moved).1 in
        rw moved (λ e. absurd (ground arith), λ p. absurd (p.0 is))
    | inr here ↦
        let (to, from) =
          ↔_trans (sort-eq-nil_iff (collected v eval value)) (collected-eq-nil_iff eval value) in
        rw here (
          λ e.
              let (doc, (fit, sem)) = to e in
              (
                λ m. (stayed_iff eval value).0 here (refl, m),
                (doc, (fit, (semantic_eval_iff value).0 sem)),
              ),
          λ (_, (doc, (fit, sem))). from (doc, (fit, (semantic_eval_iff value).1 sem)),
        )
  ]

  -- The failures come sorted by path, and those of one path by code; they are those that the passes
  -- collected, none lost and none doubled, except for an Eval that declares the identifier of version
  -- 1.0, or the current one with a key `runs`, which has the one failure `runs_moved` at `/runs`.
  pub validate-IsSorted :
      (kind : RecordKind) (value : Value)
      → IsSorted (validate v kind value)
        × (((¬ ((kind ≡ eval) × HasMovedRuns value))
              → Perm (validate v kind value) (collected v kind value))
            × ((kind ≡ eval) × HasMovedRuns value
                → validate v kind value ≡ push "/runs" runs_moved))
  unfolding validate
  validate-IsSorted kind value = elim (Bool-cases (runs_moved_here kind value)) [
    | inl moved ↦
        rw moved
          ((tt, tt), (λ no. absurd (no ((runs_moved_here_iff kind value).0 moved)), λ e. refl))
    | inr here ↦ rw here (
      sort-IsSorted (collected v kind value),
      (λ no. sort-perm (collected v kind value), λ is. absurd ((stayed_iff kind value).0 here is)),
    )
  ]
