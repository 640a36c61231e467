-- ===== src/Server/Errors/Laws.antt =====
-- About crates/evalhub-server/src/error.rs: the status of a refused batch, and which answers carry a
-- body.
use evalhub.Base.{
  ℕ, Bool, true, false, ◌&&◌, ◌≡◌, ◌≢◌, ◌↔◌, refl, List, [], ◌∷◌, ◌++◌, arith, ==_iff, Bool-cases,
  inl, inr,
}
use evalhub.Base.Lists.{All, is_empty}
use evalhub.Schema.{ErrorEntry}
use evalhub.Schema.Codes
use evalhub.Store.Db.{RunRejection}
use evalhub.Server.Errors.{status, placed, all_placed, entries, all_conflicts, runs_rejected}

-- The code of an entry says that the producer cannot put it right in the body.
abbrev pub IsConflict : ErrorEntry → Type 0
IsConflict e = Codes.status e.code ≡ 409

-- Some entry is there.
pub data Some : List RunRejection → Type 0 where
  here : (r : RunRejection) (rs : List RunRejection) → r.errors ≢ [] → Some (r ∷ rs)
  there : (r : RunRejection) {rs : List RunRejection} → Some rs → Some (r ∷ rs)

all_conflicts-append :
    (es fs : List ErrorEntry) → all_conflicts (es ++ fs) ≡ (all_conflicts es && all_conflicts fs)
all_conflicts-append [] fs = refl
all_conflicts-append (e ∷ es) fs = ground (arith, all_conflicts-append es fs)

placed-code : (b : Bool) (i : ℕ) (e : ErrorEntry) → (placed b i e).code ≡ e.code
placed-code true i e = refl
placed-code false i e = refl

all_placed-conflicts :
    (b : Bool) (i : ℕ) (es : List ErrorEntry) → all_conflicts (all_placed b i es) ≡ all_conflicts es
all_placed-conflicts b i [] = refl
all_placed-conflicts b i (e ∷ es) = rw (placed-code b i e, all_placed-conflicts b i es) refl

all_conflicts_iff : (es : List ErrorEntry) → (all_conflicts es ≡ true) ↔ All IsConflict es
all_conflicts_iff [] = ground arith
all_conflicts_iff (e ∷ es) = ground (arith, all_conflicts_iff es, ==_iff (Codes.status e.code) 409)

entries_iff :
    (b : Bool) (rs : List RunRejection)
    → (all_conflicts (entries b rs) ≡ true) ↔ All (λ r. All IsConflict r.errors) rs
unfolding entries
entries_iff b [] = ground arith
entries_iff b (r ∷ rs) =
    rw
      (
        all_conflicts-append (all_placed b r.index r.errors) (entries b rs),
        all_placed-conflicts b r.index r.errors,
      )
      (ground (arith, all_conflicts_iff r.errors, entries_iff b rs))

filled :
    (b : Bool) (i : ℕ) (es fs : List ErrorEntry)
    → es ≢ []
    → is_empty (all_placed b i es ++ fs) ≡ false
filled b i [] fs h = absurd (h refl)
filled b i (e ∷ es) fs h = refl

filled_behind :
    (b : Bool) (i : ℕ) (es fs : List ErrorEntry)
    → is_empty fs ≡ false
    → is_empty (all_placed b i es ++ fs) ≡ false
filled_behind b i [] fs h = h
filled_behind b i (e ∷ es) fs h = refl

Some-filled : (b : Bool) {rs : List RunRejection} → Some rs → is_empty (entries b rs) ≡ false
unfolding entries
Some-filled b (here r rs h) = filled b r.index r.errors (entries b rs) h
Some-filled b (there r {rs} s) = filled_behind b r.index r.errors (entries b rs) (Some-filled b s)

filled-Some : (b : Bool) (rs : List RunRejection) → is_empty (entries b rs) ≡ false → Some rs
unfolding entries
filled-Some b [] h = absurd (ground arith)
filled-Some b (r ∷ rs) h = by_errors (filled-Some b rs) r.errors refl h
  where
    by_errors :
        (is_empty (entries b rs) ≡ false → Some rs)
        → (es : List ErrorEntry) → r.errors ≡ es
        → is_empty (all_placed b r.index es ++ entries b rs) ≡ false
        → Some (r ∷ rs)
    by_errors later [] is k = there r (later k)
    by_errors later (e ∷ es) is k = here r rs (λ n. absurd (ground arith))

-- A batch is answered with 409 exactly when something is wrong with it and all that is wrong with
-- any of its elements is a conflict, and otherwise with 422.
pub runs_rejected_iff :
    (rs : List RunRejection) (b : Bool)
    → ((status (runs_rejected rs b) ≡ 409) ↔ (Some rs × All (λ r. All IsConflict r.errors) rs))
      × ((status (runs_rejected rs b) ≢ 409) → status (runs_rejected rs b) ≡ 422)
unfolding runs_rejected status
runs_rejected_iff rs b = elim (Bool-cases (is_empty (entries b rs))) [
  | inl none_left ↦
      rw none_left (
        (λ h. absurd (ground arith), λ (s, a). absurd (ground (arith, Some-filled b s))),
        λ h. refl,
      )
  | inr left ↦ elim (Bool-cases (all_conflicts (entries b rs))) [
    | inl all ↦
        rw (left, all)
          (
            (λ h. (filled-Some b rs left, (entries_iff b rs).0 all), λ h. refl),
            λ h. absurd (h refl),
          )
    | inr mixed ↦
        rw (left, mixed)
          (
            (
              λ h. absurd (ground arith),
              λ (s, a).
                  let is : all_conflicts (entries b rs) ≡ true = (entries_iff b rs).1 a in
                  absurd (ground arith),
            ),
            λ h. refl,
          )
  ]
]
