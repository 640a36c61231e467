-- ===== src/Store/Records/Wellformed.antt =====
-- About crates/evalhub-store/src/records.rs: what the table `versions` always satisfies.
use evalhub.Base.{
  ℕ, String, ◌≡◌, refl, Bool, true, false, not, ◌&&◌, Option, none, some, List, [], ◌∷◌, ◌++◌, inl,
  inr, ◌==◌, str_eq, is_some, arith, eq_iff, Bool-cases,
}
use evalhub.Base.Lists.{All, All-append}
use evalhub.Store.Rows.{update_where}
use evalhub.Store.Rows.Laws.{applied, All-update_where, All-updated, All-both}
use evalhub.Store.Db.{VersionRow}
use evalhub.Store.Records.{
  TombstoneRequest, has_id, rebadge, is_version, has_label, is_labelled, is_live_version,
  bury_version,
}

-- Two rows of a record with one sequence number, or with one label.
abbrev pub same_seq : VersionRow → VersionRow → Bool
same_seq v w = is_version v.record_id v.seq w

abbrev pub same_text : Option String → Option String → Bool
same_text none b = false
same_text (some a) none = false
same_text (some a) (some b) = str_eq a b

abbrev pub same_label : VersionRow → VersionRow → Bool
same_label v w = v.record_id == w.record_id && same_text v.label w.label

-- The two unique constraints of `versions`.
abbrev pub Distinct : List VersionRow → Type 0
Distinct [] = Unit
Distinct (v ∷ vs) = All (λ w. (same_seq v w ≡ false) × (same_label v w ≡ false)) vs × Distinct vs

-- A version has a body exactly when it is not deleted.
abbrev pub VersionHasBody : VersionRow → Type 0
VersionHasBody v = is_some v.body ≡ not (is_some v.tombstoned_at)

pub record IsWellformed (versions : List VersionRow) : Type 0 where
  pub distinct : Distinct versions
  pub bodies : All VersionHasBody versions

-- Two rows that the constraints allow.
abbrev Apart : VersionRow → VersionRow → Type 0
Apart v w = (same_seq v w ≡ false) × (same_label v w ≡ false)

pub Distinct-append :
    (vs : List VersionRow) (v : VersionRow)
    → Distinct vs
    → All (λ w. (same_seq w v ≡ false) × (same_label w v ≡ false)) vs
    → Distinct (vs ++ v ∷ [])
Distinct-append [] v h k = (tt, tt)
Distinct-append (w ∷ ws) v (apart, more) (here, rest) =
    (All-append (Apart w) ws (v ∷ []) apart (here, tt), Distinct-append ws v more rest)

-- An update of single rows that keeps pairs of distinct rows distinct.
module _ (p : VersionRow → Bool) (f : VersionRow → VersionRow) (Side : VersionRow → Type 0) where
  Distinct-update_where :
      ((v w : VersionRow) → Side v → Side w → Apart v w → Apart (applied p f v) (applied p f w))
      → (vs : List VersionRow) → All Side vs
      → Distinct vs
      → Distinct (update_where p f vs)
  unfolding update_where
  Distinct-update_where keep [] sides h = tt
  Distinct-update_where keep (v ∷ vs) (side, sides) (apart, more) = (
    All-updated (λ w. Side w × Apart v w) (Apart (applied p f v)) p f
        (λ w (s, h). keep v w side s h) vs (All-both Side (Apart v) vs sides apart),
    Distinct-update_where keep vs sides more,
  )

  -- What one row becomes, by the test.
  pub split :
      (P : VersionRow → Type 0) (v : VersionRow)
      → (p v ≡ true → P (f v))
      → (p v ≡ false → P v)
      → P (applied p f v)
  split P v there away = elim (Bool-cases (p v)) [ inl e ↦ rw e (there e) | inr e ↦ rw e (away e) ]

abbrev pub Anything : VersionRow → Type 0
Anything v = Unit

no_condition : (vs : List VersionRow) → All Anything vs
no_condition [] = tt
no_condition (v ∷ vs) = (tt, no_condition vs)

pub bury-IsWellformed :
    (now r seq : ℕ) (request : TombstoneRequest) (vs : List VersionRow)
    → IsWellformed vs
    → IsWellformed (update_where (is_live_version r seq) (bury_version now request) vs)
bury-IsWellformed now r seq request vs h = record {
  distinct =
      Distinct-update_where (is_live_version r seq) (bury_version now request) Anything
        (λ v w _ _ apart. pairs v w apart) vs (no_condition vs) h.distinct;
  bodies =
      All-update_where VersionHasBody (is_live_version r seq) (bury_version now request)
        (λ v b.
          split (is_live_version r seq) (bury_version now request) Anything VersionHasBody v
            (λ _. refl) (λ _. b))
        vs h.bodies;
}
  where
    pairs :
        (v w : VersionRow)
        → Apart v w
        → Apart
            (applied (is_live_version r seq) (bury_version now request) v)
            (applied (is_live_version r seq) (bury_version now request) w)
    pairs v w h =
        split (is_live_version r seq) (bury_version now request) Anything
          (λ v'. Apart v' (applied (is_live_version r seq) (bury_version now request) w)) v
          (λ _.
            split (is_live_version r seq) (bury_version now request) Anything
              (Apart (bury_version now request v)) w (λ _. h) (λ _. h))
          (λ _.
            split (is_live_version r seq) (bury_version now request) Anything (Apart v) w (λ _. h)
              (λ _. h))

pub same_text-none : (a : Option String) → same_text a none ≡ false
same_text-none none = refl
same_text-none (some a) = refl

pub same_text-some :
    (a : Option String) (label : String) → same_text a (some label) ≡ has_label a label
same_text-some none label = refl
same_text-some (some a) label = refl

some-same_text : (a : Option String) (label : String) → same_text (some label) a ≡ has_label a label
some-same_text none label = refl
some-same_text (some a) label = ground (arith, eq_iff a label, eq_iff label a)

abbrev Unlabelled : ℕ → String → VersionRow → Type 0
Unlabelled r label v = is_labelled r label v ≡ false

module _ (r : ℕ) (label : String) where
  abbrev pub bare : VersionRow → VersionRow
  bare v = record v { label = none }

  abbrev pub named : VersionRow → VersionRow
  named v = record v { label = some label }

  unlabelled :
      (vs : List VersionRow) → All (Unlabelled r label) (update_where (is_labelled r label) bare vs)
  unlabelled vs =
      All-updated Anything (Unlabelled r label) (is_labelled r label) bare
        (λ v _.
          split (is_labelled r label) bare Anything (Unlabelled r label) v (λ e. ground arith)
            (λ e. e))
        vs (no_condition vs)

  bare_pairs :
      (v w : VersionRow)
      → Apart v w
      → Apart (applied (is_labelled r label) bare v) (applied (is_labelled r label) bare w)
  bare_pairs v w h =
      split (is_labelled r label) bare Anything
        (λ v'. Apart v' (applied (is_labelled r label) bare w)) v
        (λ _.
          split (is_labelled r label) bare Anything (Apart (bare v)) w (λ _. ground arith)
            (λ _. ground arith))
        (λ _.
          split (is_labelled r label) bare Anything (Apart v) w
            (λ _. (h.0, ground (arith, same_text-none v.label))) (λ _. h))

  named_pairs :
      (seq : ℕ) (v w : VersionRow)
      → Unlabelled r label v
      → Unlabelled r label w
      → Apart v w
      → Apart (applied (is_version r seq) named v) (applied (is_version r seq) named w)
  named_pairs seq v w uv uw h =
      split (is_version r seq) named Anything (λ v'. Apart v' (applied (is_version r seq) named w))
        v
        (λ ev.
          split (is_version r seq) named Anything (Apart (named v)) w (λ ew. absurd (ground arith))
            (λ ew. (h.0, ground (arith, some-same_text w.label label))))
        (λ ev.
          split (is_version r seq) named Anything (Apart v) w
            (λ ew. (h.0, ground (arith, same_text-some v.label label))) (λ ew. h))

pub rebadge-IsWellformed :
    (id : ℕ) (badges : List String) (vs : List VersionRow)
    → IsWellformed vs
    → IsWellformed (update_where (has_id id) (rebadge badges) vs)
rebadge-IsWellformed id badges vs h = record {
  distinct =
      Distinct-update_where (has_id id) (rebadge badges) Anything
        (λ v w _ _ apart.
          split (has_id id) (rebadge badges) Anything
            (λ v'. Apart v' (applied (has_id id) (rebadge badges) w)) v
            (λ _.
              split (has_id id) (rebadge badges) Anything (Apart (rebadge badges v)) w (λ _. apart)
                (λ _. apart))
            (λ _.
              split (has_id id) (rebadge badges) Anything (Apart v) w (λ _. apart) (λ _. apart)))
        vs (no_condition vs) h.distinct;
  bodies =
      All-update_where VersionHasBody (has_id id) (rebadge badges)
        (λ v b. split (has_id id) (rebadge badges) Anything VersionHasBody v (λ _. b) (λ _. b)) vs
        h.bodies;
}

-- A label is taken from the row that had it before it is given to another.
pub label-IsWellformed :
    (r seq : ℕ) (label : String) (vs : List VersionRow)
    → IsWellformed vs
    → IsWellformed (
        update_where
          (is_version r seq)
          (named r label)
          (update_where (is_labelled r label) (bare r label) vs))
label-IsWellformed r seq label vs h = record {
  distinct =
      Distinct-update_where (is_version r seq) (named r label) (Unlabelled r label)
        (named_pairs r label seq) (update_where (is_labelled r label) (bare r label) vs)
        (unlabelled r label vs)
        (Distinct-update_where (is_labelled r label) (bare r label) Anything
          (λ v w _ _ apart. bare_pairs r label v w apart) vs (no_condition vs) h.distinct);
  bodies =
      All-update_where VersionHasBody (is_version r seq) (named r label)
        (λ v b.
          split (is_version r seq) (named r label) Anything VersionHasBody v (λ _. b) (λ _. b))
        (update_where (is_labelled r label) (bare r label) vs)
        (All-update_where VersionHasBody (is_labelled r label) (bare r label)
          (λ v b.
            split (is_labelled r label) (bare r label) Anything VersionHasBody v (λ _. b) (λ _. b))
          vs h.bodies);
}
