-- ===== src/Store/Records/Moves.antt =====
-- About crates/evalhub-store/src/records.rs: the moves on the table `versions` of which the
-- transactions consist.
use evalhub.Base.{
  ℕ, ◌+◌, ◌≤◌, String, ◌≡◌, refl, ◌∙◌, Bool, true, false, ◌&&◌, none, some, List, [], ◌∷◌, ◌++◌,
  inl, inr, ltb, ◌==◌, if◌then◌else◌, is_some, arith, ==_iff, Bool-cases,
}
use evalhub.Base.Lists.{find, All, All-append}
use evalhub.Store.Rows.{update_where}
use evalhub.Store.Rows.Laws.{applied, All-map, All-both, find-update_where, find-append}
use evalhub.Store.Db.{VersionRow}
use evalhub.Store.Records.{
  TombstoneRequest, has_id, rebadge, is_version, is_labelled, is_live_version, bury_version,
  max_seq,
}
use evalhub.Store.Records.Wellformed.{
  Anything, Distinct-append, IsWellformed, VersionHasBody, bare, bury-IsWellformed,
  rebadge-IsWellformed, label-IsWellformed, named, same_label, same_seq, split,
}

pub seq-le-max_seq :
    (r : ℕ) (vs : List VersionRow) → All (λ v. v.record_id ≡ r → v.seq ≤ max_seq r vs) vs
unfolding max_seq
seq-le-max_seq r [] = tt
seq-le-max_seq r (v ∷ vs) = (
  λ e. ground arith,
  All-map (λ w. w.record_id ≡ r → w.seq ≤ max_seq r vs)
      (λ w.
        w.record_id ≡ r
        → w.seq ≤ (if v.record_id == r && ltb (max_seq r vs) v.seq then v.seq else max_seq r vs))
      (λ w h e. let k : w.seq ≤ max_seq r vs = h e in ground arith) vs (seq-le-max_seq r vs),
)

-- What a transaction makes of the table.
pub data VersionMove (vs : List VersionRow) : List VersionRow → Type 0 where
  kept : VersionMove vs vs
  appended :
      (v : VersionRow)
      → v.seq ≡ max_seq v.record_id vs + 1
      → All (λ w. same_label w v ≡ false) vs
      → VersionHasBody v
      → VersionMove vs (vs ++ v ∷ [])
  buried :
      (now r seq : ℕ) (request : TombstoneRequest)
      → VersionMove vs (update_where (is_live_version r seq) (bury_version now request) vs)
  rebadged :
      (version_id : ℕ) (badges : List String)
      → VersionMove vs (update_where (has_id version_id) (rebadge badges) vs)
  labelled :
      (r seq : ℕ) (label : String)
      → VersionMove vs (
          update_where
            (is_version r seq)
            (λ v. record v { label = some label })
            (update_where (is_labelled r label) (λ v. record v { label = none }) vs))

-- A row with a new number and a label that is not taken may be added.
insert-IsWellformed :
    (v : VersionRow) (vs : List VersionRow)
    → v.seq ≡ max_seq v.record_id vs + 1
    → All (λ w. same_label w v ≡ false) vs
    → VersionHasBody v
    → IsWellformed vs
    → IsWellformed (vs ++ v ∷ [])
insert-IsWellformed v vs fresh free body h = record {
  distinct = Distinct-append vs v h.distinct (
      All-both (λ w. same_seq w v ≡ false) (λ w. same_label w v ≡ false) vs
        (All-map (λ w. w.record_id ≡ v.record_id → w.seq ≤ max_seq v.record_id vs)
          (λ w. same_seq w v ≡ false) (λ w le. below w le) vs (seq-le-max_seq v.record_id vs))
        free);
  bodies = All-append VersionHasBody vs (v ∷ []) h.bodies (body, tt);
}
  where
    below :
        (w : VersionRow)
        → (w.record_id ≡ v.record_id → w.seq ≤ max_seq v.record_id vs)
        → same_seq w v ≡ false
    below w le = elim (Bool-cases (w.record_id == v.record_id)) [
      | inl e ↦ let k = le ((==_iff w.record_id v.record_id).0 e) in ground arith
      | inr e ↦ ground arith
    ]

pub VersionMove-IsWellformed :
    {vs ws : List VersionRow} → VersionMove vs ws → IsWellformed vs → IsWellformed ws
VersionMove-IsWellformed kept h = h
VersionMove-IsWellformed {vs} (appended v fresh free body) h =
    insert-IsWellformed v vs fresh free body h
VersionMove-IsWellformed {vs} (buried now r seq request) h =
    bury-IsWellformed now r seq request vs h
VersionMove-IsWellformed {vs} (rebadged id badges) h = rebadge-IsWellformed id badges vs h
VersionMove-IsWellformed {vs} (labelled r seq label) h = label-IsWellformed r seq label vs h

-- What becomes of one version: its identity and what was posted stay, a deletion is for good, and
-- the body changes only by being deleted.
pub record Continues (v w : VersionRow) : Type 0 where
  pub version : w.version_id ≡ v.version_id
  pub hash : w.content_hash ≡ v.content_hash
  pub posted : (w.created_at ≡ v.created_at) × (w.changed ≡ v.changed)
  pub deleted :
      is_some v.tombstoned_at ≡ true → (w.tombstoned_at ≡ v.tombstoned_at) × (w.body ≡ v.body)
  pub shown : w.tombstoned_at ≡ none → w.body ≡ v.body

abbrev pub Stays : ℕ → ℕ → VersionRow → List VersionRow → Type 0
Stays r seq v vs = (w : VersionRow) × (find (is_version r seq) vs ≡ some w) × Continues v w

updated_Stays :
    (p : VersionRow → Bool) (f : VersionRow → VersionRow) (r seq : ℕ) (v : VersionRow)
    (vs : List VersionRow)
    → ((w : VersionRow) → is_version r seq (applied p f w) ≡ is_version r seq w)
    → ((w : VersionRow) → Continues v w → Continues v (applied p f w))
    → Stays r seq v vs
    → Stays r seq v (update_where p f vs)
updated_Stays p f r seq v vs keys keep (w, e, k) =
    (applied p f w, find-update_where (is_version r seq) p f keys vs ∙ rw e refl, keep w k)

pub VersionMove-Stays :
    (r seq : ℕ) (v : VersionRow) {vs ws : List VersionRow}
    → VersionMove vs ws
    → Stays r seq v vs
    → Stays r seq v ws
VersionMove-Stays r seq v kept h = h
VersionMove-Stays r seq v {vs} (appended u fresh free body) (w, e, k) =
    (w, find-append (is_version r seq) vs (u ∷ []) ∙ rw e refl, k)
VersionMove-Stays r seq v {vs} (buried now s n request) h =
    updated_Stays (is_live_version s n) (bury_version now request) r seq v vs
      (λ w.
        split (is_live_version s n) (bury_version now request) Anything
          (λ x. is_version r seq x ≡ is_version r seq w) w (λ _. refl) (λ _. refl))
      (λ w k.
        split (is_live_version s n) (bury_version now request) Anything (Continues v) w
          (λ live. bury_still w k live) (λ _. k))
      h
  where
    live_not_gone :
        (w : VersionRow)
        → Continues v w
        → is_live_version s n w ≡ true
        → is_some v.tombstoned_at ≡ true
        → ⊥
    live_not_gone w k live gone = let at = (k.deleted gone).0 in ground arith

    bury_still :
        (w : VersionRow)
        → Continues v w
        → is_live_version s n w ≡ true
        → Continues v (bury_version now request w)
    bury_still w k live = record {
      version = k.version;
      hash = k.hash;
      posted = k.posted;
      deleted = λ gone. absurd (live_not_gone w k live gone);
      shown = λ e. absurd (ground arith);
    }
VersionMove-Stays r seq v {vs} (rebadged id badges) h =
    updated_Stays (has_id id) (rebadge badges) r seq v vs
      (λ w.
        split (has_id id) (rebadge badges) Anything (λ x. is_version r seq x ≡ is_version r seq w) w
          (λ _. refl) (λ _. refl))
      (λ w k.
        split (has_id id) (rebadge badges) Anything (Continues v) w (λ _. rebadged_still w k)
          (λ _. k))
      h
  where
    rebadged_still : (w : VersionRow) → Continues v w → Continues v (rebadge badges w)
    rebadged_still w k = record {
      version = k.version;
      hash = k.hash;
      posted = k.posted;
      deleted = k.deleted;
      shown = k.shown;
    }
VersionMove-Stays r seq v {vs} (labelled s n label) h =
    updated_Stays (is_version s n) (named s label) r seq v
      (update_where (is_labelled s label) (bare s label) vs)
      (λ w.
        split (is_version s n) (named s label) Anything
          (λ x. is_version r seq x ≡ is_version r seq w) w (λ _. refl) (λ _. refl))
      (λ w k.
        split (is_version s n) (named s label) Anything (Continues v) w (λ _. relabelled w k)
          (λ _. k))
      (updated_Stays (is_labelled s label) (bare s label) r seq v vs
        (λ w.
          split (is_labelled s label) (bare s label) Anything
            (λ x. is_version r seq x ≡ is_version r seq w) w (λ _. refl) (λ _. refl))
        (λ w k.
          split (is_labelled s label) (bare s label) Anything (Continues v) w
            (λ _. unlabelled_still w k) (λ _. k))
        h)
  where
    relabelled : (w : VersionRow) → Continues v w → Continues v (named s label w)
    relabelled w k = record {
      version = k.version;
      hash = k.hash;
      posted = k.posted;
      deleted = k.deleted;
      shown = k.shown;
    }

    unlabelled_still : (w : VersionRow) → Continues v w → Continues v (bare s label w)
    unlabelled_still w k = record {
      version = k.version;
      hash = k.hash;
      posted = k.posted;
      deleted = k.deleted;
      shown = k.shown;
    }
