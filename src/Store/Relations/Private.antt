-- ===== src/Store/Relations/Private.antt =====
-- About crates/evalhub-store/src/relations.rs: what a reader learns from a target that is stored as
-- text.
use evalhub.Base.{
  ℕ, String, ◌≡◌, refl, ap, ◌∙◌, Bool, true, Option, none, some, List, inl, inr, arith, eq_iff,
  ==_iff, Bool-cases, Option-cases, ◌==◌, ◌>>=◌,
}
use evalhub.Base.Lists.{find}
use evalhub.Store.Rows.Laws.{find-true}
use evalhub.Store.Db.{RecordRow, VersionRow, Db}
use evalhub.Store.Records.{RecordType, card, eval, is_record, find_record, visible_to, is_version}
use evalhub.Store.Relations.{
  RelationTarget, version, external, VersionInfo, TargetVersion, hub, parse, visible, target,
  info_of, version_info, resolve_typed, resolve_ref, target_or, by_target, or_empty, resolve_stored,
}

-- The primary keys of the two tables: a row that is found is the row of its id.
pub record IsKeyed (db : Db) : Type 0 where
  pub versions :
      (p : VersionRow → Bool) (v : VersionRow)
      → find p db.versions ≡ some v
      → find (λ w. w.version_id == v.version_id) db.versions ≡ some v
  pub records :
      (p : RecordRow → Bool) (r : RecordRow)
      → find p db.records ≡ some r
      → find (λ x. x.id == r.id) db.records ≡ some r

module _ (db : Db) (keyed : IsKeyed db) (caller : List String) where
  -- A version of a record that the caller may see.
  abbrev Seen : VersionRow → Type 0
  Seen v =
      (info : VersionInfo) × (version_info db v.version_id ≡ some info)
      × (visible info caller ≡ true)

  found-Seen :
      (type : RecordType) (ns name : String) (seq : ℕ) (r : RecordRow) (v : VersionRow)
      → find_record type ns name db.records ≡ some r
      → visible_to r.visibility ns caller ≡ true
      → find (is_version r.id seq) db.versions ≡ some v
      → Seen v
  unfolding find_record version_info visible
  found-Seen type ns name seq r v found shown is =
      let named = find-true (is_record type ns name) db.records r found in
      let numbered = find-true (is_version r.id seq) db.versions v is in
      let same_ns : r.ns ≡ ns = ground (arith, eq_iff r.ns ns) in
      let same_record : v.record_id ≡ r.id = ground (arith, ==_iff v.record_id r.id) in
      (
        info_of v r,
        rw
            (
              keyed.versions (is_version r.id seq) v is,
              same_record,
              keyed.records (is_record type ns name) r found,
            )
            refl,
        ap (λ n. visible_to r.visibility n caller) same_ns ∙ shown,
      )

  resolve_typed-Seen :
      (type : RecordType) (ns name : String) (seq : ℕ) (v : VersionRow)
      → resolve_typed db type ns name seq caller ≡ some v
      → Seen v
  unfolding resolve_typed
  resolve_typed-Seen type ns name seq v h =
      elim (Option-cases (find_record type ns name db.records)) [
        | inl gone ↦ absurd (let k = rw gone at h in ground arith)
        | inr (r, found) ↦ elim (Bool-cases (visible_to r.visibility ns caller)) [
          | inr hidden ↦ absurd (let k = rw (found, hidden) at h in ground arith)
          | inl shown ↦
              found-Seen type ns name seq r v found shown (let k = rw (found, shown) at h in k)
        ]
      ]

  target_or-visible :
      (s : String) (v : VersionRow) (t : TargetVersion)
      → Seen v
      → target_or s caller (version_info db v.version_id) ≡ hub t
      → t.visible ≡ true
  unfolding target
  target_or-visible s v t (info, is, shown) h = let k = rw is at h in ground arith

  resolve_ref-visible :
      (s ns name : String) (seq : ℕ) (t : TargetVersion)
      → target_or s caller (resolve_ref db ns name seq caller >>= version_info db) ≡ hub t
      → t.visible ≡ true
  unfolding resolve_ref
  resolve_ref-visible s ns name seq t h =
      elim (Option-cases (resolve_typed db card ns name seq caller)) [
        | inr (v, e) ↦ target_or-visible s v t (resolve_typed-Seen card ns name seq v e) (rw e at h)
        | inl none_card ↦ elim (Option-cases (resolve_typed db eval ns name seq caller)) [
          | inr (v, e) ↦
              target_or-visible s v t (resolve_typed-Seen eval ns name seq v e)
                (rw (none_card, e) at h)
          | inl none_eval ↦ absurd (let k = rw (none_card, none_eval) at h in ground arith)
        ]
      ]

  by_target-visible :
      (s : String) (parsed : Option RelationTarget) (t : TargetVersion)
      → by_target db caller s parsed ≡ hub t
      → t.visible ≡ true
  by_target-visible s none t h = absurd (ground arith)
  by_target-visible s (some (external e)) t h = absurd (ground arith)
  by_target-visible s (some (version ns name seq)) t h = resolve_ref-visible s ns name seq t h

  -- A target that is stored as text and resolves for a reader resolves to a version that the reader
  -- may see: it never shows that a private version exists. The ids are the keys of their tables.
  pub resolve_stored-visible :
      (stored : Option String) (t : TargetVersion)
      → resolve_stored db none stored caller ≡ hub t
      → t.visible ≡ true
  unfolding resolve_stored
  resolve_stored-visible stored t h =
      by_target-visible (or_empty stored) (parse (or_empty stored)) t h
