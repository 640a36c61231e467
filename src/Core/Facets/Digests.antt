-- ===== src/Core/Facets/Digests.antt =====
-- About crates/evalhub-core/src/fingerprint.rs: the keys that a fingerprint covers.
use evalhub.Base.{
  Option, none, String, ◌≡◌, refl, ap, true, some, List, [], ◌∷◌, inl, inr, str_eq, eq_iff, arith,
  Bool-cases,
}
use evalhub.Base.Lists.{All, contains}
use evalhub.Json.{Value, Members, end, member, get, get_key, insert}
use evalhub.Schema.{RecordKind}
use evalhub.Core.Facets.Defaults.{get-insert-same}
use evalhub.Core.Facets.{
  Facet, for_kind, facet_str, retain, object_or_empty, fingerprint, facet_hashes, fingerprints,
}

-- Two objects that differ at most in keys that are excluded: these may stand in one and not in the
-- other, or with any two values.
pub data SameBut (excluded : List String) : Members → Members → Type 0 where
  nil : SameBut excluded end end
  both :
      (k : String) (v : Value) {ms ns : Members}
      → SameBut excluded ms ns
      → SameBut excluded (member k v ms) (member k v ns)
  left :
      (k : String) (v : Value) {ms ns : Members}
      → contains excluded k ≡ true
      → SameBut excluded ms ns
      → SameBut excluded (member k v ms) ns
  right :
      (k : String) (v : Value) {ms ns : Members}
      → contains excluded k ≡ true
      → SameBut excluded ms ns
      → SameBut excluded ms (member k v ns)

-- Two facets of which this holds, or that are one; one that is missing counts as an empty object.
pub data SameFacet (excluded : List String) : Option Value → Option Value → Type 0 where
  one : (o : Option Value) → SameFacet excluded o o
  objects :
      {ms ns : Members}
      → SameBut excluded ms ns
      → SameFacet excluded (some (Value.object ms)) (some (Value.object ns))
  set : {ns : Members} → SameBut excluded end ns → SameFacet excluded none (some (Value.object ns))
  unset :
      {ms : Members} → SameBut excluded ms end → SameFacet excluded (some (Value.object ms)) none

retain-SameBut :
    (excluded : List String) {ms ns : Members}
    → SameBut excluded ms ns
    → retain excluded ms ≡ retain excluded ns
unfolding retain
retain-SameBut excluded nil = refl
retain-SameBut excluded (both k v h) = elim (Bool-cases (contains excluded k)) [
  | inl out ↦ rw out (retain-SameBut excluded h)
  | inr in_it ↦ rw in_it (ap (member k v) (retain-SameBut excluded h))
]
retain-SameBut excluded (left k v out h) = rw out (retain-SameBut excluded h)
retain-SameBut excluded (right k v out h) = rw out (retain-SameBut excluded h)

retain-SameFacet :
    (excluded : List String) {a b : Option Value}
    → SameFacet excluded a b
    → retain excluded (object_or_empty a) ≡ retain excluded (object_or_empty b)
retain-SameFacet excluded (one o) = refl
retain-SameFacet excluded (objects h) = retain-SameBut excluded h
retain-SameFacet excluded (set h) = retain-SameBut excluded h
retain-SameFacet excluded (unset h) = retain-SameBut excluded h

-- Two records of which this holds at a facet.
abbrev pub Agree : (Facet → List String) → Value → Value → Facet → Type 0
Agree table a b f = SameFacet (table f) (get_key a (facet_str f)) (get_key b (facet_str f))

-- Setting an excluded key leaves what is retained.
retain-insert :
    (excluded : List String) (ms : Members) (key : String) (v : Value)
    → contains excluded key ≡ true
    → retain excluded (insert ms key v) ≡ retain excluded ms
unfolding retain insert
retain-insert excluded end key v h = rw h refl
retain-insert excluded (member k w ms) key v h = elim (Bool-cases (str_eq k key)) [
  | inl e ↦
      let same : k ≡ key = ground (arith, eq_iff k key) in
      let out : contains excluded k ≡ true = rw same h in rw (e, out) refl
  | inr e ↦ elim (Bool-cases (contains excluded k)) [
    | inl x ↦ rw (e, x) (retain-insert excluded ms key v h)
    | inr x ↦ rw (e, x) (ap (member k w) (retain-insert excluded ms key v h))
  ]
]

module _ {ℓ} {H : Type ℓ} (table : Facet → List String) (digest : Value → Option H) where
  facet_hashes-SameFacet :
      (a b : Value) (fs : List Facet)
      → All (Agree table a b) fs
      → facet_hashes table digest a fs ≡ facet_hashes table digest b fs
  unfolding facet_hashes fingerprint
  facet_hashes-SameFacet a b [] h = refl
  facet_hashes-SameFacet a b (f ∷ fs) (h, more) =
      rw (retain-SameFacet (table f) h, facet_hashes-SameFacet a b fs more) refl

  -- Two records of a kind that differ, in each facet, at most in keys that are excluded there, in
  -- their values or in having them, have the same fingerprints, and fail alike; a facet that is
  -- missing is like one that is an empty object.
  pub fingerprints-SameFacet :
      (kind : RecordKind) (a b : Value)
      → All (Agree table a b) (for_kind kind)
      → fingerprints table digest kind a ≡ fingerprints table digest kind b
  unfolding fingerprints
  fingerprints-SameFacet kind a b h = facet_hashes-SameFacet a b (for_kind kind) h

  -- Setting an excluded key in a facet that is an object leaves the fingerprint of the facet.
  pub fingerprint-excluded :
      (facet ms : Members) (f : Facet) (key : String) (v : Value)
      → contains (table f) key ≡ true
      → get ms (facet_str f) ≡ some (Value.object facet)
      → fingerprint table digest
          (Value.object (insert ms (facet_str f) (Value.object (insert facet key v))))
          f
        ≡ fingerprint table digest (Value.object ms) f
  unfolding fingerprint
  fingerprint-excluded facet ms f key v out is =
      rw (is, get-insert-same ms (facet_str f) (Value.object (insert facet key v)))
        (ap (λ x. digest (Value.object x)) (retain-insert (table f) facet key v out))
