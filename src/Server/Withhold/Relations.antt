-- ===== src/Server/Withhold/Relations.antt =====
-- About crates/evalhub-server/src/api/relations.rs: the relations of a body, those that are left and
-- those that are withheld.
use evalhub.Base.{
  ℕ, String, ◌≡◌, ◌↔◌, refl, Bool, true, ==_iff, Option, none, some, List, [], ◌∷◌, inl, inr, arith,
  Bool-cases, Option-cases, eq_iff, ◌>>=◌, if◌then◌else◌,
}
use mathlib.Core.Path.{subst}
use evalhub.Base.Lists.{All, find}
use evalhub.Core.Ids.{RelationTarget, parse_relation_target}
use evalhub.Json.{Value, get_key, as_str}
use evalhub.Server.Withhold.{
  HiddenTarget, WithheldRelation, same_target, found_at, found, commitment, retain_relations,
  removed_relations, withhold_relations, elements,
}
use evalhub.Server.Withhold.Elements.{elements-changed}

-- The element names the hidden target: the type of the edge, and a text that reads as its address.
abbrev pub Names : Value → HiddenTarget → Type 0
Names v h =
    ((get_key v "type" >>= as_str) ≡ some h.relation_type)
    × ((get_key v "to" >>= as_str >>= parse_relation_target)
        ≡ some (RelationTarget.version h.ns h.name h.seq))

same_target_iff :
    (type ns name : String) (seq : ℕ) (h : HiddenTarget)
    → (same_target type ns name seq h ≡ true)
      ↔ (((h.relation_type ≡ type) × (h.ns ≡ ns)) × ((h.name ≡ name) × (h.seq ≡ seq)))
same_target_iff type ns name seq h =
    ground
      (arith, eq_iff h.relation_type type, eq_iff h.ns ns, eq_iff h.name name, ==_iff h.seq seq)

version_inj :
    (a b c d : String) (m n : ℕ)
    → some (RelationTarget.version a c m) ≡ some (RelationTarget.version b d n)
    → ((a ≡ b) × (c ≡ d)) × (m ≡ n)
version_inj a b c d m n h = ground arith

pub every {ℓ κ} : {A : Type ℓ} (P : A → Type κ) → ((a : A) → P a) → (xs : List A) → All P xs
every P f [] = tt
every P f (x ∷ xs) = (f x, every P f xs)

-- The same of what an element reads as, which is any type and target.
abbrev Reads : Option String → Option RelationTarget → HiddenTarget → Type 0
Reads o p h = (o ≡ some h.relation_type) × (p ≡ some (RelationTarget.version h.ns h.name h.seq))

abbrev found_read : List HiddenTarget → Option String → Option RelationTarget → Option HiddenTarget
found_read hs o p = o >>= λ type. p >>= found_at hs type

find-none :
    (type ns name : String) (seq : ℕ) (hs : List HiddenTarget)
    → find (same_target type ns name seq) hs ≡ none
    → All (λ h. ¬ Reads (some type) (some (RelationTarget.version ns name seq)) h) hs
find-none type ns name seq [] e = tt
find-none type ns name seq (h ∷ hs) e = elim (Bool-cases (same_target type ns name seq h)) [
  | inl t ↦ absurd (ground arith)
  | inr f ↦ (
    λ (t, p). absurd (
        ground
          (arith, same_target_iff type ns name seq h, version_inj ns h.ns name h.name seq h.seq p)),
    find-none type ns name seq hs (ground arith),
  )
]

found-none :
    (hs : List HiddenTarget) (o : Option String) (p : Option RelationTarget)
    → found_read hs o p ≡ none
    → All (λ h. ¬ Reads o p h) hs
found-none hs none p e = every _ (λ h r. absurd (ground arith)) hs
found-none hs (some t) none e = every _ (λ h r. absurd (ground arith)) hs
found-none hs (some t) (some (RelationTarget.version ns name seq)) e = find-none t ns name seq hs e
found-none hs (some t) (some (RelationTarget.hf x)) e = every _ (λ h r. absurd (ground arith)) hs
found-none hs (some t) (some (RelationTarget.external x)) e =
    every _ (λ h r. absurd (ground arith)) hs

pub data Among {A : Type 0} (a : A) : List A → Type 0 where
  here : {xs : List A} → Among a (a ∷ xs)
  there : (x : A) {xs : List A} → Among a xs → Among a (x ∷ xs)

found_is :
    (g h : HiddenTarget) (rest : Option HiddenTarget) (b : Bool)
    → b ≡ true
    → (if b then some g else rest) ≡ some h
    → g ≡ h
found_is g h rest b t e = ground arith

find-some :
    (type ns name : String) (seq : ℕ) (hs : List HiddenTarget) (h : HiddenTarget)
    → find (same_target type ns name seq) hs ≡ some h
    → Among h hs × Reads (some type) (some (RelationTarget.version ns name seq)) h
find-some type ns name seq [] h e = absurd (ground arith)
find-some type ns name seq (g ∷ hs) h e = elim (Bool-cases (same_target type ns name seq g)) [
  | inl t ↦
      let is : g ≡ h = found_is g h _ (same_target type ns name seq g) t e in
      let ((a, b), (c, d)) = (same_target_iff type ns name seq g).0 t in
      subst
        (λ x. Among x (g ∷ hs) × Reads (some type) (some (RelationTarget.version ns name seq)) x) is
        (here, (cc a, cc (b, c, d)))
  | inr f ↦ let (l, r) = find-some type ns name seq hs h (ground arith) in (there g l, r)
]

found-some :
    (hs : List HiddenTarget) (o : Option String) (p : Option RelationTarget) (h : HiddenTarget)
    → found_read hs o p ≡ some h
    → Among h hs × Reads o p h
found-some hs none p h e = absurd (ground arith)
found-some hs (some t) none h e = absurd (ground arith)
found-some hs (some t) (some (RelationTarget.version ns name seq)) h e =
    find-some t ns name seq hs h e
found-some hs (some t) (some (RelationTarget.hf x)) h e = absurd (ground arith)
found-some hs (some t) (some (RelationTarget.external x)) h e = absurd (ground arith)

-- Elements, those that are kept, and the commitments of the others, each in the order of the body.
pub data Parted (hidden : List HiddenTarget)
    : List Value → List Value → List WithheldRelation → Type 0 where
  nil : Parted hidden [] [] []
  keep :
      (v : Value) {vs ks : List Value} {rs : List WithheldRelation}
      → All (λ h. ¬ Names v h) hidden
      → Parted hidden vs ks rs
      → Parted hidden (v ∷ vs) (v ∷ ks) rs
  take :
      (v : Value) (h : HiddenTarget) {vs ks : List Value} {rs : List WithheldRelation}
      → Among h hidden
      → Names v h
      → Parted hidden vs ks rs
      → Parted hidden (v ∷ vs) ks (commitment h ∷ rs)

retain-Parted :
    (hidden : List HiddenTarget) (vs : List Value)
    → Parted hidden vs (retain_relations hidden vs) (removed_relations hidden vs)
unfolding retain_relations removed_relations found
retain-Parted hidden [] = nil
retain-Parted hidden (v ∷ vs) =
    let o = get_key v "type" >>= as_str in
    let p = get_key v "to" >>= as_str >>= parse_relation_target in
    elim (Option-cases (found_read hidden o p)) [
      | inl e ↦ rw e (keep v (found-none hidden o p e) (retain-Parted hidden vs))
      | inr (h, e) ↦
          let (l, r) = found-some hidden o p h e in rw e (take v h l r (retain-Parted hidden vs))
    ]

pub withhold_relations-elements :
    (body : Value) (hidden : List HiddenTarget)
    → Parted hidden
        (elements "relations" body)
        (elements "relations" (withhold_relations body hidden).0)
        (withhold_relations body hidden).1
unfolding withhold_relations
withhold_relations-elements body [] = untouched (elements "relations" body)
  where
    untouched : (vs : List Value) → Parted [] vs vs []
    untouched [] = nil
    untouched (v ∷ vs) = keep v tt (untouched vs)
withhold_relations-elements body (h ∷ hs) =
    rw (elements-changed (retain_relations (h ∷ hs)) refl "relations" body)
      (retain-Parted (h ∷ hs) (elements "relations" body))
