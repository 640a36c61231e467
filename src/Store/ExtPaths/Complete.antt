-- ===== src/Store/ExtPaths/Complete.antt =====
-- About crates/evalhub-store/src/registry.rs: no leaf of a schema is left out of its paths.
use mathlib.Core.Path.{subst}
use evalhub.Base.{
  String, ◌≡◌, ◌↔◌, refl, ap, sym, ◌⊎◌, some, List, [], ◌∷◌, ◌++◌, inl, inr, str_eq, ◌>>=◌, arith,
  Bool-cases,
}
use evalhub.Base.Lists.{All}
use evalhub.Json.{
  Value, null, bool, number, string, array, object, Members, end, member, get, as_object,
}
use evalhub.Query.Ir.{ValueType}
use evalhub.Store.ExtPaths.{ExtPath, scalar_type, walk, walk_at, walk_object, walk_properties}
use evalhub.Store.ExtPaths.Laws.{
  properties_of, LeafOf, under, LeafAmong, leaf, nested, later, IsLeaf, append_one, walk_sound,
  LeafType-scalar_type,
}

-- The path stands in the list.
abbrev pub Has : ExtPath → List ExtPath → Type 0
Has e [] = ⊥
Has e (x ∷ xs) = (x ≡ e) ⊎ Has e xs

Has-left : (e : ExtPath) (xs ys : List ExtPath) → Has e xs → Has e (xs ++ ys)
Has-left e [] ys h = absurd h
Has-left e (x ∷ xs) ys (inl is) = inl is
Has-left e (x ∷ xs) ys (inr h) = inr (Has-left e xs ys h)

Has-right : (e : ExtPath) (xs ys : List ExtPath) → Has e ys → Has e (xs ++ ys)
Has-right e [] ys h = h
Has-right e (x ∷ xs) ys h = inr (Has-right e xs ys h)

Has-All : (P : ExtPath → Type 0) (e : ExtPath) (xs : List ExtPath) → All P xs → Has e xs → P e
Has-All P e [] h x = absurd x
Has-All P e (y ∷ xs) (h, hs) (inl is) = subst P is h
Has-All P e (y ∷ xs) (h, hs) (inr x) = Has-All P e xs hs x

walk_object-some :
    (v : Value) (ms : Members) (prefix : List String)
    → as_object v ≡ some ms
    → walk_object v prefix ≡ walk_properties ms prefix
unfolding walk_object
walk_object-some (object inner) ms prefix h =
    let is : inner ≡ ms = ground arith in ap (λ x. walk_properties x prefix) is
walk_object-some null ms prefix h = absurd (ground arith)
walk_object-some (bool b) ms prefix h = absurd (ground arith)
walk_object-some (number n) ms prefix h = absurd (ground arith)
walk_object-some (string s) ms prefix h = absurd (ground arith)
walk_object-some (array vs) ms prefix h = absurd (ground arith)

walk_at-some :
    (all ms : Members) (prefix : List String)
    → (get all "properties" >>= as_object) ≡ some ms
    → walk_at all prefix ≡ walk_properties ms prefix
unfolding walk_at get
walk_at-some end ms prefix h = absurd (ground arith)
walk_at-some (member key v all) ms prefix h = elim (Bool-cases (str_eq key "properties")) [
  | inl e ↦ rw e (walk_object-some v ms prefix (rw e at h))
  | inr e ↦ rw e (walk_at-some all ms prefix (rw e at h))
]

walk-some :
    (schema : Value) (ms : Members) (prefix : List String)
    → properties_of schema ≡ some ms
    → walk schema prefix ≡ walk_properties ms prefix
unfolding walk
walk-some (object all) ms prefix h = walk_at-some all ms prefix h
walk-some null ms prefix h = absurd (ground arith)
walk-some (bool b) ms prefix h = absurd (ground arith)
walk-some (number n) ms prefix h = absurd (ground arith)
walk-some (string s) ms prefix h = absurd (ground arith)
walk-some (array vs) ms prefix h = absurd (ground arith)

abbrev entry : List String → List String → ValueType → ExtPath
entry prefix keys ty = record { path = prefix ++ keys; ty = ty }

mutual
  unfolding walk_properties scalar_type

  walk_complete :
      {schema : Value} {keys : List String} {ty : ValueType} (prefix : List String)
      → LeafOf schema keys ty
      → Has (entry prefix keys ty) (walk schema prefix)
  walk_complete {schema} {keys} {ty} prefix (under ms is l) =
      subst (Has (entry prefix keys ty)) (sym (walk-some schema ms prefix is))
        (among_complete prefix l)

  among_complete :
      {ms : Members} {keys : List String} {ty : ValueType} (prefix : List String)
      → LeafAmong ms keys ty
      → Has (entry prefix keys ty) (walk_properties ms prefix)
  among_complete prefix (leaf is s) = rw (is, LeafType-scalar_type s) (inl refl)
  among_complete prefix (nested {name} {property} {ms} {keys} {ty} is l) = rw is (
      Has-left (entry prefix (name ∷ keys) ty) (walk property (prefix ++ (name ∷ [])))
        (walk_properties ms prefix)
        (subst (λ p. Has (record { path = p; ty = ty }) (walk property (prefix ++ (name ∷ []))))
          (append_one prefix name keys) (walk_complete (prefix ++ (name ∷ [])) l)))
  among_complete prefix (later {name} {property} {ms} {keys} {ty} l) =
      Has-right (entry prefix keys ty) _ (walk_properties ms prefix) (among_complete prefix l)

-- A path is among the indexable paths of a schema exactly when, behind the prefix, its keys lead
-- through properties that are objects to a leaf whose declared type is indexed as the path's: `number`
-- and `integer` as a number, `string` as a string, `boolean` as a boolean, and no other.
pub walk_iff :
    (schema : Value) (prefix : List String) (e : ExtPath)
    → Has e (walk schema prefix) ↔ IsLeaf schema prefix e
walk_iff schema prefix e = (
  Has-All (IsLeaf schema prefix) e (walk schema prefix) (walk_sound schema prefix),
  λ (keys, (at, l)).
      subst (λ p. Has (record { path = p; ty = e.ty }) (walk schema prefix)) (sym at)
        (walk_complete prefix l),
)
