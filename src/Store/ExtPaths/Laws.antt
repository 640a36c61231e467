-- ===== src/Store/ExtPaths/Laws.antt =====
-- About crates/evalhub-store/src/registry.rs: the leaves of a schema, and the paths that are listed.
use evalhub.Base.{
  String, ◌≡◌, refl, ap, ◌∙◌, Option, none, some, List, [], ◌∷◌, ◌++◌, inl, inr, str_eq, eq_iff,
  ◌>>=◌, arith, sym, ◌↔◌, true, Bool-cases, Option-cases,
}
use mathlib.Core.Path.{subst}
use evalhub.Base.Lists.{All, All-append}
use evalhub.Json.{
  Value, null, bool, number, string, array, object, Members, end, member, get, get_key, as_object,
}
use evalhub.Query.Ir.{ValueType}
use evalhub.Store.ExtPaths.{
  ExtPath, declared_type, scalar_type, by_type, walk, walk_at, walk_object, walk_properties,
}

abbrev pub properties_of : Value → Option Members
properties_of schema = get_key schema "properties" >>= as_object

-- The types of JSON Schema whose leaves have an index, and what they are indexed as.
pub data LeafType : String → ValueType → Type 0 where
  of_number : LeafType "number" ValueType.number
  of_integer : LeafType "integer" ValueType.number
  of_string : LeafType "string" ValueType.string
  of_boolean : LeafType "boolean" ValueType.boolean

-- The keys that lead to a leaf with an index, through properties that are objects.
mutual
  pub data LeafOf : Value → List String → ValueType → Type 0 where
    under :
        {schema : Value} {keys : List String} {ty : ValueType} (ms : Members)
        → properties_of schema ≡ some ms
        → LeafAmong ms keys ty
        → LeafOf schema keys ty

  pub data LeafAmong : Members → List String → ValueType → Type 0 where
    leaf :
        {name t : String} {property : Value} {ms : Members} {ty : ValueType}
        → declared_type property ≡ some t
        → LeafType t ty
        → LeafAmong (member name property ms) (name ∷ []) ty
    nested :
        {name : String} {property : Value} {ms : Members} {keys : List String} {ty : ValueType}
        → declared_type property ≡ some "object"
        → LeafOf property keys ty
        → LeafAmong (member name property ms) (name ∷ keys) ty
    later :
        {name : String} {property : Value} {ms : Members} {keys : List String} {ty : ValueType}
        → LeafAmong ms keys ty
        → LeafAmong (member name property ms) keys ty

scalar_type-LeafType : (t : String) (ty : ValueType) → scalar_type t ≡ some ty → LeafType t ty
unfolding scalar_type
scalar_type-LeafType t ty h = elim (Bool-cases (str_eq t "number")) [
  | inl a ↦ typed (eq_iff t "number") a (rw a at h) of_number
  | inr a ↦ elim (Bool-cases (str_eq t "integer")) [
    | inl b ↦ typed (eq_iff t "integer") b (rw (a, b) at h) of_integer
    | inr b ↦ elim (Bool-cases (str_eq t "string")) [
      | inl d ↦ typed (eq_iff t "string") d (rw (a, b, d) at h) of_string
      | inr d ↦ elim (Bool-cases (str_eq t "boolean")) [
        | inl f ↦ typed (eq_iff t "boolean") f (rw (a, b, d, f) at h) of_boolean
        | inr f ↦ absurd (ground arith)
      ]
    ]
  ]
]
  where
    typed :
        {name : String} {as' : ValueType}
        → (str_eq t name ≡ true) ↔ (t ≡ name)
        → str_eq t name ≡ true
        → some as' ≡ some ty
        → LeafType name as'
        → LeafType t ty
    typed {name} {as'} (to, from) e is l =
        let types : as' ≡ ty = ground arith in
        subst (λ n. LeafType n ty) (sym (to e)) (subst (LeafType name) types l)

pub LeafType-scalar_type : {t : String} {ty : ValueType} → LeafType t ty → scalar_type t ≡ some ty
unfolding scalar_type
LeafType-scalar_type of_number = refl
LeafType-scalar_type of_integer = refl
LeafType-scalar_type of_string = refl
LeafType-scalar_type of_boolean = refl

abbrev pub IsLeaf : Value → List String → ExtPath → Type 0
IsLeaf schema prefix e =
    (keys : List String) × ((e.path ≡ prefix ++ keys) × LeafOf schema keys e.ty)

abbrev pub IsAmong : Members → List String → ExtPath → Type 0
IsAmong ms prefix e = (keys : List String) × ((e.path ≡ prefix ++ keys) × LeafAmong ms keys e.ty)

All-weaken :
    (P Q : ExtPath → Type 0)
    → ((e : ExtPath) → P e → Q e)
    → (es : List ExtPath) → All P es
    → All Q es
All-weaken P Q f [] h = tt
All-weaken P Q f (e ∷ es) (h, hs) = (f e h, All-weaken P Q f es hs)

pub append_one :
    (prefix : List String) (name : String) (keys : List String)
    → (prefix ++ (name ∷ [])) ++ keys ≡ prefix ++ (name ∷ keys)
append_one [] name keys = refl
append_one (p ∷ prefix) name keys = ap (λ x. p ∷ x) (append_one prefix name keys)

by_type_sound :
    (name : String) (property : Value) (ms : Members) (prefix : List String) (o : Option String)
    (below : List ExtPath)
    → declared_type property ≡ o
    → All (IsLeaf property (prefix ++ (name ∷ []))) below
    → All (IsAmong (member name property ms) prefix) (by_type (prefix ++ (name ∷ [])) o below)
by_type_sound name property ms prefix none below is h = tt
by_type_sound name property ms prefix (some t) below is h = elim (Option-cases (scalar_type t)) [
  | inl n ↦ elim (Bool-cases (str_eq t "object")) [
    | inl o ↦
        let same : t ≡ "object" = ground (arith, eq_iff t "object") in
        rw (n, o)
          (All-weaken (IsLeaf property (prefix ++ (name ∷ [])))
            (IsAmong (member name property ms) prefix)
            (λ e (keys, (at, l)).
              (name ∷ keys, (at ∙ append_one prefix name keys, nested (is ∙ ap some same) l)))
            below h)
    | inr o ↦ rw (n, o) tt
  ]
  | inr (ty, s) ↦ rw s ((name ∷ [], (refl, leaf is (scalar_type-LeafType t ty s))), tt)
]

abbrev IsUnder : Option Members → List String → ExtPath → Type 0
IsUnder o prefix e = (ms : Members) × ((o ≡ some ms) × IsAmong ms prefix e)

mutual
  unfolding walk walk_at walk_object walk_properties get

  pub walk_sound :
      (schema : Value) (prefix : List String) → All (IsLeaf schema prefix) (walk schema prefix)
  walk_sound (object ms) prefix =
      All-weaken (IsUnder (get ms "properties" >>= as_object) prefix) (IsLeaf (object ms) prefix)
        (λ e (inner, (is, (keys, (at, l)))). (keys, (at, under inner is l))) (walk_at ms prefix)
        (walk_at_sound ms prefix)
  walk_sound null prefix = tt
  walk_sound (bool b) prefix = tt
  walk_sound (number n) prefix = tt
  walk_sound (string s) prefix = tt
  walk_sound (array vs) prefix = tt

  walk_at_sound :
      (ms : Members) (prefix : List String)
      → All (IsUnder (get ms "properties" >>= as_object) prefix) (walk_at ms prefix)
  walk_at_sound end prefix = tt
  walk_at_sound (member key v ms) prefix =
      let here = walk_object_sound v prefix in
      let others = walk_at_sound ms prefix in
      elim (Bool-cases (str_eq key "properties")) [ inl e ↦ rw e here | inr e ↦ rw e others ]

  walk_object_sound :
      (v : Value) (prefix : List String) → All (IsUnder (as_object v) prefix) (walk_object v prefix)
  walk_object_sound (object ms) prefix =
      All-weaken (IsAmong ms prefix) (IsUnder (some ms) prefix) (λ e h. (ms, (refl, h)))
        (walk_properties ms prefix) (walk_properties_sound ms prefix)
  walk_object_sound null prefix = tt
  walk_object_sound (bool b) prefix = tt
  walk_object_sound (number n) prefix = tt
  walk_object_sound (string s) prefix = tt
  walk_object_sound (array vs) prefix = tt

  walk_properties_sound :
      (ms : Members) (prefix : List String) → All (IsAmong ms prefix) (walk_properties ms prefix)
  walk_properties_sound end prefix = tt
  walk_properties_sound (member name property ms) prefix =
      All-append (IsAmong (member name property ms) prefix) _ _
        (by_type_sound name property ms prefix (declared_type property) _ refl
          (walk_sound property (prefix ++ (name ∷ []))))
        (All-weaken (IsAmong ms prefix) (IsAmong (member name property ms) prefix)
          (λ e (keys, (at, l)). (keys, (at, later l))) (walk_properties ms prefix)
          (walk_properties_sound ms prefix))
