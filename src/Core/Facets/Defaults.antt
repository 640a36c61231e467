-- ===== src/Core/Facets/Defaults.antt =====
-- About crates/evalhub-core/src/run.rs: `materialise`, key by key.
use evalhub.Base.{
  String, ◌≡◌, refl, ap, sym, ◌∙◌, false, Option, none, some, List, [], ◌∷◌, inl, inr, str_eq,
  eq_iff, eq_refl, arith, Bool-cases, Option-cases, if◌then◌else◌,
}
use evalhub.Base.Lists.{All}
use evalhub.Json.{Value, Members, end, member, get, get_key, insert}
use evalhub.Schema.{eval}
use evalhub.Core.Facets.{
  Facet, model, task, harness, generation, trial, env, for_kind, facet_str, unless_null,
  take_default, take_defaults, materialise,
}

pub get-insert-same : (ms : Members) (key : String) (v : Value) → get (insert ms key v) key ≡ some v
unfolding get insert
get-insert-same end key v = rw (eq_refl key) refl
get-insert-same (member k w ms) key v = elim (Bool-cases (str_eq k key)) [
  | inl e ↦ rw (e, e) refl
  | inr e ↦ rw (e, e) (get-insert-same ms key v)
]

pub get-insert-other :
    (ms : Members) (key other : String) (v : Value)
    → str_eq key other ≡ false
    → get (insert ms key v) other ≡ get ms other
unfolding get insert
get-insert-other end key other v h = rw h refl
get-insert-other (member k w ms) key other v h = elim (Bool-cases (str_eq k key)) [
  | inl e ↦
      let same : k ≡ key = ground (arith, eq_iff k key) in
      let apart : str_eq k other ≡ false = rw same h in rw (e, apart) refl
  | inr e ↦ elim (Bool-cases (str_eq k other)) [
    | inl x ↦ rw (e, x) refl
    | inr x ↦ rw (e, x) (get-insert-other ms key other v h)
  ]
]

-- The value of a key: the run's own, else the header's unless that is null.
abbrev pub own_or_default : Option Value → Option Value → Option Value
own_or_default (some v) default = some v
own_or_default none default = default

take_default-same :
    (header : Value) (run : Members) (key : String)
    → get (take_default header run key) key
      ≡ own_or_default (get run key) (unless_null (get_key header key))
unfolding take_default
take_default-same header run key = elim (Option-cases (get run key)) [
  | inl n ↦ elim (Option-cases (unless_null (get_key header key))) [
    | inl d ↦ rw (n, d) n
    | inr (v, d) ↦ rw (n, d) (get-insert-same run key v)
  ]
  | inr (v, s) ↦ rw s s
]

take_default-other :
    (header : Value) (run : Members) (key other : String)
    → str_eq key other ≡ false
    → get (take_default header run key) other ≡ get run other
unfolding take_default
take_default-other header run key other h = elim (Option-cases (get run key)) [
  | inl n ↦ elim (Option-cases (unless_null (get_key header key))) [
    | inl d ↦ rw (n, d) refl
    | inr (v, d) ↦ rw (n, d) (get-insert-other run key other v h)
  ]
  | inr (v, s) ↦ rw s refl
]

names : List Facet → List String
names [] = []
names (f ∷ fs) = facet_str f ∷ names fs

abbrev pub default_of : Value → List Facet → String → Option Value
default_of header [] key = none
default_of header (f ∷ fs) key =
    if str_eq (facet_str f) key then unless_null (get_key header key) else default_of header fs key

own_default_idem :
    (o d e : Option Value)
    → own_or_default (own_or_default o d) e ≡ own_or_default o (own_or_default d e)
own_default_idem (some v) d e = refl
own_default_idem none d e = refl

default_again :
    (header : Value) (fs : List Facet) (key : String)
    → own_or_default (unless_null (get_key header key)) (default_of header fs key)
      ≡ unless_null (get_key header key)
default_again header [] key = elim (Option-cases (unless_null (get_key header key))) [
  | inl n ↦ rw n refl
  | inr (v, s) ↦ rw s refl
]
default_again header (f ∷ fs) key = elim (Bool-cases (str_eq (facet_str f) key)) [
  | inl e ↦ rw e (elim (Option-cases (unless_null (get_key header key))) [
    | inl n ↦ rw n refl
    | inr (v, s) ↦ rw s refl
  ])
  | inr e ↦ rw e (default_again header fs key)
]

take_defaults-get :
    (header : Value) (fs : List Facet) (run : Members) (key : String)
    → get (take_defaults header fs run) key
      ≡ own_or_default (get run key) (default_of header fs key)
unfolding take_defaults
take_defaults-get header [] run key = elim (Option-cases (get run key)) [
  | inl n ↦ rw n refl
  | inr (v, s) ↦ rw s refl
]
take_defaults-get header (f ∷ fs) run key = elim (Bool-cases (str_eq (facet_str f) key)) [
  | inl e ↦
      let same : facet_str f ≡ key = ground (arith, eq_iff (facet_str f) key) in
      let ih = take_defaults-get header fs (take_default header run (facet_str f)) key in
      let this : get (take_default header run (facet_str f)) key
          ≡ own_or_default (get run key) (unless_null (get_key header key)) =
        rw same (take_default-same header run key) in
      rw e (
        ih
        ∙ (ap (λ o. own_or_default o (default_of header fs key)) this
            ∙ (own_default_idem (get run key) (unless_null (get_key header key))
                  (default_of header fs key)
                ∙ ap (own_or_default (get run key)) (default_again header fs key))))
  | inr e ↦ rw e (
      take_defaults-get header fs (take_default header run (facet_str f)) key
      ∙ ap (λ o. own_or_default o (default_of header fs key))
          (take_default-other header run (facet_str f) key e))
]

-- A round for the facet changes nothing any more.
abbrev IsSettled : Value → Members → Facet → Type 0
IsSettled header run f =
    get run (facet_str f)
    ≡ own_or_default (get run (facet_str f)) (unless_null (get_key header (facet_str f)))

settled_round :
    (header : Value) (run : Members) (f : Facet)
    → IsSettled header run f
    → take_default header run (facet_str f) ≡ run
unfolding take_default
settled_round header run f h = elim (Option-cases (get run (facet_str f))) [
  | inl n ↦ elim (Option-cases (unless_null (get_key header (facet_str f)))) [
    | inl d ↦ rw (n, d) refl
    | inr (v, d) ↦ absurd (ground arith)
  ]
  | inr (v, s) ↦ rw s refl
]

settled_loop :
    (header : Value) (fs : List Facet) (run : Members)
    → All (IsSettled header run) fs
    → take_defaults header fs run ≡ run
unfolding take_defaults
settled_loop header [] run h = refl
settled_loop header (f ∷ fs) run (h, more) =
    rw (settled_round header run f h) (settled_loop header fs run more)

loop_settles :
    (header : Value) (fs : List Facet) (run : Members) (f : Facet)
    → default_of header fs (facet_str f) ≡ unless_null (get_key header (facet_str f))
    → IsSettled header (take_defaults header fs run) f
loop_settles header fs run f h =
    let is = take_defaults-get header fs run (facet_str f) in
    let d = unless_null (get_key header (facet_str f)) in
    let o = get run (facet_str f) in
    let done : get (take_defaults header fs run) (facet_str f) ≡ own_or_default o d =
      is ∙ ap (own_or_default o) h in
    done ∙ (sym (twice o d) ∙ ap (λ x. own_or_default x d) (sym done))
  where
    twice : (o d : Option Value) → own_or_default (own_or_default o d) d ≡ own_or_default o d
    twice (some v) d = refl
    twice none none = refl
    twice none (some v) = refl

for_kind-IsSettled :
    (header : Value) (run : Members)
    → All (IsSettled header (take_defaults header (for_kind eval) run)) (for_kind eval)
unfolding for_kind facet_str
for_kind-IsSettled header run = (
  s model refl,
  (s task refl, (s harness refl, (s generation refl, (s trial refl, (s env refl, tt))))),
)
  where
    s :
        (f : Facet)
        → default_of header (for_kind eval) (facet_str f)
          ≡ unless_null (get_key header (facet_str f))
        → IsSettled header (take_defaults header (for_kind eval) run) f
    s f h = loop_settles header (for_kind eval) run f h

-- Materialising a run a second time from the same header changes nothing.
pub materialise_idempotent :
    (run header : Value) → materialise (materialise run header) header ≡ materialise run header
unfolding materialise
materialise_idempotent (Value.object run) header = ap Value.object (
    settled_loop header (for_kind eval) (take_defaults header (for_kind eval) run)
      (for_kind-IsSettled header run))
materialise_idempotent Value.null header = refl
materialise_idempotent (Value.bool b) header = refl
materialise_idempotent (Value.number n) header = refl
materialise_idempotent (Value.string s) header = refl
materialise_idempotent (Value.array vs) header = refl
