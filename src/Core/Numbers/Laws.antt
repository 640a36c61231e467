-- ===== src/Core/Numbers/Laws.antt =====
-- About crates/evalhub-core/src/validate.rs: the numbers that a double carries.
use native.Mathlib.Nat.{
  mul-mod_left, le_of_mul-le-mul_right, mul-le-mul_right, div-add-mod', one-le-pow,
}
use evalhub.Base.{
  ap, ◌∙◌, ==_iff, ◌&&◌, ℕ, ◌+◌, ◌*◌, ◌/◌, ◌%◌, ◌^◌, ◌≤◌, ◌<◌, String, ◌≡◌, refl, ◌↔◌, true, false,
  [], arith, inl, inr, Bool-cases, ltb, ◌==◌,
}
use evalhub.Base.Lists.{append-eq-nil}
use evalhub.Base.Text.{◌+++◌}
use evalhub.Base.Decimal.{decimal}
use evalhub.Json.{
  Float, Number, pos_int, neg_int, float, Value, number, array, object, Items, nil, cons, Members,
  end, member,
}
use evalhub.Core.Report.{escape_pointer}
use evalhub.Core.Numbers.{max_safe_integer, too_large, numbers, numbers_items, numbers_members}

-- The double has the absolute value `q`.
abbrev pub IsAbs : Float → ℕ → Type 0
IsAbs f q = elim f.scaled_down [
  | true ↦ f.mantissa ≡ q * 2 ^ f.exponent
  | false ↦ q ≡ f.mantissa * 2 ^ f.exponent
]

-- If it is an integer, its absolute value is at most 2^53.
abbrev pub Fits : Number → Type 0
Fits (pos_int n) = n ≤ max_safe_integer
Fits (neg_int n) = n + 1 ≤ max_safe_integer
Fits (float f) = (q : ℕ) → IsAbs f q → q ≤ max_safe_integer

unfoldable mutual
  pub AllFit : Value → Type 0
  AllFit (number n) = Fits n
  AllFit (array vs) = AllFitItems vs
  AllFit (object ms) = AllFitMembers ms
  AllFit _ = Unit

  pub AllFitItems : Items → Type 0
  AllFitItems nil = Unit
  AllFitItems (cons v vs) = AllFit v × AllFitItems vs

  pub AllFitMembers : Members → Type 0
  AllFitMembers end = Unit
  AllFitMembers (member k v ms) = AllFit v × AllFitMembers ms

scaled_fits :
    (m d q : ℕ)
    → 0 < d
    → (m % d == 0 && ltb (max_safe_integer * d) m) ≡ false
    → m ≡ q * d
    → q ≤ max_safe_integer
scaled_fits m d q pos h e =
    let whole : m % d ≡ 0 = ap (λ t. t % d) e ∙ mul-mod_left q d in
    let small : m ≤ max_safe_integer * d = ground (arith, whole) in
    le_of_mul-le-mul_right {m = q} {n = max_safe_integer} {k = d} (rw e at small) pos

scaled_ok :
    (m d : ℕ)
    → ((q : ℕ) → m ≡ q * d → q ≤ max_safe_integer)
    → (m % d == 0 && ltb (max_safe_integer * d) m) ≡ false
scaled_ok m d h = elim (Bool-cases (m % d == 0)) [
  | inl whole ↦
      let exact : m ≡ m / d * d = omega (arith, div-add-mod' m d, (==_iff (m % d) 0).0 whole) in
      let small = mul-le-mul_right {m = m / d} {n = max_safe_integer} d (h (m / d) exact) in
      rw whole (ground (arith, small, exact))
  | inr part ↦ rw part
]

float-Fits : (f : Float) → too_large (float f) ≡ false → Fits (float f)
unfolding too_large
float-Fits f h q e = elim (Bool-cases f.scaled_down) [
  | inl down ↦
      scaled_fits f.mantissa (2 ^ f.exponent) q (one-le-pow f.exponent 2 (omega arith))
        (rw down at h) (rw down at e)
  | inr up ↦
      let same : q ≡ f.mantissa * 2 ^ f.exponent = rw up at e in
      let at : ltb max_safe_integer (f.mantissa * 2 ^ f.exponent) ≡ false = rw up at h in
      ground (arith, same, at)
]

float_ok : (f : Float) → Fits (float f) → too_large (float f) ≡ false
unfolding too_large
float_ok f h = elim (Bool-cases f.scaled_down) [
  | inl down ↦ rw down (scaled_ok f.mantissa (2 ^ f.exponent) (λ q e. h q (rw down e)))
  | inr up ↦
      let at : f.mantissa * 2 ^ f.exponent ≤ max_safe_integer =
        h (f.mantissa * 2 ^ f.exponent) (rw up) in
      rw up (ground (arith, at))
]

too_large-eq-false_iff : (n : Number) → (too_large n ≡ false) ↔ Fits n
unfolding too_large
too_large-eq-false_iff (pos_int n) = ground arith
too_large-eq-false_iff (neg_int n) = ground arith
too_large-eq-false_iff (float f) = (float-Fits f, float_ok f)

mutual
  unfolding numbers AllFit

  numbers_fit : (path : String) (v : Value) → numbers path v ≡ [] → AllFit v
  numbers_fit path (number n) h = (too_large-eq-false_iff n).0 (ground arith)
  numbers_fit path (array vs) h = items_fit path 0 vs h
  numbers_fit path (object ms) h = members_fit path ms h
  numbers_fit path _ h = tt

  items_fit : (path : String) (i : ℕ) (vs : Items) → numbers_items path i vs ≡ [] → AllFitItems vs
  items_fit path i nil h = tt
  items_fit path i (cons v vs) h =
      let (here, later) =
        append-eq-nil (numbers (path +++ "/" +++ decimal i) v) (numbers_items path (i + 1) vs) h in
      (numbers_fit (path +++ "/" +++ decimal i) v here, items_fit path (i + 1) vs later)

  members_fit : (path : String) (ms : Members) → numbers_members path ms ≡ [] → AllFitMembers ms
  members_fit path end h = tt
  members_fit path (member k v ms) h =
      let (here, later) =
        append-eq-nil (numbers (path +++ "/" +++ escape_pointer k) v) (numbers_members path ms) h in
      (numbers_fit (path +++ "/" +++ escape_pointer k) v here, members_fit path ms later)

mutual
  unfolding numbers AllFit

  numbers_none : (path : String) (v : Value) → AllFit v → numbers path v ≡ []
  numbers_none path (number n) h = rw ((too_large-eq-false_iff n).1 h)
  numbers_none path (array vs) h = items_none path 0 vs h
  numbers_none path (object ms) h = members_none path ms h
  numbers_none path _ h = refl

  items_none : (path : String) (i : ℕ) (vs : Items) → AllFitItems vs → numbers_items path i vs ≡ []
  items_none path i nil h = refl
  items_none path i (cons v vs) h =
      rw (numbers_none (path +++ "/" +++ decimal i) v h.0) (items_none path (i + 1) vs h.1)

  members_none : (path : String) (ms : Members) → AllFitMembers ms → numbers_members path ms ≡ []
  members_none path end h = refl
  members_none path (member k v ms) h =
      rw (numbers_none (path +++ "/" +++ escape_pointer k) v h.0) (members_none path ms h.1)

-- No entry is reported exactly when every number in the value fits: an integer, however it was
-- written, has an absolute value of at most 2^53.
pub numbers-eq-nil_iff : (path : String) (v : Value) → (numbers path v ≡ []) ↔ AllFit v
numbers-eq-nil_iff path v = (numbers_fit path v, numbers_none path v)
