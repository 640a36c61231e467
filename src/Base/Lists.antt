-- ===== src/Base/Lists.antt =====
-- Lists by native numbers, `iter().enumerate()` loops, and predicates on every element.
use Prim.Native.Nat.{ℕ, suc, ◌+◌}
use Prim.Native.String.{String}
use mathlib.Core.Path.{◌≡◌, refl}
use mathlib.Core.Logic.{◌↔◌}
use mathlib.Core.Bool.{Bool, true, false, ◌||◌}
use mathlib.Core.Option.{Option, none, some}
use mathlib.Core.List.{List, [], ◌∷◌, ◌++◌}
use native.Mathlib.Omega.{arith}
use text.Mathlib.Text.{◌==◌ as str_eq}
use evalhub.Base.Tests.{if◌then◌else◌}

module _ {ℓ} {A : Type ℓ} where
  abbrev pub length : List A → ℕ
  length [] = 0
  length (x ∷ xs) = suc (length xs)

  abbrev pub is_empty : List A → Bool
  is_empty [] = true
  is_empty (x ∷ xs) = false

  abbrev pub any : (A → Bool) → List A → Bool
  any p [] = false
  any p (x ∷ xs) = p x || any p xs

  abbrev pub find : (A → Bool) → List A → Option A
  find p [] = none
  find p (x ∷ xs) = if p x then some x else find p xs

  pub append-eq-nil : (xs ys : List A) → xs ++ ys ≡ [] → (xs ≡ []) × (ys ≡ [])
  append-eq-nil [] ys h = (refl, h)
  append-eq-nil (x ∷ xs) ys h = ground arith

  pub length-append : (xs ys : List A) → length (xs ++ ys) ≡ length xs + length ys
  length-append [] ys = omega arith
  length-append (x ∷ xs) ys = omega (arith, length-append xs ys)

abbrev pub opt_cons {ℓ} : {B : Type ℓ} → Option B → List B → List B
opt_cons none ys = ys
opt_cons (some y) ys = y ∷ ys

module _ {ℓ κ} {A : Type ℓ} {B : Type κ} where
  -- A loop over `iter().enumerate()` that appends what each round gives.
  unfoldable pub flat_map_from : ℕ → (ℕ → A → List B) → List A → List B
  flat_map_from i f [] = []
  flat_map_from i f (x ∷ xs) = f i x ++ flat_map_from (i + 1) f xs

  abbrev pub flat_map : (A → List B) → List A → List B
  flat_map f [] = []
  flat_map f (x ∷ xs) = f x ++ flat_map f xs

  abbrev pub filter_map : (A → Option B) → List A → List B
  filter_map f [] = []
  filter_map f (x ∷ xs) = opt_cons (f x) (filter_map f xs)

module _ {ℓ κ} {A : Type ℓ} (P : A → Type κ) where
  abbrev pub All : List A → Type κ
  All [] = Unit
  All (x ∷ xs) = P x × All xs

  pub All-append : (xs ys : List A) → All xs → All ys → All (xs ++ ys)
  All-append [] ys hx hy = hy
  All-append (x ∷ xs) ys hx hy = (hx.0, All-append xs ys hx.1 hy)

module _ {ℓ κ ι} {A : Type ℓ} {B : Type κ} (P : B → Type ι) where
  pub All-flat_map_from :
      (f : ℕ → A → List B)
      → ((i : ℕ) (x : A) → All P (f i x))
      → (i : ℕ) (xs : List A) → All P (flat_map_from i f xs)
  unfolding flat_map_from
  All-flat_map_from f h i [] = tt
  All-flat_map_from f h i (x ∷ xs) =
      All-append P (f i x) (flat_map_from (i + 1) f xs) (h i x) (All-flat_map_from f h (i + 1) xs)

  pub All-flat_map :
      (f : A → List B) → ((x : A) → All P (f x)) → (xs : List A) → All P (flat_map f xs)
  All-flat_map f h [] = tt
  All-flat_map f h (x ∷ xs) = All-append P (f x) (flat_map f xs) (h x) (All-flat_map f h xs)

-- `contains` on a list or a set of texts.
unfoldable pub contains : List String → String → Bool
contains [] s = false
contains (x ∷ xs) s = str_eq x s || contains xs s

pub append-eq-nil_iff {ℓ} :
    {A : Type ℓ} (xs ys : List A) → (xs ++ ys ≡ []) ↔ ((xs ≡ []) × (ys ≡ []))
append-eq-nil_iff [] ys = (λ h. (refl, h), λ h. h.1)
append-eq-nil_iff (x ∷ xs) ys = (λ h. absurd (ground arith), λ h. absurd (ground arith))

-- Loops append nothing exactly when no round does.
module _ {ℓ κ ι} {A : Type ℓ} {B : Type κ} (P : A → Type ι) where
  pub flat_map_from-eq-nil_iff :
      (f : ℕ → A → List B)
      → ((i : ℕ) (x : A) → (f i x ≡ []) ↔ P x)
      → (i : ℕ) (xs : List A) → (flat_map_from i f xs ≡ []) ↔ All P xs
  unfolding flat_map_from
  flat_map_from-eq-nil_iff f h i [] = (λ e. tt, λ p. refl)
  flat_map_from-eq-nil_iff f h i (x ∷ xs) =
      let (to, from) = append-eq-nil_iff (f i x) (flat_map_from (i + 1) f xs) in
      let (to', from') = flat_map_from-eq-nil_iff f h (i + 1) xs in
      (λ e. ((h i x).0 (to e).0, to' (to e).1), λ p. from ((h i x).1 p.0, from' p.1))

  pub flat_map-eq-nil_iff :
      (f : A → List B)
      → ((x : A) → (f x ≡ []) ↔ P x)
      → (xs : List A) → (flat_map f xs ≡ []) ↔ All P xs
  flat_map-eq-nil_iff f h [] = (λ e. tt, λ p. refl)
  flat_map-eq-nil_iff f h (x ∷ xs) =
      let (to, from) = append-eq-nil_iff (f x) (flat_map f xs) in
      let (to', from') = flat_map-eq-nil_iff f h xs in
      (λ e. ((h x).0 (to e).0, to' (to e).1), λ p. from ((h x).1 p.0, from' p.1))

pub ×_iff {ℓ κ ι ο} :
    {A : Type ℓ} {B : Type κ} {C : Type ι} {D : Type ο} → A ↔ C → B ↔ D → (A × B) ↔ (C × D)
×_iff f g = (λ p. (f.0 p.0, g.0 p.1), λ p. (f.1 p.0, g.1 p.1))

pub ↔_trans {ℓ κ ι} : {A : Type ℓ} {B : Type κ} {C : Type ι} → A ↔ B → B ↔ C → A ↔ C
↔_trans f g = (λ a. g.0 (f.0 a), λ c. f.1 (g.1 c))
