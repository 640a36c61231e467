-- ===== src/Query/Check/Sound/Steps.antt =====
-- About crates/evalhub-query/src/typecheck.rs: the steps of a check with a node and no problem.
use evalhub.Base.{◌≡◌, refl, ap, Option, none, some, List, [], ◌∷◌, arith}
use evalhub.Base.Lists.{append-eq-nil}
use evalhub.Schema.{ErrorEntry}
use evalhub.Query.Ir
use evalhub.Query.Check.Terms.{Checked, unless_pushed, both_some}
use evalhub.Query.Check.Filters.{map_checked, then_checked, both_filters}

abbrev pub clean {ℓ} : {A : Type ℓ} → A → Checked A
clean a = (some a, [])

module _ {ℓ} {A : Type ℓ} where
  pub some_inj : (a b : A) → some a ≡ some b → a ≡ b
  some_inj a b h = ground arith

  pub clean_inj : (a b : A) → clean a ≡ clean b → a ≡ b
  clean_inj a b h = some_inj a b (ap (λ x. x.0) h)

  pub unless_pushed-clean :
      (a b : A) (errors : List ErrorEntry)
      → unless_pushed a errors ≡ clean b
      → (errors ≡ []) × (a ≡ b)
  unless_pushed-clean a b [] h = (refl, clean_inj a b h)
  unless_pushed-clean a b (e ∷ errors) h = absurd (ground arith)

  pub clean_of : (x : Checked A) (a : A) → x.0 ≡ some a → x.1 ≡ [] → x ≡ clean a
  clean_of (o, errors) a h k = rw (h, k) refl

module _ {ℓ κ} {A : Type ℓ} {B : Type κ} where
  pub map_checked-clean :
      (f : A → B) (x : Checked A) (b : B)
      → map_checked f x ≡ clean b
      → (a : A) × ((x ≡ clean a) × (f a ≡ b))
  map_checked-clean f (none, errors) b h = absurd (ground arith)
  map_checked-clean f (some a, errors) b h =
      (a, (ap (λ y. (some a, y.1)) h, some_inj (f a) b (ap (λ y. y.0) h)))

  pub then_checked-clean :
      (f : A → Checked B) (x : Checked A) (b : B)
      → then_checked x f ≡ clean b
      → (a : A) × ((x ≡ clean a) × (f a ≡ clean b))
  then_checked-clean f (none, errors) b h = absurd (ground arith)
  then_checked-clean f (some a, errors) b h =
      let (left, right) = append-eq-nil errors (f a).1 (ap (λ y. y.1) h) in
      (a, (ap (λ y. (some a, y)) left, clean_of (f a) b (ap (λ y. y.0) h) right))

pub both_filters-some :
    (o : Option Ir.Filter) (os : Option Ir.Filters) (gs : Ir.Filters)
    → both_filters o os ≡ some gs
    → (g : Ir.Filter) × ((rest : Ir.Filters) × ((o ≡ some g)
          × ((os ≡ some rest) × (Ir.Filters.cons g rest ≡ gs))))
both_filters-some none os gs h = absurd (ground arith)
both_filters-some (some g) none gs h = absurd (ground arith)
both_filters-some (some g) (some rest) gs h =
    (g, (rest, (refl, (refl, some_inj (Ir.Filters.cons g rest) gs h))))

pub both_some-some {ℓ} :
    {A : Type ℓ} (o : Option A) (os : Option (List A)) (bs : List A)
    → both_some o os ≡ some bs
    → (a : A) × ((rest : List A) × ((o ≡ some a) × ((os ≡ some rest) × (a ∷ rest ≡ bs))))
both_some-some none os bs h = absurd (ground arith)
both_some-some (some a) none bs h = absurd (ground arith)
both_some-some (some a) (some rest) bs h = (a, (rest, (refl, (refl, some_inj (a ∷ rest) bs h))))
