-- ===== src/Store/Rows/Laws.antt =====
-- Lemmas on the statements of `Rows`.
use mathlib.Core.Option.{map as map_option}
use evalhub.Base.{
  ◌≡◌, refl, ap, Bool, true, false, none, some, List, [], ◌∷◌, ◌++◌, map, inl, inr, arith,
  if◌then◌else◌, Bool-cases,
}
use evalhub.Base.Lists.{find, All}
use evalhub.Store.Rows.{update_where, delete_where, select_where}

module _ {ℓ} {A : Type ℓ} where
  -- What an update makes of one row.
  abbrev pub applied : (A → Bool) → (A → A) → A → A
  applied p f x = if p x then f x else x

  -- A search that the update leaves in place.
  pub find-update_where :
      (q p : A → Bool) (f : A → A)
      → ((x : A) → q (applied p f x) ≡ q x)
      → (xs : List A) → find q (update_where p f xs) ≡ map_option (applied p f) (find q xs)
  unfolding update_where
  find-update_where q p f same [] = refl
  find-update_where q p f same (x ∷ xs) = elim (Bool-cases (q x)) [
    | inl holds ↦ rw (same x, holds) refl
    | inr fails ↦ rw (same x, fails) (find-update_where q p f same xs)
  ]

  pub All-update_where {κ} :
      (P : A → Type κ) (p : A → Bool) (f : A → A)
      → ((x : A) → P x → P (applied p f x))
      → (xs : List A) → All P xs
      → All P (update_where p f xs)
  unfolding update_where
  All-update_where P p f keep [] h = tt
  All-update_where P p f keep (x ∷ xs) (h, hs) = (keep x h, All-update_where P p f keep xs hs)

  pub All-delete_where {κ} :
      (P : A → Type κ) (p : A → Bool) (xs : List A) → All P xs → All P (delete_where p xs)
  unfolding delete_where
  All-delete_where P p [] h = tt
  All-delete_where P p (x ∷ xs) (h, hs) = elim (Bool-cases (p x)) [
    | inl holds ↦ rw holds (All-delete_where P p xs hs)
    | inr fails ↦ rw fails (h, All-delete_where P p xs hs)
  ]

  -- What is left was not to be deleted.
  pub All-not_deleted {κ} :
      (P Q : A → Type κ) (p : A → Bool)
      → ((x : A) → p x ≡ false → P x → Q x)
      → (xs : List A) → All P xs
      → All Q (delete_where p xs)
  unfolding delete_where
  All-not_deleted P Q p keep [] h = tt
  All-not_deleted P Q p keep (x ∷ xs) (h, hs) = elim (Bool-cases (p x)) [
    | inl holds ↦ rw holds (All-not_deleted P Q p keep xs hs)
    | inr fails ↦ rw fails (keep x fails h, All-not_deleted P Q p keep xs hs)
  ]

  pub All-map {κ ι} :
      (P : A → Type κ) (Q : A → Type ι)
      → ((x : A) → P x → Q x)
      → (xs : List A) → All P xs
      → All Q xs
  All-map P Q f [] h = tt
  All-map P Q f (x ∷ xs) (h, hs) = (f x h, All-map P Q f xs hs)

  pub find-append :
      (q : A → Bool) (xs ys : List A)
      → find q (xs ++ ys) ≡ elim (find q xs) [ some x ↦ some x | none ↦ find q ys ]
  find-append q [] ys = refl
  find-append q (x ∷ xs) ys = elim (Bool-cases (q x)) [
    | inl holds ↦ rw holds refl
    | inr fails ↦ rw fails (find-append q xs ys)
  ]

  pub find-true : (q : A → Bool) (xs : List A) (x : A) → find q xs ≡ some x → q x ≡ true
  find-true q [] x h = absurd (ground arith)
  find-true q (y ∷ xs) x h = elim (Bool-cases (q y)) [
    | inl holds ↦ ground arith
    | inr fails ↦ find-true q xs x (ground arith)
  ]

  pub find-All {κ} :
      (P : A → Type κ) (q : A → Bool) (xs : List A) (x : A) → find q xs ≡ some x → All P xs → P x
  find-All P q [] x h hs = absurd (ground arith)
  find-All P q (y ∷ xs) x h (p, ps) = elim (Bool-cases (q y)) [
    | inl holds ↦ let e : y ≡ x = ground arith in rw (← e) p
    | inr fails ↦ find-All P q xs x (ground arith) ps
  ]

  -- A projection of the rows of a selection, both left alone by the update.
  pub map-select_where-update_where {κ} :
      {B : Type κ} (g : A → B) (q p : A → Bool) (f : A → A)
      → ((x : A) → q (applied p f x) ≡ q x)
      → ((x : A) → q x ≡ true → g (applied p f x) ≡ g x)
      → (xs : List A) → map g (select_where q (update_where p f xs)) ≡ map g (select_where q xs)
  unfolding update_where select_where
  map-select_where-update_where g q p f same kept [] = refl
  map-select_where-update_where g q p f same kept (x ∷ xs) = elim (Bool-cases (q x)) [
    | inl holds ↦
        rw (same x, holds, kept x holds)
          (ap (λ r. g x ∷ r) (map-select_where-update_where g q p f same kept xs))
    | inr fails ↦ rw (same x, fails) (map-select_where-update_where g q p f same kept xs)
  ]

  pub select_where-append :
      (q : A → Bool) (xs ys : List A)
      → select_where q (xs ++ ys) ≡ select_where q xs ++ select_where q ys
  unfolding select_where
  select_where-append q [] ys = refl
  select_where-append q (x ∷ xs) ys = elim (Bool-cases (q x)) [
    | inl holds ↦ rw holds (ap (λ r. x ∷ r) (select_where-append q xs ys))
    | inr fails ↦ rw fails (select_where-append q xs ys)
  ]

  -- As above, where what holds before is another predicate.
  pub All-updated {κ ι} :
      (P : A → Type κ) (Q : A → Type ι) (p : A → Bool) (f : A → A)
      → ((x : A) → P x → Q (applied p f x))
      → (xs : List A) → All P xs
      → All Q (update_where p f xs)
  unfolding update_where
  All-updated P Q p f keep [] h = tt
  All-updated P Q p f keep (x ∷ xs) (h, hs) = (keep x h, All-updated P Q p f keep xs hs)

  pub All-both {κ ι} :
      (P : A → Type κ) (Q : A → Type ι) (xs : List A)
      → All P xs
      → All Q xs
      → All (λ x. P x × Q x) xs
  All-both P Q [] h k = tt
  All-both P Q (x ∷ xs) (h, hs) (k, ks) = ((h, k), All-both P Q xs hs ks)

pub All-mapped {ℓ κ ι} :
    {A : Type ℓ} {B : Type κ} (Q : B → Type ι) (g : A → B)
    → ((x : A) → Q (g x))
    → (xs : List A) → All Q (map g xs)
All-mapped Q g each [] = tt
All-mapped Q g each (x ∷ xs) = (each x, All-mapped Q g each xs)

pub All-select_where {ℓ κ ι} :
    {A : Type ℓ} (P : A → Type κ) (Q : A → Type ι) (q : A → Bool)
    → ((x : A) → q x ≡ true → P x → Q x)
    → (xs : List A) → All P xs
    → All Q (select_where q xs)
unfolding select_where
All-select_where P Q q keep [] h = tt
All-select_where P Q q keep (x ∷ xs) (h, hs) = elim (Bool-cases (q x)) [
  | inl holds ↦ rw holds (keep x holds h, All-select_where P Q q keep xs hs)
  | inr fails ↦ rw fails (All-select_where P Q q keep xs hs)
]
