-- ===== src/Core/Report/Order.antt =====
-- About crates/evalhub-core/src/validate.rs: the order of the entries and `sort`.
use Prim.Native.Nat.{Ordering}
use Prim.Native.String.{[], ◌∷◌}
use mathlib.Core.List.{List, [], ◌∷◌, Perm}
use mathlib.Core.List.Perm
use evalhub.Base.{◌≡◌, ◌≢◌, ◌↔◌, ◌⊎◌, ◌≤◌, true, false, arith, inl, inr, Bool-cases}
use evalhub.Base.Text.{cmp, is_gt}
use evalhub.Base.Text.Order.{Ordering-cases, cmp_asymm, cmp_path, cmp_refl, cmp_trans}
use evalhub.Base.Lists.{All}
use evalhub.Schema.{ErrorEntry}
use evalhub.Schema.Codes.{as_u8}
use evalhub.Core.Report.{entry_cmp, insert_entry, sort}

-- `a` may stand before `b`, as the code compares them.
abbrev LeEntry : ErrorEntry → ErrorEntry → Type 0
LeEntry a b = is_gt (entry_cmp a b) ≡ false

-- `a` may stand before `b`: its path is less, byte by byte, or the paths are one and its code is not
-- declared later.
abbrev pub InPlace : ErrorEntry → ErrorEntry → Type 0
InPlace a b =
    (cmp a.path b.path ≡ Ordering.lt) ⊎ ((a.path ≡ b.path) × (as_u8 a.code ≤ as_u8 b.code))

abbrev pub IsSorted : List ErrorEntry → Type 0
IsSorted [] = Unit
IsSorted (e ∷ es) = All (InPlace e) es × IsSorted es

LeEntry-InPlace : (a b : ErrorEntry) → LeEntry a b → InPlace a b
unfolding entry_cmp
LeEntry-InPlace a b h = elim (Ordering-cases (cmp a.path b.path)) [
  | inl (inl below) ↦ inl below
  | inl (inr same) ↦
      let codes : as_u8 a.code ≤ as_u8 b.code = ground arith in
      inr (cmp_path a.path b.path same, codes)
  | inr above ↦ absurd (ground arith)
]

-- The same, as the code compares.
abbrev Ascends : List ErrorEntry → Type 0
Ascends [] = Unit
Ascends (e ∷ es) = All (LeEntry e) es × Ascends es

All-InPlace : (e : ErrorEntry) (es : List ErrorEntry) → All (LeEntry e) es → All (InPlace e) es
All-InPlace e [] h = tt
All-InPlace e (x ∷ es) (h, hs) = (LeEntry-InPlace e x h, All-InPlace e es hs)

Ascends-IsSorted : (es : List ErrorEntry) → Ascends es → IsSorted es
Ascends-IsSorted [] h = tt
Ascends-IsSorted (e ∷ es) (h, hs) = (All-InPlace e es h, Ascends-IsSorted es hs)

LeEntry-total : (a b : ErrorEntry) → is_gt (entry_cmp a b) ≡ true → LeEntry b a
unfolding entry_cmp
LeEntry-total a b h = elim (Ordering-cases (cmp a.path b.path)) [
  | inl (inl below) ↦ absurd (ground arith)
  | inl (inr same) ↦
      let paths : a.path ≡ b.path = cmp_path a.path b.path same in
      let back : cmp b.path a.path ≡ Ordering.eq = rw paths (cmp_refl b.path) in ground arith
  | inr above ↦ ground (arith, cmp_asymm a.path b.path)
]

LeEntry-trans : (a b c : ErrorEntry) → LeEntry a b → LeEntry b c → LeEntry a c
unfolding entry_cmp
LeEntry-trans a b c h k = elim (Ordering-cases (cmp a.path b.path)) [
  | inl (inl below) ↦ elim (Ordering-cases (cmp b.path c.path)) [
    | inl (inl further) ↦ ground (arith, cmp_trans a.path b.path c.path)
    | inl (inr same) ↦ rw (← cmp_path b.path c.path same, below)
    | inr above ↦ absurd (ground arith)
  ]
  | inl (inr same) ↦ rw (cmp_path a.path b.path same) (let at = rw same at h in ground arith)
  | inr above ↦ absurd (ground arith)
]

insert_entry-All {ℓ} :
    (P : ErrorEntry → Type ℓ) (e : ErrorEntry) (es : List ErrorEntry)
    → P e
    → All P es
    → All P (insert_entry e es)
unfolding insert_entry
insert_entry-All P e [] h hs = (h, tt)
insert_entry-All P e (y ∷ es) h hs = elim (Bool-cases (is_gt (entry_cmp e y))) [
  | inl later ↦ rw later (hs.0, insert_entry-All P e es h hs.1)
  | inr here ↦ rw here (h, hs)
]

All-LeEntry-trans :
    (e x : ErrorEntry) (xs : List ErrorEntry)
    → LeEntry e x
    → All (LeEntry x) xs
    → All (LeEntry e) xs
All-LeEntry-trans e x [] h hs = tt
All-LeEntry-trans e x (y ∷ xs) h hs = (LeEntry-trans e x y h hs.0, All-LeEntry-trans e x xs h hs.1)

insert_entry-Ascends :
    (e : ErrorEntry) (es : List ErrorEntry) → Ascends es → Ascends (insert_entry e es)
unfolding insert_entry
insert_entry-Ascends e [] h = (tt, tt)
insert_entry-Ascends e (x ∷ es) h = elim (Bool-cases (is_gt (entry_cmp e x))) [
  | inl later ↦ rw later (
    insert_entry-All (LeEntry x) e es (LeEntry-total e x later) h.0,
    insert_entry-Ascends e es h.1,
  )
  | inr here ↦ rw here ((here, All-LeEntry-trans e x es here h.0), h)
]

sort-Ascends : (es : List ErrorEntry) → Ascends (sort es)
unfolding sort
sort-Ascends [] = tt
sort-Ascends (e ∷ es) = insert_entry-Ascends e (sort es) (sort-Ascends es)

pub sort-IsSorted : (es : List ErrorEntry) → IsSorted (sort es)
sort-IsSorted es = Ascends-IsSorted (sort es) (sort-Ascends es)

insert_entry-perm : (e : ErrorEntry) (es : List ErrorEntry) → Perm (insert_entry e es) (e ∷ es)
unfolding insert_entry
insert_entry-perm e [] = Perm.refl (e ∷ [])
insert_entry-perm e (x ∷ es) = elim (Bool-cases (is_gt (entry_cmp e x))) [
  | inl later ↦ rw later (Perm.trans (Perm.cons x (insert_entry-perm e es)) (Perm.swap e x es))
  | inr here ↦ rw here (Perm.refl (e ∷ x ∷ es))
]

pub sort-perm : (es : List ErrorEntry) → Perm (sort es) es
unfolding sort
sort-perm [] = Perm.refl []
sort-perm (e ∷ es) = Perm.trans (insert_entry-perm e (sort es)) (Perm.cons e (sort-perm es))

insert_entry-ne-nil : (e : ErrorEntry) (es : List ErrorEntry) → insert_entry e es ≢ []
unfolding insert_entry
insert_entry-ne-nil e [] h = cc
insert_entry-ne-nil e (x ∷ es) h = elim (Bool-cases (is_gt (entry_cmp e x))) [
  | inl later ↦ cc (rw later at h)
  | inr here ↦ cc (rw here at h)
]

pub sort-eq-nil_iff : (es : List ErrorEntry) → (sort es ≡ []) ↔ (es ≡ [])
unfolding sort
sort-eq-nil_iff [] = (λ h. h, λ h. h)
sort-eq-nil_iff (e ∷ es) = (λ h. absurd (insert_entry-ne-nil e (sort es) h), λ h. cc)

-- Sorting keeps what holds of every entry.
pub sort-All {ℓ} : (P : ErrorEntry → Type ℓ) (es : List ErrorEntry) → All P es → All P (sort es)
unfolding sort
sort-All P [] h = tt
sort-All P (e ∷ es) h = insert_entry-All P e (sort es) h.0 (sort-All P es h.1)
