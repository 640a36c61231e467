-- ===== src/Base/Text/Order.antt =====
-- Lemmas on the order of texts.
use Prim.Native.Nat.{Ordering}
use Prim.Native.String.{String, [], ◌∷◌}
use text.Mathlib.TextEquality.{Char-path}
use mathlib.Core.Path.{◌≡◌, refl}
use mathlib.Core.Logic.{◌⊎◌, inl, inr}
use mathlib.Core.Bool.{true}
use native.Mathlib.Omega.{arith}
use evalhub.Base.Text.{cmp, is_gt}

pub Ordering-cases : (o : Ordering) → ((o ≡ Ordering.lt) ⊎ (o ≡ Ordering.eq)) ⊎ (o ≡ Ordering.gt)
Ordering-cases Ordering.lt = inl (inl refl)
Ordering-cases Ordering.eq = inl (inr refl)
Ordering-cases Ordering.gt = inr refl

pub cmp_asymm : (s t : String) → is_gt (cmp s t) ≡ true → cmp t s ≡ Ordering.lt
unfolding cmp
cmp_asymm [] [] h = cc
cmp_asymm [] (b ∷ t) h = cc
cmp_asymm (a ∷ s) [] h = refl
cmp_asymm (a ∷ s) (b ∷ t) h = ground (arith, cmp_asymm s t)

pub cmp_path : (s t : String) → cmp s t ≡ Ordering.eq → s ≡ t
unfolding cmp
cmp_path [] [] h = refl
cmp_path [] (b ∷ t) h = cc
cmp_path (a ∷ s) [] h = cc
cmp_path (a ∷ s) (b ∷ t) h =
    let head : a ≡ b = Char-path a b (ground arith) in
    let rest : s ≡ t = cmp_path s t (ground arith) in cc

pub cmp_refl : (s : String) → cmp s s ≡ Ordering.eq
unfolding cmp
cmp_refl [] = refl
cmp_refl (a ∷ s) = ground (arith, cmp_refl s)

pub cmp_trans :
    (s t u : String) → cmp s t ≡ Ordering.lt → cmp t u ≡ Ordering.lt → cmp s u ≡ Ordering.lt
unfolding cmp
cmp_trans [] [] u h k = cc
cmp_trans [] (b ∷ t) [] h k = cc
cmp_trans [] (b ∷ t) (c ∷ u) h k = refl
cmp_trans (a ∷ s) [] u h k = cc
cmp_trans (a ∷ s) (b ∷ t) [] h k = cc
cmp_trans (a ∷ s) (b ∷ t) (c ∷ u) h k = ground (arith, cmp_trans s t u)
