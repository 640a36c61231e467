-- ===== src/Core/Runs/Order.antt =====
-- About crates/evalhub-core/src/run.rs: the order of pairs, and sorting by it.
use Prim.Native.Nat.{Ordering}
use Prim.Native.String.{[], ◌∷◌}
use evalhub.Base.{
  String, ◌≡◌, refl, ap, Bool, true, false, List, [], ◌∷◌, arith, inl, inr, Bool-cases,
}
use evalhub.Base.Text.{cmp, is_gt}
use evalhub.Base.Text.Order.{Ordering-cases, cmp_asymm, cmp_path, cmp_refl, cmp_trans}
use evalhub.Core.Runs.{Pair, pair_cmp, insert_pair}

abbrev after : Pair → Pair → Bool
after p q = is_gt (pair_cmp p q)

cmp_flip : (s t : String) → cmp s t ≡ Ordering.lt → is_gt (cmp t s) ≡ true
unfolding cmp
cmp_flip [] [] h = absurd (ground arith)
cmp_flip [] (b ∷ t) h = refl
cmp_flip (a ∷ s) [] h = absurd (ground arith)
cmp_flip (a ∷ s) (b ∷ t) h = ground (arith, cmp_flip s t)

after_asymm : (p q : Pair) → after p q ≡ true → after q p ≡ false
unfolding pair_cmp
after_asymm (a, b) (c, d) h = elim (Ordering-cases (cmp a c)) [
  | inl (inl below) ↦ absurd (ground arith)
  | inl (inr same) ↦
      let is : a ≡ c = cmp_path a c same in
      let back : cmp c a ≡ Ordering.eq = rw is (cmp_refl c) in ground (arith, cmp_asymm b d)
  | inr above ↦ ground (arith, cmp_asymm a c)
]

neither_after : (p q : Pair) → after p q ≡ false → after q p ≡ false → p ≡ q
unfolding pair_cmp
neither_after (a, b) (c, d) h k = elim (Ordering-cases (cmp a c)) [
  | inl (inl below) ↦ absurd (ground (arith, cmp_flip a c))
  | inl (inr same) ↦
      let is : a ≡ c = cmp_path a c same in
      let back : cmp c a ≡ Ordering.eq = rw is (cmp_refl c) in
      elim (Ordering-cases (cmp b d)) [
        | inl (inl below) ↦ absurd (ground (arith, cmp_flip b d))
        | inl (inr also) ↦ let too : b ≡ d = cmp_path b d also in rw (is, too) refl
        | inr above ↦ absurd (ground arith)
      ]
  | inr above ↦ absurd (ground arith)
]

text_trans :
    (s t u : String) → is_gt (cmp s t) ≡ false → is_gt (cmp t u) ≡ false → is_gt (cmp s u) ≡ false
text_trans s t u h k = elim (Ordering-cases (cmp s t)) [
  | inl (inl below) ↦ elim (Ordering-cases (cmp t u)) [
    | inl (inl further) ↦ ground (arith, cmp_trans s t u)
    | inl (inr same) ↦ rw (← cmp_path t u same, below) refl
    | inr above ↦ absurd (ground arith)
  ]
  | inl (inr same) ↦ rw (cmp_path s t same) k
  | inr above ↦ absurd (ground arith)
]

not_after_trans : (p q r : Pair) → after p q ≡ false → after q r ≡ false → after p r ≡ false
unfolding pair_cmp
not_after_trans (a, b) (c, d) (e, f) h k = elim (Ordering-cases (cmp a c)) [
  | inl (inl below) ↦ elim (Ordering-cases (cmp c e)) [
    | inl (inl further) ↦ ground (arith, cmp_trans a c e)
    | inl (inr same) ↦ rw (← cmp_path c e same, below) refl
    | inr above ↦ absurd (ground arith)
  ]
  | inl (inr same) ↦
      let is : a ≡ c = cmp_path a c same in
      elim (Ordering-cases (cmp c e)) [
        | inl (inl further) ↦ rw (is, further) refl
        | inl (inr also) ↦
            let h' : is_gt (cmp b d) ≡ false = ground arith in
            let k' : is_gt (cmp d f) ≡ false = ground arith in
            rw (is, also) (text_trans b d f h' k')
        | inr above ↦ absurd (ground arith)
      ]
  | inr above ↦ absurd (ground arith)
]

after_trans : (p q r : Pair) → after p q ≡ true → after r q ≡ false → after p r ≡ true
after_trans p q r h k = elim (Bool-cases (after p r)) [
  | inl later ↦ later
  | inr here ↦ let below = not_after_trans p r q here k in absurd (ground arith)
]

pub insert_pair_comm :
    (p q : Pair) (ps : List Pair)
    → insert_pair p (insert_pair q ps) ≡ insert_pair q (insert_pair p ps)
unfolding insert_pair
insert_pair_comm p q [] = elim (Bool-cases (after p q)) [
  | inl pq ↦ let qp = after_asymm p q pq in rw (pq, qp) refl
  | inr pq ↦ elim (Bool-cases (after q p)) [
    | inl qp ↦ rw (pq, qp) refl
    | inr qp ↦ let is = neither_after p q pq qp in rw (pq, qp, is) refl
  ]
]
insert_pair_comm p q (x ∷ ps) = elim (Bool-cases (after q x)) [
  | inl qx ↦ elim (Bool-cases (after p x)) [
    | inl px ↦ rw (qx, px, qx) (ap (λ l. x ∷ l) (insert_pair_comm p q ps))
    | inr px ↦ let qp = after_trans q x p qx px in rw (qx, px, qp, qx) refl
  ]
  | inr qx ↦ elim (Bool-cases (after p x)) [
    | inl px ↦ let pq = after_trans p x q px qx in rw (qx, px, pq, qx) refl
    | inr px ↦ elim (Bool-cases (after p q)) [
      | inl pq ↦ let qp = after_asymm p q pq in rw (qx, px, pq, qp) refl
      | inr pq ↦ elim (Bool-cases (after q p)) [
        | inl qp ↦ rw (qx, px, pq, qp, qx) refl
        | inr qp ↦ let is = neither_after p q pq qp in rw (qx, px, pq, qp, is) refl
      ]
    ]
  ]
]
