-- ===== src/Base/Text/Laws.antt =====
-- Lemmas on the walks of `Text`.
use Prim.Native.Char.{Char, code}
use Prim.Native.String.{String, [], ◌∷◌}
use mathlib.Core.Path.{◌≡◌, refl, ap}
use mathlib.Core.Bool.{Bool, true, false, ◌||◌}
use mathlib.Core.Logic.{inl, inr}
use mathlib.Core.Option.{none, some}
use Prim.Native.Nat.{ℕ}
use native.Mathlib.Omega.{arith}
use text.Mathlib.TextLemmas.{nil-append, cons-append}
use text.Mathlib.TextEquality.{Char-path}
use evalhub.Base.Tests.{◌==◌, Bool-cases, Option-cases, ==_iff}
use evalhub.Base.Text.{◌+++◌, has_char, all_chars, split_once, rsplit_once, strip_prefix}

pub split_once-append :
    (d : Char) (a b : String)
    → has_char (code d) a ≡ false
    → split_once (code d) (a +++ (d ∷ b)) ≡ some (a, b)
unfolding split_once has_char
split_once-append d [] b h = rw nil-append (ground (arith, ==_iff (code d) (code d)))
split_once-append d (x ∷ a) b h =
    let ih = split_once-append d a b (ground arith) in rw cons-append (ground (arith, ih))

pub split_once_sound :
    (d : Char) (s a b : String)
    → split_once (code d) s ≡ some (a, b)
    → (s ≡ a +++ (d ∷ b)) × (has_char (code d) a ≡ false)
unfolding split_once has_char
split_once_sound d [] a b h = cc
split_once_sound d (x ∷ s) a b h = elim (Bool-cases (code x == code d)) [
  | inl same ↦
      let e : a ≡ [] = ground arith in
      let x_is : x ≡ d = Char-path x d ((==_iff _ _).0 same) in
      rw e (rw nil-append (ground (arith, x_is)), ground arith)
  | inr other ↦ elim (Option-cases (split_once (code d) s)) [
    | inl missed ↦ absurd (ground arith)
    | inr ((a', b'), found) ↦
        let e : a ≡ x ∷ a' = ground arith in
        let ih = split_once_sound d s a' b' found in
        rw e (rw cons-append (ground (arith, ih.0)), ground (arith, ih.1))
  ]
]

pub rsplit_once-none : (c : ℕ) (s : String) → has_char c s ≡ false → rsplit_once c s ≡ none
unfolding rsplit_once has_char
rsplit_once-none c [] h = refl
rsplit_once-none c (x ∷ s) h = let ih = rsplit_once-none c s (ground arith) in rw ih (ground arith)

pub rsplit_once-append :
    (d : Char) (a b : String)
    → has_char (code d) b ≡ false
    → rsplit_once (code d) (a +++ (d ∷ b)) ≡ some (a, b)
unfolding rsplit_once
rsplit_once-append d [] b h =
    rw nil-append (rw (rsplit_once-none (code d) b h) (ground (arith, ==_iff (code d) (code d))))
rsplit_once-append d (x ∷ a) b h = rw cons-append (rw (rsplit_once-append d a b h))

pub rsplit_once_sound :
    (d : Char) (s a b : String) → rsplit_once (code d) s ≡ some (a, b) → s ≡ a +++ (d ∷ b)
unfolding rsplit_once
rsplit_once_sound d [] a b h = cc
rsplit_once_sound d (x ∷ s) a b h = elim (Option-cases (rsplit_once (code d) s)) [
  | inl missed ↦ elim (Bool-cases (code x == code d)) [
    | inl same ↦
        let e : a ≡ [] = ground arith in
        let x_is : x ≡ d = Char-path x d ((==_iff _ _).0 same) in
        rw e (rw nil-append (ground (arith, x_is)))
    | inr other ↦ absurd (ground arith)
  ]
  | inr ((a', b'), found) ↦
      let e : a ≡ x ∷ a' = ground arith in
      rw e (rw cons-append (ground (arith, rsplit_once_sound d s a' b' found)))
]

pub strip_prefix-append : (p s : String) → strip_prefix p (p +++ s) ≡ some s
unfolding strip_prefix
strip_prefix-append [] s = rw nil-append
strip_prefix-append (c ∷ p) s =
    rw cons-append (ground (arith, ==_iff (code c) (code c), strip_prefix-append p s))

pub strip_prefix_sound : (p s r : String) → strip_prefix p s ≡ some r → s ≡ p +++ r
unfolding strip_prefix
strip_prefix_sound [] s r h = rw nil-append (ground arith)
strip_prefix_sound (c ∷ p) [] r h = cc
strip_prefix_sound (c ∷ p) (x ∷ s) r h = elim (Bool-cases (code c == code x)) [
  | inl same ↦
      let x_is : c ≡ x = Char-path c x ((==_iff _ _).0 same) in
      rw cons-append (ground (arith, x_is, strip_prefix_sound p s r (ground arith)))
  | inr other ↦ absurd (ground arith)
]

pub has_char-append : (c : ℕ) (a b : String) → has_char c (a +++ b) ≡ (has_char c a || has_char c b)
unfolding has_char
has_char-append c [] b = rw nil-append
has_char-append c (x ∷ a) b = rw cons-append (ground (arith, has_char-append c a b))

-- A text whose characters all pass a test that a code fails does not hold that code.
pub has_char_of_all :
    (p : ℕ → Bool) (c : ℕ) (s : String) → p c ≡ false → all_chars p s ≡ true → has_char c s ≡ false
unfolding has_char all_chars
has_char_of_all p c [] f h = refl
has_char_of_all p c (x ∷ s) f h = elim (Bool-cases (code x == c)) [
  | inl same ↦
      let x_is : code x ≡ c = (==_iff _ _).0 same in
      let bad : p (code x) ≡ false = rw x_is f in absurd (ground arith)
  | inr other ↦ rw other (has_char_of_all p c s f (ground arith))
]

-- A text without a character of the prefix does not start with the prefix.
pub strip_prefix-none :
    (c : ℕ) (p s : String) → has_char c p ≡ true → has_char c s ≡ false → strip_prefix p s ≡ none
strip_prefix-none c p s hp hs = elim (Option-cases (strip_prefix p s)) [
  | inl missed ↦ missed
  | inr (r, found) ↦
      let whole = ap (has_char c) (strip_prefix_sound p s r found) in
      absurd (ground (arith, whole, has_char-append c p r))
]
