-- ===== src/Base/Decimal/Laws.antt =====
-- Lemmas on decimal numerals.
use Prim.Native.Char.{code}
use Prim.Native.String.{String, [], ◌∷◌}
use evalhub.Base.{
  ℕ, zero, suc, ◌+◌, ◌*◌, ◌-◌, ◌/◌, ◌%◌, ◌<◌, ◌≡◌, refl, true, arith, ltb, Bool-cases, inl, inr,
  ◌≢◌, ◌∙◌, sym, ap, Bool,
}
use evalhub.Base.Text.{◌+++◌, all_chars}
use evalhub.Base.Decimal.{digit, decimal, decimal_from, is_digit, digits_value}
use text.Mathlib.TextLemmas.{nil-append, cons-append}

pub digits_value-append :
    (n : ℕ) (a b : String) → digits_value n (a +++ b) ≡ digits_value (digits_value n a) b
unfolding digits_value
digits_value-append n [] b = rw nil-append
digits_value-append n (c ∷ a) b = rw cons-append (digits_value-append (n * 10 + (code c - 48)) a b)

digits_value-digit : (k n : ℕ) → n < 10 → digits_value k (digit n) ≡ k * 10 + n
unfolding digits_value digit
digits_value-digit k zero h = omega arith
digits_value-digit k (suc zero) h = omega arith
digits_value-digit k (suc (suc zero)) h = omega arith
digits_value-digit k (suc (suc (suc zero))) h = omega arith
digits_value-digit k (suc (suc (suc (suc zero)))) h = omega arith
digits_value-digit k (suc (suc (suc (suc (suc zero))))) h = omega arith
digits_value-digit k (suc (suc (suc (suc (suc (suc zero)))))) h = omega arith
digits_value-digit k (suc (suc (suc (suc (suc (suc (suc zero))))))) h = omega arith
digits_value-digit k (suc (suc (suc (suc (suc (suc (suc (suc zero)))))))) h = omega arith
digits_value-digit k (suc (suc (suc (suc (suc (suc (suc (suc (suc zero))))))))) h = omega arith
digits_value-digit k (suc (suc (suc (suc (suc (suc (suc (suc (suc (suc n)))))))))) h =
    absurd (omega arith)

digit-all : (n : ℕ) → all_chars is_digit (digit n) ≡ true
unfolding all_chars digit
digit-all zero = refl
digit-all (suc zero) = refl
digit-all (suc (suc zero)) = refl
digit-all (suc (suc (suc zero))) = refl
digit-all (suc (suc (suc (suc zero)))) = refl
digit-all (suc (suc (suc (suc (suc zero))))) = refl
digit-all (suc (suc (suc (suc (suc (suc zero)))))) = refl
digit-all (suc (suc (suc (suc (suc (suc (suc zero))))))) = refl
digit-all (suc (suc (suc (suc (suc (suc (suc (suc zero)))))))) = refl
digit-all _ = refl

pub all_chars-append :
    (p : ℕ → Bool) (a b : String)
    → all_chars p a ≡ true
    → all_chars p b ≡ true
    → all_chars p (a +++ b) ≡ true
unfolding all_chars
all_chars-append p [] b ha hb = rw nil-append hb
all_chars-append p (c ∷ a) b ha hb =
    rw cons-append (ground (arith, all_chars-append p a b (ground arith) hb))

digits_value-decimal_from : (f n : ℕ) → n < f → digits_value 0 (decimal_from f n) ≡ n
unfolding decimal_from
digits_value-decimal_from zero n h = elim h [ ]
digits_value-decimal_from (suc f) n h = elim (Bool-cases (ltb n 10)) [
  | inl small ↦ rw small (digits_value-digit 0 n (ground arith) ∙ omega arith)
  | inr large ↦
      rw (large, digits_value-append)
        (rw (digits_value-decimal_from f (n / 10) (ground arith))
          (digits_value-digit (n / 10) (n % 10) (omega arith) ∙ omega arith))
]

pub digits_value-decimal : (n : ℕ) → digits_value 0 (decimal n) ≡ n
unfolding decimal
digits_value-decimal n = digits_value-decimal_from (suc n) n (omega arith)

decimal_from-all : (f n : ℕ) → all_chars is_digit (decimal_from f n) ≡ true
unfolding decimal_from all_chars
decimal_from-all zero n = refl
decimal_from-all (suc f) n = elim (Bool-cases (ltb n 10)) [
  | inl small ↦ rw small (digit-all n)
  | inr large ↦ rw large (
      all_chars-append is_digit (decimal_from f (n / 10)) (digit (n % 10))
        (decimal_from-all f (n / 10)) (digit-all (n % 10)))
]

pub decimal-all : (n : ℕ) → all_chars is_digit (decimal n) ≡ true
unfolding decimal
decimal-all n = decimal_from-all (suc n) n

-- A printed number that is not zero is not the empty text.
pub decimal-ne-empty : (n : ℕ) → n ≢ 0 → decimal n ≢ ""
unfolding digits_value
decimal-ne-empty n h e = h (sym (digits_value-decimal n) ∙ ap (digits_value 0) e)
