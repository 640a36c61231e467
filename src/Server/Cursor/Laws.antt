-- ===== src/Server/Cursor/Laws.antt =====
-- About crates/evalhub-server/src/auth.rs: the bytes of a signed cursor.
use evalhub.Base.{
  ℕ, zero, suc, ◌+◌, ◌-◌, String, ◌≡◌, ◌↔◌, refl, ap, sym, ◌∙◌, inl, inr, true, false, Option, none,
  some, [], ◌∷◌, ◌++◌, ltb, ◌==◌, ==_iff, arith, Bool-cases,
}
use evalhub.Base.Lists.{length, length-append}
use evalhub.Server.Cursor.{
  Bytes, take, drop, ct_eq, tag_length, sign, split_tag, then_split, verify,
}

ct_eq_iff : (as' bs : Bytes) → (ct_eq as' bs ≡ true) ↔ (as' ≡ bs)
unfolding ct_eq
ct_eq_iff [] [] = ground arith
ct_eq_iff [] (b ∷ bs) = ground arith
ct_eq_iff (a ∷ as') [] = ground arith
ct_eq_iff (a ∷ as') (b ∷ bs) =
    let (to, from) = ct_eq_iff as' bs in
    elim (Bool-cases (a == b)) [
      | inl e ↦
          let is : a ≡ b = ground (arith, ==_iff a b) in
          rw e (λ h. rw (is, to h) refl, λ h. from (tails a b as' bs h))
      | inr e ↦ rw e (
        λ h. absurd (ground arith),
        λ h. let is = heads a b as' bs h in absurd (ground (arith, ==_iff a b)),
      )
    ]
  where
    tails : (a b : ℕ) (as' bs : Bytes) → a ∷ as' ≡ b ∷ bs → as' ≡ bs
    tails a b as' bs h = ground arith

    heads : (a b : ℕ) (as' bs : Bytes) → a ∷ as' ≡ b ∷ bs → a ≡ b
    heads a b as' bs h = ground arith

take-drop : (n : ℕ) (bs : Bytes) → take n bs ++ drop n bs ≡ bs
unfolding take drop
take-drop zero bs = refl
take-drop (suc n) [] = refl
take-drop (suc n) (b ∷ bs) = ap (λ x. b ∷ x) (take-drop n bs)

take-append : (as' bs : Bytes) → take (length as') (as' ++ bs) ≡ as'
unfolding take
take-append [] bs = refl
take-append (a ∷ as') bs = ap (λ x. a ∷ x) (take-append as' bs)

drop-append : (as' bs : Bytes) → drop (length as') (as' ++ bs) ≡ bs
unfolding drop
drop-append [] bs = refl
drop-append (a ∷ as') bs = drop-append as' bs

module _ (mac : Bytes → Bytes) (encode : Bytes → String) (decode : String → Option Bytes) where
  module _ (mac_length : (payload : Bytes) → length (mac payload) ≡ tag_length) where
    split_sound :
        (bytes payload : Bytes)
        → split_tag mac encode decode bytes ≡ some payload
        → bytes ≡ payload ++ mac payload
    split_sound bytes payload h =
        let n = length bytes - tag_length in
        elim (Bool-cases (ltb (length bytes) tag_length)) [
          | inl short ↦ absurd (ground arith)
          | inr long ↦ elim (Bool-cases (ct_eq (mac (take n bytes)) (drop n bytes))) [
            | inl same ↦
                let is : take n bytes ≡ payload = ground arith in
                let tag = (ct_eq_iff (mac (take n bytes)) (drop n bytes)).0 same in
                sym (take-drop n bytes)
                ∙ (ap (λ t. take n bytes ++ t) (sym tag) ∙ ap (λ p. p ++ mac p) is)
            | inr other ↦ absurd (ground arith)
          ]
        ]

    split_complete :
        (payload : Bytes) → split_tag mac encode decode (payload ++ mac payload) ≡ some payload
    split_complete payload =
        let total : length (payload ++ mac payload) ≡ length payload + tag_length =
          length-append payload (mac payload) ∙ ap (λ k. length payload + k) (mac_length payload) in
        let n : length (payload ++ mac payload) - tag_length ≡ length payload = omega arith in
        let long : ltb (length (payload ++ mac payload)) tag_length ≡ false = ground arith in
        rw
          (
            long,
            n,
            take-append payload (mac payload),
            drop-append payload (mac payload),
            (ct_eq_iff (mac payload) (mac payload)).1 refl,
          )
          refl

    -- A cursor verifies to a payload exactly when its bytes are the payload followed by its tag. It is
    -- assumed that a tag has 32 bytes.
    pub verify_iff :
        (cursor : String) (payload : Bytes)
        → (verify mac encode decode cursor ≡ some payload)
          ↔ (decode cursor ≡ some (payload ++ mac payload))
    unfolding verify
    verify_iff cursor payload =
        (λ h. by_bytes (decode cursor) h, λ h. rw h (split_complete payload))
      where
        by_bytes :
            (o : Option Bytes)
            → then_split mac encode decode o ≡ some payload
            → o ≡ some (payload ++ mac payload)
        by_bytes none h = absurd (ground arith)
        by_bytes (some bytes) h = ap some (split_sound bytes payload h)

    -- A signed payload verifies to itself. It is assumed that a tag has 32 bytes and that the text form
    -- decodes to the bytes that were encoded.
    pub verify-sign :
        ((bytes : Bytes) → decode (encode bytes) ≡ some bytes)
        → (payload : Bytes)
        → verify mac encode decode (sign mac encode decode payload) ≡ some payload
    unfolding sign
    verify-sign round_trip payload =
        (verify_iff (encode (payload ++ mac payload)) payload).1
          (round_trip (payload ++ mac payload))
