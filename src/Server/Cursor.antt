-- ===== src/Server/Cursor.antt =====
-- crates/evalhub-server/src/auth.rs: signed pagination cursors. A byte is a number below 256. The MAC is
-- HMAC-SHA256 of the `hmac` and `sha2` crates, the text form base64url of the `base64` crate.
pub mod Laws
use evalhub.Base.{
  ℕ, zero, suc, ◌-◌, String, Bool, true, false, ◌&&◌, Option, none, some, List, [], ◌∷◌, ◌++◌, ltb,
  ◌==◌, if◌then◌else◌,
}
use evalhub.Base.Lists.{length}

abbrev pub Bytes : Type 0
Bytes = List ℕ

unfoldable pub take : ℕ → Bytes → Bytes
take zero bs = []
take (suc n) [] = []
take (suc n) (b ∷ bs) = b ∷ take n bs

unfoldable pub drop : ℕ → Bytes → Bytes
drop zero bs = bs
drop (suc n) [] = []
drop (suc n) (b ∷ bs) = drop n bs

-- `ConstantTimeEq::ct_eq`, without its timing
unfoldable pub ct_eq : Bytes → Bytes → Bool
ct_eq [] [] = true
ct_eq (a ∷ as') (b ∷ bs) = (a == b) && ct_eq as' bs
ct_eq _ _ = false

abbrev pub tag_length : ℕ
tag_length = 32

module _ (mac : Bytes → Bytes) (encode : Bytes → String) (decode : String → Option Bytes) where
  unfoldable pub sign : Bytes → String
  sign payload = encode (payload ++ mac payload)

  abbrev pub checked : Bytes → Bytes → Option Bytes
  checked payload tag = if ct_eq (mac payload) tag then some payload else none

  abbrev pub split_tag : Bytes → Option Bytes
  split_tag bytes =
      if ltb (length bytes) tag_length
      then none
      else checked (take (length bytes - tag_length) bytes) (drop (length bytes - tag_length) bytes)

  abbrev pub then_split : Option Bytes → Option Bytes
  then_split none = none
  then_split (some bytes) = split_tag bytes

  unfoldable pub verify : String → Option Bytes
  verify cursor = then_split (decode cursor)
