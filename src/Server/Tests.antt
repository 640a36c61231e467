-- ===== src/Server/Tests.antt =====
-- The theorems of the server's part at concrete inputs.
mod Responses
use Prim.Native.String.{[], ◌∷◌}
use evalhub.Base.{
  Char, code, ◌+◌, ◌==◌, if◌then◌else◌, ap, ◌∙◌, ℕ, zero, suc, String, ◌≡◌, refl, true, Option,
  none, some, [], ◌∷◌, arith,
}
use evalhub.Base.Lists.{length, contains}
use evalhub.Server.Auth.{
  read, write, scope_le, Identity, Caller, role_of, effective_scope, reachable, namespaces, allows,
}
use evalhub.Server.Auth.Laws.{Grants, allows_iff, namespaces_iff}
use evalhub.Server.Cursor.{Bytes, sign, verify}
use evalhub.Server.Cursor.Laws.{verify_iff, verify-sign}

-- A writer, who only reads in the organisation `acme`.
abbrev writer : Identity
writer = record {
  user_id = 1;
  token_id = 2;
  login = "ada";
  scope = write;
  namespaces = "ada" ∷ "acme" ∷ "other" ∷ [];
  org_roles = ("acme", read) ∷ [];
}

abbrev caller : Caller
caller = record { identity = some writer }

allows_iff_example : (id : Identity) × ((caller.identity ≡ some id) × Grants id "ada" write)
unfolding allows effective_scope scope_le contains
allows_iff_example = (allows_iff caller "ada" write).0 refl

-- A tag of thirty-two bytes that is the same for every payload, and the bytes as text by their
-- number: enough to run the code.
abbrev repeat : ℕ → ℕ → Bytes
repeat zero b = []
repeat (suc n) b = b ∷ repeat n b

abbrev mac : Bytes → Bytes
mac payload = repeat 32 (length payload)

mac-length : (payload : Bytes) → length (mac payload) ≡ 32
mac-length payload = refl

verify_iff_example :
    (verify mac (λ bytes. "token") (λ text. some (1 ∷ 2 ∷ mac (1 ∷ 2 ∷ []))) "token"
      ≡ some (1 ∷ 2 ∷ []))
verify_iff_example =
    (verify_iff mac (λ bytes. "token") (λ text. some (1 ∷ 2 ∷ mac (1 ∷ 2 ∷ []))) mac-length "token"
        (1 ∷ 2 ∷ [])).1
      refl
