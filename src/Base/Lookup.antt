-- ===== src/Base/Lookup.antt =====
-- Looking an entry up by its name: `iter().find(|e| e.name == s)`.
use Prim.Native.String.{String}
use mathlib.Core.Path.{◌≡◌, subst}
use mathlib.Core.Logic.{◌↔◌, inl, inr}
use mathlib.Core.Option.{some}
use mathlib.Core.List.{List, [], ◌∷◌}
use native.Mathlib.Omega.{arith}
use text.Mathlib.Text.{◌==◌ as str_eq}
use text.Mathlib.TextEquality.{eq_iff}
use evalhub.Base.Tests.{Bool-cases}
use evalhub.Base.Lists.{find, All}

module _ {ℓ} {A : Type ℓ} (id_of : A → String) where
  abbrev pub Found : List A → A → Type ℓ
  Found defs d = find (λ e. str_eq (id_of e) (id_of d)) defs ≡ some d

  -- The entry found is listed and has the id.
  pub data Listed (d : A) : List A → Type ℓ where
    here : {ds : List A} → Listed d (d ∷ ds)
    there : {e : A} {ds : List A} → Listed d ds → Listed d (e ∷ ds)

  pub find-Listed :
      (id : String) (ds : List A) (d : A)
      → find (λ e. str_eq (id_of e) id) ds ≡ some d
      → Listed d ds × (id_of d ≡ id)
  find-Listed id [] d h = absurd (ground arith)
  find-Listed id (e ∷ ds) d h = elim (Bool-cases (str_eq (id_of e) id)) [
    | inl t ↦
        let is : e ≡ d = some_inj (e) d (ground arith) in
        (subst (λ x. Listed x (e ∷ ds)) is here, ground (arith, eq_iff (id_of e) id))
    | inr t ↦ let (l, is) = find-Listed id ds d (ground arith) in (there l, is)
  ]
    where
      some_inj : (a b : A) → some a ≡ some b → a ≡ b
      some_inj a b k = ground arith

  from_all : (P : A → Type ℓ) (ds : List A) (d : A) → All P ds → Listed d ds → P d
  from_all P [] d h x = elim x [ ]
  from_all P (e ∷ ds) d (p, ps) here = p
  from_all P (e ∷ ds) d (p, ps) (there l) = from_all P ds d ps l

  pub lookup_iff :
      (ds : List A)
      → All (Found ds) ds
      → (id : String) (d : A)
      → (find (λ e. str_eq (id_of e) id) ds ≡ some d) ↔ (Listed d ds × (id_of d ≡ id))
  lookup_iff ds each id d = (
    find-Listed id ds d,
    λ (l, is).
        subst (λ t. find (λ e. str_eq (id_of e) t) ds ≡ some d) is
          (from_all (Found ds) ds d each l),
  )

  -- What is found by its name has the name.
  pub find-named :
      (s : String) (ds : List A) (d : A) → find (λ e. str_eq (id_of e) s) ds ≡ some d → id_of d ≡ s
  find-named s ds d h = (find-Listed s ds d h).1
