-- ===== src/Server/Withhold/Elements.antt =====
-- About crates/evalhub-server/src/api/relations.rs: one array of a body changed in place.
use evalhub.Base.{
  String, false, ◌≡◌, refl, sym, ap, List, [], ◌∷◌, inl, inr, Bool-cases, eq_iff, str_eq, ◌>>=◌,
}
use evalhub.Json.{Value, Members, end, member, get, as_array, elems, from_elems}
use evalhub.Server.Withhold.{on_array, update, change_elements, or_empty, elements}

elems-from_elems : (vs : List Value) → elems (from_elems vs) ≡ vs
elems-from_elems [] = refl
elems-from_elems (v ∷ vs) = ap (λ us. v ∷ us) (elems-from_elems vs)

module _ (f : List Value → List Value) where
  on_array-or_empty :
      f [] ≡ [] → (v : Value) → or_empty (as_array (on_array f v)) ≡ f (or_empty (as_array v))
  on_array-or_empty h Value.null = sym h
  on_array-or_empty h (Value.bool b) = sym h
  on_array-or_empty h (Value.number n) = sym h
  on_array-or_empty h (Value.string s) = sym h
  on_array-or_empty h (Value.array vs) = elems-from_elems (f (elems vs))
  on_array-or_empty h (Value.object ms) = sym h

  update-same :
      f [] ≡ []
      → (ms : Members) (key : String)
      → or_empty (get (update ms key (on_array f)) key >>= as_array)
        ≡ f (or_empty (get ms key >>= as_array))
  unfolding get
  update-same h end key = sym h
  update-same h (member k v ms) key = elim (Bool-cases (str_eq k key)) [
    | inl e ↦ rw e (rw e (on_array-or_empty h v))
    | inr e ↦ rw e (rw e (update-same h ms key))
  ]

  update-other :
      (ms : Members) (key other : String)
      → str_eq key other ≡ false
      → get (update ms key (on_array f)) other ≡ get ms other
  unfolding get
  update-other end key other h = refl
  update-other (member k v ms) key other h = elim (Bool-cases (str_eq k key)) [
    | inl e ↦
        let is : k ≡ key = (eq_iff k key).0 e in
        let no : str_eq k other ≡ false = rw is h in rw (e, no) refl
    | inr e ↦ rw (e, update-other ms key other h) refl
  ]

  -- The array that is changed.
  pub elements-changed :
      f [] ≡ []
      → (key : String) (body : Value)
      → elements key (change_elements f key body) ≡ f (elements key body)
  unfolding elements change_elements
  elements-changed h key Value.null = sym h
  elements-changed h key (Value.bool b) = sym h
  elements-changed h key (Value.number n) = sym h
  elements-changed h key (Value.string s) = sym h
  elements-changed h key (Value.array vs) = sym h
  elements-changed h key (Value.object ms) = update-same h ms key

  -- Any other.
  pub elements-other :
      (key other : String)
      → str_eq key other ≡ false
      → (body : Value) → elements other (change_elements f key body) ≡ elements other body
  unfolding elements change_elements
  elements-other key other h Value.null = refl
  elements-other key other h (Value.bool b) = refl
  elements-other key other h (Value.number n) = refl
  elements-other key other h (Value.string s) = refl
  elements-other key other h (Value.array vs) = refl
  elements-other key other h (Value.object ms) =
      ap (λ o. or_empty (o >>= as_array)) (update-other ms key other h)
