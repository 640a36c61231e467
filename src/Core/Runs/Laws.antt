-- ===== src/Core/Runs/Laws.antt =====
-- About crates/evalhub-core/src/run.rs: what the hashes of runs depend on.
use mathlib.Core.List.{Perm, foldr}
use mathlib.Core.List.Perm
use text.Mathlib.TextEquality.{IsScalar-prop}
use evalhub.Base.{
  String, ◌≡◌, refl, ap, sym, ◌∙◌, Option, List, [], ◌∷◌, inl, inr, str_eq, eq_refl, Bool-cases,
}
use evalhub.Json.{Value, Members, end, member, insert}
use evalhub.Core.Runs.{
  Pair, insert_pair, sort_pairs, pair_items, run_content_hash, hex_pair, runs_hash,
}
use evalhub.Core.Runs.Order.{insert_pair_comm}

sort_pairs-foldr : (ps : List Pair) → sort_pairs ps ≡ foldr insert_pair [] ps
unfolding sort_pairs
sort_pairs-foldr [] = refl
sort_pairs-foldr (p ∷ ps) = ap (insert_pair p) (sort_pairs-foldr ps)

pairs-IsSet : IsSet (List Pair)
pairs-IsSet = hlevel (IsScalar-prop)

pub sort_pairs-perm : (ps qs : List Pair) → Perm ps qs → sort_pairs ps ≡ sort_pairs qs
sort_pairs-perm ps qs same =
    sort_pairs-foldr ps
    ∙ (Perm.foldr-eq pairs-IsSet insert_pair insert_pair_comm same [] ∙ sym (sort_pairs-foldr qs))

insert_twice :
    (ms : Members) (key : String) (v w : Value) → insert (insert ms key v) key w ≡ insert ms key w
unfolding insert
insert_twice end key v w = rw (eq_refl key) refl
insert_twice (member k u ms) key v w = elim (Bool-cases (str_eq k key)) [
  | inl e ↦ rw (e, e) refl
  | inr e ↦ rw (e, e) (ap (member k u) (insert_twice ms key v w))
]

module _ {ℓ} {H : Type ℓ} (digest : Value → Option H) (as_hex : H → String) where
  -- The hash of a run does not depend on what `run_id` its body carries, or whether it carries one.
  pub run_content_hash-insert :
      (run_id : String) (ms : Members) (v : Value)
      → run_content_hash digest as_hex run_id (Value.object (insert ms "run_id" v))
        ≡ run_content_hash digest as_hex run_id (Value.object ms)
  unfolding run_content_hash
  run_content_hash-insert run_id ms v =
      ap (λ x. digest (Value.object x)) (insert_twice ms "run_id" v (Value.string run_id))

  -- The hash over a set of runs does not depend on the order in which they come.
  pub runs_hash-perm :
      (runs others : List (String × H))
      → Perm runs others
      → runs_hash digest as_hex runs ≡ runs_hash digest as_hex others
  unfolding runs_hash
  runs_hash-perm runs others same =
      ap (λ ps. digest (Value.array (pair_items ps)))
        (sort_pairs-perm _ _ (Perm.map (hex_pair digest as_hex) same))
