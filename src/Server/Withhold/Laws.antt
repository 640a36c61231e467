-- ===== src/Server/Withhold/Laws.antt =====
-- About crates/evalhub-server/src/api/relations.rs: what is left of a body, and what is said of the
-- rest.
use evalhub.Base.{
  ℕ, zero, suc, ◌-◌, ◌≤◌, String, ◌≡◌, ◌↔◌, refl, sym, Bool, true, false, ◌&&◌, ◌||◌, not, Option,
  none, some, List, [], ◌∷◌, inl, inr, ltb, arith, Bool-cases, eq_iff, str_eq, ◌>>=◌, if◌then◌else◌,
}
use mathlib.Core.Path.{subst}
use evalhub.Base.Lists.{All, is_empty, length}
use evalhub.Base.Text.{split_once}
use evalhub.Json.{Value, get_key, as_str}
use evalhub.Server.Withhold.{
  HiddenTarget, HiddenEval, WithheldRelation, Withheld, withhold_relations, is_hidden, names_hidden,
  retain_relations, retain_run_results, withhold_run_results, withhold, elements,
}
use evalhub.Server.Withhold.Elements.{elements-changed, elements-other}
use evalhub.Server.Withhold.Relations.{
  Among, here, there, Parted, every, withhold_relations-elements,
}

-- The element judges runs of the hidden Eval.
abbrev pub NamesEval : Value → HiddenEval → Type 0
NamesEval v h = (get_key v "eval" >>= as_str >>= split_once b'/') ≡ some (h.ns, h.name)

-- Elements, those that are kept in the order of the body, and how many others there are.
pub data PartedEval (hidden : List HiddenEval) : List Value → List Value → ℕ → Type 0 where
  nil : PartedEval hidden [] [] 0
  keep :
      (v : Value) {vs ks : List Value} {n : ℕ}
      → All (λ h. ¬ NamesEval v h) hidden
      → PartedEval hidden vs ks n
      → PartedEval hidden (v ∷ vs) (v ∷ ks) n
  take :
      (v : Value) (h : HiddenEval) {vs ks : List Value} {n : ℕ}
      → Among h hidden
      → NamesEval v h
      → PartedEval hidden vs ks n
      → PartedEval hidden (v ∷ vs) ks (suc n)

abbrev same_eval : String → String → HiddenEval → Bool
same_eval ns name h = str_eq h.ns ns && str_eq h.name name

same_eval_iff :
    (ns name : String) (h : HiddenEval)
    → (same_eval ns name h ≡ true)
      ↔ (◌≡◌ {A = Option (String × String)} (some (ns, name)) (some (h.ns, h.name)))
same_eval_iff ns name h = ground (arith, eq_iff h.ns ns, eq_iff h.name name)

is_hidden-none :
    (hs : List HiddenEval) (o : Option (String × String))
    → is_hidden hs o ≡ false
    → All (λ h. ¬ (o ≡ some (h.ns, h.name))) hs
is_hidden-none hs none e = every _ (λ h r. absurd (ground arith)) hs
is_hidden-none [] (some (ns, name)) e = tt
is_hidden-none (h ∷ hs) (some (ns, name)) e = (
  λ r. absurd (ground (arith, (same_eval_iff ns name h).1 r)),
  is_hidden-none hs (some (ns, name)) (ground arith),
)

is_hidden-some :
    (hs : List HiddenEval) (o : Option (String × String))
    → is_hidden hs o ≡ true
    → (h : HiddenEval) × (Among h hs × (o ≡ some (h.ns, h.name)))
is_hidden-some hs none e = absurd (ground arith)
is_hidden-some [] (some (ns, name)) e = absurd (ground arith)
is_hidden-some (h ∷ hs) (some (ns, name)) e = elim (Bool-cases (same_eval ns name h)) [
  | inl t ↦ (h, (here, (same_eval_iff ns name h).0 t))
  | inr f ↦
      let (g, (l, r)) = is_hidden-some hs (some (ns, name)) (ground arith) in (g, (there h l, r))
]

length-retain :
    (hidden : List HiddenEval) (vs : List Value) → length (retain_run_results hidden vs) ≤ length vs
unfolding retain_run_results
length-retain hidden [] = omega arith
length-retain hidden (v ∷ vs) = ground (arith, length-retain hidden vs)

retain-PartedEval :
    (hidden : List HiddenEval) (vs : List Value)
    → PartedEval hidden vs
        (retain_run_results hidden vs)
        (length vs - length (retain_run_results hidden vs))
unfolding retain_run_results names_hidden
retain-PartedEval hidden [] = nil
retain-PartedEval hidden (v ∷ vs) =
    let o = get_key v "eval" >>= as_str >>= split_once b'/' in
    let rest = retain_run_results hidden vs in
    let one_more : suc (length vs - length rest) ≡ suc (length vs) - length rest =
      omega (arith, length-retain hidden vs) in
    let same_less : suc (length vs) - suc (length rest) ≡ length vs - length rest = omega arith in
    elim (Bool-cases (is_hidden hidden o)) [
      | inr e ↦
          rw e (keep v (is_hidden-none hidden o e) (rw same_less (retain-PartedEval hidden vs)))
      | inl e ↦
          let (h, (l, r)) = is_hidden-some hidden o e in
          rw (e, sym one_more) (take v h l r (retain-PartedEval hidden vs))
    ]

withhold_run_results-elements :
    (body : Value) (hidden : List HiddenEval)
    → PartedEval hidden
        (elements "run_results" body)
        (elements "run_results" (withhold_run_results body hidden).0)
        (withhold_run_results body hidden).1
unfolding withhold_run_results
withhold_run_results-elements body [] = untouched (elements "run_results" body)
  where
    untouched : (vs : List Value) → PartedEval [] vs vs 0
    untouched [] = nil
    untouched (v ∷ vs) = keep v tt (untouched vs)
withhold_run_results-elements body (h ∷ hs) =
    rw (elements-changed (retain_run_results (h ∷ hs)) refl "run_results" body)
      (retain-PartedEval (h ∷ hs) (elements "run_results" body))

-- The halves leave each other's elements alone.
withhold_relations-other :
    (body : Value) (hidden : List HiddenTarget)
    → elements "run_results" (withhold_relations body hidden).0 ≡ elements "run_results" body
unfolding withhold_relations
withhold_relations-other body [] = refl
withhold_relations-other body (h ∷ hs) =
    elements-other (retain_relations (h ∷ hs)) "relations" "run_results" refl body

withhold_run_results-other :
    (body : Value) (hidden : List HiddenEval)
    → elements "relations" (withhold_run_results body hidden).0 ≡ elements "relations" body
unfolding withhold_run_results
withhold_run_results-other body [] = refl
withhold_run_results-other body (h ∷ hs) =
    elements-other (retain_run_results (h ∷ hs)) "run_results" "relations" refl body

-- What is said, where anything was taken out.
unfoldable pub said : List WithheldRelation → ℕ → Option Withheld
said [] zero = none
said [] (suc n) = some (record { relations = []; run_results = suc n })
said (r ∷ rs) n = some (record { relations = r ∷ rs; run_results = n })

said-is :
    (rs : List WithheldRelation) (n : ℕ)
    → (if not (is_empty rs) || ltb 0 n
        then some (record { relations = rs; run_results = n })
        else none)
      ≡ said rs n
unfolding said
said-is [] zero = refl
said-is [] (suc n) = ground arith
said-is (r ∷ rs) n = refl

-- Of the relations and the run results of a body exactly those are left that name no target and no
-- Eval that is hidden, in the order of the body; of each relation that is taken out the commitment
-- of a hidden target that it names is said, of the run results how many, and nothing where nothing
-- was taken out.
pub withhold-Parted :
    (body : Value) (hidden : List HiddenTarget) (evals : List HiddenEval)
    → (rs : List WithheldRelation) × ((n : ℕ) × ((Parted hidden
              (elements "relations" body)
              (elements "relations" (withhold body hidden evals).0)
              rs
            × PartedEval evals
                (elements "run_results" body)
                (elements "run_results" (withhold body hidden evals).0)
                n)
          × ((withhold body hidden evals).1 ≡ said rs n)))
unfolding withhold
withhold-Parted body hidden evals =
    let first = withhold_relations body hidden in
    let second = withhold_run_results first.0 evals in
    (
      first.1,
      (
        second.1,
        (
          (
            rw (withhold_run_results-other first.0 evals) (withhold_relations-elements body hidden),
            subst (λ vs. PartedEval evals vs (elements "run_results" second.0) second.1)
                (withhold_relations-other body hidden)
                (withhold_run_results-elements first.0 evals),
          ),
          said-is first.1 second.1,
        ),
      ),
    )
