-- ===== src/Core/Badge/Laws.antt =====
-- About crates/evalhub-core/src/badge.rs: the reasons for a badge, and the badge names.
use mathlib.Core.Path.{subst}
use evalhub.Base.{
  String, ◌≡◌, ◌≢◌, ◌↔◌, refl, inl, inr, Bool, true, false, ◌&&◌, Option, none, some, List, [], ◌∷◌,
  ◌++◌, eq_iff, arith, Bool-cases,
}
use evalhub.Base.Lookup.{find-named}
use evalhub.Base.Lists.{×_iff, ↔_trans}
use evalhub.Json.{Value, pointer}
use evalhub.Core.Badge.{
  BadgeInput, Badge, refs_resolved, harness_registered, metric_registered, env_pinned, redacted,
  all_badges, badge_str, badge_from_str, is_bool, non_empty, is_env_pinned, is_redacted, push_if,
  compute,
}

-- The record holds a text that is not empty at the path.
abbrev pub HasText : Value → List String → Type 0
HasText value path = (s : String) × ((pointer value path ≡ some (Value.string s)) × (s ≢ ""))

abbrev pub HasBool : Bool → Value → List String → Type 0
HasBool b value path = pointer value path ≡ some (Value.bool b)

-- Why a badge is awarded.
abbrev pub Earned : Value → BadgeInput → Badge → Type 0
Earned value input refs_resolved = input.all_refs_resolved ≡ true
Earned value input harness_registered = input.harness_registered ≡ true
Earned value input metric_registered = input.all_metrics_registered ≡ true
Earned value input env_pinned =
    HasBool false value ("env" ∷ "git" ∷ "dirty" ∷ [])
    × (HasText value ("env" ∷ "git" ∷ "commit" ∷ [])
        × HasText value ("trial" ∷ "sandbox" ∷ "digest" ∷ []))
Earned value input redacted = HasBool true value ("redaction" ∷ "applied" ∷ [])

is_bool_iff : (b : Bool) (o : Option Value) → (is_bool b o ≡ true) ↔ (o ≡ some (Value.bool b))
is_bool_iff true none = ground arith
is_bool_iff false none = ground arith
is_bool_iff true (some (Value.bool true)) = ground arith
is_bool_iff true (some (Value.bool false)) = ground arith
is_bool_iff false (some (Value.bool true)) = ground arith
is_bool_iff false (some (Value.bool false)) = ground arith
is_bool_iff true (some Value.null) = ground arith
is_bool_iff true (some (Value.number n)) = ground arith
is_bool_iff true (some (Value.string s)) = ground arith
is_bool_iff true (some (Value.array vs)) = ground arith
is_bool_iff true (some (Value.object ms)) = ground arith
is_bool_iff false (some Value.null) = ground arith
is_bool_iff false (some (Value.number n)) = ground arith
is_bool_iff false (some (Value.string s)) = ground arith
is_bool_iff false (some (Value.array vs)) = ground arith
is_bool_iff false (some (Value.object ms)) = ground arith

non_empty_sound :
    (o : Option Value)
    → non_empty o ≡ true
    → (s : String) × ((o ≡ some (Value.string s)) × (s ≢ ""))
non_empty_sound none h = absurd (ground arith)
non_empty_sound (some (Value.string s)) h = (s, (refl, ground (arith, eq_iff s "")))
non_empty_sound (some Value.null) h = absurd (ground arith)
non_empty_sound (some (Value.bool b)) h = absurd (ground arith)
non_empty_sound (some (Value.number n)) h = absurd (ground arith)
non_empty_sound (some (Value.array vs)) h = absurd (ground arith)
non_empty_sound (some (Value.object ms)) h = absurd (ground arith)

non_empty_iff :
    (value : Value) (path : List String)
    → (non_empty (pointer value path) ≡ true) ↔ HasText value path
non_empty_iff value path = (
  non_empty_sound (pointer value path),
  λ (s, (is, some_text)). rw is (ground (arith, eq_iff s "")),
)

and_iff : (a b : Bool) → (a && b ≡ true) ↔ ((a ≡ true) × (b ≡ true))
and_iff a b = ground arith

env_pinned_iff :
    (value : Value) (input : BadgeInput)
    → (is_env_pinned value ≡ true) ↔ Earned value input env_pinned
unfolding is_env_pinned
env_pinned_iff value input =
    ↔_trans (and_iff (is_bool false (pointer value ("env" ∷ "git" ∷ "dirty" ∷ []))) _) (
      ×_iff (is_bool_iff false (pointer value ("env" ∷ "git" ∷ "dirty" ∷ []))) (
        ↔_trans
          (and_iff (non_empty (pointer value ("env" ∷ "git" ∷ "commit" ∷ [])))
            (non_empty (pointer value ("trial" ∷ "sandbox" ∷ "digest" ∷ []))))
          (×_iff (non_empty_iff value ("env" ∷ "git" ∷ "commit" ∷ []))
            (non_empty_iff value ("trial" ∷ "sandbox" ∷ "digest" ∷ [])))))

-- The test that `compute` makes for a badge.
abbrev test : Value → BadgeInput → Badge → Bool
test value input refs_resolved = input.all_refs_resolved
test value input harness_registered = input.harness_registered
test value input metric_registered = input.all_metrics_registered
test value input env_pinned = is_env_pinned value
test value input redacted = is_redacted value

test_iff :
    (value : Value) (input : BadgeInput) (b : Badge)
    → (test value input b ≡ true) ↔ Earned value input b
unfolding is_redacted
test_iff value input refs_resolved = (λ h. h, λ h. h)
test_iff value input harness_registered = (λ h. h, λ h. h)
test_iff value input metric_registered = (λ h. h, λ h. h)
test_iff value input env_pinned = env_pinned_iff value input
test_iff value input redacted = is_bool_iff true (pointer value ("redaction" ∷ "applied" ∷ []))

-- The badges of a list that are earned, in the order of the list.
pub data Awards (value : Value) (input : BadgeInput) : List Badge → List Badge → Type 0 where
  no_more : Awards value input [] []
  award :
      {b : Badge} {bs out : List Badge}
      → Earned value input b
      → Awards value input bs out
      → Awards value input (b ∷ bs) (b ∷ out)
  pass :
      {b : Badge} {bs out : List Badge}
      → ¬ Earned value input b
      → Awards value input bs out
      → Awards value input (b ∷ bs) out

step :
    (value : Value) (input : BadgeInput) (b : Badge) (bs out : List Badge)
    → Awards value input bs out
    → Awards value input (b ∷ bs) (push_if (test value input b) b ++ out)
step value input b bs out more =
    let (to, from) = test_iff value input b in
    elim (Bool-cases (test value input b)) [
      | inl e ↦ rw e (award (to e) more)
      | inr e ↦ rw e (pass (λ h. let x = from h in absurd (ground arith)) more)
    ]

last_step :
    (value : Value) (input : BadgeInput) (b : Badge)
    → Awards value input (b ∷ []) (push_if (test value input b) b)
last_step value input b =
    let (to, from) = test_iff value input b in
    elim (Bool-cases (test value input b)) [
      | inl e ↦ rw e (award (to e) no_more)
      | inr e ↦ rw e (pass (λ h. let x = from h in absurd (ground arith)) no_more)
    ]

listed : (b : Badge) → badge_from_str (badge_str b) ≡ some b
unfolding badge_from_str badge_str all_badges
listed refs_resolved = refl
listed harness_registered = refl
listed metric_registered = refl
listed env_pinned = refl
listed redacted = refl

-- The badges of a record are the ones that it earns of the five, in the order of `all_badges`.
pub compute-Awards :
    (value : Value) (input : BadgeInput) → Awards value input all_badges (compute value input)
unfolding compute all_badges
compute-Awards value input = step value input refs_resolved _ _ (
    step value input harness_registered _ _ (
      step value input metric_registered _ _
        (step value input env_pinned _ _ (last_step value input redacted))))

-- A text parses to a badge exactly when it is that badge's name.
pub badge_from_str_iff : (s : String) (b : Badge) → (badge_from_str s ≡ some b) ↔ (badge_str b ≡ s)
unfolding badge_from_str
badge_from_str_iff s b =
    (find-named badge_str s all_badges b, λ h. subst (λ t. badge_from_str t ≡ some b) h (listed b))
