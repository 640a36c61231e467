-- ===== src/Core/Badge.antt =====
-- crates/evalhub-core/src/badge.rs: the marks that the hub awards a record.
pub mod Laws
use evalhub.Base.{
  String, Bool, true, false, not, ◌&&◌, Option, none, some, List, [], ◌∷◌, ◌++◌, if◌then◌else◌,
  str_eq,
}
use evalhub.Base.Lists.{find}
use evalhub.Json.{Value, as_str, pointer}

pub record BadgeInput : Type 0 where
  pub all_refs_resolved : Bool
  pub harness_registered : Bool
  pub all_metrics_registered : Bool

pub data Badge : Type 0 where
  refs_resolved harness_registered metric_registered env_pinned redacted : Badge

unfoldable pub all_badges : List Badge
all_badges = refs_resolved ∷ harness_registered ∷ metric_registered ∷ env_pinned ∷ redacted ∷ []

unfoldable pub badge_str : Badge → String
badge_str refs_resolved = "refs_resolved"
badge_str harness_registered = "harness_registered"
badge_str metric_registered = "metric_registered"
badge_str env_pinned = "env_pinned"
badge_str redacted = "redacted"

unfoldable pub badge_from_str : String → Option Badge
unfolding all_badges
badge_from_str s = find (λ b. str_eq (badge_str b) s) all_badges

-- `== Some(&Value::Bool(b))`
abbrev pub is_bool : Bool → Option Value → Bool
is_bool true (some (Value.bool true)) = true
is_bool false (some (Value.bool false)) = true
is_bool b o = false

-- `and_then(Value::as_str).is_some_and(|s| !s.is_empty())`
abbrev pub non_empty : Option Value → Bool
non_empty (some (Value.string s)) = not (str_eq s "")
non_empty o = false

unfoldable pub is_env_pinned : Value → Bool
is_env_pinned value =
    is_bool false (pointer value ("env" ∷ "git" ∷ "dirty" ∷ []))
    && (non_empty (pointer value ("env" ∷ "git" ∷ "commit" ∷ []))
        && non_empty (pointer value ("trial" ∷ "sandbox" ∷ "digest" ∷ [])))

unfoldable pub is_redacted : Value → Bool
is_redacted value = is_bool true (pointer value ("redaction" ∷ "applied" ∷ []))

abbrev pub push_if : Bool → Badge → List Badge
push_if b badge = if b then badge ∷ [] else []

unfoldable pub compute : Value → BadgeInput → List Badge
compute value input =
    push_if input.all_refs_resolved refs_resolved
    ++ (push_if input.harness_registered harness_registered
        ++ (push_if input.all_metrics_registered metric_registered
            ++ (push_if (is_env_pinned value) env_pinned ++ push_if (is_redacted value) redacted)))
