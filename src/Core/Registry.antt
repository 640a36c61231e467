-- ===== src/Core/Registry.antt =====
-- crates/evalhub-core/src/registry.rs: the metrics and relation types that ship with the hub.
pub mod Laws
use evalhub.Base.{String, Bool, true, false, Option, List, [], ◌∷◌, str_eq}
use evalhub.Base.Lists.{find}
use evalhub.Schema.{RecordKind, card, eval}

pub record MetricDef : Type 0 where
  pub id : String
  pub lower_is_better : Bool
  pub description : String

abbrev pub metric_def : String → Bool → String → MetricDef
metric_def id lower description = record {
  id = id;
  lower_is_better = lower;
  description = description;
}

unfoldable pub core_metrics : List MetricDef
core_metrics =
    metric_def "core/pass_rate" false "Fraction of items graded as passing."
    ∷ metric_def "core/accuracy" false "Fraction of items answered correctly."
    ∷ metric_def "core/f1" false "Harmonic mean of precision and recall."
    ∷ metric_def "core/exact_match" false
        "Fraction of items whose output matched the reference exactly."
    ∷ metric_def "core/pass_at_k" false "Probability that at least one of k samples passes."
    ∷ metric_def "core/mean_score" false "Mean of a per-item score on the producer's scale."
    ∷ metric_def "core/latency_ms" true "Wall-clock time per item, in milliseconds."
    ∷ metric_def "core/cost_usd" true "Cost per item, in US dollars."
    ∷ []

pub record RelationTypeDef : Type 0 where
  pub id : String
  pub from : RecordKind
  pub to : RecordKind
  pub inverse : String

abbrev pub relation_type_def : String → RecordKind → RecordKind → String → RelationTypeDef
relation_type_def id from to inverse = record { id = id; from = from; to = to; inverse = inverse }

unfoldable pub core_relation_types : List RelationTypeDef
core_relation_types =
    relation_type_def "core/uses_eval" card eval "used_by"
    ∷ relation_type_def "core/retry_of" card card "retried_by"
    ∷ relation_type_def "core/rerun_of" card card "rerun_by"
    ∷ relation_type_def "core/judged_by" card card "judges"
    ∷ relation_type_def "core/baseline_of" card card "compared_to"
    ∷ relation_type_def "core/derived_from" eval eval "derives"
    ∷ relation_type_def "core/subset_of" eval eval "superset_of"
    ∷ []

unfoldable pub core_metric : String → Option MetricDef
core_metric id = find (λ m. str_eq m.id id) core_metrics

unfoldable pub core_relation_type : String → Option RelationTypeDef
core_relation_type id = find (λ r. str_eq r.id id) core_relation_types
