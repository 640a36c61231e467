-- ===== src/Core/Registry/Laws.antt =====
-- About crates/evalhub-core/src/registry.rs: the lookups by id.
use evalhub.Base.{String, ◌≡◌, ◌↔◌, refl, some}
use evalhub.Base.Lists.{All}
use evalhub.Base.Lookup.{Found, Listed, lookup_iff}
use evalhub.Core.Registry.{
  MetricDef, core_metrics, core_metric, RelationTypeDef, core_relation_types, core_relation_type,
}

-- A metric is found under an id exactly when it is one of the core metrics and the id is its own.
pub core_metric_iff :
    (id : String) (m : MetricDef)
    → (core_metric id ≡ some m) ↔ (Listed (λ d. d.id) m core_metrics × (m.id ≡ id))
unfolding core_metric core_metrics
core_metric_iff id m = lookup_iff (λ d. d.id) core_metrics each id m
  where
    each : All (Found (λ d. d.id) core_metrics) core_metrics
    each = (refl, (refl, (refl, (refl, (refl, (refl, (refl, (refl, tt))))))))

-- A relation type is found under an id exactly when it is one of the core ones and the id is its own.
pub core_relation_type_iff :
    (id : String) (r : RelationTypeDef)
    → (core_relation_type id ≡ some r) ↔ (Listed (λ d. d.id) r core_relation_types × (r.id ≡ id))
unfolding core_relation_type core_relation_types
core_relation_type_iff id r = lookup_iff (λ d. d.id) core_relation_types each id r
  where
    each : All (Found (λ d. d.id) core_relation_types) core_relation_types
    each = (refl, (refl, (refl, (refl, (refl, (refl, (refl, tt)))))))
