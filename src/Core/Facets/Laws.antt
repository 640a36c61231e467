-- ===== src/Core/Facets/Laws.antt =====
-- About crates/evalhub-core/src/fingerprint.rs: facets and their names.
use mathlib.Core.Path.{subst}
use evalhub.Base.{String, ◌≡◌, ◌↔◌, refl, some}
use evalhub.Base.Lookup.{find-named}
use evalhub.Core.Facets.{
  Facet, model, task, harness, generation, trial, grading, env, all_facets, facet_str,
  facet_from_str,
}

listed : (f : Facet) → facet_from_str (facet_str f) ≡ some f
unfolding facet_from_str facet_str all_facets
listed model = refl
listed task = refl
listed harness = refl
listed generation = refl
listed trial = refl
listed grading = refl
listed env = refl

-- A text parses to a facet exactly when it is that facet's name.
pub facet_from_str_iff : (s : String) (f : Facet) → (facet_from_str s ≡ some f) ↔ (facet_str f ≡ s)
unfolding facet_from_str
facet_from_str_iff s f =
    (find-named facet_str s all_facets f, λ h. subst (λ t. facet_from_str t ≡ some f) h (listed f))
