-- ===== src/Tests/Upgrade.antt =====
-- The full facet upgrade at concrete routes.
use sidiora_perpetual_protoc.Base.{
  ℕ, ◌≡◌, refl, [], ◌∷◌, List, true, some, none, if◌then◌else◌, includes, arith,
}
use sidiora_perpetual_protoc.Base.Dict.{Dict, lookup, Distinct}
use sidiora_perpetual_protoc.Upgrade.{Mode, upgrade_facet, facet_selectors}
use sidiora_perpetual_protoc.Upgrade.Routes.{routed_to}
use sidiora_perpetual_protoc.Upgrade.Laws.{Upgradable, full_upgrade}
use sidiora_perpetual_protoc.Upgrade.Robustness.{Update, Addition, read_selectors, cut_all}
use sidiora_perpetual_protoc.Upgrade.Robustness.Again.{rerun_reverts}
use sidiora_perpetual_protoc.Upgrade.Robustness.Laws.{
  Additions, Updates, touched, taken, target, cut_all_settles,
}

-- Facet 20 has the selectors 1 and 2, facet 30 has 3, and the Diamond, 10, has 4 itself.
abbrev routes : Dict ℕ
routes = (1, 20) ∷ (2, 20) ∷ (3, 30) ∷ (4, 10) ∷ []

upgradable : Upgradable 10 20 40 (2 ∷ 5 ∷ []) routes
upgradable = record {
  one_route = (refl, (refl, (refl, (refl, _))));
  no_repeats = (refl, (refl, _));
  some_new = refl;
  deployed = refl;
  mutable = refl;
  fresh = refl;
  unclaimed = λ s a i e. ground (arith, i, e);
}

full_upgrade_example :
    (t : Dict ℕ) × (upgrade_facet 10 Mode.full_mode (some 20) 40 (2 ∷ 5 ∷ []) routes ≡ some t)
    × ((s : ℕ)
        → lookup s t ≡ (
            if includes s (2 ∷ 5 ∷ [])
            then some 40
            else if routed_to 20 s routes
            then none
            else lookup s routes))
full_upgrade_example = full_upgrade 10 20 40 (2 ∷ 5 ∷ []) routes upgradable

abbrev update_to : ℕ → Update
update_to facet = record {
  recorded = some 20;
  readable = true;
  facet = facet;
  selectors = 2 ∷ 5 ∷ [];
}

-- Facets 20 and 30 are replaced; the new facet 60 would also have 4, which has a route.
abbrev updates : List Update
updates =
    update_to 40
    ∷ record { recorded = some 30; readable = true; facet = 50; selectors = 3 ∷ 6 ∷ [] }
    ∷ []

abbrev additions : List Addition
additions = record { facet = 60; selectors = 7 ∷ 4 ∷ []; readable = λ s. true } ∷ []

additions_Ready : Additions routes additions
unfolding taken
additions_Ready =
    Additions.next
      (record {
        no_repeats = (refl, (refl, _));
        deployed = refl;
        unclaimed = λ s i. ground (arith, i);
      })
      (λ s i. refl) Additions.done

updates_Ready : Updates 10 routes additions updates
unfolding read_selectors taken touched facet_selectors
updates_Ready =
    Updates.next
      (record {
        no_repeats = (refl, (refl, _));
        read_once = (refl, (refl, _));
        deployed = refl;
        replaceable = λ s i. (20, ground (arith, i), refl, refl);
        unclaimed = λ s i j. ground (arith, i, j);
      })
      (λ s i. ground (arith, i))
      (Updates.next
        (record {
          no_repeats = (refl, (refl, _));
          read_once = (refl, _);
          deployed = refl;
          replaceable = λ s i. (30, ground (arith, i), refl, refl);
          unclaimed = λ s i j. ground (arith, i, j);
        })
        (λ s i. ground (arith, i)) Updates.done)

cut_all_settles_example :
    (t : Dict ℕ) × (cut_all 10 updates additions routes ≡ some t)
    × Distinct t
    × ((s : ℕ) → lookup s t ≡ target routes updates additions s)
cut_all_settles_example =
    cut_all_settles 10 updates additions routes (refl, (refl, (refl, (refl, _)))) updates_Ready
      additions_Ready

-- A second run deploys facet 41 in place of 40.
rerun_reverts_example :
    (t : Dict ℕ) × (cut_all 10 updates additions routes ≡ some t)
    × (cut_all 10 (update_to 41 ∷ []) additions t ≡ none)
rerun_reverts_example =
    rerun_reverts 10 20 (update_to 40) _ additions routes (refl, (refl, (refl, (refl, _))))
      updates_Ready additions_Ready refl refl refl
      (record { not_updated = (refl, (refl, _)); not_added = (refl, _) }) (update_to 41) []
      additions refl refl
