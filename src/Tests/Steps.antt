-- ===== src/Tests/Steps.antt =====
-- Steps of the deployment at concrete facets.
use sidiora_perpetual_protoc.Base.{ℕ, ◌≡◌, refl, [], ◌∷◌, some, none, arith}
use sidiora_perpetual_protoc.Base.Dict.{Dict, lookup, Distinct}
use sidiora_perpetual_protoc.Deploy.Steps.{Facet, deploy_step, deploy_groups}
use sidiora_perpetual_protoc.Deploy.Steps.Shared.{claims, shared_selector_reverts}
use sidiora_perpetual_protoc.Deploy.Steps.Groups.{or_else, first_of_groups, deploy_groups-first}

-- Two facets with the selector 2, as both pricing facets have getMarkPrice.
abbrev virtual_amm : Facet
virtual_amm = record { facet_address = 12; selectors = 1 ∷ 2 ∷ [] }

abbrev price_feed : Facet
price_feed = record { facet_address = 13; selectors = 2 ∷ 3 ∷ [] }

abbrev diamond : Dict ℕ
diamond = (9, 10) ∷ []

shared_selector_reverts_example : deploy_step 5 (virtual_amm ∷ price_feed ∷ []) diamond ≡ none
unfolding claims
shared_selector_reverts_example =
    shared_selector_reverts 5 2 (virtual_amm ∷ price_feed ∷ []) diamond refl (omega arith)

deploy_groups-first_example :
    let groups = (virtual_amm ∷ price_feed ∷ []) ∷ (price_feed ∷ []) ∷ [] in
    (t : Dict ℕ) × (deploy_groups 5 groups (9 ∷ []) diamond ≡ some t)
    × Distinct t
    × ((s : ℕ) → lookup s t ≡ or_else (first_of_groups s groups) (lookup s diamond))
deploy_groups-first_example =
    deploy_groups-first 5 ((virtual_amm ∷ price_feed ∷ []) ∷ (price_feed ∷ []) ∷ []) (9 ∷ [])
      diamond
      (
        (((refl, (refl, _)), refl), (((refl, (refl, _)), refl), _)),
        ((((refl, (refl, _)), refl), _), _),
      )
      (refl, _) (λ s. ground arith)
