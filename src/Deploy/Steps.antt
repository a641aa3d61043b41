-- ===== src/Deploy/Steps.antt =====
-- How facets are added to the Diamond: the batch cut of scripts/helpers/diamond-helpers.js, the steps
-- 02 to 04 of scripts/deploy, which ask the loupe first, and deploy-all.js, which keeps a set of the
-- selectors itself.
pub mod Shared
pub mod Groups
use sidiora_perpetual_protoc.Base.{
  ℕ, Bool, true, false, not, Option, none, some, List, [], ◌∷◌, ◌++◌, ◌==◌, if◌then◌else◌, includes,
  filter, map,
}
use sidiora_perpetual_protoc.Base.Dict.{Dict, lookup}
use sidiora_perpetual_protoc.Engine.Cycle.{is_empty}
use sidiora_perpetual_protoc.Upgrade.{zero_address, Action, Cut, diamond_cut, push}

-- A deployed facet with its selectors, or an entry of `cutEntries`.
pub record Facet : Type 0 where
  pub facet_address : ℕ
  pub selectors : List ℕ

-- Whether the loupe knows no facet for a selector.
abbrev pub is_unrouted : Dict ℕ → ℕ → Bool
is_unrouted routes s = elim (lookup s routes) [ none ↦ true | some f ↦ f == zero_address ]

abbrev pub filter_new_selectors : List ℕ → Dict ℕ → List ℕ
filter_new_selectors selectors routes = filter (is_unrouted routes) selectors

-- The cuts of a batch.
unfoldable pub batch_cuts : List Facet → List Cut
batch_cuts [] = []
batch_cuts (f ∷ fs) = push f.facet_address Action.add_action f.selectors ++ batch_cuts fs

unfoldable pub batch_diamond_cut : ℕ → List Facet → Dict ℕ → Option (Dict ℕ)
unfolding batch_cuts diamond_cut
batch_diamond_cut self facets routes =
    let cuts = batch_cuts facets in
    if is_empty cuts then some routes else diamond_cut self cuts routes

-- The loop of a step: every facet is asked for before the first cut.
abbrev pub cut_entries : Dict ℕ → List Facet → List Facet
cut_entries routes facets =
    map
      (λ f. record {
        facet_address = f.facet_address;
        selectors = filter_new_selectors f.selectors routes;
      })
      facets

unfoldable pub deploy_step : ℕ → List Facet → Dict ℕ → Option (Dict ℕ)
unfolding batch_diamond_cut
deploy_step self facets routes = batch_diamond_cut self (cut_entries routes facets) routes

-- `dedup`: the selectors that are not registered yet.
abbrev pub dedup : List ℕ → List ℕ → List ℕ
dedup registered selectors = filter (λ s. not (includes s registered)) selectors

-- The loop over the facets of a group, with the set of registered selectors.
unfoldable pub group_entries : List ℕ → List Facet → List Facet × List ℕ
group_entries registered [] = ([], registered)
group_entries registered (f ∷ fs) =
    let fresh = dedup registered f.selectors in
    let (entries, after) = group_entries (fresh ++ registered) fs in
    (record { facet_address = f.facet_address; selectors = fresh } ∷ entries, after)

-- The groups of deploy-all.js, one batch each; `none` is a revert.
unfoldable pub deploy_groups : ℕ → List (List Facet) → List ℕ → Dict ℕ → Option (Dict ℕ)
unfolding group_entries batch_diamond_cut
deploy_groups self [] registered routes = some routes
deploy_groups self (g ∷ gs) registered routes =
    let (entries, after) = group_entries registered g in
    elim (batch_diamond_cut self entries routes) [
      | none ↦ none
      | some t ↦ deploy_groups self gs after t
    ]
