-- ===== src/Upgrade/Robustness.antt =====
-- The diamond cut of scripts/upgrade/upgrade-v2-robustness.js: several facets are replaced and new ones
-- added in one transaction, from selectors that were read before it.
pub mod Moves
pub mod Laws
pub mod Again
use sidiora_perpetual_protoc.Base.{
  ℕ, Bool, true, false, Option, none, some, List, [], ◌∷◌, ◌++◌, ◌==◌, if◌then◌else◌, filter,
}
use sidiora_perpetual_protoc.Base.Dict.{Dict, lookup}
use sidiora_perpetual_protoc.Engine.Cycle.{is_empty}
use sidiora_perpetual_protoc.Upgrade.{
  zero_address, Action, Cut, diamond_cut, facet_selectors, to_add, to_replace, to_remove, push,
  old_selectors,
}

-- An entry of UPDATED_FACETS: the recorded address, whether the loupe answers for it, and the facet
-- that was deployed.
pub record Update : Type 0 where
  pub recorded : Option ℕ
  pub readable : Bool
  pub facet : ℕ
  pub selectors : List ℕ

-- An entry of NEW_FACETS, with the selectors for which the loupe answers.
pub record Addition : Type 0 where
  pub facet : ℕ
  pub selectors : List ℕ
  pub readable : ℕ → Bool

-- A read that throws is only logged.
unfoldable pub read_selectors : Update → Dict ℕ → List ℕ
unfolding facet_selectors
read_selectors u routes = if u.readable then old_selectors u.recorded routes else []

unfoldable pub update_cuts : Dict ℕ → List Update → List Cut → List Cut
unfolding read_selectors
update_cuts routes [] rest = rest
update_cuts routes (u ∷ us) rest =
    let was = read_selectors u routes in
    push u.facet Action.replace_action (to_replace was u.selectors)
    ++ (push u.facet Action.add_action (to_add was u.selectors)
        ++ (push zero_address Action.remove_action (to_remove was u.selectors)
            ++ update_cuts routes us rest))

-- Whether a selector of a new facet is kept: one that has a facet is skipped.
abbrev pub is_new : Dict ℕ → Addition → ℕ → Bool
is_new routes a s =
    if a.readable s
    then (elim (lookup s routes) [ none ↦ true | some f ↦ f == zero_address ])
    else true

unfoldable pub addition_cuts : Dict ℕ → List Addition → List Cut
addition_cuts routes [] = []
addition_cuts routes (a ∷ more) =
    push a.facet Action.add_action (filter (is_new routes a) a.selectors)
    ++ addition_cuts routes more

-- Phase 3 of the script; `none` is a revert.
unfoldable pub cut_all : ℕ → List Update → List Addition → Dict ℕ → Option (Dict ℕ)
unfolding update_cuts addition_cuts diamond_cut
cut_all self us additions routes =
    let cuts = update_cuts routes us (addition_cuts routes additions) in
    if is_empty cuts then some routes else diamond_cut self cuts routes
