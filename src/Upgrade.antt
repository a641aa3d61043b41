-- ===== src/Upgrade.antt =====
-- The facet upgrade of scripts/upgrade/upgrade-facet.js, sent by the owner of the Diamond, over what
-- diamondCut of LibDiamond.sol does to the routes from selectors to facets. The positions in which
-- the contract keeps the selectors are left out; the loupe's list of a facet is read off the routes.
pub mod Routes
pub mod Cuts
pub mod Laws
pub mod Robustness
use sidiora_perpetual_protoc.Base.{
  ℕ, Bool, true, false, not, Option, none, some, List, [], ◌∷◌, ◌++◌, ◌==◌, ◌||◌, ◌&&◌,
  if◌then◌else◌, includes, filter, map,
}
use sidiora_perpetual_protoc.Base.Dict.{Dict, lookup, insert, erase}
use sidiora_perpetual_protoc.Engine.Cycle.{is_empty}

-- `ethers.ZeroAddress`
abbrev pub zero_address : ℕ
zero_address = 0

pub data Action : Type 0 where
  add_action replace_action remove_action : Action

pub record Cut : Type 0 where
  pub facet_address : ℕ
  pub action : Action
  pub selectors : List ℕ

-- The loop of `addFunctions`: a selector that has a facet reverts.
unfoldable pub add_each : ℕ → List ℕ → Dict ℕ → Option (Dict ℕ)
add_each facet [] routes = some routes
add_each facet (s ∷ ss) routes = elim (lookup s routes) [
  | some old ↦ none
  | none ↦ add_each facet ss (insert s facet routes)
]

-- `removeFunction`, which has checks of its own; `self` is the Diamond.
unfoldable pub remove_function : ℕ → ℕ → Dict ℕ → Option (Dict ℕ)
remove_function self s routes = elim (lookup s routes) [
  | none ↦ none
  | some old ↦ if old == self then none else some (erase s routes)
]

-- The loop of `replaceFunctions`.
unfoldable pub replace_each : ℕ → ℕ → List ℕ → Dict ℕ → Option (Dict ℕ)
unfolding remove_function
replace_each self facet [] routes = some routes
replace_each self facet (s ∷ ss) routes = elim (lookup s routes) [
  | none ↦ none
  | some old ↦ if old == facet then none else (elim (remove_function self s routes) [
    | none ↦ none
    | some rest ↦ replace_each self facet ss (insert s facet rest)
  ])
]

-- The loop of `removeFunctions`.
unfoldable pub remove_each : ℕ → List ℕ → Dict ℕ → Option (Dict ℕ)
unfolding remove_function
remove_each self [] routes = some routes
remove_each self (s ∷ ss) routes = elim (remove_function self s routes) [
  | none ↦ none
  | some rest ↦ remove_each self ss rest
]

-- A round of `diamondCut`; `none` is a revert. A facet that is not the zero address has code.
unfoldable pub cut_facet : ℕ → Cut → Dict ℕ → Option (Dict ℕ)
unfolding add_each replace_each remove_each
cut_facet self c routes = if is_empty c.selectors then none else (elim c.action [
  | add_action ↦
      if c.facet_address == zero_address then none else add_each c.facet_address c.selectors routes
  | replace_action ↦
      if c.facet_address == zero_address
      then none
      else replace_each self c.facet_address c.selectors routes
  | remove_action ↦
      if c.facet_address == zero_address then remove_each self c.selectors routes else none
])

-- `diamondCut` without an initialisation: a revert undoes all of it.
unfoldable pub diamond_cut : ℕ → List Cut → Dict ℕ → Option (Dict ℕ)
unfolding cut_facet
diamond_cut self [] routes = some routes
diamond_cut self (c ∷ cs) routes = elim (cut_facet self c routes) [
  | none ↦ none
  | some rest ↦ diamond_cut self cs rest
]

-- `loupe.facetFunctionSelectors`
unfoldable pub facet_selectors : ℕ → Dict ℕ → List ℕ
facet_selectors facet routes = map (λ r. r.0) (filter (λ r. r.1 == facet) routes)

-- The selector diff.
abbrev pub to_add : List ℕ → List ℕ → List ℕ
to_add old new = filter (λ s. not (includes s old)) new

abbrev pub to_replace : List ℕ → List ℕ → List ℕ
to_replace old new = filter (λ s. includes s old) new

abbrev pub to_remove : List ℕ → List ℕ → List ℕ
to_remove old new = filter (λ s. not (includes s new)) old

-- `cuts.push(…)` where there is a selector.
abbrev pub push : ℕ → Action → List ℕ → List Cut
push facet action [] = []
push facet action (s ∷ ss) =
    record { facet_address = facet; action = action; selectors = s ∷ ss } ∷ []

pub data Mode : Type 0 where
  replace_mode add_new_mode full_mode : Mode

-- What the script does: it ends without a change, or it cuts.
pub data Plan : Type 0 where
  abort : Plan
  cut : List Cut → Plan

unfoldable pub mode_cuts : Mode → ℕ → List ℕ → List ℕ → List Cut
mode_cuts replace_mode facet old new =
    push facet replace_action (to_replace old new) ++ push facet add_action (to_add old new)
mode_cuts add_new_mode facet old new = push facet add_action (to_add old new)
mode_cuts full_mode facet old new =
    push zero_address remove_action (to_remove old new)
    ++ (push facet replace_action (to_replace old new) ++ push facet add_action (to_add old new))

-- The plan of an upgrade to a new facet.
unfoldable pub plan : Mode → ℕ → List ℕ → List ℕ → Plan
unfolding mode_cuts
plan mode facet old new =
    if is_empty (to_add old new) && is_empty (to_replace old new) && is_empty (to_remove old new)
    then abort
    else (elim mode [
      | replace_mode ↦ cut (mode_cuts replace_mode facet old new)
      | add_new_mode ↦
          if is_empty (to_add old new) then abort else cut (mode_cuts add_new_mode facet old new)
      | full_mode ↦ cut (mode_cuts full_mode facet old new)
    ])

-- The old selectors: those of the recorded facet, or none if none is recorded.
abbrev pub old_selectors : Option ℕ → Dict ℕ → List ℕ
old_selectors none routes = []
old_selectors (some facet) routes = facet_selectors facet routes

-- The script on the Diamond's routes; `none` is a revert.
unfoldable pub upgrade_facet : ℕ → Mode → Option ℕ → ℕ → List ℕ → Dict ℕ → Option (Dict ℕ)
unfolding plan diamond_cut facet_selectors
upgrade_facet self mode recorded facet new routes =
    elim (plan mode facet (old_selectors recorded routes) new) [
      | abort ↦ some routes
      | cut cuts ↦ diamond_cut self cuts routes
    ]
