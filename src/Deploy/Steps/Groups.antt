-- ===== src/Deploy/Steps/Groups.antt =====
-- The groups of scripts/deploy/deploy-all.js.
use sidiora_perpetual_protoc.Base.{
  ℕ, ◌≡◌, refl, ap, ◌∙◌, Bool, true, false, not, Option, none, some, List, [], ◌∷◌, ◌++◌, ◌==◌,
  ◌&&◌, ◌||◌, if◌then◌else◌, includes, NoRepeats, All, arith, Option-cases, inl, inr,
}
use sidiora_perpetual_protoc.Base.Dict.{Dict, lookup, Distinct}
use sidiora_perpetual_protoc.Upgrade.{zero_address, diamond_cut}
use sidiora_perpetual_protoc.Upgrade.Routes.{includes-filter, filter-NoRepeats, add_each-Rerouted}
use sidiora_perpetual_protoc.Upgrade.Cuts.{push_add_more}
use sidiora_perpetual_protoc.Deploy.Steps.{Facet, dedup, group_entries, batch_cuts, deploy_groups}
use sidiora_perpetual_protoc.Deploy.Steps.Shared.{batch_lem}

-- The set of registered selectors is the set of those that have a route.
abbrev pub Known : List ℕ → Dict ℕ → Type 0
Known registered routes =
    (s : ℕ) → includes s registered ≡ (elim (lookup s routes) [ none ↦ false | some f ↦ true ])

-- What is asked of a deployed facet.
abbrev pub Deployed : Facet → Type 0
Deployed f = NoRepeats f.selectors × ((f.facet_address == zero_address) ≡ false)

-- The first facet that has a selector.
unfoldable pub first_facet : ℕ → List Facet → Option ℕ
first_facet s [] = none
first_facet s (f ∷ fs) = if includes s f.selectors then some f.facet_address else first_facet s fs

unfoldable pub first_of_groups : ℕ → List (List Facet) → Option ℕ
unfolding first_facet
first_of_groups s [] = none
first_of_groups s (g ∷ gs) = elim (first_facet s g) [
  | none ↦ first_of_groups s gs
  | some f ↦ some f
]

-- The route that is there, or else another.
abbrev pub or_else : Option ℕ → Option ℕ → Option ℕ
or_else other r = elim r [ none ↦ other | some f ↦ some f ]

or_else-none : (r : Option ℕ) → r ≡ or_else none r
or_else-none none = refl
or_else-none (some f) = refl

or_else_assoc :
    (p q r : Option ℕ) → or_else q (or_else p r) ≡ or_else (elim p [ none ↦ q | some f ↦ some f ]) r
or_else_assoc none q none = refl
or_else_assoc (some f) q none = refl
or_else_assoc none q (some g) = refl
or_else_assoc (some f) q (some g) = refl

unrouted :
    (s : ℕ) (registered : List ℕ) (routes : Dict ℕ)
    → includes s registered ≡ (elim (lookup s routes) [ none ↦ false | some f ↦ true ])
    → includes s registered ≡ false
    → lookup s routes ≡ none
unrouted s registered routes k e = elim (Option-cases (lookup s routes)) [
  | inl n ↦ n
  | inr (a, h) ↦ grind (arith, k, e, h)
]

includes-append :
    (s : ℕ) (xs ys : List ℕ) → includes s (xs ++ ys) ≡ (includes s xs || includes s ys)
includes-append s [] ys = refl
includes-append s (x ∷ xs) ys = grind (arith, includes-append s xs ys)

known_after :
    (facet : ℕ) (n g : Bool) (r : Option ℕ) {i a : Bool} {r₁ : Option ℕ}
    → g ≡ (elim r [ none ↦ false | some f ↦ true ])
    → i ≡ (not g && n)
    → a ≡ (i || g)
    → r₁ ≡ (if i then some facet else r)
    → a ≡ (elim r₁ [ none ↦ false | some f ↦ true ])
known_after facet n g none hg hi ha e = grind (arith, hg, hi, ha, e)
known_after facet n g (some f) hg hi ha e = grind (arith, hg, hi, ha, e)

first_after :
    (facet : ℕ) (n g : Bool) (other r : Option ℕ) {i : Bool} {r₁ : Option ℕ}
    → g ≡ (elim r [ none ↦ false | some f ↦ true ])
    → i ≡ (not g && n)
    → r₁ ≡ (if i then some facet else r)
    → or_else other r₁ ≡ or_else (if n then some facet else other) r
first_after facet n g other none hg hi e = grind (arith, hg, hi, e)
first_after facet n g other (some f) hg hi e = grind (arith, hg, hi, e)

group_lem :
    (self : ℕ) (facets : List Facet) (registered : List ℕ) (routes : Dict ℕ)
    → All Deployed facets
    → Distinct routes
    → Known registered routes
    → let r = group_entries registered facets in
      (t : Dict ℕ) × (diamond_cut self (batch_cuts r.0) routes ≡ some t)
      × Distinct t
      × Known r.1 t
      × ((s : ℕ) → lookup s t ≡ or_else (first_facet s facets) (lookup s routes))
unfolding group_entries batch_cuts first_facet diamond_cut
group_lem self [] registered routes h d k = (routes, refl, d, k, (λ s. or_else-none _))
group_lem self (f ∷ fs) registered routes ((n, z), h) d k =
    let fresh = dedup registered f.selectors in
    let in_fresh : (s : ℕ)
        → includes s fresh ≡ (not (includes s registered) && includes s f.selectors) =
      λ s. includes-filter s (λ x. not (includes x registered)) f.selectors in
    let (t₁, e₁, (d₁, r₁)) =
      add_each-Rerouted f.facet_address fresh routes d
        (filter-NoRepeats (λ x. not (includes x registered)) f.selectors n)
        (λ s i. unrouted s registered routes (k s) (grind (arith, in_fresh s, i))) in
    let (t, e, d', k', r) = group_lem self fs (fresh ++ registered) t₁ h d₁ (λ s.
      known_after f.facet_address (includes s f.selectors) (includes s registered) (lookup s routes)
        (k s) (in_fresh s) (includes-append s fresh registered) (r₁ s)) in
    (
      t,
      push_add_more self f.facet_address fresh _ routes t₁ z e₁ ∙ e,
      d',
      k',
      (λ s.
          r s
          ∙ first_after f.facet_address (includes s f.selectors) (includes s registered)
              (first_facet s fs) (lookup s routes) (k s) (in_fresh s) (r₁ s)),
    )

-- If the set of registered selectors is that of the selectors that have a route, each selector
-- has at most one, no deployed facet lists a selector twice and none has the zero address, the
-- batches of the groups do not revert and leave one route for each selector: the one that it
-- had, or else the first facet of the groups that lists it, or none.
pub deploy_groups-first :
    (self : ℕ) (groups : List (List Facet)) (registered : List ℕ) (routes : Dict ℕ)
    → All (All Deployed) groups
    → Distinct routes
    → Known registered routes
    → (t : Dict ℕ) × (deploy_groups self groups registered routes ≡ some t)
      × Distinct t
      × ((s : ℕ) → lookup s t ≡ or_else (first_of_groups s groups) (lookup s routes))
unfolding deploy_groups first_of_groups
deploy_groups-first self [] registered routes h d k = (routes, refl, d, (λ s. or_else-none _))
deploy_groups-first self (g ∷ gs) registered routes (h, hs) d k =
    let (t₁, e₁, d₁, k₁, r₁) = group_lem self g registered routes h d k in
    let (t, e, d', r) = deploy_groups-first self gs (group_entries registered g).1 t₁ hs d₁ k₁ in
    (
      t,
      rw (batch_lem self (group_entries registered g).0 routes ∙ e₁, deploy_groups) e,
      d',
      (λ s. r s ∙ ap (or_else (first_of_groups s gs)) (r₁ s) ∙ or_else_assoc (first_facet s g) _ _),
    )
