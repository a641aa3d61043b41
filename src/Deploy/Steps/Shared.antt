-- ===== src/Deploy/Steps/Shared.antt =====
-- A step of scripts/deploy two of whose facets have a selector in common.
use sidiora_perpetual_protoc.Base.{
  ℕ, ◌≡◌, refl, sym, ap, ◌∙◌, true, none, some, List, [], ◌∷◌, ◌++◌, ◌==◌, ◌+◌, ◌<◌, if◌then◌else◌,
  includes, arith, Bool-cases, Option-cases, inl, inr, ◌⊎◌, ==→eq,
}
use sidiora_perpetual_protoc.Base.Dict.{Dict, lookup, insert, lookup-insert}
use sidiora_perpetual_protoc.Upgrade.{
  zero_address, Action, Cut, add_each, cut_facet, diamond_cut, push,
}
use sidiora_perpetual_protoc.Upgrade.Routes.{includes-filter}
use sidiora_perpetual_protoc.Upgrade.Cuts.{no_cut, push_add_more}
use sidiora_perpetual_protoc.Deploy.Steps.{
  Facet, is_unrouted, batch_cuts, batch_diamond_cut, cut_entries, deploy_step,
}

-- How many of the facets have a selector.
unfoldable pub claims : ℕ → List Facet → ℕ
claims s [] = 0
claims s (f ∷ fs) = (if includes s f.selectors then 1 else 0) + claims s fs

-- An added selector that has a route reverts.
add_each_claimed :
    (facet s a : ℕ) (ss : List ℕ) (routes : Dict ℕ)
    → includes s ss ≡ true
    → lookup s routes ≡ some a
    → add_each facet ss routes ≡ none
unfolding add_each
add_each_claimed facet s a [] routes i h = grind (arith, i)
add_each_claimed facet s a (x ∷ ss) routes i h = elim (Option-cases (lookup x routes)) [
  | inr (b, e) ↦ rw (e, add_each) refl
  | inl n ↦ elim (Bool-cases (x == s)) [
    | inl k ↦ grind (arith, n, h, ap (λ y. lookup y routes) (==→eq x s k))
    | inr k ↦
        rw (n, add_each)
          (add_each_claimed facet s a ss (insert x facet routes) (grind (arith, i, k))
            (lookup-insert x s facet routes ∙ grind (arith, k, h)))
  ]
]

-- What an addition leaves: its selectors have the facet, and routes stay.
add_each_adds :
    (facet s : ℕ) (ss : List ℕ) (routes t : Dict ℕ)
    → add_each facet ss routes ≡ some t
    → lookup s t ≡ (if includes s ss then some facet else lookup s routes)
unfolding add_each
add_each_adds facet s [] routes t h = ap (λ o. elim o [ none ↦ none | some r ↦ lookup s r ]) (sym h)
add_each_adds facet s (x ∷ ss) routes t h = elim (Option-cases (lookup x routes)) [
  | inr (b, e) ↦ grind (arith, h, e)
  | inl n ↦
      add_each_adds facet s ss (insert x facet routes) t (grind (arith, h, n))
      ∙ grind (arith, lookup-insert x s facet routes)
]

-- A cut of added selectors reverts, or it is done and the next follow.
push_add_cases :
    (self facet : ℕ) (ss : List ℕ) (rest : List Cut) (routes : Dict ℕ)
    → (diamond_cut self (push facet Action.add_action ss ++ rest) routes ≡ none)
      ⊎ ((t : Dict ℕ) × (add_each facet ss routes ≡ some t)
          × (diamond_cut self (push facet Action.add_action ss ++ rest) routes
              ≡ diamond_cut self rest t))
unfolding diamond_cut cut_facet add_each
push_add_cases self facet [] rest routes = inr (routes, refl, refl)
push_add_cases self facet (x ∷ xs) rest routes = elim (Bool-cases (facet == zero_address)) [
  | inl z ↦ inl (rw (z, diamond_cut, cut_facet) refl)
  | inr z ↦ elim (Option-cases (add_each facet (x ∷ xs) routes)) [
    | inl e ↦ inl (rw (z, diamond_cut, cut_facet) (rw e refl))
    | inr (t, e) ↦ inr (t, e, push_add_more self facet (x ∷ xs) rest routes t z e)
  ]
]

-- A batch with a selector that has a route reverts.
claimed_batch :
    (self s a : ℕ) (facets : List Facet) (routes : Dict ℕ)
    → 0 < claims s facets
    → lookup s routes ≡ some a
    → diamond_cut self (batch_cuts facets) routes ≡ none
unfolding claims batch_cuts
claimed_batch self s a [] routes c h = grind (arith, c)
claimed_batch self s a (f ∷ fs) routes c h =
    elim (push_add_cases self f.facet_address f.selectors (batch_cuts fs) routes) [
      | inl r ↦ r
      | inr (t, e, r) ↦ elim (Bool-cases (includes s f.selectors)) [
        | inl i ↦ grind (arith, e, add_each_claimed f.facet_address s a f.selectors routes i h)
        | inr i ↦
            r
            ∙ claimed_batch self s a fs t (grind (arith, c, i))
                (add_each_adds f.facet_address s f.selectors routes t e ∙ rw i h)
      ]
    ]

-- A batch that adds a selector twice reverts.
shared_batch :
    (self s : ℕ) (facets : List Facet) (routes : Dict ℕ)
    → 1 < claims s facets
    → diamond_cut self (batch_cuts facets) routes ≡ none
unfolding claims batch_cuts
shared_batch self s [] routes c = grind (arith, c)
shared_batch self s (f ∷ fs) routes c =
    elim (push_add_cases self f.facet_address f.selectors (batch_cuts fs) routes) [
      | inl r ↦ r
      | inr (t, e, r) ↦ elim (Bool-cases (includes s f.selectors)) [
        | inl i ↦
            r
            ∙ claimed_batch self s f.facet_address fs t (grind (arith, c, i))
                (add_each_adds f.facet_address s f.selectors routes t e ∙ rw i refl)
        | inr i ↦ r ∙ shared_batch self s fs t (grind (arith, c, i))
      ]
    ]

-- A selector without a route is kept by the loupe's answer.
claims-entries :
    (s : ℕ) (facets : List Facet) (routes : Dict ℕ)
    → lookup s routes ≡ none
    → claims s (cut_entries routes facets) ≡ claims s facets
unfolding claims
claims-entries s [] routes h = refl
claims-entries s (f ∷ fs) routes h =
    grind
      (arith, h, claims-entries s fs routes h, includes-filter s (is_unrouted routes) f.selectors)

pub batch_lem :
    (self : ℕ) (facets : List Facet) (routes : Dict ℕ)
    → batch_diamond_cut self facets routes ≡ diamond_cut self (batch_cuts facets) routes
unfolding batch_diamond_cut diamond_cut
batch_lem self facets routes = no_cut self (batch_cuts facets) routes

-- A step that asks the loupe for every facet before its one batch reverts, if a selector
-- without a route is listed by more than one of its facets.
pub shared_selector_reverts :
    (self s : ℕ) (facets : List Facet) (routes : Dict ℕ)
    → lookup s routes ≡ none
    → 1 < claims s facets
    → deploy_step self facets routes ≡ none
unfolding deploy_step
shared_selector_reverts self s facets routes h c =
    let entries = cut_entries routes facets in
    batch_lem self entries routes
    ∙ shared_batch self s entries routes (grind (arith, c, claims-entries s facets routes h))
