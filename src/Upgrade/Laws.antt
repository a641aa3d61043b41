-- ===== src/Upgrade/Laws.antt =====
-- What a full upgrade by scripts/upgrade/upgrade-facet.js makes of the Diamond's routes.
use sidiora_perpetual_protoc.Base.{
  ℕ, ◌≡◌, ap, ◌∙◌, Bool, true, false, not, Option, none, some, List, [], ◌∷◌, ◌++◌, ◌==◌, ◌&&◌,
  if◌then◌else◌, includes, NoRepeats, arith, Option-cases, inl, inr, ==→eq,
}
use sidiora_perpetual_protoc.Base.Dict.{Dict, lookup, Distinct}
use sidiora_perpetual_protoc.Engine.Cycle.{is_empty}
use sidiora_perpetual_protoc.Upgrade.{
  zero_address, Action, diamond_cut, facet_selectors, to_add, to_replace, to_remove, push, Mode,
  mode_cuts, plan, upgrade_facet,
}
use sidiora_perpetual_protoc.Upgrade.Routes.{
  routed_to, add_each-Rerouted, remove_each-Rerouted, replace_each-Rerouted, includes-filter,
  filter-NoRepeats, facet_selectors_lem, facet_selectors-NoRepeats,
}
use sidiora_perpetual_protoc.Upgrade.Cuts.{push_remove, push_replace, push_add}

-- What a full upgrade from an old facet to a new one relies on: the new facet is a fresh contract,
-- neither facet is the Diamond itself, and no other facet has a new selector.
pub record Upgradable (self old facet : ℕ) (new : List ℕ) (routes : Dict ℕ) : Type 0 where
  pub one_route : Distinct routes
  pub no_repeats : NoRepeats new
  pub some_new : is_empty new ≡ false
  pub deployed : (facet == zero_address) ≡ false
  pub mutable : (old == self) ≡ false
  pub fresh : (old == facet) ≡ false
  pub unclaimed : (s a : ℕ) → includes s new ≡ true → lookup s routes ≡ some a → a ≡ old

pub routed_lem :
    (old s : ℕ) (routes : Dict ℕ) → routed_to old s routes ≡ true → lookup s routes ≡ some old
routed_lem old s routes h = elim (Option-cases (lookup s routes)) [
  | inl n ↦ grind (arith, n, h)
  | inr (a, e) ↦ e ∙ ap some (==→eq a old (grind (arith, e, h)))
]

pub unrouted_lem :
    (old s : ℕ) (routes : Dict ℕ)
    → routed_to old s routes ≡ false
    → ((a : ℕ) → lookup s routes ≡ some a → a ≡ old)
    → lookup s routes ≡ none
unrouted_lem old s routes h u = elim (Option-cases (lookup s routes)) [
  | inl n ↦ n
  | inr (a, e) ↦ grind (arith, e, u a e, h)
]

pub new_route :
    (facet : ℕ) {n w o g k a : Bool} {r t₁ : Option ℕ}
    → g ≡ (not n && w)
    → k ≡ (w && n)
    → a ≡ (not w && n)
    → w ≡ o
    → a ≡ true
    → t₁ ≡ (if g then none else r)
    → (o ≡ false → n ≡ true → r ≡ none)
    → (if k then some facet else t₁) ≡ none
new_route facet {n} {w} hg hk ha ho i h u = grind (arith, hg, hk, ha, ho, i, h, u)

last_route :
    (facet : ℕ) (n o : Bool) (r : Option ℕ) {w g k a : Bool} {t₁ t₂ : Option ℕ}
    → g ≡ (not n && w)
    → k ≡ (w && n)
    → a ≡ (not w && n)
    → w ≡ o
    → t₁ ≡ (if g then none else r)
    → t₂ ≡ (if k then some facet else t₁)
    → (if a then some facet else t₂) ≡ (if n then some facet else if o then none else r)
last_route facet n o r {w} hg hk ha ho h₁ h₂ = grind (arith, hg, hk, ha, ho, h₁, h₂)

full_cuts :
    (self old facet : ℕ) (new : List ℕ) (routes : Dict ℕ)
    → Upgradable self old facet new routes
    → let was = facet_selectors old routes in
      (t : Dict ℕ) × (diamond_cut self (mode_cuts Mode.full_mode facet was new) routes ≡ some t)
      × ((s : ℕ)
          → lookup s t ≡ (
              if includes s new
              then some facet
              else if routed_to old s routes
              then none
              else lookup s routes))
unfolding mode_cuts
full_cuts self old facet new routes u =
    let was = facet_selectors old routes in
    let d = u.one_route in
    let listed : (s : ℕ) → includes s was ≡ routed_to old s routes =
      λ s. facet_selectors_lem old s routes d in
    let gone = to_remove was new in
    let kept = to_replace was new in
    let added = to_add was new in
    let in_gone : (s : ℕ) → includes s gone ≡ (not (includes s new) && includes s was) =
      λ s. includes-filter s (λ x. not (includes x new)) was in
    let in_kept : (s : ℕ) → includes s kept ≡ (includes s was && includes s new) =
      λ s. includes-filter s (λ x. includes x was) new in
    let in_added : (s : ℕ) → includes s added ≡ (not (includes s was) && includes s new) =
      λ s. includes-filter s (λ x. not (includes x was)) new in
    let (t₁, e₁, (d₁, r₁)) =
      remove_each-Rerouted self gone routes d
        (filter-NoRepeats (λ x. not (includes x new)) was (facet_selectors-NoRepeats old routes d))
        (λ s i.
          (old, routed_lem old s routes (grind (arith, listed s, in_gone s, i)), u.mutable)) in
    let (t₂, e₂, (d₂, r₂)) =
      replace_each-Rerouted self facet kept t₁ d₁
        (filter-NoRepeats (λ x. includes x was) new u.no_repeats)
        (λ s i. (
          old,
          r₁ s ∙ grind (arith, listed s, in_gone s, in_kept s, i, routed_lem old s routes),
          u.mutable,
          u.fresh,
        )) in
    let (t₃, e₃, (d₃, r₃)) =
      add_each-Rerouted facet added t₂ d₂
        (filter-NoRepeats (λ x. not (includes x was)) new u.no_repeats)
        (λ s i.
          r₂ s
          ∙ new_route facet (in_gone s) (in_kept s) (in_added s) (listed s) i (r₁ s)
              (λ o n. unrouted_lem old s routes o (λ a. u.unclaimed s a n))) in
    (
      t₃,
      push_remove self gone
            (push facet Action.replace_action kept ++ push facet Action.add_action added) routes t₁
            e₁
          ∙ push_replace self facet kept (push facet Action.add_action added) t₁ t₂ u.deployed e₂
          ∙ push_add self facet added t₂ t₃ u.deployed e₃,
      (λ s.
          r₃ s
          ∙ last_route facet (includes s new) (routed_to old s routes) (lookup s routes) (in_gone s)
              (in_kept s) (in_added s) (listed s) (r₁ s) (r₂ s)),
    )

some_change :
    (old new : List ℕ)
    → is_empty new ≡ false
    → (is_empty (to_add old new) && is_empty (to_replace old new) && is_empty (to_remove old new))
      ≡ false
some_change old [] h = grind (arith, h)
some_change old (s ∷ ss) h = grind arith

-- A full upgrade of a recorded facet does not revert, if each selector has one route, there is
-- a new selector, none is listed twice and none has a facet other than the old one, the new
-- facet is not the zero address or the old one, and the old one is not the Diamond. After it
-- every new selector is routed to the new facet, every other selector of the old facet has no
-- route, and all other routes are as before.
pub full_upgrade :
    (self old facet : ℕ) (new : List ℕ) (routes : Dict ℕ)
    → Upgradable self old facet new routes
    → (t : Dict ℕ) × (upgrade_facet self Mode.full_mode (some old) facet new routes ≡ some t)
      × ((s : ℕ)
          → lookup s t ≡ (
              if includes s new
              then some facet
              else if routed_to old s routes
              then none
              else lookup s routes))
unfolding upgrade_facet plan
full_upgrade self old facet new routes u =
    let (t, e, r) = full_cuts self old facet new routes u in
    (t, rw (some_change (facet_selectors old routes) new u.some_new, upgrade_facet, plan) e, r)
