-- ===== src/Upgrade/Robustness/Moves.antt =====
-- One updated facet of scripts/upgrade/upgrade-v2-robustness.js: its replaced, added and removed
-- selectors.
use sidiora_perpetual_protoc.Base.{
  ℕ, ◌≡◌, ◌∙◌, Bool, true, false, not, Option, none, some, List, ◌∷◌, ◌==◌, ◌||◌, ◌&&◌,
  if◌then◌else◌, includes, NoRepeats, arith,
}
use sidiora_perpetual_protoc.Base.Dict.{Dict, lookup, Distinct}
use sidiora_perpetual_protoc.Upgrade.{zero_address, Cut, diamond_cut, to_add, to_replace, to_remove}
use sidiora_perpetual_protoc.Upgrade.Routes.{
  add_each-Rerouted, remove_each-Rerouted, replace_each-Rerouted, includes-filter, filter-NoRepeats,
}
use sidiora_perpetual_protoc.Upgrade.Cuts.{push_remove, push_replace, push_add_more}
use sidiora_perpetual_protoc.Upgrade.Robustness.{
  Update, Addition, read_selectors, update_cuts, is_new,
}

-- Whether an update concerns a selector: the new facet has it, or the old one had.
abbrev pub touches : Dict ℕ → Update → ℕ → Bool
touches routes u s = includes s u.selectors || includes s (read_selectors u routes)

-- Whether a new facet gets a selector.
abbrev pub takes : Dict ℕ → Addition → ℕ → Bool
takes routes a s = is_new routes a s && includes s a.selectors

-- What an update relies on, of the routes that the script read.
pub record Ready (self : ℕ) (u : Update) (routes : Dict ℕ) : Type 0 where
  pub no_repeats : NoRepeats u.selectors
  pub read_once : NoRepeats (read_selectors u routes)
  pub deployed : (u.facet == zero_address) ≡ false
  pub replaceable :
      (s : ℕ)
      → includes s (read_selectors u routes) ≡ true
      → (a : ℕ) × (lookup s routes ≡ some a) × ((a == self) ≡ false) × ((a == u.facet) ≡ false)
  pub unclaimed :
      (s : ℕ)
      → includes s u.selectors ≡ true
      → includes s (read_selectors u routes) ≡ false
      → lookup s routes ≡ none

-- The route of a selector after an update, given its route without it.
abbrev pub moved : Dict ℕ → Update → ℕ → Option ℕ → Option ℕ
moved routes u s r =
    if includes s u.selectors
    then some u.facet
    else if includes s (read_selectors u routes)
    then none
    else r

added_route :
    (facet : ℕ) {n w k a : Bool} {r₀ r r₁ : Option ℕ}
    → k ≡ (w && n)
    → a ≡ (not w && n)
    → a ≡ true
    → r₁ ≡ (if k then some facet else r)
    → (n ≡ true → r ≡ r₀)
    → (n ≡ true → w ≡ false → r₀ ≡ none)
    → r₁ ≡ none
added_route facet {n} {w} hk ha i h₁ hr u = grind (arith, hk, ha, i, h₁, hr, u)

gone_route :
    (facet : ℕ) (n w : Bool) (r : Option ℕ) {k a g : Bool} {r₁ r₂ : Option ℕ}
    → k ≡ (w && n)
    → a ≡ (not w && n)
    → g ≡ (not n && w)
    → g ≡ true
    → r₁ ≡ (if k then some facet else r)
    → r₂ ≡ (if a then some facet else r₁)
    → r₂ ≡ r
gone_route facet n w r hk ha hg i h₁ h₂ = grind (arith, hk, ha, hg, i, h₁, h₂)

last_route :
    (facet : ℕ) (n w : Bool) (r : Option ℕ) {k a g : Bool} {r₁ r₂ : Option ℕ}
    → k ≡ (w && n)
    → a ≡ (not w && n)
    → g ≡ (not n && w)
    → r₁ ≡ (if k then some facet else r)
    → r₂ ≡ (if a then some facet else r₁)
    → (if g then none else r₂) ≡ (if n then some facet else if w then none else r)
last_route facet n w r hk ha hg h₁ h₂ = grind (arith, hk, ha, hg, h₁, h₂)

pub one_update :
    (self : ℕ) (u : Update) (us : List Update) (rest : List Cut) (routes now : Dict ℕ)
    → Distinct now
    → Ready self u routes
    → ((s : ℕ) → touches routes u s ≡ true → lookup s now ≡ lookup s routes)
    → (t : Dict ℕ) × (diamond_cut self (update_cuts routes (u ∷ us) rest) now
        ≡ diamond_cut self (update_cuts routes us rest) t)
      × Distinct t
      × ((s : ℕ) → lookup s t ≡ moved routes u s (lookup s now))
unfolding update_cuts
one_update self u us rest routes now d g same =
    let was = read_selectors u routes in
    let new = u.selectors in
    let kept = to_replace was new in
    let added = to_add was new in
    let gone = to_remove was new in
    let in_gone : (s : ℕ) → includes s gone ≡ (not (includes s new) && includes s was) =
      λ s. includes-filter s (λ x. not (includes x new)) was in
    let in_kept : (s : ℕ) → includes s kept ≡ (includes s was && includes s new) =
      λ s. includes-filter s (λ x. includes x was) new in
    let in_added : (s : ℕ) → includes s added ≡ (not (includes s was) && includes s new) =
      λ s. includes-filter s (λ x. not (includes x was)) new in
    let (t₁, e₁, (d₁, r₁)) =
      replace_each-Rerouted self u.facet kept now d
        (filter-NoRepeats (λ x. includes x was) new g.no_repeats)
        (λ s i.
          let (a, e, f, h) = g.replaceable s (grind (arith, in_kept s, i)) in
          (a, same s (grind (arith, in_kept s, i)) ∙ e, f, h)) in
    let (t₂, e₂, (d₂, r₂)) =
      add_each-Rerouted u.facet added t₁ d₁
        (filter-NoRepeats (λ x. not (includes x was)) new g.no_repeats)
        (λ s i.
          added_route u.facet (in_kept s) (in_added s) i (r₁ s) (λ n. same s (grind (arith, n)))
            (g.unclaimed s)) in
    let (t₃, e₃, (d₃, r₃)) =
      remove_each-Rerouted self gone t₂ d₂
        (filter-NoRepeats (λ x. not (includes x new)) was g.read_once)
        (λ s i.
          let (a, e, f, h) = g.replaceable s (grind (arith, in_gone s, i)) in
          (
            a,
            gone_route u.facet (includes s new) (includes s was) (lookup s now) (in_kept s)
                  (in_added s) (in_gone s) i (r₁ s) (r₂ s)
                ∙ same s (grind (arith, in_gone s, i))
                ∙ e,
            f,
          )) in
    (
      t₃,
      push_replace self u.facet kept _ now t₁ g.deployed e₁
          ∙ push_add_more self u.facet added _ t₁ t₂ g.deployed e₂
          ∙ push_remove self gone (update_cuts routes us rest) t₂ t₃ e₃,
      d₃,
      (λ s.
          r₃ s
          ∙ last_route u.facet (includes s new) (includes s was) (lookup s now) (in_kept s)
              (in_added s) (in_gone s) (r₁ s) (r₂ s)),
    )
