-- ===== src/Upgrade/Routes.antt =====
-- What the loops of LibDiamond.sol make of the routes, and the selectors of a facet.
use sidiora_perpetual_protoc.Base.{
  ℕ, ◌≡◌, refl, ap, ◌∙◌, Bool, true, false, Option, none, some, List, [], ◌∷◌, ◌==◌, ◌&&◌,
  if◌then◌else◌, includes, NoRepeats, filter, arith, Bool-cases, inl, inr, ==→eq,
}
use sidiora_perpetual_protoc.Base.Dict.{
  Dict, lookup, insert, erase, has, Distinct, lookup-insert, lookup-erase_self, lookup-erase_ne,
  insert-Distinct, erase-Distinct,
}
use sidiora_perpetual_protoc.Upgrade.{
  add_each, remove_function, replace_each, remove_each, facet_selectors,
}

-- The routes after some selectors were given one: `some facet`, or none.
abbrev pub Rerouted : List ℕ → Option ℕ → Dict ℕ → Dict ℕ → Type 0
Rerouted ss route before after =
    Distinct after × ((s : ℕ) → lookup s after ≡ (if includes s ss then route else lookup s before))

pub add_each-Rerouted :
    (facet : ℕ) (ss : List ℕ) (routes : Dict ℕ)
    → Distinct routes
    → NoRepeats ss
    → ((s : ℕ) → includes s ss ≡ true → lookup s routes ≡ none)
    → (t : Dict ℕ) × (add_each facet ss routes ≡ some t) × Rerouted ss (some facet) routes t
unfolding add_each
add_each-Rerouted facet [] routes d n h = (routes, refl, (d, (λ s. refl)))
add_each-Rerouted facet (s ∷ ss) routes d (m, n) h =
    let (t, e, (d', r)) =
      add_each-Rerouted facet ss (insert s facet routes) (insert-Distinct s facet routes d) n
        (λ j i. grind (arith, m, i, h j, lookup-insert s j facet routes)) in
    (
      t,
      rw (h s (ground arith), add_each) e,
      (d', (λ j. r j ∙ grind (arith, lookup-insert s j facet routes))),
    )

pub remove_each-Rerouted :
    (self : ℕ) (ss : List ℕ) (routes : Dict ℕ)
    → Distinct routes
    → NoRepeats ss
    → ((s : ℕ)
        → includes s ss ≡ true
        → (a : ℕ) × (lookup s routes ≡ some a) × ((a == self) ≡ false))
    → (t : Dict ℕ) × (remove_each self ss routes ≡ some t) × Rerouted ss none routes t
unfolding remove_each remove_function
remove_each-Rerouted self [] routes d n h = (routes, refl, (d, (λ s. refl)))
remove_each-Rerouted self (s ∷ ss) routes d (m, n) h =
    let (a, e₀, f₀) = h s (ground arith) in
    let (t, e, (d', r)) =
      remove_each-Rerouted self ss (erase s routes) (erase-Distinct s routes d) n (λ j i.
        let (b, e₁, f₁) = h j (ground arith) in
        (b, lookup-erase_ne s j routes (grind (arith, m, i)) ∙ e₁, f₁)) in
    (
      t,
      rw (e₀, remove_each, remove_function) (rw f₀ e),
      (d', (λ j. r j ∙ grind (arith, lookup-erase_self s routes d, lookup-erase_ne s j routes))),
    )

replace_step :
    (self facet s a : ℕ) (ss : List ℕ) (routes : Dict ℕ)
    → lookup s routes ≡ some a
    → (a == self) ≡ false
    → (a == facet) ≡ false
    → replace_each self facet (s ∷ ss) routes
      ≡ replace_each self facet ss (insert s facet (erase s routes))
unfolding replace_each remove_function
replace_step self facet s a ss routes e f g =
    rw (e, replace_each) (rw g (rw (e, remove_function) (rw f refl)))

pub replace_each-Rerouted :
    (self facet : ℕ) (ss : List ℕ) (routes : Dict ℕ)
    → Distinct routes
    → NoRepeats ss
    → ((s : ℕ)
        → includes s ss ≡ true
        → (a : ℕ) × (lookup s routes ≡ some a) × ((a == self) ≡ false) × ((a == facet) ≡ false))
    → (t : Dict ℕ) × (replace_each self facet ss routes ≡ some t)
      × Rerouted ss (some facet) routes t
unfolding replace_each remove_function
replace_each-Rerouted self facet [] routes d n h = (routes, refl, (d, (λ s. refl)))
replace_each-Rerouted self facet (s ∷ ss) routes d (m, n) h =
    let (a, e₀, f₀, g₀) = h s (ground arith) in
    let next : Dict ℕ = insert s facet (erase s routes) in
    let same : (j : ℕ) → lookup j next ≡ (if s == j then some facet else lookup j routes) =
      λ j. grind (arith, lookup-insert s j facet (erase s routes), lookup-erase_ne s j routes) in
    let (t, e, (d', r)) =
      replace_each-Rerouted self facet ss next
        (insert-Distinct s facet (erase s routes) (erase-Distinct s routes d)) n
        (λ j i.
          let (b, e₁, f₁, g₁) = h j (ground arith) in
          (b, same j ∙ grind (arith, m, i, e₁), f₁, g₁)) in
    (
      t,
      replace_step self facet s a ss routes e₀ f₀ g₀ ∙ e,
      (d', (λ j. r j ∙ grind (arith, same j))),
    )

pub includes-filter :
    (s : ℕ) (p : ℕ → Bool) (xs : List ℕ) → includes s (filter p xs) ≡ (p s && includes s xs)
includes-filter s p [] = ground arith
includes-filter s p (x ∷ xs) = elim (Bool-cases (x == s)) [
  | inl e ↦ grind (arith, e, ap p (==→eq x s e), includes-filter s p xs)
  | inr e ↦ grind (arith, e, includes-filter s p xs)
]

pub filter-NoRepeats : (p : ℕ → Bool) (xs : List ℕ) → NoRepeats xs → NoRepeats (filter p xs)
filter-NoRepeats p [] h = tt
filter-NoRepeats p (x ∷ xs) (m, h) = elim (Bool-cases (p x)) [
  | inl e ↦ rw e (includes-filter x p xs ∙ grind (arith, m), filter-NoRepeats p xs h)
  | inr e ↦ rw e (filter-NoRepeats p xs h)
]

-- Whether a selector is routed to a facet.
abbrev pub routed_to : ℕ → ℕ → Dict ℕ → Bool
routed_to facet s routes = elim (lookup s routes) [ none ↦ false | some a ↦ a == facet ]

unrouted :
    (s facet : ℕ) (routes : Dict ℕ)
    → has s routes ≡ false
    → includes s (facet_selectors facet routes) ≡ false
unfolding facet_selectors
unrouted s facet [] h = refl
unrouted s facet ((k, a) ∷ routes) h = grind (arith, h, unrouted s facet routes)

pub facet_selectors_lem :
    (facet s : ℕ) (routes : Dict ℕ)
    → Distinct routes
    → includes s (facet_selectors facet routes) ≡ routed_to facet s routes
unfolding facet_selectors
facet_selectors_lem facet s [] d = refl
facet_selectors_lem facet s ((k, a) ∷ routes) (m, d) =
    grind (arith, m, facet_selectors_lem facet s routes d, unrouted s facet routes)

pub facet_selectors-NoRepeats :
    (facet : ℕ) (routes : Dict ℕ) → Distinct routes → NoRepeats (facet_selectors facet routes)
unfolding facet_selectors
facet_selectors-NoRepeats facet [] d = tt
facet_selectors-NoRepeats facet ((k, a) ∷ routes) (m, d) = elim (Bool-cases (a == facet)) [
  | inl e ↦ rw e (unrouted k facet routes m, facet_selectors-NoRepeats facet routes d)
  | inr e ↦ rw e (facet_selectors-NoRepeats facet routes d)
]
