-- ===== src/Upgrade/Robustness/Laws.antt =====
-- What scripts/upgrade/upgrade-v2-robustness.js makes of the Diamond's routes.
use sidiora_perpetual_protoc.Base.{
  ℕ, ◌≡◌, refl, sym, ◌∙◌, Bool, true, false, Option, none, some, List, [], ◌∷◌, ◌==◌, ◌||◌,
  if◌then◌else◌, includes, NoRepeats, filter, arith, Bool-cases, inl, inr,
}
use sidiora_perpetual_protoc.Base.Dict.{Dict, lookup, Distinct}
use sidiora_perpetual_protoc.Upgrade.{zero_address, diamond_cut}
use sidiora_perpetual_protoc.Upgrade.Routes.{add_each-Rerouted, includes-filter, filter-NoRepeats}
use sidiora_perpetual_protoc.Upgrade.Cuts.{no_cut, push_add_more}
use sidiora_perpetual_protoc.Upgrade.Robustness.{
  Update, Addition, read_selectors, update_cuts, addition_cuts, is_new, cut_all,
}
use sidiora_perpetual_protoc.Upgrade.Robustness.Moves.{touches, takes, Ready, one_update}

-- Whether an update or a new facet after it concerns a selector.
unfoldable pub taken : Dict ℕ → List Addition → ℕ → Bool
taken routes [] s = false
taken routes (a ∷ more) s = takes routes a s || taken routes more s

unfoldable pub touched : Dict ℕ → List Update → List Addition → ℕ → Bool
unfolding taken
touched routes [] additions s = taken routes additions s
touched routes (u ∷ us) additions s = touches routes u s || touched routes us additions s

-- What a new facet relies on: a selector that it gets has no route.
pub record Addable (a : Addition) (routes : Dict ℕ) : Type 0 where
  pub no_repeats : NoRepeats a.selectors
  pub deployed : (a.facet == zero_address) ≡ false
  pub unclaimed : (s : ℕ) → takes routes a s ≡ true → lookup s routes ≡ none

-- The new facets, no two of which get the same selector.
pub data Additions (routes : Dict ℕ) : List Addition → Type 0 where
  done : Additions routes []
  next :
      {a : Addition} {more : List Addition}
      → Addable a routes
      → ((s : ℕ) → takes routes a s ≡ true → taken routes more s ≡ false)
      → Additions routes more
      → Additions routes (a ∷ more)

-- The updates, no two of which concern the same selector.
pub data Updates (self : ℕ) (routes : Dict ℕ) (additions : List Addition)
    : List Update → Type 0 where
  done : Updates self routes additions []
  next :
      {u : Update} {us : List Update}
      → Ready self u routes
      → ((s : ℕ) → touches routes u s ≡ true → touched routes us additions s ≡ false)
      → Updates self routes additions us
      → Updates self routes additions (u ∷ us)

-- The route that a selector should have after the cut.
unfoldable pub added : Dict ℕ → List Addition → ℕ → Option ℕ
added routes [] s = lookup s routes
added routes (a ∷ more) s = if takes routes a s then some a.facet else added routes more s

unfoldable pub target : Dict ℕ → List Update → List Addition → ℕ → Option ℕ
unfolding added
target routes [] additions s = added routes additions s
target routes (u ∷ us) additions s =
    if includes s u.selectors
    then some u.facet
    else if includes s (read_selectors u routes)
    then none
    else target routes us additions s

-- Whether the routes agree where a cut is still to come.
abbrev Untouched : (ℕ → Bool) → Dict ℕ → Dict ℕ → Type 0
Untouched p now routes = (s : ℕ) → p s ≡ true → lookup s now ≡ lookup s routes

-- The selectors that no later cut concerns keep their routes; the others get their targets.
abbrev Settled : (ℕ → Bool) → (ℕ → Option ℕ) → Dict ℕ → Dict ℕ → Type 0
Settled p route now t = (s : ℕ) → lookup s t ≡ (if p s then route s else lookup s now)

later_untouched :
    (p q : Bool) {i : Bool} (x r r₀ : Option ℕ) {r₁ : Option ℕ}
    → i ≡ p
    → (p ≡ true → q ≡ false)
    → q ≡ true
    → ((p || q) ≡ true → r ≡ r₀)
    → r₁ ≡ (if i then x else r)
    → r₁ ≡ r₀
later_untouched p q x r r₀ hi apart h same e = grind (arith, hi, apart, h, same, e)

addition_settled :
    (p q : Bool) {i : Bool} (x y r : Option ℕ) {r₁ : Option ℕ}
    → i ≡ p
    → (p ≡ true → q ≡ false)
    → r₁ ≡ (if i then x else r)
    → (if q then y else r₁) ≡ (if p || q then (if p then x else y) else r)
addition_settled p q x y r hi apart e = grind (arith, hi, apart, e)

update_untouched :
    (n w q : Bool) (x r r₀ : Option ℕ) {r₁ : Option ℕ}
    → ((n || w) ≡ true → q ≡ false)
    → q ≡ true
    → (((n || w) || q) ≡ true → r ≡ r₀)
    → r₁ ≡ (if n then x else if w then none else r)
    → r₁ ≡ r₀
update_untouched n w q x r r₀ apart h same e = grind (arith, apart, h, same, e)

update_settled :
    (n w q : Bool) (x y r : Option ℕ) {r₁ : Option ℕ}
    → ((n || w) ≡ true → q ≡ false)
    → r₁ ≡ (if n then x else if w then none else r)
    → (if q then y else r₁)
      ≡ (if (n || w) || q then (if n then x else if w then none else y) else r)
update_settled n w q x y r apart e = grind (arith, apart, e)

all_additions :
    (self : ℕ) (additions : List Addition) (routes now : Dict ℕ)
    → Additions routes additions
    → Distinct now
    → Untouched (taken routes additions) now routes
    → (t : Dict ℕ) × (diamond_cut self (addition_cuts routes additions) now ≡ some t)
      × Distinct t
      × Settled (taken routes additions) (added routes additions) now t
unfolding addition_cuts diamond_cut taken added
all_additions self [] routes now done d same = (now, refl, d, (λ s. refl))
all_additions self (a ∷ more) routes now (next g apart rest) d same =
    let new = filter (is_new routes a) a.selectors in
    let in_new : (s : ℕ) → includes s new ≡ takes routes a s =
      λ s. includes-filter s (is_new routes a) a.selectors in
    let (t₁, e₁, (d₁, r₁)) =
      add_each-Rerouted a.facet new now d
        (filter-NoRepeats (is_new routes a) a.selectors g.no_repeats)
        (λ s i.
          let h : takes routes a s ≡ true = sym (in_new s) ∙ i in
          same s (rw h refl) ∙ g.unclaimed s h) in
    let (t, e, d', r) = all_additions self more routes t₁ rest d₁ (λ s i.
      later_untouched (takes routes a s) (taken routes more s) (some a.facet) (lookup s now)
        (lookup s routes) (in_new s) (apart s) i (same s) (r₁ s)) in
    (
      t,
      push_add_more self a.facet new _ now t₁ g.deployed e₁ ∙ e,
      d',
      (λ s.
          r s
          ∙ addition_settled (takes routes a s) (taken routes more s) (some a.facet)
              (added routes more s) (lookup s now) (in_new s) (apart s) (r₁ s)),
    )

all_cuts :
    (self : ℕ) (us : List Update) (additions : List Addition) (routes now : Dict ℕ)
    → Updates self routes additions us
    → Additions routes additions
    → Distinct now
    → Untouched (touched routes us additions) now routes
    → (t : Dict ℕ) × (diamond_cut self (update_cuts routes us (addition_cuts routes additions)) now
        ≡ some t)
      × Distinct t
      × Settled (touched routes us additions) (target routes us additions) now t
unfolding update_cuts touched target
all_cuts self [] additions routes now done h d same =
    all_additions self additions routes now h d same
all_cuts self (u ∷ us) additions routes now (next g apart rest) h d same =
    let (t₁, e₁, d₁, r₁) =
      one_update self u us (addition_cuts routes additions) routes now d g
        (λ s i. same s (rw i refl)) in
    let (t, e, d', r) = all_cuts self us additions routes t₁ rest h d₁ (λ s i.
      update_untouched (includes s u.selectors) (includes s (read_selectors u routes))
        (touched routes us additions s) (some u.facet) (lookup s now) (lookup s routes) (apart s) i
        (same s) (r₁ s)) in
    (
      t,
      e₁ ∙ e,
      d',
      (λ s.
          r s
          ∙ update_settled (includes s u.selectors) (includes s (read_selectors u routes))
              (touched routes us additions s) (some u.facet) (target routes us additions s)
              (lookup s now) (apart s) (r₁ s)),
    )

untaken :
    (routes : Dict ℕ) (additions : List Addition) (s : ℕ)
    → taken routes additions s ≡ false
    → added routes additions s ≡ lookup s routes
unfolding taken added
untaken routes [] s h = refl
untaken routes (a ∷ more) s h = elim (Bool-cases (takes routes a s)) [
  | inl e ↦ grind (arith, e, h)
  | inr e ↦ rw e (untaken routes more s (grind (arith, e, h)))
]

untouched :
    (routes : Dict ℕ) (us : List Update) (additions : List Addition) (s : ℕ)
    → touched routes us additions s ≡ false
    → target routes us additions s ≡ lookup s routes
unfolding touched target
untouched routes [] additions s h = untaken routes additions s h
untouched routes (u ∷ us) additions s h = grind (arith, h, untouched routes us additions s)

-- The cut of several updated and new facets does not revert and leaves one route for each
-- selector, if there was one before, no two of the facets concern the same selector, none lists
-- one twice, also not among those that were read for the old facet, no new facet has the zero
-- address, the selectors that were read for an old facet lead to one that is neither the
-- Diamond nor the new one, and every other selector to be added has no route. After it a
-- selector of an updated facet leads to the new contract, the other selectors that were read
-- have no route, a new facet has the selectors that it was given, and all other routes are as
-- before.
pub cut_all_settles :
    (self : ℕ) (us : List Update) (additions : List Addition) (routes : Dict ℕ)
    → Distinct routes
    → Updates self routes additions us
    → Additions routes additions
    → (t : Dict ℕ) × (cut_all self us additions routes ≡ some t)
      × Distinct t
      × ((s : ℕ) → lookup s t ≡ target routes us additions s)
unfolding cut_all
cut_all_settles self us additions routes d g h =
    let (t, e, d', r) = all_cuts self us additions routes routes g h d (λ s i. refl) in
    (
      t,
      no_cut self (update_cuts routes us (addition_cuts routes additions)) routes ∙ e,
      d',
      (λ s. elim (Bool-cases (touched routes us additions s)) [
        | inl i ↦ r s ∙ rw i refl
        | inr i ↦ r s ∙ rw i (sym (untouched routes us additions s i))
      ]),
    )
