-- ===== src/Upgrade/Robustness/Again.antt =====
-- A second run of scripts/upgrade/upgrade-v2-robustness.js with the manifest of before the first.
use sidiora_perpetual_protoc.Base.{
  ℕ, ◌≡◌, refl, ap, ◌∙◌, Bool, true, false, Option, none, some, List, [], ◌∷◌, ◌++◌, ◌==◌,
  if◌then◌else◌, includes, All, arith, Bool-cases, inl, inr,
}
use sidiora_perpetual_protoc.Base.Dict.{Dict, lookup, Distinct}
use sidiora_perpetual_protoc.Engine.Cycle.{is_empty}
use sidiora_perpetual_protoc.Upgrade.{
  zero_address, Action, Cut, add_each, cut_facet, diamond_cut, facet_selectors, to_add, to_replace,
  to_remove, push,
}
use sidiora_perpetual_protoc.Upgrade.Cuts.{no_cut}
use sidiora_perpetual_protoc.Upgrade.Routes.{facet_selectors_lem}
use sidiora_perpetual_protoc.Upgrade.Robustness.{
  Update, Addition, read_selectors, update_cuts, addition_cuts, cut_all,
}
use sidiora_perpetual_protoc.Upgrade.Robustness.Moves.{takes}
use sidiora_perpetual_protoc.Upgrade.Robustness.Laws.{
  Updates, Additions, added, target, cut_all_settles,
}

-- Whether an old facet is none of the new ones.
pub record Gone (old : ℕ) (us : List Update) (additions : List Addition) : Type 0 where
  pub not_updated : All (λ u. (u.facet == old) ≡ false) us
  pub not_added : All (λ a. (a.facet == old) ≡ false) additions

-- Whether a route leads to a facet.
abbrev leads_to : ℕ → Option ℕ → Bool
leads_to old r = elim r [ none ↦ false | some a ↦ a == old ]

added_elsewhere :
    (old s : ℕ) (routes : Dict ℕ) (additions : List Addition)
    → All (λ a. (a.facet == old) ≡ false) additions
    → leads_to old (lookup s routes) ≡ false
    → leads_to old (added routes additions s) ≡ false
unfolding added
added_elsewhere old s routes [] h e = e
added_elsewhere old s routes (a ∷ more) (h, hs) e = elim (Bool-cases (takes routes a s)) [
  | inl i ↦ rw i h
  | inr i ↦ rw i (added_elsewhere old s routes more hs e)
]

elsewhere :
    (old s : ℕ) (routes : Dict ℕ) (us : List Update) (additions : List Addition)
    → All (λ u. (u.facet == old) ≡ false) us
    → All (λ a. (a.facet == old) ≡ false) additions
    → leads_to old (lookup s routes) ≡ false
    → leads_to old (target routes us additions s) ≡ false
unfolding target
elsewhere old s routes [] additions h g e = added_elsewhere old s routes additions g e
elsewhere old s routes (u ∷ us) additions (h, hs) g e =
    let rest = elsewhere old s routes us additions hs g e in grind (arith, h, rest)

none_listed : (xs : List ℕ) → ((s : ℕ) → includes s xs ≡ false) → xs ≡ []
none_listed [] h = refl
none_listed (x ∷ xs) h = grind (arith, h x)

no_kept : (xs : List ℕ) → to_replace [] xs ≡ []
no_kept [] = refl
no_kept (x ∷ xs) = no_kept xs

all_added : (xs : List ℕ) → to_add [] xs ≡ xs
all_added [] = refl
all_added (x ∷ xs) = ap (λ t. x ∷ t) (all_added xs)

-- The cuts of an update for which no old selector was read.
unread_cuts :
    (facet : ℕ) (new : List ℕ) (rest : List Cut)
    → (push facet Action.replace_action (to_replace [] new)
        ++ (push facet Action.add_action (to_add [] new) ++ rest))
      ≡ (push facet Action.add_action new ++ rest)
unread_cuts facet new rest =
    ap
      (λ l.
        push facet Action.replace_action l
        ++ (push facet Action.add_action (to_add [] new) ++ rest))
      (no_kept new)
    ∙ ap (λ l. push facet Action.add_action l ++ rest) (all_added new)

-- An added selector that has a route reverts the cut.
claimed_reverts :
    (self facet x a : ℕ) (ss : List ℕ) (rest : List Cut) (t : Dict ℕ)
    → lookup x t ≡ some a
    → diamond_cut self (push facet Action.add_action (x ∷ ss) ++ rest) t ≡ none
unfolding diamond_cut cut_facet add_each
claimed_reverts self facet x a ss rest t h = elim (Bool-cases (facet == zero_address)) [
  | inl z ↦ rw (z, diamond_cut, cut_facet) refl
  | inr z ↦ rw (z, diamond_cut, cut_facet) (rw (h, add_each) refl)
]

-- An update for which no old selector was read reverts the cut, if its first selector has a route.
unread_reverts :
    (self a : ℕ) (u : Update) (us : List Update) (additions : List Addition) (t : Dict ℕ)
    (ss : List ℕ)
    → u.selectors ≡ ss
    → read_selectors u t ≡ []
    → is_empty ss ≡ false
    → ((s : ℕ) → includes s ss ≡ true → lookup s t ≡ some a)
    → cut_all self (u ∷ us) additions t ≡ none
unfolding cut_all update_cuts
unread_reverts self a u us additions t [] e r n h = grind (arith, n)
unread_reverts self a u us additions t (x ∷ xs) e r n h =
    let cuts = update_cuts t (u ∷ us) (addition_cuts t additions) in
    let rest : List Cut =
      push zero_address Action.remove_action (to_remove (read_selectors u t) u.selectors)
      ++ update_cuts t us (addition_cuts t additions) in
    let shape : cuts ≡ (push u.facet Action.add_action (x ∷ xs) ++ rest) =
      ap
        (λ l.
          push u.facet Action.replace_action (to_replace l u.selectors)
          ++ (push u.facet Action.add_action (to_add l u.selectors) ++ rest))
        r
      ∙ unread_cuts u.facet u.selectors rest
      ∙ ap (λ l. push u.facet Action.add_action l ++ rest) e in
    no_cut self cuts t
    ∙ ap (λ c. diamond_cut self c t) shape
    ∙ claimed_reverts self u.facet x a xs rest t (h x (ground arith))

moved_elsewhere :
    (n : Bool) {w : Bool} (facet old : ℕ) (r : Option ℕ)
    → (facet == old) ≡ false
    → w ≡ true
    → leads_to old (if n then some facet else if w then none else r) ≡ false
moved_elsewhere n facet old r h e = grind (arith, h, e)

left_old :
    (old s : ℕ) (routes : Dict ℕ) (u : Update) (us : List Update) (additions : List Addition)
    → Distinct routes
    → u.recorded ≡ some old
    → u.readable ≡ true
    → Gone old (u ∷ us) additions
    → leads_to old (target routes (u ∷ us) additions s) ≡ false
unfolding target read_selectors
left_old old s routes u us additions d k o g =
    let read : read_selectors u routes ≡ facet_selectors old routes = rw (o, k) refl in
    let listed : includes s (read_selectors u routes) ≡ leads_to old (lookup s routes) =
      ap (includes s) read ∙ facet_selectors_lem old s routes d in
    elim (Bool-cases (leads_to old (lookup s routes))) [
      | inl i ↦
          moved_elsewhere (includes s u.selectors) u.facet old (target routes us additions s)
            (g.not_updated.0) (listed ∙ i)
      | inr i ↦ elsewhere old s routes (u ∷ us) additions g.not_updated g.not_added i
    ]

still_unread :
    (old : ℕ) (u : Update) (t : Dict ℕ)
    → u.recorded ≡ some old
    → facet_selectors old t ≡ []
    → read_selectors u t ≡ []
unfolding read_selectors
still_unread old u t k e = elim (Bool-cases u.readable) [ inl o ↦ rw (o, k) e | inr o ↦ rw o refl ]

-- Under the conditions of cut_all_settles, if the first updated facet has a selector and its
-- old facet is recorded, was read and is none of the new ones, the cut does not revert, and on
-- the routes that it leaves a cut whose first updated facet has the same recorded facet and the
-- same selectors reverts, whatever its new contract and the other facets are.
pub rerun_reverts :
    (self old : ℕ) (u : Update) (us : List Update) (additions : List Addition) (routes : Dict ℕ)
    → Distinct routes
    → Updates self routes additions (u ∷ us)
    → Additions routes additions
    → u.recorded ≡ some old
    → u.readable ≡ true
    → is_empty u.selectors ≡ false
    → Gone old (u ∷ us) additions
    → (v : Update) (vs : List Update) (more : List Addition) → v.recorded ≡ some old
    → v.selectors ≡ u.selectors
    → (t : Dict ℕ) × (cut_all self (u ∷ us) additions routes ≡ some t)
      × (cut_all self (v ∷ vs) more t ≡ none)
unfolding target
rerun_reverts self old u us additions routes d g h k o n gone v vs more k' same =
    let (t, e, d', r) = cut_all_settles self (u ∷ us) additions routes d g h in
    let quiet : (s : ℕ) → includes s (facet_selectors old t) ≡ false = λ s.
      facet_selectors_lem old s t d'
      ∙ ap (leads_to old) (r s)
      ∙ left_old old s routes u us additions d k o gone in
    (
      t,
      e,
      unread_reverts self u.facet v vs more t u.selectors same
          (still_unread old v t k' (none_listed (facet_selectors old t) quiet)) n
          (λ s i. r s ∙ rw i refl),
    )
