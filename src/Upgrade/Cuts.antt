-- ===== src/Upgrade/Cuts.antt =====
-- A cut of one action, followed by other cuts.
use sidiora_perpetual_protoc.Base.{
  if◌then◌else◌, ℕ, ◌≡◌, refl, ap, ◌∙◌, false, none, some, List, [], ◌∷◌, ◌++◌, ◌==◌,
}
use sidiora_perpetual_protoc.Base.Dict.{Dict}
use sidiora_perpetual_protoc.Engine.Cycle.{is_empty}
use sidiora_perpetual_protoc.Upgrade.{
  zero_address, Action, Cut, add_each, replace_each, remove_each, cut_facet, diamond_cut, push,
}

cut_step :
    (self : ℕ) (c : Cut) (cs : List Cut) (routes t : Dict ℕ)
    → cut_facet self c routes ≡ some t
    → diamond_cut self (c ∷ cs) routes ≡ diamond_cut self cs t
unfolding diamond_cut
cut_step self c cs routes t h = rw (h, diamond_cut) refl

pub push_remove :
    (self : ℕ) (ss : List ℕ) (rest : List Cut) (routes t : Dict ℕ)
    → remove_each self ss routes ≡ some t
    → diamond_cut self (push zero_address Action.remove_action ss ++ rest) routes
      ≡ diamond_cut self rest t
unfolding cut_facet remove_each
push_remove self [] rest routes t h =
    ap (λ o. elim o [ none ↦ diamond_cut self rest routes | some x ↦ diamond_cut self rest x ]) h
push_remove self (s ∷ ss) rest routes t h = cut_step self _ rest routes t h

cut_replace :
    (self facet s : ℕ) (ss : List ℕ) (routes : Dict ℕ)
    → (facet == zero_address) ≡ false
    → cut_facet self
        (record { facet_address = facet; action = Action.replace_action; selectors = s ∷ ss })
        routes
      ≡ replace_each self facet (s ∷ ss) routes
unfolding cut_facet
cut_replace self facet s ss routes z = rw (z, cut_facet) refl

pub push_replace :
    (self facet : ℕ) (ss : List ℕ) (rest : List Cut) (routes t : Dict ℕ)
    → (facet == zero_address) ≡ false
    → replace_each self facet ss routes ≡ some t
    → diamond_cut self (push facet Action.replace_action ss ++ rest) routes
      ≡ diamond_cut self rest t
unfolding replace_each
push_replace self facet [] rest routes t z h =
    ap (λ o. elim o [ none ↦ diamond_cut self rest routes | some x ↦ diamond_cut self rest x ]) h
push_replace self facet (s ∷ ss) rest routes t z h =
    cut_step self _ rest routes t (cut_replace self facet s ss routes z ∙ h)

cut_add :
    (self facet s : ℕ) (ss : List ℕ) (routes : Dict ℕ)
    → (facet == zero_address) ≡ false
    → cut_facet self
        (record { facet_address = facet; action = Action.add_action; selectors = s ∷ ss })
        routes
      ≡ add_each facet (s ∷ ss) routes
unfolding cut_facet
cut_add self facet s ss routes z = rw (z, cut_facet) refl

pub push_add :
    (self facet : ℕ) (ss : List ℕ) (routes t : Dict ℕ)
    → (facet == zero_address) ≡ false
    → add_each facet ss routes ≡ some t
    → diamond_cut self (push facet Action.add_action ss) routes ≡ some t
unfolding diamond_cut add_each
push_add self facet [] routes t z h = h
push_add self facet (s ∷ ss) routes t z h =
    cut_step self (record { facet_address = facet; action = Action.add_action; selectors = s ∷ ss })
      [] routes t (cut_add self facet s ss routes z ∙ h)

pub push_add_more :
    (self facet : ℕ) (ss : List ℕ) (rest : List Cut) (routes t : Dict ℕ)
    → (facet == zero_address) ≡ false
    → add_each facet ss routes ≡ some t
    → diamond_cut self (push facet Action.add_action ss ++ rest) routes ≡ diamond_cut self rest t
unfolding add_each
push_add_more self facet [] rest routes t z h =
    ap (λ o. elim o [ none ↦ diamond_cut self rest routes | some x ↦ diamond_cut self rest x ]) h
push_add_more self facet (s ∷ ss) rest routes t z h =
    cut_step self (record { facet_address = facet; action = Action.add_action; selectors = s ∷ ss })
      rest routes t (cut_add self facet s ss routes z ∙ h)

-- No transaction is sent without a cut.
pub no_cut :
    (self : ℕ) (cuts : List Cut) (routes : Dict ℕ)
    → (if is_empty cuts then some routes else diamond_cut self cuts routes)
      ≡ diamond_cut self cuts routes
unfolding diamond_cut
no_cut self [] routes = refl
no_cut self (c ∷ cs) routes = refl
