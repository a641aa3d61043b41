-- ===== src/Keeper/Executor/Reasons.antt =====
-- Which revert reasons .keeper/src/executor.js treats as permanent.
use sidiora_perpetual_protoc.Base.{
  ◌≡◌, refl, ◌↔◌, ◌⊎◌, true, List, [], ◌∷◌, ◌++◌, arith, Bool-cases, inl, inr,
}
use sidiora_perpetual_protoc.Base.Text.{
  to_lower_case, includes_text, includes_text-append, includes_text-inv,
}
use sidiora_perpetual_protoc.Protocol.{Reason}
use sidiora_perpetual_protoc.Keeper.Executor.{permanent, some_included, is_non_retryable}

-- A text is one of a list.
abbrev pub In : Reason → List Reason → Type 0
In p [] = ⊥
In p (q ∷ qs) = (p ≡ q) ⊎ In p qs

-- One of the texts stands in `s`.
abbrev pub Occurs : Reason → List Reason → Type 0
Occurs s ps = (p : Reason) × In p ps × ((pre : Reason) × (post : Reason) × (s ≡ pre ++ (p ++ post)))

occurs : (s : Reason) (ps : List Reason) → some_included s ps ≡ true → Occurs s ps
unfolding some_included
occurs s [] h = cc
occurs s (p ∷ ps) h = elim (Bool-cases (includes_text s p)) [
  | inl e ↦ (p, inl refl, includes_text-inv s p e)
  | inr e ↦ let (q, m, rest) = occurs s ps (rw e at h) in (q, inr m, rest)
]

included :
    (s p : Reason) (ps : List Reason)
    → In p ps
    → includes_text s p ≡ true
    → some_included s ps ≡ true
unfolding some_included
included s p [] m h = absurd m
included s p (q ∷ qs) (inl e) h = ground arith
included s p (q ∷ qs) (inr m) h = ground (arith, included s p qs m h)

-- A revert reason is permanent exactly if one of the listed texts stands in its lower-case
-- form, with anything before and behind it.
pub is_non_retryable_iff :
    (r : Reason) → (is_non_retryable r ≡ true) ↔ Occurs (to_lower_case r) permanent
unfolding is_non_retryable
is_non_retryable_iff r = (
  occurs (to_lower_case r) permanent,
  λ o.
      let (p, m, (pre, post, e)) = o in
      included (to_lower_case r) p permanent m (rw e (includes_text-append pre p post)),
)
