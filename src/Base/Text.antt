-- ===== src/Base/Text.antt =====
-- JavaScript strings as their code points: `toLowerCase` on ASCII letters, and `includes`.
use Prim.Native.Char.{code}
use Prim.Native.String.{String}
use sidiora_perpetual_protoc.Base.{
  ℕ, ◌+◌, ◌≡◌, refl, ap, Bool, true, false, ◌&&◌, List, [], ◌∷◌, ◌++◌, map, leb, ◌==◌,
  if◌then◌else◌, arith, Bool-cases, inl, inr, ==→eq,
}

abbrev pub codes : String → List ℕ
codes String.[] = []
codes (String.◌∷◌ c s) = code c ∷ codes s

abbrev pub lower : ℕ → ℕ
lower c = if leb 65 c && leb c 90 then c + 32 else c

-- `toLowerCase`
abbrev pub to_lower_case : List ℕ → List ℕ
to_lower_case = map lower

unfoldable pub starts_with : List ℕ → List ℕ → Bool
starts_with [] s = true
starts_with (p ∷ ps) [] = false
starts_with (p ∷ ps) (c ∷ cs) = if p == c then starts_with ps cs else false

-- `s.includes(p)`, the text first.
unfoldable pub includes_text : List ℕ → List ℕ → Bool
unfolding starts_with
includes_text [] p = starts_with p []
includes_text (c ∷ cs) p = if starts_with p (c ∷ cs) then true else includes_text cs p

starts_with-append : (p post : List ℕ) → starts_with p (p ++ post) ≡ true
unfolding starts_with
starts_with-append [] post = refl
starts_with-append (c ∷ p) post = ground (arith, starts_with-append p post)

starts_with-inv : (p s : List ℕ) → starts_with p s ≡ true → (post : List ℕ) × (s ≡ p ++ post)
unfolding starts_with
starts_with-inv [] s h = (s, refl)
starts_with-inv (c ∷ p) [] h = cc
starts_with-inv (c ∷ p) (d ∷ s) h = elim (Bool-cases (c == d)) [
  | inl e ↦ let (post, q) = starts_with-inv p s (rw e at h) in (post, cc (==→eq c d e))
  | inr e ↦ absurd (ground arith)
]

-- A text includes every text that stands in it.
pub includes_text-append : (pre p post : List ℕ) → includes_text (pre ++ (p ++ post)) p ≡ true
unfolding includes_text
includes_text-append [] [] [] = refl
includes_text-append [] [] (c ∷ post) = refl
includes_text-append [] (c ∷ p) post = ground (arith, starts_with-append (c ∷ p) post)
includes_text-append (c ∷ pre) p post = ground (arith, includes_text-append pre p post)

-- What a text includes stands in it.
pub includes_text-inv :
    (s p : List ℕ)
    → includes_text s p ≡ true
    → (pre : List ℕ) × (post : List ℕ) × (s ≡ pre ++ (p ++ post))
unfolding includes_text
includes_text-inv [] p h = let (post, q) = starts_with-inv p [] h in ([], post, q)
includes_text-inv (c ∷ s) p h = elim (Bool-cases (starts_with p (c ∷ s))) [
  | inl e ↦ let (post, q) = starts_with-inv p (c ∷ s) e in ([], post, q)
  | inr e ↦ let (pre, post, q) = includes_text-inv s p (rw e at h) in (c ∷ pre, post, ap (◌∷◌ c) q)
]
