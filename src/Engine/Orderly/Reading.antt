-- ===== src/Engine/Orderly/Reading.antt =====
-- When `fetchPrices` of .perps-engine/src/price-sources/orderly-fetcher.js returns, and what it does on
-- numbers that JavaScript prints with an exponent.
use sidiora_perpetual_protoc.Base.{
  ℕ, zero, suc, ◌+◌, ◌*◌, ◌-◌, ◌<◌, ◌≡◌, refl, ap, ◌∙◌, ◌↔◌, false, none, some, List, [], ◌∷◌, ◌++◌,
  take, length, All, arith, Option-cases, inl, inr,
}
use sidiora_perpetual_protoc.Base.Dict.{Dict}
use sidiora_perpetual_protoc.Engine.Orderly.{
  Number, Row, Market, Fetched, dot, is_digit, big_int, before_dot, after_dot, pad_end, to_price18,
  feed_map, usable, collect, fetch_prices,
}
use sidiora_perpetual_protoc.Engine.Orderly.Decimals.{NoDot}

big_int-none :
    (pre post : List ℕ) (c n : ℕ) → is_digit c ≡ false → big_int (pre ++ c ∷ post) n ≡ none
unfolding big_int
big_int-none [] post c n h = rw h refl
big_int-none (d ∷ pre) post c n h = ground (arith, big_int-none pre post c (n * 10 + (d - 48)) h)

before_dot-split : (s t : List ℕ) → NoDot s → before_dot (s ++ 101 ∷ t) ≡ s ++ 101 ∷ before_dot t
unfolding before_dot
before_dot-split [] t h = refl
before_dot-split (c ∷ s) t (h, hs) = rw h (ap (◌∷◌ c) (before_dot-split s t hs))

after_dot-split : (s t : List ℕ) → NoDot s → after_dot (s ++ dot ∷ t) ≡ before_dot t
unfolding after_dot
after_dot-split [] t h = refl
after_dot-split (c ∷ s) t (h, hs) = rw h (after_dot-split s t hs)

take-pad_end :
    (n : ℕ) (s t : List ℕ)
    → length s < n
    → (post : List ℕ) × (take n (pad_end n (s ++ 101 ∷ t)) ≡ s ++ 101 ∷ post)
unfolding pad_end
take-pad_end zero s t h = absurd (omega (arith, h))
take-pad_end (suc n) [] t h = (take n (pad_end n t), refl)
take-pad_end (suc n) (c ∷ s) t h =
    let (post, e) = take-pad_end n s t (omega (arith, h)) in (post, ap (◌∷◌ c) e)

bad_whole : (str : List ℕ) → big_int (before_dot str) 0 ≡ none → to_price18 str ≡ none
unfolding to_price18
bad_whole str h = rw (h, to_price18) refl

bad_part :
    (str : List ℕ) → big_int (take 18 (pad_end 18 (after_dot str))) 0 ≡ none → to_price18 str ≡ none
unfolding to_price18
bad_part str h = elim (Option-cases (big_int (before_dot str) 0)) [
  | inl e ↦ rw (e, to_price18) refl
  | inr (i, e) ↦ rw (e, to_price18) (rw h refl)
]

-- A market whose number, if it has one that is not skipped, reads as a price.
abbrev pub Readable : List Row → Market → Type 0
Readable rows m =
    (n : Number) → usable (feed_map rows []) m ≡ some n → (p : ℕ) × (to_price18 n.text ≡ some p)

-- A text that has an exponent behind its digits, or behind a dot and fewer than 18 characters,
-- does not read as a price.
exponent_unreadable :
    (s t post : List ℕ)
    → NoDot s
    → NoDot t
    → length t < 18
    → (to_price18 (s ++ 101 ∷ post) ≡ none) × (to_price18 (s ++ dot ∷ (t ++ 101 ∷ post)) ≡ none)
exponent_unreadable s t post h g b =
    let (rest, e) = take-pad_end 18 t (before_dot post) b in
    (
      bad_whole (s ++ 101 ∷ post) (
          ap (λ x. big_int x 0) (before_dot-split s post h)
          ∙ big_int-none s (before_dot post) 101 0 refl),
      bad_part (s ++ dot ∷ (t ++ 101 ∷ post)) (
          ap (λ x. big_int (take 18 (pad_end 18 x)) 0)
            (after_dot-split s (t ++ 101 ∷ post) h ∙ before_dot-split t post g)
          ∙ ap (λ x. big_int x 0) e
          ∙ big_int-none t rest 101 0 refl),
    )

collect_reads :
    (rows : List Row) (ms : List Market) (results r : List Fetched) (last : Dict ℕ)
    → (collect (feed_map rows []) ms results last).0 ≡ some r
    → All (Readable rows) ms
unfolding collect
collect_reads rows [] results r last h = tt
collect_reads rows (m ∷ ms) results r last h = elim (Option-cases (usable (feed_map rows []) m)) [
  | inl e ↦
      let h' = rw (e, collect) at h in
      ((λ n g. absurd (cc)), collect_reads rows ms results r last h')
  | inr (n, e) ↦ elim (Option-cases (to_price18 n.text)) [
    | inl q ↦ let h' = rw (e, q, collect) at h in absurd (cc)
    | inr (p, q) ↦
        let h' = rw (e, q, collect) at h in ((λ k g. (p, cc)), collect_reads rows ms _ r _ h')
  ]
]

reads_collect :
    (rows : List Row) (ms : List Market) (results : List Fetched) (last : Dict ℕ)
    → All (Readable rows) ms
    → (r : List Fetched) × ((collect (feed_map rows []) ms results last).0 ≡ some r)
unfolding collect
reads_collect rows [] results last h = (results, refl)
reads_collect rows (m ∷ ms) results last (h, hs) =
    elim (Option-cases (usable (feed_map rows []) m)) [
      | inl e ↦ rw (e, collect) (reads_collect rows ms results last hs)
      | inr (n, e) ↦ let (p, q) = h n e in rw (e, collect) (rw q (reads_collect rows ms _ _ hs))
    ]

-- A fetch of the Orderly prices returns results exactly if the text of each market's number,
-- where there is one above 0, reads as a price; one that does not makes the whole fetch throw.
pub fetch_ok_iff :
    (markets : List Market) (rows : List Row) (last : Dict ℕ)
    → ((r : List Fetched) × ((fetch_prices markets (some rows) last).0 ≡ some r))
      ↔ All (Readable rows) markets
unfolding fetch_prices
fetch_ok_iff markets rows last =
    ((λ (r, e). collect_reads rows markets [] r last e), reads_collect rows markets [] last)
