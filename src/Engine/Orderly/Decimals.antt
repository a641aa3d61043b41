-- ===== src/Engine/Orderly/Decimals.antt =====
-- `_toPrice18` of .perps-engine/src/price-sources/orderly-fetcher.js on decimal texts.
use native.Mathlib.Nat.{mul_assoc, mul_comm}
use sidiora_perpetual_protoc.Base.{
  ℕ, zero, suc, ◌+◌, ◌-◌, ◌*◌, ◌/◌, ◌%◌, ◌^◌, ◌≤◌, ◌<◌, ◌≡◌, refl, sym, ap, ◌∙◌, false, some, List,
  [], ◌∷◌, ◌++◌, ◌==◌, take, length, length-append, All, All-snoc, arith,
}
use sidiora_perpetual_protoc.Engine.Orderly.{
  dot, big_int, before_dot, after_dot, pad_end, to_price18,
}

-- The last `k` decimal digits of a number.
abbrev pub digits_of : ℕ → ℕ → List ℕ
digits_of zero n = []
digits_of (suc k) n = digits_of k (n / 10) ++ (48 + n % 10) ∷ []

abbrev zeros : ℕ → List ℕ
zeros zero = []
zeros (suc k) = 48 ∷ zeros k

tenfold : (k n : ℕ) → n * 10 ^ suc k ≡ n * 10 ^ k * 10
tenfold k n = ap (λ x. n * x) (omega arith) ∙ sym (mul_assoc n (10 ^ k) 10)

tenfold_first : (k n : ℕ) → n * 10 ^ suc k ≡ (n * 10 + 0) * 10 ^ k
tenfold_first k n =
    tenfold k n
    ∙ (mul_assoc n (10 ^ k) 10 ∙ ap (λ x. n * x) (mul_comm (10 ^ k) 10))
    ∙ sym (mul_assoc n 10 (10 ^ k))
    ∙ omega arith

big_int-append : (s t : List ℕ) (n m : ℕ) → big_int s n ≡ some m → big_int (s ++ t) n ≡ big_int t m
unfolding big_int
big_int-append [] t n m h = cc
big_int-append (c ∷ s) t n m h = ground (arith, big_int-append s t (n * 10 + (c - 48)) m)

last_digit : (a m : ℕ) → big_int ((48 + m % 10) ∷ []) (a + m / 10) ≡ some (a * 10 + m)
unfolding big_int
last_digit a m = ground arith

big_int-digits_of : (k n m : ℕ) → m < 10 ^ k → big_int (digits_of k m) n ≡ some (n * 10 ^ k + m)
unfolding big_int
big_int-digits_of zero n m h = ap some (omega (arith, h))
big_int-digits_of (suc k) n m h =
    big_int-append (digits_of k (m / 10)) ((48 + m % 10) ∷ []) n (n * 10 ^ k + m / 10)
      (big_int-digits_of k n (m / 10) (omega (arith, h)))
    ∙ last_digit (n * 10 ^ k) m
    ∙ ap (λ x. some (x + m)) (sym (tenfold k n))

big_int-zeros : (k n : ℕ) → big_int (zeros k) n ≡ some (n * 10 ^ k)
unfolding big_int
big_int-zeros zero n = ap some (omega arith)
big_int-zeros (suc k) n = big_int-zeros k (n * 10 + 0) ∙ ap some (sym (tenfold_first k n))

fill : (n : ℕ) → suc n - 0 ≡ suc (n - 0)
fill n = omega arith

-- What `_toPrice18` reads after the dot: the digits, filled up with zeros.
padded : (n : ℕ) (s : List ℕ) → length s ≤ n → take n (pad_end n s) ≡ s ++ zeros (n - length s)
unfolding pad_end
padded zero [] h = refl
padded zero (c ∷ s) h = absurd (omega (arith, h))
padded (suc n) [] h = ap (◌∷◌ 48) (padded n [] (omega arith)) ∙ sym (ap zeros (fill n))
padded (suc n) (c ∷ s) h =
    ap (◌∷◌ c) (padded n s (omega (arith, h)) ∙ ap (λ k. s ++ zeros k) (omega arith))

length-digits_of : (k n : ℕ) → length (digits_of k n) ≡ k
length-digits_of zero n = refl
length-digits_of (suc k) n =
    omega (
      arith,
      length-append (digits_of k (n / 10)) ((48 + n % 10) ∷ []),
      length-digits_of k (n / 10),
    )

-- A text without a dot.
abbrev pub NoDot : List ℕ → Type 0
NoDot = All (λ c. (c == dot) ≡ false)

digits_of-NoDot : (k n : ℕ) → NoDot (digits_of k n)
digits_of-NoDot zero n = tt
digits_of-NoDot (suc k) n =
    All-snoc _ (digits_of k (n / 10)) (48 + n % 10) (digits_of-NoDot k (n / 10)) (ground arith)

before_dot-append : (s t : List ℕ) → NoDot s → before_dot (s ++ dot ∷ t) ≡ s
unfolding before_dot
before_dot-append [] t h = refl
before_dot-append (c ∷ s) t (h, hs) = rw h (ap (◌∷◌ c) (before_dot-append s t hs))

before_dot-all : (s : List ℕ) → NoDot s → before_dot s ≡ s
unfolding before_dot
before_dot-all [] h = refl
before_dot-all (c ∷ s) (h, hs) = rw h (ap (◌∷◌ c) (before_dot-all s hs))

after_dot-append : (s t : List ℕ) → NoDot s → NoDot t → after_dot (s ++ dot ∷ t) ≡ t
unfolding after_dot
after_dot-append [] t h g = before_dot-all t g
after_dot-append (c ∷ s) t (h, hs) g = rw h (after_dot-append s t hs g)

-- The text with `w` digits before the dot and `j` after it.
unfoldable pub decimal : ℕ → ℕ → ℕ → ℕ → List ℕ
decimal w i j f = digits_of w i ++ dot ∷ digits_of j f

exact18 :
    (str : List ℕ) (i f : ℕ)
    → big_int (before_dot str) 0 ≡ some i
    → big_int (take 18 (pad_end 18 (after_dot str))) 0 ≡ some f
    → to_price18 str ≡ some (i * 10 ^ 18 + f)
unfolding to_price18
exact18 str i f h g = rw (h, to_price18) (rw g refl)

-- The text of i with w digits, a dot and f with j digits, where i and f have no more digits
-- than that and j is at most 18, is read as the price of i and f, f in units of 10^-j, at 18
-- decimals, exactly.
pub to_price18-decimal :
    (w i j f : ℕ)
    → i < 10 ^ w
    → f < 10 ^ j
    → j ≤ 18
    → to_price18 (decimal w i j f) ≡ some (i * 10 ^ 18 + f * 10 ^ (18 - j))
unfolding decimal
to_price18-decimal w i j f hi hf hj =
    let ds = digits_of w i in
    let fs = digits_of j f in
    let whole : big_int (before_dot (ds ++ dot ∷ fs)) 0 ≡ some i =
      ap (λ s. big_int s 0) (before_dot-append ds fs (digits_of-NoDot w i))
      ∙ big_int-digits_of w 0 i hi
      ∙ ap some (omega arith) in
    let fits : length fs ≤ 18 = omega (arith, length-digits_of j f, hj) in
    let part : big_int (take 18 (pad_end 18 (after_dot (ds ++ dot ∷ fs)))) 0
        ≡ some (f * 10 ^ (18 - j)) =
      ap (λ s. big_int (take 18 (pad_end 18 s)) 0)
        (after_dot-append ds fs (digits_of-NoDot w i) (digits_of-NoDot j f))
      ∙ ap (λ s. big_int s 0) (padded 18 fs fits)
      ∙ big_int-append fs (zeros (18 - length fs)) 0 f
          (big_int-digits_of j 0 f hf ∙ ap some (omega arith))
      ∙ big_int-zeros (18 - length fs) f
      ∙ ap (λ n. some (f * 10 ^ (18 - n))) (length-digits_of j f) in
    exact18 (ds ++ dot ∷ fs) i (f * 10 ^ (18 - j)) whole part
