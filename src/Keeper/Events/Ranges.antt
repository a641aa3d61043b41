-- ===== src/Keeper/Events/Ranges.antt =====
-- Which blocks .keeper/src/event-listener.js queries, however its polls overlap.
use sidiora_perpetual_protoc.Base.{
  ℕ, ◌+◌, ◌≤◌, ◌<◌, ◌≡◌, refl, sym, ap, ◌∙◌, Option, none, some, List, [], ◌∷◌, ◌++◌, leb, ◌==◌,
  arith, Bool-cases, Option-cases, inl, inr, ==→eq,
}
use mathlib.Core.Path.{subst}
use sidiora_perpetual_protoc.Base.Dict.{
  Dict, lookup, insert, erase, Distinct, lookup-insert, lookup-erase_self, lookup-erase_ne,
  insert-Distinct, erase-Distinct,
}
use sidiora_perpetual_protoc.Base.Ranges.{covering, covering-append}
use sidiora_perpetual_protoc.Keeper.Events.{
  PricesUpdated, Poll, State, Event, height_read, query_answered, callbacks_returned, begin_poll,
  end_poll, latest, answer_query, return_callbacks, step, run, listening,
}

-- Every block after the start and up to a height was queried.
abbrev Reached : ℕ → List (ℕ × ℕ) → ℕ → Type 0
Reached start queried height =
    (start ≤ height) × ((b : ℕ) → start < b → b ≤ height → 1 ≤ covering b queried)

-- The blocks up to the last processed one and those of every poll under way were queried, and none
-- up to the start.
record Sound (start : ℕ) (s : State) : Type 0 where
  processed : Reached start s.queried s.last_processed_block
  each_once : Distinct s.under_way
  asked : (i : ℕ) (p : Poll) → lookup i s.under_way ≡ some p → Reached start s.queried p.to_block
  behind : (b : ℕ) → b ≤ start → covering b s.queried ≡ 0

end_poll-Sound :
    (start i : ℕ) (p : Poll) (s : State)
    → Sound start s
    → lookup i s.under_way ≡ some p
    → Sound start (end_poll i p s)
end_poll-Sound start i p s h e = record {
  processed = h.asked i p e;
  each_once = erase-Distinct i s.under_way h.each_once;
  asked = λ j q f. elim (Bool-cases (i == j)) [
    | inl k ↦ grind (
      arith,
      f,
      lookup-erase_self i s.under_way h.each_once,
      ap (λ n. lookup n (erase i s.under_way)) (==→eq i j k),
    )
    | inr k ↦ h.asked j q (sym (lookup-erase_ne i j s.under_way k) ∙ f)
  ];
  behind = h.behind;
}

-- What holds of a new poll and of all others holds of all polls after its insertion.
inserted :
    (P : Poll → Type 0) (i : ℕ) (p : Poll) (m : Dict Poll)
    → P p
    → ((j : ℕ) (q : Poll) → lookup j m ≡ some q → P q)
    → (j : ℕ) (q : Poll) → lookup j (insert i p m) ≡ some q
    → P q
inserted P i p m h rest j q e = elim (Bool-cases (i == j)) [
  | inl k ↦
      let found : lookup j (insert i p m) ≡ some p = lookup-insert i j p m ∙ rw k refl in
      let same : some p ≡ some q = sym found ∙ e in
      subst P (ap (λ o. elim o [ none ↦ p | some x ↦ x ]) same) h
  | inr k ↦
      let kept : lookup j (insert i p m) ≡ lookup j m = lookup-insert i j p m ∙ rw k refl in
      rest j q (sym kept ∙ e)
]

queried_now :
    (last current b : ℕ) (ranges : List (ℕ × ℕ))
    → last < b
    → b ≤ current
    → 1 ≤ covering b (ranges ++ (last + 1, current) ∷ [])
queried_now last current b ranges lo hi =
    rw (covering-append b ranges ((last + 1, current) ∷ [])) (grind (arith, lo, hi))

still_queried :
    (last current b : ℕ) (ranges : List (ℕ × ℕ))
    → covering b ranges ≤ covering b (ranges ++ (last + 1, current) ∷ [])
still_queried last current b ranges =
    omega (arith, covering-append b ranges ((last + 1, current) ∷ []))

still_Reached :
    (start last current height : ℕ) (ranges : List (ℕ × ℕ))
    → Reached start ranges height
    → Reached start (ranges ++ (last + 1, current) ∷ []) height
still_Reached start last current height ranges (h, r) =
    (h, (λ b lo hi. omega (arith, still_queried last current b ranges, r b lo hi)))

now_Reached :
    (start last current : ℕ) (ranges : List (ℕ × ℕ))
    → last < current
    → Reached start ranges last
    → Reached start (ranges ++ (last + 1, current) ∷ []) current
now_Reached start last current ranges above (h, r) = (
  omega (arith, h, above),
  (λ b lo hi. elim (Bool-cases (leb b last)) [
    | inl e ↦ omega (arith, still_queried last current b ranges, r b lo (ground (arith, e)))
    | inr e ↦ queried_now last current b ranges (ground (arith, e)) hi
  ]),
)

begin_poll-Sound :
    (start current : ℕ) (s : State) → Sound start s → Sound start (begin_poll current s)
unfolding begin_poll
begin_poll-Sound start current s h = elim (Bool-cases (leb current s.last_processed_block)) [
  | inl e ↦ rw e h
  | inr e ↦
      let last = s.last_processed_block in
      let ranges = s.queried in
      rw e (record {
        processed = still_Reached start last current last ranges h.processed;
        each_once = insert-Distinct s.next_poll _ s.under_way h.each_once;
        asked =
            inserted (λ p. Reached start (ranges ++ (last + 1, current) ∷ []) p.to_block)
              s.next_poll _ s.under_way
              (now_Reached start last current ranges (ground (arith, e)) h.processed)
              (λ j q f. still_Reached start last current q.to_block ranges (h.asked j q f));
        behind = λ b le.
            covering-append b ranges ((last + 1, current) ∷ [])
            ∙ grind (arith, h.behind b le, h.processed.0, le);
      })
]

answer_query-Sound :
    (start i : ℕ) (answer : Option (List PricesUpdated)) (s : State)
    → Sound start s
    → Sound start (answer_query i answer s)
unfolding answer_query
answer_query-Sound start i answer s h = elim (Option-cases (lookup i s.under_way)) [
  | inl n ↦ rw (n, answer_query) h
  | inr (p, e) ↦ elim (Bool-cases p.in_callbacks) [
    | inl c ↦ rw (e, answer_query) (rw c h)
    | inr c ↦ elim (Option-cases (latest answer)) [
      | inl n ↦ rw (e, answer_query) (rw (c, n) (end_poll-Sound start i p s h e))
      | inr (x, l) ↦
          rw (e, answer_query)
            (rw (c, l)
              (record {
                processed = h.processed;
                each_once = insert-Distinct i _ s.under_way h.each_once;
                asked =
                    inserted (λ q. Reached start s.queried q.to_block) i _ s.under_way
                      (h.asked i p e) h.asked;
                behind = h.behind;
              }))
    ]
  ]
]

return_callbacks-Sound :
    (start i : ℕ) (s : State) → Sound start s → Sound start (return_callbacks i s)
unfolding return_callbacks
return_callbacks-Sound start i s h = elim (Option-cases (lookup i s.under_way)) [
  | inl n ↦ rw (n, return_callbacks) h
  | inr (p, e) ↦ elim (Bool-cases p.in_callbacks) [
    | inl c ↦ rw (e, return_callbacks) (rw c (end_poll-Sound start i p s h e))
    | inr c ↦ rw (e, return_callbacks) (rw c h)
  ]
]

run-Sound : (start : ℕ) (es : List Event) (s : State) → Sound start s → Sound start (run es s)
unfolding run step
run-Sound start [] s h = h
run-Sound start (height_read c ∷ es) s h = run-Sound start es _ (begin_poll-Sound start c s h)
run-Sound start (query_answered i a ∷ es) s h =
    run-Sound start es _ (answer_query-Sound start i a s h)
run-Sound start (callbacks_returned i ∷ es) s h =
    run-Sound start es _ (return_callbacks-Sound start i s h)

-- A listener that starts at a block, however its polls overlap and whatever heights and
-- failures they meet, has queried each block after the start up to the last processed one at
-- least once, and no block up to the start.
pub polls_cover :
    (start b : ℕ) (es : List Event)
    → let s = run es (listening start) in
      (start < b → b ≤ s.last_processed_block → 1 ≤ covering b s.queried)
      × (b ≤ start → covering b s.queried ≡ 0)
polls_cover start b es =
    let h : Sound start (run es (listening start)) = run-Sound start es (listening start) (record {
      processed = (omega arith, λ n lo hi. absurd (omega (arith, lo, hi)));
      each_once = tt;
      asked = λ i p e. absurd (ground (arith, e));
      behind = λ n le. refl;
    }) in
    (h.processed.1 b, h.behind b)
