-- ===== src/Keeper/Events.antt =====
-- `EventListener` of .keeper/src/event-listener.js: the polls for new `PricesUpdated` events. The
-- timer starts a poll also while earlier ones still await their query or their callbacks.
pub mod Ranges
use sidiora_perpetual_protoc.Base.{
  ℕ, ◌+◌, Bool, true, false, Option, none, some, List, [], ◌∷◌, ◌++◌, leb, if◌then◌else◌, get_last?,
}
use sidiora_perpetual_protoc.Base.Dict.{Dict, lookup, insert, erase}

-- A `PricesUpdated` event: the markets and their prices.
pub record PricesUpdated : Type 0 where
  pub market_ids : List ℕ
  pub prices : List ℕ

-- A poll that is under way: it awaits its query, or else its callbacks.
pub record Poll : Type 0 where
  pub to_block : ℕ
  pub in_callbacks : Bool

-- The listener with the polls that are under way, by their number; `queried` lists the ranges of the
-- queries and `delivered` the events that were handed to the callbacks.
pub record State : Type 0 where
  pub last_processed_block : ℕ
  pub under_way : Dict Poll
  pub next_poll : ℕ
  pub queried : List (ℕ × ℕ)
  pub delivered : List PricesUpdated

-- What happens to the listener: a tick's `getBlockNumber` answers with a height, a query answers or
-- throws (`none`), or the last callback of a poll returns.
pub data Event : Type 0 where
  height_read : ℕ → Event
  query_answered : ℕ → Option (List PricesUpdated) → Event
  callbacks_returned : ℕ → Event

-- `_scanNewBlocks` up to its query.
unfoldable pub begin_poll : ℕ → State → State
begin_poll current s = if leb current s.last_processed_block then s else record s {
  under_way = insert s.next_poll (record { to_block = current; in_callbacks = false }) s.under_way;
  next_poll = s.next_poll + 1;
  queried = s.queried ++ (s.last_processed_block + 1, current) ∷ [];
}

-- The last statement of `_scanNewBlocks`.
abbrev pub end_poll : ℕ → Poll → State → State
end_poll i p s = record s { last_processed_block = p.to_block; under_way = erase i s.under_way }

-- Only the latest event is handed on. A query that throws is logged.
abbrev pub latest : Option (List PricesUpdated) → Option PricesUpdated
latest none = none
latest (some events) = get_last? events

unfoldable pub answer_query : ℕ → Option (List PricesUpdated) → State → State
answer_query i answer s = elim (lookup i s.under_way) [
  | none ↦ s
  | some p ↦ if p.in_callbacks then s else (elim (latest answer) [
    | none ↦ end_poll i p s
    | some e ↦ record s {
      under_way = insert i (record p { in_callbacks = true }) s.under_way;
      delivered = s.delivered ++ e ∷ [];
    }
  ])
]

unfoldable pub return_callbacks : ℕ → State → State
return_callbacks i s = elim (lookup i s.under_way) [
  | none ↦ s
  | some p ↦ if p.in_callbacks then end_poll i p s else s
]

unfoldable pub step : Event → State → State
unfolding begin_poll answer_query return_callbacks
step (height_read current) s = begin_poll current s
step (query_answered i answer) s = answer_query i answer s
step (callbacks_returned i) s = return_callbacks i s

unfoldable pub run : List Event → State → State
unfolding step
run [] s = s
run (e ∷ es) s = run es (step e s)

-- `start` at a chain of this height.
abbrev pub listening : ℕ → State
listening height = record {
  last_processed_block = height;
  under_way = [];
  next_poll = 0;
  queried = [];
  delivered = [];
}
