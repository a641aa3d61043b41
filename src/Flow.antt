-- ===== src/Flow.antt =====
-- The indexer's rows as .keeper/src/state-cache.js reads them: from the events of a position to the
-- margin that .keeper/src/liquidation-scanner.js computes.
use native.Mathlib.Nat.{zero-div}
use sidiora_perpetual_protoc.Base.{
  ℕ, ◌≤◌, ◌<◌, ◌≡◌, ◌≢◌, refl, ◌∙◌, ==_refl, Bool, false, some, arith, if◌then◌else◌,
}
use sidiora_perpetual_protoc.Base.Dict.{lookup, has, lookup-insert}
use sidiora_perpetual_protoc.Base.Int.{pos_part, two_256, two_255, as_int256, ◌+ℤ◌, mul_ℕ, quot_ℕ}
use sidiora_perpetual_protoc.Protocol.{Position}
use sidiora_perpetual_protoc.Margin.{calculate_margin_bps, calculate_pnl, equity}
use sidiora_perpetual_protoc.Margin.Laws.{Worse, margin_mono, margin_at_entry}
use sidiora_perpetual_protoc.Keeper.Refresh.{from_row}
use sidiora_perpetual_protoc.Indexer.Rows.{Db, PositionRow}
use sidiora_perpetual_protoc.Indexer.Models.{Context}
use sidiora_perpetual_protoc.Indexer.Handlers.{Event, opened_row}
use sidiora_perpetual_protoc.Indexer.Dispatch.{handle_event}
use sidiora_perpetual_protoc.Indexer.Effects.{handle_event-positions}
use sidiora_perpetual_protoc.Indexer.Resolvers.{indexed_position}

-- The position as the keeper holds it after a refresh from the indexer.
abbrev pub kept : ℕ → PositionRow → Position
kept id p = from_row (indexed_position (id, p))

tiny : 0 < two_255
tiny = omega arith

equity_of_new :
    (p : Position)
    → p.entry_price ≢ 0
    → p.collateral_usd ≡ 0
    → pos_part (equity p p.entry_price) < two_256
unfolding equity calculate_pnl ◌+ℤ◌ mul_ℕ quot_ℕ as_int256
equity_of_new p he hc = rw hc (ground (arith, zero-div p.entry_price))

-- Without collateral the margin is 0 at the entry price and at every worse one.
margin_of_new :
    (p : Position) (price : ℕ)
    → p.size_usd ≢ 0
    → p.entry_price ≢ 0
    → p.collateral_usd ≡ 0
    → Worse p price p.entry_price
    → calculate_margin_bps p price ≡ 0
margin_of_new p price hs he hc worse =
    let e : calculate_margin_bps p p.entry_price ≡ 0 =
      margin_at_entry p hs he (rw hc tiny) ∙ rw hc (zero-div p.size_usd) in
    omega (arith, margin_mono p price p.entry_price worse (equity_of_new p he hc), e)

-- After a PositionOpened event of an id that the indexer does not hold, with a size and an
-- entry price, the position that the keeper reads from the indexer has margin 0 at the entry
-- price and every worse one, whatever collateral the event states.
pub opened_position_has_no_margin :
    (db : Db) (ctx : Context) (id user market_id : ℕ) (is_long : Bool)
    (size leverage entry token amount price : ℕ)
    → has id db.positions ≡ false
    → size ≢ 0
    → entry ≢ 0
    → (if is_long then price ≤ entry else entry ≤ price)
    → let after =
        handle_event
          (Event.position_opened id user market_id is_long size leverage entry token amount)
          ctx
          db in
      (p : PositionRow) × (lookup id after.1.positions ≡ some p)
      × (calculate_margin_bps (kept id p) price ≡ 0)
opened_position_has_no_margin db ctx id user market_id is_long size leverage entry token amount
      price new hs he worse =
    let row = opened_row user market_id is_long size leverage entry token amount ctx in
    (
      row,
      rw
          (
            handle_event-positions
                (Event.position_opened id user market_id is_long size leverage entry token amount)
                ctx db,
            new,
            lookup-insert id id row db.positions,
            ==_refl id,
          )
          refl,
      margin_of_new (kept id row) price hs he refl worse,
    )
