-- ===== src/Chain.antt =====
-- The trigger conditions that the contracts enforce: OrderBookFacet.executeOrder and
-- KeeperMulticallFacet._checkTrigger. The scanners of both services repeat them off chain.
pub mod Margin
use sidiora_perpetual_protoc.Base.{ℕ, Bool, true, false, ◌&&◌, leb, ltb, ◌==◌, if◌then◌else◌}
use sidiora_perpetual_protoc.Protocol.{
  Order, limit_type, stop_limit_type, take_profit_type, stop_loss_type,
}

-- `_validateTriggerCondition`: whether none of its `require`s reverts.
unfoldable pub validate_trigger_condition : Order → ℕ → Bool
validate_trigger_condition o price =
    if o.order_type == limit_type
    then (if o.is_long then leb price o.trigger_price else leb o.trigger_price price)
    else (if o.order_type == stop_limit_type
        then (if o.is_long then leb o.trigger_price price else leb price o.trigger_price)
        else (if o.order_type == take_profit_type
            then (if o.is_long then leb o.trigger_price price else leb price o.trigger_price)
            else (if o.order_type == stop_loss_type
                then (if o.is_long then leb price o.trigger_price else leb o.trigger_price price)
                else true)))

-- The price checks of `executeOrder`, that there is one and the limit of a stop-limit order included.
unfoldable pub execute_order_accepts : Order → ℕ → Bool
unfolding validate_trigger_condition
execute_order_accepts o price =
    ltb 0 price
    && validate_trigger_condition o price
    && (if o.order_type == stop_limit_type
        then (if o.is_long then leb price o.limit_price else leb o.limit_price price)
        else true)

-- `_checkTrigger`
unfoldable pub check_trigger : Order → ℕ → Bool
check_trigger o price =
    if o.order_type == limit_type
    then (if o.is_long then leb price o.trigger_price else leb o.trigger_price price)
    else (if o.order_type == stop_limit_type
        then (if o.is_long
            then leb o.trigger_price price && leb price o.limit_price
            else leb price o.trigger_price && leb o.limit_price price)
        else (if o.order_type == take_profit_type
            then (if o.is_long then leb o.trigger_price price else leb price o.trigger_price)
            else (if o.order_type == stop_loss_type
                then (if o.is_long then leb price o.trigger_price else leb o.trigger_price price)
                else false)))
