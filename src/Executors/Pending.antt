-- ===== src/Executors/Pending.antt =====
-- packages/engine/src/shadow-executor.ts: the limit orders that wait for a trade. The handlers that
-- `onTrade` registers are the pending limits themselves: one that is gone or resolved ignores a
-- trade. The feed passes a trade to the handlers of its symbol.
use traderton.Prelude.{
  String, str_eq, Bool, true, not, List, [], ◌∷◌, ◌++◌, Option, none, some, filter, if◌then◌else◌,
}
use traderton.Decimal.{DecimalLib, Price, lte, gte}
use traderton.Order.{OrderSide, FillEvent}
use traderton.Position.{is_buy}
use traderton.Planner.{ExecutionPlan}
use traderton.Executors.{IdGenerator, ExecutionResult, FeeSimulatorConfig}
use traderton.Executors.Shadow.{World, PendingLimit, ResolvedFill, shadow_fill}
use traderton.Executors.Placing.{place_all, pendings_of, result_of}
use traderton.Result.{Result, ok}

module _ ⦃lib : DecimalLib⦄ where
  -- Of a trade what the handlers read, with the symbol that the feed sorts it by.
  pub record TradeEvent : Type 0 where
    pub symbol : String
    pub price : Price
    pub timestamp : String

  unfoldable pub is_trade_through : OrderSide → Price → Price → Bool
  is_trade_through side limit_price trade_price =
      if is_buy side then lte trade_price limit_price else gte trade_price limit_price

  -- The handler of one pending limit.
  unfoldable pub handle_trade : TradeEvent → PendingLimit → PendingLimit
  unfolding is_trade_through
  handle_trade trade p =
      if p.resolved
      then p
      else if is_trade_through p.side p.limit_price trade.price
      then record p {
        resolved = true;
        resolved_fill = some (record { price = p.limit_price; timestamp = trade.timestamp });
      }
      else p

  unfoldable pub on_trade : TradeEvent → List PendingLimit → List PendingLimit
  unfolding handle_trade
  on_trade trade [] = []
  on_trade trade (p ∷ ps) =
      (if str_eq p.plan.symbol trade.symbol then handle_trade trade p else p) ∷ on_trade trade ps

  module _ {S : Type 0} (id_gen : IdGenerator S) (config : Option FeeSimulatorConfig) where
    abbrev pub resolved_fill_of : PendingLimit → String → ResolvedFill → FillEvent
    resolved_fill_of p fill_id r =
        shadow_fill config p.plan p.side p.order_id fill_id p.quantity r.price r.timestamp

    -- One turn of the loop of `resolvePendingLimits`.
    unfoldable pub resolve_pending : S → PendingLimit → S × List FillEvent
    unfolding shadow_fill
    resolve_pending s p =
        if p.resolved
        then elim p.resolved_fill [
          | none ↦ (s, [])
          | some r ↦ let (s', fill_id) = id_gen.fill_id s in (s', resolved_fill_of p fill_id r ∷ [])
        ]
        else (s, [])

    unfoldable pub resolved_fills : S → List PendingLimit → S × List FillEvent
    unfolding resolve_pending
    resolved_fills s [] = (s, [])
    resolved_fills s (p ∷ ps) =
        let (s₁, fills) = resolve_pending s p in
        let (s₂, more) = resolved_fills s₁ ps in (s₂, fills ++ more)

    unfoldable pub resolve_pending_limits :
        S → List PendingLimit → S × List FillEvent × List PendingLimit
    unfolding resolved_fills
    resolve_pending_limits s ps =
        let (s', fills) = resolved_fills s ps in (s', fills, filter (λ p. not p.resolved) ps)

  unfoldable pub dispose : List PendingLimit → List PendingLimit
  dispose ps = []

  module _ {S : Type 0} (world : World S) (config : Option FeeSimulatorConfig) where
    -- `execute`: what rests is added to the pending limits.
    unfoldable pub execute :
        S
        → List PendingLimit
        → ExecutionPlan
        → Price
        → String
        → S × List PendingLimit × Result ExecutionResult String
    unfolding place_all result_of
    execute s pending plan current_price now =
        let (s', placements) = place_all world config s plan current_price now plan.orders in
        (s', pending ++ pendings_of placements, ok (result_of plan now placements))
