-- ===== src/Executors/Triggers.antt =====
-- When a pending limit of packages/engine/src/shadow-executor.ts is filled.
use mathlib.Core.List.{append_assoc}
use mathlib.Core.Path.{subst}
use traderton.Prelude.{
  String, str_eq, ◌≡◌, sym, ap, ◌∙◌, if◌then◌else◌, true, false, Bool, refl, inl, inr, ◌⊎◌, All,
  Bool-cases, List, [], ◌∷◌, ◌++◌, Option, some,
}
use traderton.Decimal.{DecimalLib}
use traderton.Order.{FillEvent}
use traderton.Executors.{IdGenerator, FeeSimulatorConfig}
use traderton.Executors.Shadow.{PendingLimit, shadow_fill}
use traderton.Executors.Pending.{
  TradeEvent, is_trade_through, handle_trade, on_trade, resolve_pending, resolved_fills,
  resolve_pending_limits, resolved_fill_of,
}

if_same {ℓ} : {A : Type ℓ} (b : Bool) (x : A) → (if b then x else x) ≡ x
if_same true x = refl
if_same false x = refl

module _ ⦃lib : DecimalLib⦄ where
  -- A trade that can fill a limit: of its symbol, at its price or through it.
  abbrev pub Reaches : TradeEvent → PendingLimit → Type 0
  Reaches t p =
      (str_eq p.plan.symbol t.symbol ≡ true)
      × (is_trade_through p.side p.limit_price t.price ≡ true)

  -- A trade of another symbol, or one that does not go through the limit.
  abbrev pub Misses : PendingLimit → TradeEvent → Type 0
  Misses p t =
      (str_eq p.plan.symbol t.symbol ≡ false)
      ⊎ (is_trade_through p.side p.limit_price t.price ≡ false)

  -- The fill of a limit by a trade: of the whole order, at its limit, when the trade was.
  abbrev pub Fills : PendingLimit → TradeEvent → FillEvent → Type 0
  Fills p t fill =
      (fill.order_id ≡ p.order_id)
      × (fill.side ≡ p.side)
      × (fill.quantity ≡ p.quantity)
      × (fill.price ≡ p.limit_price)
      × (fill.filled_at ≡ t.timestamp)

  -- Among the fills is the one of a limit by a trade.
  abbrev pub Includes : List FillEvent → PendingLimit → TradeEvent → Type 0
  Includes fills p t =
      (earlier : List FillEvent) × (fill : FillEvent) × (later : List FillEvent) × Fills p t fill
      × (fills ≡ earlier ++ (fill ∷ later))

  abbrev triggered : PendingLimit → TradeEvent → PendingLimit
  triggered p t = record p {
    resolved = true;
    resolved_fill = some (record { price = p.limit_price; timestamp = t.timestamp });
  }

  -- Trades, one after the other, and what they make of one limit.
  abbrev pub on_trades : List TradeEvent → List PendingLimit → List PendingLimit
  on_trades [] ps = ps
  on_trades (t ∷ ts) ps = on_trades ts (on_trade t ps)

  abbrev after_trade : TradeEvent → PendingLimit → PendingLimit
  after_trade t p = if str_eq p.plan.symbol t.symbol then handle_trade t p else p

  abbrev after_trades : List TradeEvent → PendingLimit → PendingLimit
  after_trades [] p = p
  after_trades (t ∷ ts) p = after_trades ts (after_trade t p)

  after_trade-Reaches :
      (t : TradeEvent) (p : PendingLimit)
      → p.resolved ≡ false
      → Reaches t p
      → after_trade t p ≡ triggered p t
  unfolding handle_trade
  after_trade-Reaches t p waits (symbol, through) =
      ap (λ b. if b then handle_trade t p else p) symbol
      ∙ ap
          (λ b.
            if b
            then p
            else (if is_trade_through p.side p.limit_price t.price then triggered p t else p))
          waits
      ∙ ap (λ b. if b then triggered p t else p) through

  after_trade-Misses :
      (t : TradeEvent) (p : PendingLimit) → p.resolved ≡ false → Misses p t → after_trade t p ≡ p
  unfolding handle_trade
  after_trade-Misses t p waits (inl symbol) = ap (λ b. if b then handle_trade t p else p) symbol
  after_trade-Misses t p waits (inr through) = elim (Bool-cases (str_eq p.plan.symbol t.symbol)) [
    | inl same ↦
        ap (λ b. if b then handle_trade t p else p) same
        ∙ ap
            (λ b.
              if b
              then p
              else (if is_trade_through p.side p.limit_price t.price then triggered p t else p))
            waits
        ∙ ap (λ b. if b then triggered p t else p) through
    | inr apart ↦ ap (λ b. if b then handle_trade t p else p) apart
  ]

  -- A limit that has its fill keeps it.
  after_trades-triggered :
      (ts : List TradeEvent) (p : PendingLimit) (t : TradeEvent)
      → after_trades ts (triggered p t) ≡ triggered p t
  unfolding handle_trade
  after_trades-triggered [] p t = refl
  after_trades-triggered (l ∷ ls) p t =
      ap (after_trades ls) (if_same (str_eq p.plan.symbol l.symbol) (triggered p t))
      ∙ after_trades-triggered ls p t

  -- The first trade that reaches a limit fills it.
  after_trades-first :
      (earlier later : List TradeEvent) (p : PendingLimit) (t : TradeEvent)
      → p.resolved ≡ false
      → All (Misses p) earlier
      → Reaches t p
      → after_trades (earlier ++ (t ∷ later)) p ≡ triggered p t
  after_trades-first [] later p t waits misses h =
      ap (after_trades later) (after_trade-Reaches t p waits h) ∙ after_trades-triggered later p t
  after_trades-first (e ∷ es) later p t waits misses h =
      ap (after_trades (es ++ (t ∷ later))) (after_trade-Misses e p waits misses.0)
      ∙ after_trades-first es later p t waits misses.1 h

  on_trade-middle :
      (t : TradeEvent) (before after : List PendingLimit) (p : PendingLimit)
      → on_trade t (before ++ (p ∷ after))
        ≡ on_trade t before ++ (after_trade t p ∷ on_trade t after)
  unfolding on_trade
  on_trade-middle t [] after p = refl
  on_trade-middle t (q ∷ before) after p =
      ap (λ ps. after_trade t q ∷ ps) (on_trade-middle t before after p)

  on_trades-middle :
      (ts : List TradeEvent) (before after : List PendingLimit) (p : PendingLimit)
      → on_trades ts (before ++ (p ∷ after))
        ≡ on_trades ts before ++ (after_trades ts p ∷ on_trades ts after)
  on_trades-middle [] before after p = refl
  on_trades-middle (t ∷ ts) before after p =
      ap (on_trades ts) (on_trade-middle t before after p)
      ∙ on_trades-middle ts (on_trade t before) (on_trade t after) (after_trade t p)

  module _ {S : Type 0} (id_gen : IdGenerator S) (config : Option FeeSimulatorConfig) where
    -- The fill of a limit at a trade.
    abbrev fill_at : PendingLimit → TradeEvent → String → FillEvent
    fill_at p t fill_id =
        resolved_fill_of id_gen config p fill_id
          (record { price = p.limit_price; timestamp = t.timestamp })

    resolved_fills-triggered :
        (s : S) (before after : List PendingLimit) (p : PendingLimit) (t : TradeEvent)
        → Includes (resolved_fills id_gen config s (before ++ (triggered p t ∷ after))).1 p t
    unfolding resolved_fills resolve_pending shadow_fill
    resolved_fills-triggered s [] after p t = (
      [],
      fill_at p t (id_gen.fill_id s).1,
      (resolved_fills id_gen config (id_gen.fill_id s).0 after).1,
      (refl, refl, refl, refl, refl),
      refl,
    )
    resolved_fills-triggered s (q ∷ before) after p t =
        let (s', fills) = resolve_pending id_gen config s q in
        let (earlier, fill, later, pins, e) = resolved_fills-triggered s' before after p t in
        (
          fills ++ earlier,
          fill,
          later,
          pins,
          ap (λ more. fills ++ more) e ∙ sym (append_assoc fills earlier (fill ∷ later)),
        )

    -- A limit order that waits is filled by the first trade that reaches its limit, whatever trades
    -- come before and after it until the next `resolvePendingLimits`: that call returns its fill, for
    -- the whole quantity, at the limit price and with the time of that trade.
    pub resolve_pending_limits-fills :
        (s : S) (before after : List PendingLimit) (p : PendingLimit) (missing : List TradeEvent)
        (t : TradeEvent) (late : List TradeEvent)
        → p.resolved ≡ false
        → All (Misses p) missing
        → Reaches t p
        → Includes
            (resolve_pending_limits id_gen config s
              (on_trades (missing ++ (t ∷ late)) (before ++ (p ∷ after)))).1
            p
            t
    unfolding resolve_pending_limits
    resolve_pending_limits-fills s before after p missing t late waits misses h =
        let ts = missing ++ (t ∷ late) in
        let place =
          on_trades-middle ts before after p
          ∙ ap (λ q. on_trades ts before ++ (q ∷ on_trades ts after))
              (after_trades-first missing late p t waits misses h) in
        subst (λ ps. Includes (resolved_fills id_gen config s ps).1 p t) (sym place)
          (resolved_fills-triggered s (on_trades ts before) (on_trades ts after) p t)
