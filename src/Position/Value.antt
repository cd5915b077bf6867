-- ===== src/Position/Value.antt =====
-- Profit and loss in packages/engine/src/position-tracker.ts: a fill at the mark makes no value.
use traderton.Prelude.{◌≡◌, refl, sym, ap, ◌∙◌, true, false, arith}
use traderton.Decimal.{DecimalLib, Price, decimal, plus, minus, mul, div, abs, lt, lte}
use traderton.Decimal.Laws.{Exact}
use traderton.Decimal.Sums.{plus-minus, minus_self, mul-zero, minus-mul, minus-plus_cancel}
use traderton.Decimal.Signs.{average_between}
use traderton.Order.{FillEvent}
use traderton.Position.{
  flat, PositionState, apply_fill, opened, increased, reduced, closed, reversed, same_direction,
  is_flat, total_cost, pnl_per_unit, unrealized_pnl,
}
use traderton.Position.Exposure.{apply_fill_cases}

module _ ⦃lib : DecimalLib⦄ where
  -- Realized and unrealized profit together, at a mark price.
  abbrev pub value : PositionState → Price → Price
  value p mark = plus p.realized_pnl (unrealized_pnl p mark)

  -- The average entry price of an increased position is not rounded.
  abbrev pub HasExactEntry : PositionState → FillEvent → Type 0
  HasExactEntry p f =
      same_direction p f ≡ true
      → mul (div (total_cost p f) (plus p.size f.quantity)) (plus p.size f.quantity)
        ≡ total_cost p f

module _ ⦃lib : DecimalLib⦄ ⦃ex : Exact⦄ where
  zero-mul : (a : Price) → mul (decimal 0) a ≡ decimal 0
  zero-mul a = ex.mul_comm (decimal 0) a ∙ mul-zero a

  unrealized_flat :
      (p : PositionState) (mark : Price) → p.side ≡ flat → unrealized_pnl p mark ≡ decimal 0
  unfolding unrealized_pnl
  unrealized_flat p mark none = ground arith

  unrealized_opened :
      (p : PositionState) (f : FillEvent) → unrealized_pnl (opened p f) f.price ≡ decimal 0
  unfolding unrealized_pnl
  unrealized_opened p f = ground (arith, minus_self f.price, zero-mul f.quantity)

  unrealized_reversed :
      (p : PositionState) (f : FillEvent) → unrealized_pnl (reversed p f) f.price ≡ decimal 0
  unfolding unrealized_pnl reversed
  unrealized_reversed p f =
      ground (arith, minus_self f.price, zero-mul (abs (minus p.size f.quantity)))

  -- What a held position is worth at the fill's price.
  unrealized_held :
      (p : PositionState) (f : FillEvent)
      → is_flat p.side ≡ false
      → unrealized_pnl p f.price ≡ mul (pnl_per_unit p f) p.size
  unfolding unrealized_pnl
  unrealized_held p f held = ground arith

  -- The profit of the closed part and of the rest is the profit of the whole.
  split_profit : (x s q : Price) → plus (mul x q) (mul x (minus s q)) ≡ mul x s
  split_profit x s q =
      sym (ex.mul-plus x q (minus s q)) ∙ ap (mul x) (ex.plus_comm q (minus s q) ∙ plus-minus s q)

  value-reduced :
      (p : PositionState) (f : FillEvent)
      → is_flat p.side ≡ false
      → value (reduced p f) f.price ≡ value p f.price
  unfolding reduced
  value-reduced p f held =
      let x = pnl_per_unit p f in
      ex.plus_assoc p.realized_pnl (mul x f.quantity) _
      ∙ ap (plus p.realized_pnl) (
          ap (plus (mul x f.quantity)) (unrealized_held (reduced p f) f held)
          ∙ split_profit x p.size f.quantity
          ∙ sym (unrealized_held p f held))

  -- Growing a position at its own mark leaves the profit of what was held before.
  value-increased :
      (p : PositionState) (f : FillEvent)
      → is_flat p.side ≡ false
      → mul (div (total_cost p f) (plus p.size f.quantity)) (plus p.size f.quantity)
        ≡ total_cost p f
      → unrealized_pnl (increased p f) f.price ≡ unrealized_pnl p f.price
  unfolding increased unrealized_pnl
  value-increased p f held exact =
      let entry = div (total_cost p f) (plus p.size f.quantity) in
      let size = plus p.size f.quantity in
      let grown = ex.mul-plus f.price p.size f.quantity in
      ground (
        arith,
        minus-mul f.price entry size,
        minus-mul entry f.price size,
        minus-mul f.price p.entry_price p.size,
        minus-mul p.entry_price f.price p.size,
        grown,
        minus-plus_cancel (mul f.price p.size) (mul f.price f.quantity) (mul p.entry_price p.size),
        minus-plus_cancel (mul p.entry_price p.size) (mul f.price f.quantity) (mul f.price p.size),
      )

  value-closed :
      (p : PositionState) (f : FillEvent)
      → is_flat p.side ≡ false
      → p.size ≡ f.quantity
      → value (closed p f) f.price ≡ value p f.price
  unfolding closed
  value-closed p f held all =
      ap (plus (closed p f).realized_pnl) (unrealized_flat (closed p f) f.price refl)
      ∙ ex.plus-zero _
      ∙ ap (plus p.realized_pnl)
          (ap (mul (pnl_per_unit p f)) (sym all) ∙ sym (unrealized_held p f held))

  value-reversed :
      (p : PositionState) (f : FillEvent)
      → is_flat p.side ≡ false
      → value (reversed p f) f.price ≡ value p f.price
  unfolding reversed
  value-reversed p f held =
      ap (plus (reversed p f).realized_pnl) (unrealized_reversed p f)
      ∙ ex.plus-zero _
      ∙ ap (plus p.realized_pnl) (sym (unrealized_held p f held))

  -- A fill at the mark price moves profit from unrealized to realized, and makes or loses none,
  -- provided the average entry price of a position that it increases is not rounded.
  pub value-apply_fill :
      (p : PositionState) (f : FillEvent)
      → HasExactEntry p f
      → value (apply_fill p f) f.price ≡ value p f.price
  unfolding increased
  value-apply_fill p f exact =
      apply_fill_cases (λ q. value q f.price ≡ value p f.price) p f
        (λ none.
          ap (plus p.realized_pnl) (unrealized_opened p f ∙ sym (unrealized_flat p f.price none)))
        (λ held same. ap (plus p.realized_pnl) (value-increased p f held (exact same)))
        (λ held against less. value-reduced p f held)
        (λ held against all. value-closed p f held all)
        (λ held against over. value-reversed p f held)

  -- The average entry of a position of positive size that grows by a positive quantity, at a price
  -- no lower than its entry, lies between the two, rounded or not.
  pub increased-entry_between :
      (p : PositionState) (f : FillEvent)
      → lt (decimal 0) p.size ≡ true
      → lt (decimal 0) f.quantity ≡ true
      → lte p.entry_price f.price ≡ true
      → (lte p.entry_price (increased p f).entry_price ≡ true)
        × (lte (increased p f).entry_price f.price ≡ true)
  unfolding increased
  increased-entry_between p f = average_between p.entry_price f.price p.size f.quantity
