-- ===== src/Position.antt =====
-- packages/engine/src/position-tracker.ts: the position that the fills of an instrument make.
pub mod Exposure
pub mod Value
use traderton.Prelude.{
  String, Bool, true, false, not, ◌&&◌, ◌||◌, List, [], ◌∷◌, Option, if◌then◌else◌, filter,
}
use traderton.Decimal.{
  DecimalLib, Price, Quantity, decimal, plus, minus, mul, div, abs, gt, is_zero,
}
use traderton.Order.{OrderSide, buy, sell, FillEvent}

pub data PositionSide : Type 0 where
  long short flat : PositionSide

abbrev pub is_buy : OrderSide → Bool
is_buy buy = true
is_buy sell = false

abbrev pub is_long : PositionSide → Bool
is_long long = true
is_long _ = false

abbrev pub is_short : PositionSide → Bool
is_short short = true
is_short _ = false

abbrev pub is_flat : PositionSide → Bool
is_flat flat = true
is_flat _ = false

module _ ⦃lib : DecimalLib⦄ where
  pub record PositionState : Type 0 where
    pub venue : String
    pub symbol : String
    pub side : PositionSide
    pub size : Quantity
    pub entry_price : Price
    pub realized_pnl : Price
    pub instrument_id : Option String

  unfoldable pub flat_position : String → String → Option String → PositionState
  flat_position venue symbol instrument_id = record {
    venue = venue;
    symbol = symbol;
    side = flat;
    size = decimal 0;
    entry_price = decimal 0;
    realized_pnl = decimal 0;
    instrument_id = instrument_id;
  }

  abbrev pub side_of : OrderSide → PositionSide
  side_of s = if is_buy s then long else short

  abbrev pub same_direction : PositionState → FillEvent → Bool
  same_direction p f = (is_long p.side && is_buy f.side) || (is_short p.side && not (is_buy f.side))

  -- The profit of one unit that is closed at the fill's price.
  abbrev pub pnl_per_unit : PositionState → FillEvent → Price
  pnl_per_unit p f =
      if is_long p.side then minus f.price p.entry_price else minus p.entry_price f.price

  abbrev pub opened : PositionState → FillEvent → PositionState
  opened p f = record p { side = side_of f.side; size = f.quantity; entry_price = f.price }

  abbrev pub total_cost : PositionState → FillEvent → Price
  total_cost p f = plus (mul p.entry_price p.size) (mul f.price f.quantity)

  unfoldable pub increased : PositionState → FillEvent → PositionState
  increased p f = record p {
    size = plus p.size f.quantity;
    entry_price = div (total_cost p f) (plus p.size f.quantity);
  }

  unfoldable pub reduced : PositionState → FillEvent → PositionState
  reduced p f = record p {
    size = minus p.size f.quantity;
    realized_pnl = plus p.realized_pnl (mul (pnl_per_unit p f) f.quantity);
  }

  unfoldable pub closed : PositionState → FillEvent → PositionState
  closed p f = record p {
    side = flat;
    size = decimal 0;
    entry_price = decimal 0;
    realized_pnl = plus p.realized_pnl (mul (pnl_per_unit p f) f.quantity);
  }

  unfoldable pub reversed : PositionState → FillEvent → PositionState
  reversed p f = record p {
    side = side_of f.side;
    size = abs (minus p.size f.quantity);
    entry_price = f.price;
    realized_pnl = plus p.realized_pnl (mul (pnl_per_unit p f) p.size);
  }

  unfoldable pub apply_fill : PositionState → FillEvent → PositionState
  apply_fill p f =
      if is_flat p.side
      then opened p f
      else if same_direction p f
      then increased p f
      else if gt (minus p.size f.quantity) (decimal 0)
      then reduced p f
      else if is_zero (minus p.size f.quantity)
      then closed p f
      else reversed p f

  unfoldable pub unrealized_pnl : PositionState → Price → Price
  unrealized_pnl p mark =
      if is_flat p.side
      then decimal 0
      else if is_long p.side
      then mul (minus mark p.entry_price) p.size
      else mul (minus p.entry_price mark) p.size

  abbrev pub sum_from : Price → Price → List PositionState → Price
  sum_from mark sum [] = sum
  sum_from mark sum (p ∷ ps) = sum_from mark (plus sum (unrealized_pnl p mark)) ps

  unfoldable pub total_unrealized_pnl : List PositionState → Price → Price
  total_unrealized_pnl positions mark =
      sum_from mark (decimal 0) (filter (λ p. not (is_flat p.side)) positions)
