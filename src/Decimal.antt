-- ===== src/Decimal.antt =====
-- packages/domain/src/values/money.ts. The class Decimal is the package decimal.js, which is not
-- part of the repository: its operations are a parameter, and its laws are hypotheses.
pub mod Laws
pub mod Order
pub mod Sums
pub mod Signs
pub mod Integers
use traderton.Prelude.{ℕ, Ordering, String, Bool, true, false}

-- The calls that the program makes of decimal.js.
pub record DecimalLib : Type 1 where
  pub Decimal : Type 0
  pub of_number : ℕ → Decimal
  pub plus : Decimal → Decimal → Decimal
  pub minus : Decimal → Decimal → Decimal
  pub mul : Decimal → Decimal → Decimal
  pub div : Decimal → Decimal → Decimal
  pub neg : Decimal → Decimal
  pub abs : Decimal → Decimal
  pub compared_to : Decimal → Decimal → Ordering
  pub to_string : Decimal → String
  -- `new Decimal(a.toString())`
  pub copy : Decimal → Decimal

module _ ⦃lib : DecimalLib⦄ where
  abbrev pub Price : Type 0
  Price = lib.Decimal

  abbrev pub Quantity : Type 0
  Quantity = lib.Decimal

  abbrev pub decimal : ℕ → Price
  decimal = lib.of_number

  abbrev pub plus : Price → Price → Price
  plus = lib.plus

  abbrev pub minus : Price → Price → Price
  minus = lib.minus

  abbrev pub mul : Price → Price → Price
  mul = lib.mul

  abbrev pub div : Price → Price → Price
  div = lib.div

  abbrev pub neg : Price → Price
  neg = lib.neg

  abbrev pub abs : Price → Price
  abs = lib.abs

  abbrev pub to_string : Price → String
  to_string = lib.to_string

  abbrev pub copy : Price → Price
  copy = lib.copy

  abbrev pub lt : Price → Price → Bool
  lt a b = elim (lib.compared_to a b) [ Ordering.lt ↦ true | _ ↦ false ]

  abbrev pub lte : Price → Price → Bool
  lte a b = elim (lib.compared_to a b) [ Ordering.gt ↦ false | _ ↦ true ]

  abbrev pub gt : Price → Price → Bool
  gt a b = elim (lib.compared_to a b) [ Ordering.gt ↦ true | _ ↦ false ]

  abbrev pub gte : Price → Price → Bool
  gte a b = elim (lib.compared_to a b) [ Ordering.lt ↦ false | _ ↦ true ]

  abbrev pub equals : Price → Price → Bool
  equals a b = elim (lib.compared_to a b) [ Ordering.eq ↦ true | _ ↦ false ]

  abbrev pub is_zero : Price → Bool
  is_zero a = equals a (lib.of_number 0)
