-- ===== src/Executors/Symbols.antt =====
-- packages/engine/src/shadow-executor.ts: `resolveSwapAssets`, which reads a symbol BASE/QUOTE.
use Prim.Native.Nat.{compare, Ordering}
use Prim.Native.Char.{Char, code}
use Prim.Native.String.{String, [], ◌∷◌}
use traderton.Prelude.{Bool, true, false, Option, none, some, get_or}
use mathlib.Core.Option
use traderton.Order.{OrderSide, buy, sell}

abbrev same_char : Char → Char → Bool
same_char a b = elim (compare (code a) (code b)) [ Ordering.eq ↦ true | _ ↦ false ]

-- `text.split(c)[0]`.
unfoldable pub before : Char → String → String
before c [] = []
before c (d ∷ s) = let rest = before c s in elim (same_char c d) [ true ↦ [] | false ↦ d ∷ rest ]

-- What follows the first `c`, where there is one.
unfoldable pub after : Char → String → Option String
after c [] = none
after c (d ∷ s) = let rest = after c s in elim (same_char c d) [ true ↦ some s | false ↦ rest ]

unfoldable pub resolve_swap_assets : String → OrderSide → String × String
resolve_swap_assets symbol side = elim side [ buy ↦ (quote, base) | sell ↦ (base, quote) ]
  where
    base : String
    base = before ":" (before "/" symbol)

    quote : String
    quote = get_or (Option.map (λ rest. before ":" (before "/" rest)) (after "/" symbol)) "USD"
