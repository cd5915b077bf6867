-- ===== src/DecisionIntake/Hash.antt =====
-- packages/engine/src/decision-intake.ts: `normalizeContextHash`. A text is a list of characters here.
use Prim.Native.Char.{Char, code}
use Prim.Native.String.{String, [], ◌∷◌}
use traderton.Prelude.{Bool, true, false, ◌&&◌, ◌||◌, leb, ◌==◌, Option, none, some}

-- The characters that `trim` takes away.
abbrev pub is_space : Char → Bool
is_space c =
    (leb 9 (code c) && leb (code c) 13)
    || (code c == 32)
    || (code c == 160)
    || (code c == 5_760)
    || (leb 8_192 (code c) && leb (code c) 8_202)
    || (code c == 8_232)
    || (code c == 8_233)
    || (code c == 8_239)
    || (code c == 8_287)
    || (code c == 12_288)
    || (code c == 65_279)

unfoldable pub trim_start : String → String
trim_start [] = []
trim_start (c ∷ s) = let rest = trim_start s in elim (is_space c) [ true ↦ rest | false ↦ c ∷ s ]

-- A space goes when nothing is left after it.
abbrev pub attach : Char → String → String
attach c [] = elim (is_space c) [ true ↦ [] | false ↦ c ∷ [] ]
attach c (d ∷ s) = c ∷ (d ∷ s)

unfoldable pub trim_end : String → String
trim_end [] = []
trim_end (c ∷ s) = attach c (trim_end s)

abbrev pub non_empty : String → Option String
non_empty [] = none
non_empty (c ∷ s) = some (c ∷ s)

unfoldable pub normalize_context_hash : Option String → Option String
unfolding trim_start trim_end
normalize_context_hash none = none
normalize_context_hash (some hash) = non_empty (trim_end (trim_start hash))
