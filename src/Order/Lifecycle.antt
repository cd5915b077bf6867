-- ===== src/Order/Lifecycle.antt =====
-- The status diagram of packages/engine/src/order-state.ts: reachability and dead ends.
use traderton.Prelude.{◌≡◌, refl, sym, ◌↔◌, true, false, arith}
use traderton.Order.{OrderStatus, pending, «open», partial, can_transition, is_terminal}

-- One edge of the diagram, or several.
pub data Reaches : OrderStatus → OrderStatus → Type 0 where
  here : {s : OrderStatus} → Reaches s s
  next : {s t u : OrderStatus} → can_transition s t ≡ true → Reaches t u → Reaches s u

pub terminal_stuck : (s t : OrderStatus) → is_terminal s ≡ true → can_transition s t ≡ false
unfolding is_terminal can_transition
terminal_stuck s t h = ground arith

-- A status is terminal exactly when the table lists no way out of it.
pub is_terminal_iff :
    (s : OrderStatus) → (is_terminal s ≡ true) ↔ ((t : OrderStatus) → can_transition s t ≡ false)
unfolding is_terminal can_transition
is_terminal_iff s = (λ h t. terminal_stuck s t h, stuck s)
  where
    stuck :
        (s : OrderStatus) → ((t : OrderStatus) → can_transition s t ≡ false) → is_terminal s ≡ true
    stuck pending h = sym (h «open»)
    stuck «open» h = sym (h partial)
    stuck partial h = sym (h partial)
    stuck _ h = refl

pub Reaches-of_terminal : {s t : OrderStatus} → Reaches s t → is_terminal s ≡ true → t ≡ s
Reaches-of_terminal here h = refl
Reaches-of_terminal (next {s} {t} e r) h = absurd (clash (terminal_stuck s t h))
  where
    clash : can_transition s t ≡ false → ⊥
    clash f = ground arith
