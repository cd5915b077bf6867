-- ===== src/LiveRecovery/Verdicts.antt =====
-- When packages/engine/src/live-recovery.ts gives up a plan, and when it does not.
use text.Mathlib.TextEquality.{eq_iff}
use traderton.Prelude.{
  String, ◌<◌, ◌≢◌, str_eq, ◌||◌, ◌&&◌, not, Bool, true, false, ◌≡◌, refl, ◌↔◌, ◌⊎◌, List, [], ◌∷◌,
  any, all, arith, inl, inr,
}
use traderton.LiveRecovery.{
  LiveRecoveryOrder, EvaluateOrderbookRecoveryInput, keep_executing, mark_completed, mark_failed,
  halt_ambiguous, is_terminal_non_filled, is_terminal_string, is_prepared_only, has_open,
  has_evidence, has_local_filled, is_open_status, evaluate_unfilled, evaluate_orderbook_recovery,
}

abbrev pub has_orders : List LiveRecoveryOrder → Bool
has_orders [] = false
has_orders (o ∷ os) = true

list_cases :
    (os : List LiveRecoveryOrder)
    → (os ≡ []) ⊎ ((o : LiveRecoveryOrder) × (rest : List LiveRecoveryOrder) × (os ≡ (o ∷ rest)))
list_cases [] = inl refl
list_cases (o ∷ os) = inr (o, os, refl)

-- Orders that have all ended, none of them filled, have all ended unfilled.
ended_unfilled :
    (os : List LiveRecoveryOrder)
    → any (λ o. not (is_terminal_string o.status)) os ≡ false
    → any (λ o. str_eq o.status "filled") os ≡ false
    → all (λ o. is_terminal_non_filled o.status) os ≡ true
ended_unfilled [] h k = ground arith
ended_unfilled (o ∷ os) h k = ground (arith, h, k, ended_unfilled os)

unfilled_failed :
    (i : EvaluateOrderbookRecoveryInput)
    → has_local_filled i ≡ false
    → (evaluate_unfilled i).kind ≡ mark_failed
    → (i.lookup_ambiguous ≡ false)
      × ((all (λ o. is_terminal_non_filled o.status) i.orders || any is_prepared_only i.orders)
          ≡ true)
unfolding evaluate_unfilled
unfilled_failed i none_filled h = ground (arith, h, none_filled, ended_unfilled i.orders)

unfilled_kind :
    (i : EvaluateOrderbookRecoveryInput)
    → ((evaluate_unfilled i).kind ≡ mark_failed) ⊎ ((evaluate_unfilled i).kind ≡ halt_ambiguous)
unfolding evaluate_unfilled
unfilled_kind i = ground arith

-- Some element is as a predicate says.
abbrev pub Some {ℓ} : {A : Type ℓ} → (A → Type 0) → List A → Type 0
Some P [] = ⊥
Some P (x ∷ xs) = P x ⊎ Some P xs

any-Some {ℓ} :
    {A : Type ℓ} (f : A → Bool) (P : A → Type 0) (h : (x : A) → (f x ≡ true) ↔ P x) (xs : List A)
    → (any f xs ≡ true) ↔ Some P xs
any-Some f P h [] = (λ e. ground (arith, e), absurd)
any-Some f P h (x ∷ xs) = ground (arith, h x, any-Some f P h xs)

abbrev pub IsOpenStatus : String → Type 0
IsOpenStatus s = (s ≡ "open") ⊎ (s ≡ "partial") ⊎ (s ≡ "pending")

-- An order is open, by the local record or by the venue's answer to the lookup.
abbrev pub HasOpen : EvaluateOrderbookRecoveryInput → Type 0
HasOpen i =
    (i.has_open_orders ≡ true) ⊎ Some (λ o. IsOpenStatus o.status) i.matched_orders_from_lookup

-- A fill is known: one that is matched, or an order that is filled for the venue or locally.
abbrev pub HasFill : EvaluateOrderbookRecoveryInput → Type 0
HasFill i =
    (0 < i.matched_fill_count)
    ⊎ Some (λ o. o.status ≡ "filled") i.matched_orders_from_lookup
    ⊎ Some (λ o. o.status ≡ "filled") i.orders

is_open_status_iff : (s : String) → (is_open_status s ≡ true) ↔ IsOpenStatus s
is_open_status_iff s = ground (arith, eq_iff s "open", eq_iff s "partial", eq_iff s "pending")

has_open_iff : (i : EvaluateOrderbookRecoveryInput) → (has_open i ≡ true) ↔ HasOpen i
has_open_iff i = ground (
  arith,
  any-Some (λ o. is_open_status o.status) (λ o. IsOpenStatus o.status)
      (λ o. is_open_status_iff o.status) i.matched_orders_from_lookup,
)

has_evidence_iff : (i : EvaluateOrderbookRecoveryInput) → (has_evidence i ≡ true) ↔ HasFill i
has_evidence_iff i = ground (
  arith,
  any-Some (λ o. str_eq o.status "filled") (λ o. o.status ≡ "filled")
      (λ o. eq_iff o.status "filled") i.matched_orders_from_lookup,
  any-Some (λ o. str_eq o.status "filled") (λ o. o.status ≡ "filled")
      (λ o. eq_iff o.status "filled") i.orders,
)

tests_iff :
    (i : EvaluateOrderbookRecoveryInput)
    → (((evaluate_orderbook_recovery i).kind ≡ keep_executing)
        ↔ ((has_orders i.orders && has_open i) ≡ true))
      × (((evaluate_orderbook_recovery i).kind ≡ mark_completed)
          ↔ ((has_orders i.orders && not (has_open i) && has_evidence i) ≡ true))
unfolding evaluate_orderbook_recovery
tests_iff i = elim (list_cases i.orders) [
  | inl empty ↦ ground arith
  | inr (o, os, e) ↦ ground (arith, unfilled_kind i)
]

has_orders_iff : (os : List LiveRecoveryOrder) → (has_orders os ≡ true) ↔ (os ≢ [])
has_orders_iff [] = ground arith
has_orders_iff (o ∷ os) = (λ h e. cc, λ n. refl)

-- A plan is kept executing exactly when it has orders and one of them is open, by the local record
-- or in the venue's answer; it is completed exactly when it has orders, none is open, and a fill is
-- known: one that was matched, or an order that is filled in the venue's answer or locally.
pub evaluate_orderbook_recovery_iff :
    (i : EvaluateOrderbookRecoveryInput)
    → (((evaluate_orderbook_recovery i).kind ≡ keep_executing) ↔ ((i.orders ≢ []) × HasOpen i))
      × (((evaluate_orderbook_recovery i).kind ≡ mark_completed)
          ↔ ((i.orders ≢ []) × ¬ HasOpen i × HasFill i))
evaluate_orderbook_recovery_iff i =
    ground (arith, tests_iff i, has_orders_iff i.orders, has_open_iff i, has_evidence_iff i)

-- A plan is given up only when it has no orders, or when no order is open, there is no evidence of
-- a fill, the lookup was not ambiguous, and either every order has ended unfilled or one was
-- prepared and never submitted.
pub failed_is_safe :
    (i : EvaluateOrderbookRecoveryInput)
    → (evaluate_orderbook_recovery i).kind ≡ mark_failed
    → (has_orders i.orders ≡ false)
      ⊎ ((has_open i ≡ false)
          × (has_evidence i ≡ false)
          × (i.lookup_ambiguous ≡ false)
          × ((all (λ o. is_terminal_non_filled o.status) i.orders || any is_prepared_only i.orders)
              ≡ true))
unfolding evaluate_orderbook_recovery
failed_is_safe i h = elim (list_cases i.orders) [
  | inl empty ↦ ground arith
  | inr (o, os, e) ↦ ground (arith, h, unfilled_failed i)
]
