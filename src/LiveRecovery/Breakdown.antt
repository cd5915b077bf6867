-- ===== src/LiveRecovery/Breakdown.antt =====
-- The breakdown of packages/engine/src/live-recovery.ts counts each order once.
use traderton.Prelude.{
  ℕ, suc, ◌+◌, String, str_eq, true, List, [], ◌∷◌, ◌≡◌, refl, arith, inl, inr, Bool-cases, all,
  length,
}
use traderton.LiveRecovery.{
  LiveRecoveryOrder, LiveRecoveryTerminalState, count_status, terminal_breakdown,
  is_terminal_non_filled,
}

-- How many orders a breakdown speaks of.
abbrev pub total : List LiveRecoveryTerminalState → ℕ
total [] = 0
total (t ∷ ts) = t.count + total ts

total-count_status :
    (s : String) (ts : List LiveRecoveryTerminalState) → total (count_status s ts) ≡ suc (total ts)
unfolding count_status
total-count_status s [] = refl
total-count_status s (t ∷ ts) = elim (Bool-cases (str_eq t.status s)) [
  | inl same ↦ rw same (omega arith)
  | inr other ↦ rw other (omega (arith, total-count_status s ts))
]

-- When every order has ended unfilled, the counts of the breakdown grow by the number of
-- orders.
pub total-terminal_breakdown :
    (os : List LiveRecoveryOrder) (ts : List LiveRecoveryTerminalState)
    → all (λ o. is_terminal_non_filled o.status) os ≡ true
    → total (terminal_breakdown os ts) ≡ length os + total ts
unfolding terminal_breakdown
total-terminal_breakdown [] ts h = omega arith
total-terminal_breakdown (o ∷ os) ts h = elim (Bool-cases (is_terminal_non_filled o.status)) [
  | inl ended ↦
      let rest : all (λ o. is_terminal_non_filled o.status) os ≡ true = rw ended at h in
      rw ended (
        omega (
          arith,
          total-terminal_breakdown os (count_status o.status ts) rest,
          total-count_status o.status ts,
        ))
  | inr open_order ↦ ground (arith, h, open_order)
]
