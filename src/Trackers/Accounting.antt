-- ===== src/Trackers/Accounting.antt =====
-- packages/engine/src/fill-accounting.ts. The trackers are updated in place there, and returned here.
-- `parse_date` is `Date.parse`, with `none` for what is not finite, and `clock` is `Date.now()`.
use traderton.Prelude.{ℕ, String, ◌≡◌, sym, ap, ◌∙◌, List, [], ◌∷◌, Option, some, get_or}
use mathlib.Core.Option
use traderton.Decimal.{DecimalLib, Price, Quantity, decimal, plus, minus}
use traderton.Decimal.Laws.{Exact}
use traderton.Decimal.Sums.{plus-minus, plus_left_comm, plus_cancel}
use traderton.Order.{FillEvent}
use traderton.Position.{PositionState}
use traderton.Position
use traderton.Trackers.Equity.{EquityTracker}
use traderton.Trackers.Equity
use traderton.Trackers.DailyLoss.{DailyLossTracker}
use traderton.Trackers.DailyLoss

module _ ⦃lib : DecimalLib⦄ where
  pub record AccountingTrackers : Type 0 where
    pub equity_tracker : Option EquityTracker
    pub daily_loss_tracker : Option DailyLossTracker
    pub now_ms : Option ℕ

  pub record FillAccountingResult : Type 0 where
    pub position : PositionState
    pub realized_pnl_delta : Price

  unfoldable pub fee_cost : FillEvent → Quantity
  fee_cost f = get_or f.fee (decimal 0)

  -- The profit that the position realized, less the fee.
  unfoldable pub realized_pnl_delta : PositionState → FillEvent → Price
  realized_pnl_delta p f =
      minus (minus (Position.apply_fill p f).realized_pnl p.realized_pnl) (fee_cost f)

  module _ (parse_date : String → Option ℕ) where
    abbrev pub booking_time : AccountingTrackers → FillEvent → ℕ → ℕ
    booking_time trackers f clock = get_or trackers.now_ms (get_or (parse_date f.filled_at) clock)

    unfoldable pub update_trackers : AccountingTrackers → FillEvent → ℕ → Price → AccountingTrackers
    update_trackers trackers f clock delta = record trackers {
      equity_tracker = Option.map (λ t. Equity.record_fill t delta) trackers.equity_tracker;
      daily_loss_tracker =
          Option.map (λ t. DailyLoss.record_fill t delta (booking_time trackers f clock))
            trackers.daily_loss_tracker;
    }

    unfoldable pub apply_fill_accounting :
        PositionState
        → FillEvent
        → Option AccountingTrackers
        → ℕ
        → FillAccountingResult × Option AccountingTrackers
    unfolding realized_pnl_delta
    apply_fill_accounting p f trackers clock =
        let delta = realized_pnl_delta p f in
        (
          record { position = Position.apply_fill p f; realized_pnl_delta = delta },
          Option.map (λ t. update_trackers t f clock delta) trackers,
        )

    -- The fills of an instrument, each with the reading of the clock.
    unfoldable pub account_all :
        PositionState
        → AccountingTrackers
        → List (FillEvent × ℕ)
        → PositionState × AccountingTrackers
    account_all p trackers [] = (p, trackers)
    account_all p trackers ((f, clock) ∷ fs) =
        let (r, t) = apply_fill_accounting p f (some trackers) clock in
        account_all r.position (get_or t trackers) fs

  abbrev pub total_fees : List (FillEvent × ℕ) → Price
  total_fees [] = decimal 0
  total_fees ((f, clock) ∷ fs) = plus (fee_cost f) (total_fees fs)

module _ ⦃lib : DecimalLib⦄ ⦃ex : Exact⦄ where
  -- a - p + fee, as the delta books it.
  delta_fee :
      (p : PositionState) (f : FillEvent)
      → plus (plus (realized_pnl_delta p f) (fee_cost f)) p.realized_pnl
        ≡ (Position.apply_fill p f).realized_pnl
  unfolding realized_pnl_delta
  delta_fee p f =
      ap (λ x. plus x p.realized_pnl) (plus-minus _ (fee_cost f)) ∙ plus-minus _ p.realized_pnl

  regroup :
      (a fees d fee p : Price)
      → plus (plus a fees) (plus (plus d fee) p) ≡ plus (plus (plus a (plus fee fees)) p) d
  regroup a fees d fee p =
      ap (plus (plus a fees)) (ex.plus_assoc d fee p)
      ∙ plus_left_comm (plus a fees) d (plus fee p)
      ∙ ex.plus_comm d _
      ∙ ap (λ x. plus x d)
          (sym (ex.plus_assoc (plus a fees) fee p)
            ∙ ap (λ x. plus x p) (ex.plus_assoc a fees fee ∙ ap (plus a) (ex.plus_comm fees fee)))

  swap_last : (b d z : Price) → plus (plus b d) z ≡ plus (plus b z) d
  swap_last b d z = ex.plus_assoc b d z ∙ ap (plus b) (ex.plus_comm d z) ∙ sym (ex.plus_assoc b z d)

  -- Whatever the fills, the equity tracker's profit plus the fees has moved by as much as the
  -- position's realized profit: no profit or loss is dropped or booked twice.
  pub account_all_reconciles :
      (parse_date : String → Option ℕ) (p : PositionState) (trackers : AccountingTrackers)
      (fs : List (FillEvent × ℕ)) (before after : EquityTracker)
      → trackers.equity_tracker ≡ some before
      → (account_all parse_date p trackers fs).1.equity_tracker ≡ some after
      → plus (plus after.realized_pnl (total_fees fs)) p.realized_pnl
        ≡ plus before.realized_pnl (account_all parse_date p trackers fs).0.realized_pnl
  unfolding account_all apply_fill_accounting update_trackers Equity.record_fill
  account_all_reconciles parse_date p trackers [] before after b a =
      let same : after ≡ before = cc in
      rw same (ap (λ x. plus x p.realized_pnl) (ex.plus-zero before.realized_pnl))
  account_all_reconciles parse_date p trackers ((f, clock) ∷ fs) before after b a =
      let d = realized_pnl_delta p f in
      let next = update_trackers parse_date trackers f clock d in
      let all = account_all parse_date (Position.apply_fill p f) next fs in
      let ih =
        account_all_reconciles parse_date (Position.apply_fill p f) next fs
          (Equity.record_fill before d) after (ap (Option.map (λ t. Equity.record_fill t d)) b) a in
      plus_cancel _ _ d (
        sym (regroup after.realized_pnl (total_fees fs) d (fee_cost f) p.realized_pnl)
        ∙ ap (plus (plus after.realized_pnl (total_fees fs))) (delta_fee p f)
        ∙ ih
        ∙ swap_last before.realized_pnl d all.0.realized_pnl)
