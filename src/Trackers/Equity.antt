-- ===== src/Trackers/Equity.antt =====
-- packages/engine/src/equity-tracker.ts.
use mathlib.Core.Path.{subst}
use traderton.Prelude.{◌≡◌, refl, true, List, [], ◌∷◌, Option, arith, get_or, if◌then◌else◌}
use traderton.Decimal.{DecimalLib, Price, decimal, plus, minus, lt, lte, gt}
use traderton.Decimal.Laws.{Exact}
use traderton.Decimal.Order.{lte_refl, compared_to_self}
use traderton.Decimal.Sums.{compared_to-minus}

module _ ⦃lib : DecimalLib⦄ where
  pub record EquityTracker : Type 0 where
    pub starting_capital : Price
    pub realized_pnl : Price
    pub peak : Price

  unfoldable pub new : Price → Option Price → EquityTracker
  new starting_capital initial =
      let realized_pnl = get_or initial (decimal 0) in
      record {
        starting_capital = starting_capital;
        realized_pnl = realized_pnl;
        peak = plus starting_capital realized_pnl;
      }

  unfoldable pub record_fill : EquityTracker → Price → EquityTracker
  record_fill t delta = record t { realized_pnl = plus t.realized_pnl delta }

  -- A query may move the peak.
  unfoldable pub current_equity : EquityTracker → Price → EquityTracker × Price
  current_equity t unrealized =
      let equity = plus (plus t.starting_capital t.realized_pnl) unrealized in
      (if gt equity t.peak then record t { peak = equity } else t, equity)

  unfoldable pub current_drawdown : EquityTracker → Price → EquityTracker × Price
  unfolding current_equity
  current_drawdown t unrealized =
      let (t', equity) = current_equity t unrealized in
      let dd = minus t'.peak equity in (t', if lt dd (decimal 0) then decimal 0 else dd)

  unfoldable pub peak_equity : EquityTracker → Price
  peak_equity t = t.peak

  pub data EquityCall : Type 0 where
    fills : Price → EquityCall
    asks_equity : Price → EquityCall
    asks_drawdown : Price → EquityCall

  unfoldable pub after_call : EquityTracker → EquityCall → EquityTracker
  unfolding record_fill current_equity current_drawdown
  after_call t (fills delta) = record_fill t delta
  after_call t (asks_equity unrealized) = (current_equity t unrealized).0
  after_call t (asks_drawdown unrealized) = (current_drawdown t unrealized).0

  unfoldable pub after_calls : EquityTracker → List EquityCall → EquityTracker
  after_calls t [] = t
  after_calls t (c ∷ cs) = after_calls (after_call t c) cs

  abbrev equity_at : EquityTracker → Price → Price
  equity_at t unrealized = plus (plus t.starting_capital t.realized_pnl) unrealized

  -- The equities that the queries compute, in order.
  abbrev pub seen : EquityTracker → List EquityCall → List Price
  seen t [] = []
  seen t (fills delta ∷ cs) = seen (after_call t (fills delta)) cs
  seen t (asks_equity u ∷ cs) = equity_at t u ∷ seen (after_call t (asks_equity u)) cs
  seen t (asks_drawdown u ∷ cs) = equity_at t u ∷ seen (after_call t (asks_drawdown u)) cs

  -- A value is the greatest of a start and of a list of values.
  abbrev pub IsGreatest : Price → Price → List Price → Type 0
  IsGreatest m first [] = m ≡ first
  IsGreatest m first (x ∷ xs) = IsGreatest m (if gt x first then x else first) xs

  peak-current_equity :
      (t : EquityTracker) (u : Price)
      → (current_equity t u).0.peak ≡ (if gt (equity_at t u) t.peak then equity_at t u else t.peak)
  unfolding current_equity
  peak-current_equity t u = ground arith

  -- The peak is the high-water mark: the greatest of the first peak and of every equity asked for.
  pub peak_equity-IsGreatest :
      (t : EquityTracker) (cs : List EquityCall)
      → IsGreatest (peak_equity (after_calls t cs)) t.peak (seen t cs)
  unfolding after_calls after_call peak_equity
  peak_equity-IsGreatest t [] = refl
  peak_equity-IsGreatest t (fills delta ∷ cs) = peak_equity-IsGreatest (record_fill t delta) cs
  peak_equity-IsGreatest t (asks_equity u ∷ cs) =
      subst
        (λ x.
          IsGreatest (peak_equity (after_calls (current_equity t u).0 cs)) x
            (seen (current_equity t u).0 cs))
        (peak-current_equity t u) (peak_equity-IsGreatest (current_equity t u).0 cs)
  peak_equity-IsGreatest t (asks_drawdown u ∷ cs) =
      subst
        (λ x.
          IsGreatest (peak_equity (after_calls (current_equity t u).0 cs)) x
            (seen (current_equity t u).0 cs))
        (peak-current_equity t u) (peak_equity-IsGreatest (current_equity t u).0 cs)

module _ ⦃lib : DecimalLib⦄ ⦃ex : Exact⦄ where
  -- A drawdown is never negative, and it is the gap between the peak and the equity, which the
  -- peak is never below.
  pub current_drawdown_lem :
      (t : EquityTracker) (unrealized : Price)
      → let r = current_drawdown t unrealized in
        let equity = (current_equity t unrealized).1 in
        (lte (decimal 0) r.1 ≡ true)
        × (r.1 ≡ minus (peak_equity r.0) equity)
        × (lte equity (peak_equity r.0) ≡ true)
        × (lte t.peak (peak_equity r.0) ≡ true)
  unfolding current_drawdown peak_equity
  current_drawdown_lem t unrealized =
      let e = equity_at t unrealized in
      ground (
        arith,
        compared_to_self e,
        compared_to-minus e e,
        compared_to-minus t.peak e,
        ex.compared_to-flip e t.peak,
        ex.compared_to-flip (minus e e) (decimal 0),
        ex.compared_to-flip (minus t.peak e) (decimal 0),
        lte_refl t.peak,
      )
