-- ===== src/LiveRecovery.antt =====
-- packages/engine/src/live-recovery.ts: what becomes of a plan whose execution was cut off.
pub mod Verdicts
pub mod Breakdown
use traderton.Prelude.{
  ℕ, suc, String, str_eq, Bool, true, false, ◌&&◌, ◌||◌, not, List, [], ◌∷◌, Option, none, some,
  if◌then◌else◌, any, all, ltb,
}

pub record LiveRecoveryOrder : Type 0 where
  pub id : String
  pub status : String
  pub submission_state : Option String
  pub venue_ref_id : Option String
  pub client_order_id : Option String

pub record LiveRecoveryMatchedOrder : Type 0 where
  pub venue_ref_id : String
  pub status : String

pub record EvaluateOrderbookRecoveryInput : Type 0 where
  pub orders : List LiveRecoveryOrder
  pub has_open_orders : Bool
  pub matched_fill_count : ℕ
  pub matched_orders_from_lookup : List LiveRecoveryMatchedOrder
  pub lookup_ambiguous : Bool
  pub no_orders_planned : Bool

pub record LiveRecoveryFillEvidence : Type 0 where
  pub has_fills : Bool
  pub matched_fill_count : ℕ
  pub has_lookup_filled_orders : Bool
  pub has_local_filled_orders : Bool

pub data LiveRecoveryReason : Type 0 where
  open_orders_present fills_confirmed all_orders_terminal_non_filled : LiveRecoveryReason
  prepared_not_submitted non_terminal_without_evidence : LiveRecoveryReason
  submit_attempting_without_proof_of_absence venue_lookup_ambiguous : LiveRecoveryReason
  no_orders_submitted no_orders_planned : LiveRecoveryReason

pub data LiveRecoveryKind : Type 0 where
  keep_executing mark_completed mark_failed halt_ambiguous : LiveRecoveryKind

pub record LiveRecoveryTerminalState : Type 0 where
  pub status : String
  pub count : ℕ

pub record LiveRecoveryDecision : Type 0 where
  pub kind : LiveRecoveryKind
  pub reason : LiveRecoveryReason
  pub fill_evidence : Option LiveRecoveryFillEvidence
  pub terminal_statuses : Option (List LiveRecoveryTerminalState)

abbrev pub is_open_status : String → Bool
is_open_status s = str_eq s "open" || str_eq s "partial" || str_eq s "pending"

abbrev pub is_terminal_non_filled : String → Bool
is_terminal_non_filled s =
    str_eq s "cancelled" || str_eq s "expired" || str_eq s "replaced" || str_eq s "rejected"

abbrev pub is_terminal_string : String → Bool
is_terminal_string s =
    str_eq s "filled"
    || str_eq s "cancelled"
    || str_eq s "expired"
    || str_eq s "replaced"
    || str_eq s "rejected"

-- `!s` for a string that may be absent: the empty string counts as absent.
abbrev pub is_falsy : Option String → Bool
is_falsy none = true
is_falsy (some s) = str_eq s ""

abbrev pub is_state : Option String → String → Bool
is_state none name = false
is_state (some s) name = str_eq s name

-- `find` and `count++` on the status's entry, or a `push` of a new one.
unfoldable pub count_status :
    String → List LiveRecoveryTerminalState → List LiveRecoveryTerminalState
count_status s [] = record { status = s; count = 1 } ∷ []
count_status s (t ∷ ts) =
    if str_eq t.status s then record t { count = suc t.count } ∷ ts else t ∷ count_status s ts

-- The loop that builds the breakdown.
unfoldable pub terminal_breakdown :
    List LiveRecoveryOrder → List LiveRecoveryTerminalState → List LiveRecoveryTerminalState
terminal_breakdown [] ts = ts
terminal_breakdown (o ∷ os) ts =
    terminal_breakdown os (if is_terminal_non_filled o.status then count_status o.status ts else ts)

abbrev pub is_prepared_only : LiveRecoveryOrder → Bool
is_prepared_only o =
    is_state o.submission_state "prepared"
    || (str_eq o.status "pending"
        && is_falsy o.submission_state
        && is_falsy o.venue_ref_id
        && is_falsy o.client_order_id)

abbrev pub has_lookup_filled : EvaluateOrderbookRecoveryInput → Bool
has_lookup_filled i = any (λ o. str_eq o.status "filled") i.matched_orders_from_lookup

abbrev pub has_local_filled : EvaluateOrderbookRecoveryInput → Bool
has_local_filled i = any (λ o. str_eq o.status "filled") i.orders

abbrev pub has_evidence : EvaluateOrderbookRecoveryInput → Bool
has_evidence i = ltb 0 i.matched_fill_count || has_lookup_filled i || has_local_filled i

unfoldable pub fill_evidence_of : EvaluateOrderbookRecoveryInput → Option LiveRecoveryFillEvidence
fill_evidence_of i =
    if has_evidence i
    then some (record {
      has_fills = true;
      matched_fill_count = i.matched_fill_count;
      has_lookup_filled_orders = has_lookup_filled i;
      has_local_filled_orders = has_local_filled i;
    })
    else none

abbrev pub has_open : EvaluateOrderbookRecoveryInput → Bool
has_open i = i.has_open_orders || any (λ o. is_open_status o.status) i.matched_orders_from_lookup

abbrev pub decision : LiveRecoveryKind → LiveRecoveryReason → LiveRecoveryDecision
decision kind reason = record {
  kind = kind;
  reason = reason;
  fill_evidence = none;
  terminal_statuses = none;
}

-- What follows once there is neither an open order nor a fill, so that the evidence is absent.
unfoldable pub evaluate_unfilled : EvaluateOrderbookRecoveryInput → LiveRecoveryDecision
evaluate_unfilled i =
    if i.lookup_ambiguous
    then decision halt_ambiguous venue_lookup_ambiguous
    else if all (λ o. is_terminal_non_filled o.status) i.orders
    then record (decision mark_failed all_orders_terminal_non_filled) {
      terminal_statuses = some (terminal_breakdown i.orders []);
    }
    else if any is_prepared_only i.orders
    then decision mark_failed prepared_not_submitted
    else if any (λ o. is_state o.submission_state "submit_attempting") i.orders
    then decision halt_ambiguous submit_attempting_without_proof_of_absence
    else if any (λ o. not (is_terminal_string o.status)) i.orders
    then decision halt_ambiguous non_terminal_without_evidence
    else record (decision mark_failed all_orders_terminal_non_filled) {
      terminal_statuses = some (terminal_breakdown i.orders []);
    }

unfoldable pub evaluate_orderbook_recovery : EvaluateOrderbookRecoveryInput → LiveRecoveryDecision
unfolding evaluate_unfilled
evaluate_orderbook_recovery i = elim i.orders [
  | [] ↦
      decision mark_failed (if i.no_orders_planned then no_orders_planned else no_orders_submitted)
  | o ∷ os ↦
      if has_open i
      then record (decision keep_executing open_orders_present) {
        fill_evidence = fill_evidence_of i;
      }
      else if has_evidence i
      then decision mark_completed fills_confirmed
      else evaluate_unfilled i
]
