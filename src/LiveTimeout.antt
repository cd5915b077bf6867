-- ===== src/LiveTimeout.antt =====
-- packages/engine/src/live-timeout-manager.ts: what to do with live orders that take too long. The
-- parameter `get_time` is the language's `new Date(text).getTime()`, absent where that is not
-- finite; times are whole numbers of milliseconds.
pub mod Overdue
use traderton.Prelude.{
  ℕ, ◌-◌, String, str_eq, Bool, true, false, ◌&&◌, ◌||◌, not, List, [], ◌∷◌, Option, none, some,
  if◌then◌else◌, leb,
}

pub record LiveTimeoutPolicy : Type 0 where
  pub limit_order_timeout_ms : ℕ
  pub market_order_timeout_ms : ℕ

pub record LiveTimeoutOrder : Type 0 where
  pub id : String
  pub symbol : String
  pub type : String
  pub status : String
  pub venue_ref_id : Option String
  pub submission_state : Option String
  pub submit_attempted_at : Option String
  pub acknowledged_at : Option String
  pub created_at : Option String

pub data RecoveryReason : Type 0 where
  market_order_timeout limit_order_timeout_no_venue_ref : RecoveryReason

pub data LiveTimeoutAction : Type 0 where
  cancel_limit : (order_id venue_ref_id symbol : String) (age_ms : ℕ) → LiveTimeoutAction
  mark_recovery_required :
      (order_id : String)
      → Option String
      → (symbol : String) (age_ms : ℕ) → RecoveryReason
      → LiveTimeoutAction

-- The set of active statuses.
abbrev pub is_active_status : String → Bool
is_active_status s = str_eq s "pending" || str_eq s "open" || str_eq s "partial"

-- A text that is absent or empty is falsy.
abbrev pub truthy : Option String → Option String
truthy none = none
truthy (some s) = if str_eq s "" then none else some s

-- `a ?? b`
abbrev pub or_else : Option ℕ → Option ℕ → Option ℕ
or_else none b = b
or_else (some a) b = some a

abbrev pub limit_action : LiveTimeoutOrder → ℕ → LiveTimeoutAction
limit_action o age = elim (truthy o.venue_ref_id) [
  | some ref ↦ cancel_limit o.id ref o.symbol age
  | none ↦ mark_recovery_required o.id none o.symbol age limit_order_timeout_no_venue_ref
]

abbrev pub push : Option LiveTimeoutAction → List LiveTimeoutAction → List LiveTimeoutAction
push none actions = actions
push (some a) actions = a ∷ actions

module _ (get_time : String → Option ℕ) where
  unfoldable pub parse_timestamp_ms : Option String → Option ℕ
  parse_timestamp_ms value = elim (truthy value) [ none ↦ none | some s ↦ get_time s ]

  unfoldable pub resolve_anchor_ms : LiveTimeoutOrder → Option ℕ
  resolve_anchor_ms o =
      or_else (parse_timestamp_ms o.acknowledged_at)
        (or_else (parse_timestamp_ms o.submit_attempted_at) (parse_timestamp_ms o.created_at))

  -- One turn of the loop; the age is `Math.max(0, now - anchor)`.
  unfoldable pub timeout_action :
      LiveTimeoutPolicy → ℕ → LiveTimeoutOrder → Option LiveTimeoutAction
  timeout_action policy now o =
      if not (is_active_status o.status) then none else elim (resolve_anchor_ms o) [
        | none ↦ none
        | some anchor ↦
            let age = now - anchor in
            if str_eq o.type "limit" && leb policy.limit_order_timeout_ms age
            then some (limit_action o age)
            else if str_eq o.type "market" && leb policy.market_order_timeout_ms age
            then some (mark_recovery_required o.id o.venue_ref_id o.symbol age market_order_timeout)
            else none
      ]

  unfoldable pub compute_live_timeout_actions :
      List LiveTimeoutOrder → LiveTimeoutPolicy → ℕ → List LiveTimeoutAction
  compute_live_timeout_actions [] policy now = []
  compute_live_timeout_actions (o ∷ os) policy now =
      push (timeout_action policy now o) (compute_live_timeout_actions os policy now)
