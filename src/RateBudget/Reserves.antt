-- ===== src/RateBudget/Reserves.antt =====
-- The tokens of a shared budget that packages/market-data/src/rate-limiter.ts keeps for the more
-- urgent classes of requests.
use traderton.Prelude.{
  ℕ, ◌+◌, ◌*◌, ◌≤◌, ◌<◌, ◌≡◌, true, List, [], ◌∷◌, Option, none, some, arith, inl, inr, Bool-cases,
  str_eq,
}
use text.Mathlib.TextEquality.{eq_iff}
use traderton.Prelude.JsMap.{get, get-set}
use traderton.RateBudget.{
  ProviderRequestClass, execution_critical, price_support, regime, discovery, enrichment,
  SharedBudgetConfig, SharedBudgetAcquireRequest, TokenBucketState, Budgets, place, one_token,
  or_default, get_capacity, protected_before, get_protected_tokens, required_tokens, refill, fresh,
  get_state, take_token, attempt_acquire,
}

-- A less urgent class leaves what is kept for the more urgent one, and its reservation.
pub protected_later :
    (r : ProviderRequestClass → Option ℕ) (c d : ProviderRequestClass)
    → place c < place d
    → get_protected_tokens c (some r) + or_default (r c) 0 ≤ get_protected_tokens d (some r)
unfolding get_protected_tokens protected_before
protected_later r execution_critical price_support h = omega arith
protected_later r execution_critical regime h = omega arith
protected_later r execution_critical discovery h = omega arith
protected_later r execution_critical enrichment h = omega arith
protected_later r price_support regime h = omega arith
protected_later r price_support discovery h = omega arith
protected_later r price_support enrichment h = omega arith
protected_later r regime discovery h = omega arith
protected_later r regime enrichment h = omega arith
protected_later r discovery enrichment h = omega arith
protected_later r execution_critical execution_critical h = absurd (omega arith)
protected_later r price_support execution_critical h = absurd (omega arith)
protected_later r price_support price_support h = absurd (omega arith)
protected_later r regime execution_critical h = absurd (omega arith)
protected_later r regime price_support h = absurd (omega arith)
protected_later r regime regime h = absurd (omega arith)
protected_later r discovery execution_critical h = absurd (omega arith)
protected_later r discovery price_support h = absurd (omega arith)
protected_later r discovery regime h = absurd (omega arith)
protected_later r discovery discovery h = absurd (omega arith)
protected_later r enrichment execution_critical h = absurd (omega arith)
protected_later r enrichment price_support h = absurd (omega arith)
protected_later r enrichment regime h = absurd (omega arith)
protected_later r enrichment discovery h = absurd (omega arith)
protected_later r enrichment enrichment h = absurd (omega arith)

refill-tokens :
    (s : TokenBucketState) (budget : SharedBudgetConfig) (now n : ℕ)
    → n ≤ get_capacity budget * one_token
    → n ≤ s.tokens
    → n ≤ (refill s budget now).tokens
unfolding refill
refill-tokens s budget now n c h = ground arith

-- The calls of `acquire` on a coordinator, each attempt with its time.
abbrev pub Attempts : Type 0
Attempts = List (ℕ × SharedBudgetAcquireRequest)

unfoldable pub attempt_all : Attempts → Budgets → Budgets
unfolding attempt_acquire
attempt_all [] budgets = budgets
attempt_all ((now, q) ∷ more) budgets = attempt_all more (attempt_acquire q budgets now).0

module _ (q : SharedBudgetAcquireRequest) where
  -- A request of another provider, or a less urgent one of the same budget.
  abbrev pub IsLessUrgent : SharedBudgetAcquireRequest → Type 0
  IsLessUrgent other =
      str_eq other.provider q.provider ≡ true
      → (other.budget ≡ q.budget) × (place q.request_class < place other.request_class)

  abbrev pub AreLessUrgent : Attempts → Type 0
  AreLessUrgent [] = Unit
  AreLessUrgent ((now, other) ∷ more) = IsLessUrgent other × AreLessUrgent more

  -- The bucket of the provider holds what the request needs, where it is there.
  abbrev HasEnough : Option TokenBucketState → Type 0
  HasEnough none = Unit
  HasEnough (some s) = required_tokens q * one_token ≤ s.tokens

  refilled-HasEnough :
      (o : Option TokenBucketState) (now : ℕ)
      → required_tokens q ≤ get_capacity q.budget
      → HasEnough o
      → required_tokens q * one_token ≤ (refill (get_state o q.budget now) q.budget now).tokens
  unfolding get_state fresh
  refilled-HasEnough none now c h =
      refill-tokens (fresh q.budget now) q.budget now _ (omega arith) (omega arith)
  refilled-HasEnough (some s) now c h = refill-tokens s q.budget now _ (omega arith) h

  -- The tokens that are reserved for the class of the request.
  abbrev pub reserved_tokens : ℕ
  reserved_tokens = elim q.budget.class_reservations [
    | none ↦ 0
    | some r ↦ or_default (r q.request_class) 0
  ]

  required_later :
      (reservations : Option (ProviderRequestClass → Option ℕ)) (d : ProviderRequestClass)
      → place q.request_class < place d
      → let c = q.request_class in
        (elim reservations [ none ↦ 0 | some r ↦ or_default (r c) 0 ])
          + get_protected_tokens c reservations
        ≤ get_protected_tokens d reservations
  unfolding get_protected_tokens
  required_later none d h = omega arith
  required_later (some r) d h = omega (arith, protected_later r q.request_class d h)

  less_urgent-required :
      (other : SharedBudgetAcquireRequest)
      → other.budget ≡ q.budget
      → place q.request_class < place other.request_class
      → reserved_tokens + required_tokens q ≤ required_tokens other
  unfolding required_tokens
  less_urgent-required other same h =
      rw same (omega (arith, required_later q.budget.class_reservations other.request_class h))

  less_urgent-take_token :
      (other : SharedBudgetAcquireRequest) (s : TokenBucketState)
      → 0 < reserved_tokens
      → reserved_tokens + required_tokens q ≤ required_tokens other
      → required_tokens q * one_token ≤ s.tokens
      → required_tokens q * one_token ≤ (take_token other s).0.tokens
  unfolding take_token
  less_urgent-take_token other s reserved required h = ground arith

  attempt-HasEnough :
      (other : SharedBudgetAcquireRequest) (budgets : Budgets) (now : ℕ)
      → 0 < reserved_tokens
      → required_tokens q ≤ get_capacity q.budget
      → IsLessUrgent other
      → HasEnough (get q.provider budgets)
      → HasEnough (get q.provider (attempt_acquire other budgets now).0)
  unfolding attempt_acquire
  attempt-HasEnough other budgets now reserved fits less h =
      elim (Bool-cases (str_eq other.provider q.provider)) [
        | inl same ↦
            let (budget_same, later) = less same in
            let provider_same : other.provider ≡ q.provider =
              ground (arith, eq_iff other.provider q.provider) in
            rw get-set (
              rw same (
                less_urgent-take_token other _ reserved
                  (less_urgent-required other budget_same later)
                  (rw provider_same
                    (rw budget_same (refilled-HasEnough (get q.provider budgets) now fits h)))))
        | inr apart ↦ rw get-set (rw apart h)
      ]

  attempt_all-HasEnough :
      (attempts : Attempts) (budgets : Budgets)
      → 0 < reserved_tokens
      → required_tokens q ≤ get_capacity q.budget
      → AreLessUrgent attempts
      → HasEnough (get q.provider budgets)
      → HasEnough (get q.provider (attempt_all attempts budgets))
  unfolding attempt_all
  attempt_all-HasEnough [] budgets reserved fits less h = h
  attempt_all-HasEnough ((now, other) ∷ more) budgets reserved fits less h =
      attempt_all-HasEnough more (attempt_acquire other budgets now).0 reserved fits less.1
        (attempt-HasEnough other budgets now reserved fits less.0 h)

  enough-acquired :
      (budgets : Budgets) (now : ℕ)
      → required_tokens q ≤ get_capacity q.budget
      → HasEnough (get q.provider budgets)
      → (attempt_acquire q budgets now).1.acquired ≡ true
  unfolding attempt_acquire take_token
  enough-acquired budgets now fits h =
      ground (arith, refilled-HasEnough (get q.provider budgets) now fits h)

  -- A request of a class that has a reservation of its own, on a budget whose capacity covers what
  -- the class needs, is granted at once by a new coordinator, whatever and however many requests
  -- of less urgent classes, or of other providers, were made before it and at whatever times.
  pub attempt_acquire-reserved :
      (attempts : Attempts) (now : ℕ)
      → 0 < reserved_tokens
      → required_tokens q ≤ get_capacity q.budget
      → AreLessUrgent attempts
      → (attempt_acquire q (attempt_all attempts []) now).1.acquired ≡ true
  unfolding get
  attempt_acquire-reserved attempts now reserved fits less =
      enough-acquired (attempt_all attempts []) now fits
        (attempt_all-HasEnough attempts [] reserved fits less tt)
