-- ===== src/LifecycleManager/Audit.antt =====
-- Every event of packages/engine/src/order-lifecycle-manager.ts is audited, or does nothing.
use traderton.Prelude.{String, ◌≡◌, refl, ◌⊎◌, inl, inr, true, [], ◌∷◌, ◌++◌, Bool-cases}
use traderton.Decimal.{DecimalLib}
use traderton.Result.{Result, ok, err}
use traderton.Order.{
  OrderStatus, cancelled, expired, replaced, ManagedOrder, OrderTransition, FillEvent,
  can_transition, is_terminal,
}
use traderton.OrderManager.History.{history}
use traderton.LifecycleManager.{
  LifecycleEvent, fill_applied, cancel_requested, expiry, replace_requested, unrecognised,
  LifecycleResult, LifecycleError, JournalEntry, new_status, apply_fill, guarded, apply_event,
}

module _ ⦃lib : DecimalLib⦄ where
  -- A move along one edge of the diagram, with one transition added to the history and one entry
  -- in the journal, of the order's actor.
  pub record IsAudited (o : ManagedOrder) (r : LifecycleResult) : Type 0 where
    pub entry : JournalEntry
    pub transition : OrderTransition
    pub journalled : r.journal_entries ≡ entry ∷ []
    pub actor : entry.actor_id ≡ o.actor_id
    pub recorded : history r.order ≡ history o ++ transition ∷ []
    pub from : transition.from ≡ o.status
    pub to : transition.to ≡ r.order.status
    pub allowed : can_transition o.status r.order.status ≡ true

  abbrev pub IsNothing : ManagedOrder → LifecycleResult → Type 0
  IsNothing o r = (r.order ≡ o) × (r.journal_entries ≡ [])

  guarded_cases :
      (o : ManagedOrder) (to : OrderStatus) (r : LifecycleResult)
      → (can_transition o.status to ≡ true → IsAudited o r)
      → IsNothing o (guarded o to r) ⊎ IsAudited o (guarded o to r)
  guarded_cases o to r done = elim (Bool-cases (is_terminal o.status)) [
    | inl over ↦ rw over (inl (refl, refl))
    | inr live ↦ elim (Bool-cases (can_transition o.status to)) [
      | inl allowed ↦ rw live (rw allowed (inr (done allowed)))
      | inr refused ↦ rw live (rw refused (inl (refl, refl)))
    ]
  ]

  apply_fill_cases :
      (o : ManagedOrder) (f : FillEvent) (now : String)
      → IsNothing o (apply_fill o f now) ⊎ IsAudited o (apply_fill o f now)
  unfolding apply_fill
  apply_fill_cases o f now = elim (Bool-cases (can_transition o.status (new_status o f))) [
    | inl allowed ↦ rw allowed (
        inr (record {
          entry = _;
          transition = _;
          journalled = refl;
          actor = refl;
          recorded = refl;
          from = refl;
          to = refl;
          allowed = allowed;
        }))
    | inr refused ↦ rw refused (inl (refl, refl))
  ]

  -- How an event that is recognised ends: never in an error.
  abbrev AuditsKnown : ManagedOrder → Result LifecycleResult LifecycleError → Type 0
  AuditsKnown o (ok r) = IsNothing o r ⊎ IsAudited o r
  AuditsKnown o (err x) = ⊥

  -- How an event ends.
  abbrev pub Audits : ManagedOrder → LifecycleEvent → Result LifecycleResult LifecycleError → Type 0
  Audits o (unrecognised type) result =
      (x : LifecycleError) × (result ≡ err x) × (x.code ≡ "engine.invalid_lifecycle_event")
  Audits o event result = AuditsKnown o result

  -- An event that is recognised leaves the order as it was and journals nothing, or moves it along
  -- one edge of the diagram with one recorded transition and one journal entry, and is never an
  -- error; any other event is the error of an invalid event.
  pub apply_event_audited :
      (o : ManagedOrder) (e : LifecycleEvent) (now : String) → Audits o e (apply_event o e now)
  unfolding apply_event
  apply_event_audited o (fill_applied fill) now = apply_fill_cases o fill now
  apply_event_audited o (cancel_requested reason timestamp) now = guarded_cases o cancelled _ λ c.
      record {
        entry = _;
        transition = _;
        journalled = refl;
        actor = refl;
        recorded = refl;
        from = refl;
        to = refl;
        allowed = c;
      }
  apply_event_audited o (expiry reason timestamp) now = guarded_cases o expired _ λ c. record {
    entry = _;
    transition = _;
    journalled = refl;
    actor = refl;
    recorded = refl;
    from = refl;
    to = refl;
    allowed = c;
  }
  apply_event_audited o (replace_requested by reason timestamp) now =
      guarded_cases o replaced _ λ c. record {
        entry = _;
        transition = _;
        journalled = refl;
        actor = refl;
        recorded = refl;
        from = refl;
        to = refl;
        allowed = c;
      }
  apply_event_audited o (unrecognised type) now = (_, refl, refl)
