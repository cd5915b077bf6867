-- ===== src/OrderManager/History.antt =====
-- The audit trail that `recordTransition` of packages/engine/src/order-manager.ts keeps.
use traderton.Prelude.{
  ℕ, zero, suc, ◌-◌, ◌≤◌, String, ◌≡◌, refl, true, false, List, [], ◌∷◌, ◌++◌, Option, none, arith,
  Bool, inl, inr, get_or, length, length-append, drop, length-drop, Bool-cases,
}
use traderton.Decimal.{DecimalLib}
use traderton.Order.{OrderStatus, pending, OrderTransition, ManagedOrder, can_transition}
use traderton.OrderManager.State.{is_full, record_transition}

-- Transitions that start at `s`, follow the diagram one from the other, and end at `t`.
abbrev pub Linked : OrderStatus → List OrderTransition → OrderStatus → Type 0
Linked s [] t = s ≡ t
Linked s (e ∷ es) t = (e.from ≡ s) × (can_transition e.from e.to ≡ true) × Linked e.to es t

abbrev pub EndsAt : List OrderTransition → OrderStatus → Type 0
EndsAt [] t = Unit {0}
EndsAt (e ∷ es) t = (can_transition e.from e.to ≡ true) × Linked e.to es t

-- At most 50 transitions, linked up to the present status; all of them, if none was dropped.
pub record IsRecorded (history : List OrderTransition) (capped : Option Bool) (t : OrderStatus)
    : Type 0 where
  pub bounded : length history ≤ 50
  pub ends : EndsAt history t
  pub complete : capped ≡ none → Linked pending history t

EndsAt-of_Linked : (s t : OrderStatus) (es : List OrderTransition) → Linked s es t → EndsAt es t
EndsAt-of_Linked s t [] l = tt
EndsAt-of_Linked s t (e ∷ es) l = (l.1, l.2)

EndsAt-drop :
    (t : OrderStatus) (n : ℕ) (es : List OrderTransition) → EndsAt es t → EndsAt (drop n es) t
EndsAt-drop t zero es l = l
EndsAt-drop t (suc n) [] l = tt
EndsAt-drop t (suc n) (e ∷ es) l = EndsAt-drop t n es (EndsAt-of_Linked e.to t es l.1)

Linked-append :
    (s : OrderStatus) {t : OrderStatus} (es : List OrderTransition) (e : OrderTransition)
    → Linked s es t
    → e.from ≡ t
    → can_transition e.from e.to ≡ true
    → Linked s (es ++ e ∷ []) e.to
Linked-append s [] e l f c = (cc, c, refl)
Linked-append s (x ∷ es) e l f c = (l.0, l.1, Linked-append x.to es e l.2 f c)

EndsAt-append :
    {t : OrderStatus} (es : List OrderTransition) (e : OrderTransition)
    → EndsAt es t
    → e.from ≡ t
    → can_transition e.from e.to ≡ true
    → EndsAt (es ++ e ∷ []) e.to
EndsAt-append [] e l f c = (c, refl)
EndsAt-append (x ∷ es) e l f c = (l.0, Linked-append x.to es e l.1 f c)

length_cut :
    (es : List OrderTransition) (e : OrderTransition)
    → length (drop (length es - 49) es ++ e ∷ []) ≤ 50
length_cut es e =
    omega
      (arith, length-append (drop (length es - 49) es) (e ∷ []), length-drop (length es - 49) es)

length_room :
    (es : List OrderTransition) (e : OrderTransition)
    → is_full es ≡ false
    → length (es ++ e ∷ []) ≤ 50
length_room es e h = ground (arith, length-append es (e ∷ []))

module _ ⦃lib : DecimalLib⦄ where
  abbrev pub history : ManagedOrder → List OrderTransition
  history o = get_or o.transition_history []

  -- Recording a valid transition keeps the trail, cut or not.
  pub record_transition-IsRecorded :
      (o : ManagedOrder) (to : OrderStatus) (reason : String) (replacement fill : Option String)
      (now : String)
      → IsRecorded (history o) o.transition_history_capped o.status
      → can_transition o.status to ≡ true
      → let r = record_transition o to reason replacement fill now in
        IsRecorded (history r) r.transition_history_capped to
  unfolding record_transition
  record_transition-IsRecorded o to reason replacement fill now v c =
      elim (Bool-cases (is_full (history o))) [
        | inl full ↦ rw full (record {
          bounded = length_cut (history o) e;
          ends = EndsAt-append _ e (EndsAt-drop o.status _ _ v.ends) refl c;
          complete = λ h. cc;
        })
        | inr room ↦ rw room (record {
          bounded = length_room (history o) e room;
          ends = EndsAt-append _ e v.ends refl c;
          complete = λ h. Linked-append pending _ e (v.complete h) refl c;
        })
      ]
    where
      e : OrderTransition
      e = record {
        from = o.status;
        to = to;
        reason = reason;
        timestamp = now;
        fill_id = fill;
        replacement_order_id = replacement;
      }
