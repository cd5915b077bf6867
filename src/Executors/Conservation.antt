-- ===== src/Executors/Conservation.antt =====
-- What becomes of the pending limits of packages/engine/src/shadow-executor.ts.
use mathlib.Core.List.{Perm, perm_middle, map-append, append_assoc}
use mathlib.Core.List.Perm
use mathlib.Core.Path.{subst}
use traderton.Prelude.{
  String, ◌≡◌, refl, if◌then◌else◌, Bool, true, false, not, List, [], ◌∷◌, ◌++◌, Option, is_some,
  map, filter, keep_if, All, arith, inl, inr, Bool-cases,
}
use traderton.Decimal.{DecimalLib}
use traderton.Order.{FillEvent}
use traderton.Executors.{IdGenerator, FeeSimulatorConfig}
use traderton.Executors.Shadow.{PendingLimit, shadow_fill}
use traderton.Executors.Pending.{
  TradeEvent, handle_trade, on_trade, resolve_pending, resolved_fills, resolve_pending_limits,
}

module _ ⦃lib : DecimalLib⦄ where
  pub data PendingEvent : Type 0 where
    trade_arrives : TradeEvent → PendingEvent
    is_resolved : PendingEvent

  -- A limit that is resolved has its fill, and any other has none.
  abbrev pub IsConsistent : PendingLimit → Type 0
  IsConsistent p = is_some p.resolved_fill ≡ p.resolved

  abbrev pub pending_ids : List PendingLimit → List String
  pending_ids ps = map (λ p. p.order_id) ps

  abbrev pub filled_ids : List FillEvent → List String
  filled_ids fs = map (λ f. f.order_id) fs

  on_trade-ids :
      (t : TradeEvent) (ps : List PendingLimit) → pending_ids (on_trade t ps) ≡ pending_ids ps
  unfolding on_trade handle_trade
  on_trade-ids t [] = refl
  on_trade-ids t (p ∷ ps) = ground (arith, on_trade-ids t ps)

  on_trade-IsConsistent :
      (t : TradeEvent) (ps : List PendingLimit)
      → All IsConsistent ps
      → All IsConsistent (on_trade t ps)
  unfolding on_trade handle_trade
  on_trade-IsConsistent t [] c = tt
  on_trade-IsConsistent t (p ∷ ps) (c, cs) = (ground arith, on_trade-IsConsistent t ps cs)

  All-filter {ℓ κ} :
      {A : Type ℓ} (P : A → Type κ) (keep : A → Bool) (xs : List A)
      → All P xs
      → All P (filter keep xs)
  All-filter P keep [] c = tt
  All-filter P keep (x ∷ xs) (c, cs) = elim (Bool-cases (keep x)) [
    | inl kept ↦ rw kept (c, All-filter P keep xs cs)
    | inr gone ↦ rw gone (All-filter P keep xs cs)
  ]

  turn-Perm :
      (b : Bool) (p : PendingLimit) (waiting : List PendingLimit) (more all : List String)
      → Perm (more ++ pending_ids waiting) all
      → Perm
          (((if b then p.order_id ∷ [] else []) ++ more) ++ pending_ids (keep_if (not b) p waiting))
          (p.order_id ∷ all)
  turn-Perm true p waiting more all h = Perm.cons p.order_id h
  turn-Perm false p waiting more all h =
      Perm.trans (perm_middle more (pending_ids waiting)) (Perm.cons p.order_id h)

  module _ {S : Type 0} (id_gen : IdGenerator S) (config : Option FeeSimulatorConfig) where
    unfoldable pub after_events :
        S → List PendingLimit → List PendingEvent → S × List FillEvent × List PendingLimit
    unfolding on_trade resolve_pending_limits
    after_events s ps [] = (s, [], ps)
    after_events s ps (trade_arrives t ∷ es) = after_events s (on_trade t ps) es
    after_events s ps (is_resolved ∷ es) =
        let (s₁, fills, ps₁) = resolve_pending_limits id_gen config s ps in
        let (s₂, more, ps₂) = after_events s₁ ps₁ es in (s₂, fills ++ more, ps₂)

    resolve_pending-ids :
        (s : S) (p : PendingLimit)
        → IsConsistent p
        → filled_ids (resolve_pending id_gen config s p).1
          ≡ (if p.resolved then p.order_id ∷ [] else [])
    unfolding resolve_pending shadow_fill
    resolve_pending-ids s p c = ground arith

    resolved_fills-Perm :
        (s : S) (ps : List PendingLimit)
        → All IsConsistent ps
        → Perm
            (filled_ids (resolved_fills id_gen config s ps).1
              ++ pending_ids (filter (λ p. not p.resolved) ps))
            (pending_ids ps)
    unfolding resolved_fills
    resolved_fills-Perm s [] c = Perm.refl []
    resolved_fills-Perm s (p ∷ ps) (c, cs) =
        let (s', fills) = resolve_pending id_gen config s p in
        let more = (resolved_fills id_gen config s' ps).1 in
        rw (map-append (λ f. f.order_id) fills more, resolve_pending-ids s p c)
          (turn-Perm p.resolved p (filter (λ q. not q.resolved) ps) (filled_ids more)
            (pending_ids ps) (resolved_fills-Perm s' ps cs))

    -- Whatever trades arrive and however often the limits are resolved, the orders that were
    -- filled and those that still wait are together the orders that waited before, each as often
    -- as before: no order is lost, and none is filled twice. Before, a limit is to be resolved
    -- exactly when it has its fill.
    pub after_events-Perm :
        (s : S) (ps : List PendingLimit) (es : List PendingEvent)
        → All IsConsistent ps
        → let r = after_events s ps es in Perm (filled_ids r.1 ++ pending_ids r.2) (pending_ids ps)
    unfolding after_events resolve_pending_limits
    after_events-Perm s ps [] c = Perm.refl _
    after_events-Perm s ps (trade_arrives t ∷ es) c =
        subst
          (λ x.
            Perm
              (filled_ids (after_events s (on_trade t ps) es).1
                ++ pending_ids (after_events s (on_trade t ps) es).2)
              x)
          (on_trade-ids t ps)
          (after_events-Perm s (on_trade t ps) es (on_trade-IsConsistent t ps c))
    after_events-Perm s ps (is_resolved ∷ es) c =
        let (s₁, fills, ps₁) = resolve_pending_limits id_gen config s ps in
        let (s₂, more, ps₂) = after_events s₁ ps₁ es in
        let ih = after_events-Perm s₁ ps₁ es (All-filter IsConsistent (λ p. not p.resolved) ps c) in
        rw
          (
            map-append (λ f. f.order_id) fills more,
            append_assoc (filled_ids fills) (filled_ids more) (pending_ids ps₂),
          )
          (Perm.trans (Perm.append (Perm.refl (filled_ids fills)) ih) (resolved_fills-Perm s ps c))
