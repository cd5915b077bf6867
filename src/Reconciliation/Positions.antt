-- ===== src/Reconciliation/Positions.antt =====
-- What it means that packages/engine/src/reconciliation/reconcile.ts finds no position diff.
use text.Mathlib.TextEquality.{eq_iff}
use traderton.Prelude.{
  String, str_eq, Bool, true, false, not, ◌&&◌, ◌||◌, List, [], ◌∷◌, ◌++◌, none, some, map, any,
  is_some, if◌then◌else◌, All, ◌≡◌, refl, ◌⊎◌, inl, inr, arith, Bool-cases, Option-cases,
}
use traderton.Prelude.JsMap.{get}
use traderton.Decimal.{DecimalLib}
use traderton.Position.{is_flat}
use traderton.Planner.{VenuePosition}
use traderton.Reconciliation.State.{
  LocalPosition, Diff, same_side, is_close, position_diff, a_position, absent,
}
use traderton.Reconciliation.Compare.{
  delete, compare_position, check_local_positions, held_by_symbol, reconcile_positions, left_over,
}

cons_not_nil {ℓ} : {A : Type ℓ} {x : A} {xs : List A} → ¬ ((x ∷ xs) ≡ [])
cons_not_nil h = cc

append_empty {ℓ} : {A : Type ℓ} (xs ys : List A) → xs ++ ys ≡ [] → (xs ≡ []) × (ys ≡ [])
append_empty [] ys h = (refl, h)
append_empty (x ∷ xs) ys h = absurd (cons_not_nil h)

module _ {ℓ} {V : Type ℓ} where
  get-delete :
      (k t : String) (m : List (String × V))
      → get t (delete k m) ≡ (if str_eq k t then none else get t m)
  unfolding get
  get-delete k t [] = ground arith
  get-delete k t ((j, v) ∷ m) = ground (arith, eq_iff j k, eq_iff k t, eq_iff j t, get-delete k t m)

module _ ⦃lib : DecimalLib⦄ where
  -- A position that is flat, or that the venue holds too, on the same side and with a size that
  -- differs by no more than the tolerance.
  abbrev pub IsMet : List (String × VenuePosition) → LocalPosition → Type 0
  IsMet m lp =
      (is_flat lp.side ≡ true)
      ⊎ ((vp : VenuePosition) × (get lp.symbol m ≡ some vp)
          × (same_side lp.side vp.side ≡ true)
          × (is_close lp.size vp.size ≡ true))

  abbrev pub holds : List LocalPosition → String → Bool
  holds local s = any (λ lp. not (is_flat lp.side) && str_eq lp.symbol s) local

  IsMet-delete :
      (k : String) (m : List (String × VenuePosition)) (lp : LocalPosition)
      → IsMet (delete k m) lp
      → IsMet m lp
  IsMet-delete k m lp (inl not_held) = inl not_held
  IsMet-delete k m lp (inr (vp, found, side, size)) =
      inr (vp, ground (arith, found, get-delete k lp.symbol m), side, size)

  All-IsMet-delete :
      (k : String) (m : List (String × VenuePosition)) (lps : List LocalPosition)
      → All (IsMet (delete k m)) lps
      → All (IsMet m) lps
  All-IsMet-delete k m [] a = tt
  All-IsMet-delete k m (lp ∷ lps) (a, more) = (IsMet-delete k m lp a, All-IsMet-delete k m lps more)

  compare_position-empty :
      (lp : LocalPosition) (vp : VenuePosition) (rest : List Diff)
      → compare_position lp vp rest ≡ []
      → (same_side lp.side vp.side ≡ true) × (is_close lp.size vp.size ≡ true) × (rest ≡ [])
  unfolding compare_position
  compare_position-empty lp vp rest h = ground (arith, h)

  check_of_flat :
      (lp : LocalPosition) (lps : List LocalPosition) (m : List (String × VenuePosition))
      → is_flat lp.side ≡ true
      → check_local_positions (lp ∷ lps) m ≡ check_local_positions lps m
  unfolding check_local_positions
  check_of_flat lp lps m h = rw h refl

  check_of_missing :
      (lp : LocalPosition) (lps : List LocalPosition) (m : List (String × VenuePosition))
      → is_flat lp.side ≡ false
      → get lp.symbol m ≡ none
      → check_local_positions (lp ∷ lps) m ≡ (
        position_diff lp.symbol (a_position lp.side lp.size) absent
            ∷ (check_local_positions lps m).0,
        (check_local_positions lps m).1,
      )
  unfolding check_local_positions
  check_of_missing lp lps m h missing = rw (check_local_positions, h, missing) refl

  check_of_found :
      (lp : LocalPosition) (lps : List LocalPosition) (m : List (String × VenuePosition))
      (vp : VenuePosition)
      → is_flat lp.side ≡ false
      → get lp.symbol m ≡ some vp
      → let rest = check_local_positions lps (delete lp.symbol m) in
        check_local_positions (lp ∷ lps) m ≡ (compare_position lp vp rest.0, rest.1)
  unfolding check_local_positions
  check_of_found lp lps m vp h found = rw (check_local_positions, h, found) refl

  -- Every local position is met, and the map holds those and what is left of it.
  abbrev pub Explains :
      List LocalPosition
      → List (String × VenuePosition)
      → List Diff × List (String × VenuePosition)
      → Type 0
  Explains lps m r =
      All (IsMet m) lps × ((s : String) → is_some (get s m) ≡ (holds lps s || is_some (get s r.1)))

  check-empty :
      (lps : List LocalPosition) (m : List (String × VenuePosition))
      → (check_local_positions lps m).0 ≡ []
      → Explains lps m (check_local_positions lps m)
  unfolding check_local_positions
  check-empty [] m h = (tt, λ s. refl)
  check-empty (lp ∷ lps) m h = elim (Bool-cases (is_flat lp.side)) [
    | inl not_held ↦
        let e = check_of_flat lp lps m not_held in
        let (met, rest) = check-empty lps m (rw e at h) in
        rw e ((inl not_held, met), λ s. rw not_held (rest s))
    | inr held ↦ elim (Option-cases (get lp.symbol m)) [
      | inl missing ↦ absurd (cons_not_nil (rw (check_of_missing lp lps m held missing) at h))
      | inr (vp, found) ↦
          let e = check_of_found lp lps m vp held found in
          let rest = check_local_positions lps (delete lp.symbol m) in
          let (side, size, none_left) = compare_position-empty lp vp rest.0 (rw e at h) in
          let (met, more) = check-empty lps (delete lp.symbol m) none_left in
          rw e (
            (inr (vp, found, side, size), All-IsMet-delete lp.symbol m lps met),
            λ s. ground (arith, held, found, more s, get-delete lp.symbol s m, eq_iff lp.symbol s),
          )
    ]
  ]

  left_over_empty :
      (m : List (String × VenuePosition)) (s : String) → map left_over m ≡ [] → get s m ≡ none
  unfolding get
  left_over_empty [] s h = refl
  left_over_empty (e ∷ m) s h = absurd (cons_not_nil h)

  -- When no position diff is found, the two sides hold the same positions: each held local position
  -- is met by the venue's of the same symbol, on the same side and within the tolerance, and the
  -- venue holds a position of a symbol exactly when there is a local one.
  pub reconcile_positions_lem :
      (local : List LocalPosition) (venue : List VenuePosition)
      → reconcile_positions local venue ≡ []
      → All (IsMet (held_by_symbol venue [])) local
        × ((s : String) → is_some (get s (held_by_symbol venue [])) ≡ holds local s)
  unfolding reconcile_positions
  reconcile_positions_lem local venue h =
      let m = held_by_symbol venue [] in
      let r = check_local_positions local m in
      let (no_diffs, no_rest) = append_empty r.0 (map left_over r.1) h in
      let (met, rest) = check-empty local m no_diffs in
      (met, λ s. ground (arith, rest s, left_over_empty r.1 s no_rest))
