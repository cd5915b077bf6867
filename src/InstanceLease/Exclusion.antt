-- ===== src/InstanceLease/Exclusion.antt =====
-- packages/worker/src/instance-lease.ts: one owner at a time.
use text.Mathlib.TextEquality.{eq_iff}
use text.Mathlib.TextPositions.{eq_refl}
use traderton.Prelude.{
  ℕ, ◌<◌, ◌≡◌, refl, sym, ◌∙◌, ap, String, Bool, true, false, List, [], ◌∷◌, Option, none, some,
  arith, inl, inr, Bool-cases, if◌then◌else◌, ltb, str_eq,
}
use traderton.InstanceLease.{
  Keys, InstanceLease, is_worker, expiry, holder, set_if_free, acquire, delete_if_owned, release,
  renew,
}

-- The calls of all workers, each with the time at which Redis runs it.
pub data LeaseCall : Type 0 where
  acquires : InstanceLease → String → ℕ → LeaseCall
  releases : InstanceLease → String → ℕ → LeaseCall
  renews : InstanceLease → String → ℕ → LeaseCall

unfoldable pub run_call : Keys → LeaseCall → Keys × Bool
unfolding acquire release renew
run_call keys (acquires l id now) =
    let (l', keys', acquired) = acquire l keys id now in (keys', acquired)
run_call keys (releases l id now) =
    let (l', keys', released) = release l keys id now in (keys', released)
run_call keys (renews l id now) = renew l keys id now

abbrev pub time_of : LeaseCall → ℕ
time_of (acquires l id now) = now
time_of (releases l id now) = now
time_of (renews l id now) = now

module _ (owner : InstanceLease) (instance_id : String) where
  abbrev pub IsOwner : InstanceLease → Type 0
  IsOwner l = l.worker_id ≡ owner.worker_id

  -- The owner has the key until a time.
  abbrev pub Owns : Keys → ℕ → Type 0
  Owns keys until =
      keys instance_id ≡ some (record { worker_id = owner.worker_id; expires_at = until })

  -- What a call must answer while the owner has the instance: no one acquires it, the owner renews it,
  -- and no one else renews or releases it.
  abbrev pub IsAnswered : LeaseCall → Bool → Type 0
  IsAnswered (acquires l id now) answer = str_eq id instance_id ≡ true → answer ≡ false
  IsAnswered (releases l id now) answer = str_eq id instance_id ≡ true → answer ≡ false
  IsAnswered (renews l id now) answer =
      str_eq id instance_id ≡ true → answer ≡ str_eq owner.worker_id l.worker_id

  -- The time until which the owner has the key after a call.
  abbrev pub until_after : ℕ → LeaseCall → ℕ
  until_after until (renews l id now) =
      if str_eq id instance_id
      then if str_eq owner.worker_id l.worker_id then expiry l now else until
      else until
  until_after until call = until

  abbrev pub IsNoRelease : LeaseCall → Type 0
  IsNoRelease (releases l id now) =
      str_eq id instance_id ≡ true → str_eq owner.worker_id l.worker_id ≡ false
  IsNoRelease call = Unit

  holder-Owns :
      (keys : Keys) (until now : ℕ) (id : String)
      → Owns keys until
      → now < until
      → str_eq id instance_id ≡ true
      → holder keys id now ≡ some owner.worker_id
  unfolding holder
  holder-Owns keys until now id h t same =
      let id_same : id ≡ instance_id = ground (arith, eq_iff id instance_id) in
      let early : ltb now until ≡ true = ground arith in rw id_same (rw h (rw early refl))

  set_if_free-other :
      (o : Option String) (l : InstanceLease) (keys : Keys) (id : String) (now : ℕ)
      → str_eq id instance_id ≡ false
      → (set_if_free o l keys id now).0 instance_id ≡ keys instance_id
  unfolding set_if_free
  set_if_free-other none l keys id now apart = rw apart refl
  set_if_free-other (some w) l keys id now apart = refl

  set_if_free-Owns :
      (o : Option String) (keys : Keys) (now : ℕ)
      → let r = set_if_free o owner keys instance_id now in r.1 ≡ true → Owns r.0 (expiry owner now)
  unfolding set_if_free
  set_if_free-Owns none keys now h = rw (eq_refl instance_id) refl
  set_if_free-Owns (some w) keys now h = ground arith

  acquire-Owns :
      (keys : Keys) (until : ℕ) (l : InstanceLease) (id : String) (now : ℕ)
      → Owns keys until
      → now < until
      → let call = acquires l id now in
        Owns (run_call keys call).0 until × IsAnswered call (run_call keys call).1
  unfolding run_call acquire set_if_free
  acquire-Owns keys until l id now h t = elim (Bool-cases (str_eq id instance_id)) [
    | inl same ↦ rw (holder-Owns keys until now id h t same) (h, λ e. refl)
    | inr apart ↦ (set_if_free-other (holder keys id now) l keys id now apart ∙ h, λ e. cc)
  ]

  release-Owns :
      (keys : Keys) (until : ℕ) (l : InstanceLease) (id : String) (now : ℕ)
      → Owns keys until
      → now < until
      → let call = releases l id now in
        IsNoRelease call
        → Owns (run_call keys call).0 until × IsAnswered call (run_call keys call).1
  unfolding run_call release delete_if_owned
  release-Owns keys until l id now h t n = elim (Bool-cases (str_eq id instance_id)) [
    | inl same ↦ rw (holder-Owns keys until now id h t same) (rw (n same) (h, λ e. refl))
    | inr apart ↦ elim (Bool-cases (is_worker (holder keys id now) l.worker_id)) [
      | inl owns ↦ rw owns (rw apart (h, λ e. cc))
      | inr other ↦ rw other (h, λ e. refl)
    ]
  ]

  renew-Owns :
      (keys : Keys) (until : ℕ) (l : InstanceLease) (id : String) (now : ℕ)
      → Owns keys until
      → now < until
      → let call = renews l id now in
        Owns (run_call keys call).0 (until_after until call)
        × IsAnswered call (run_call keys call).1
  unfolding run_call renew
  renew-Owns keys until l id now h t = elim (Bool-cases (str_eq id instance_id)) [
    | inl same ↦ rw (holder-Owns keys until now id h t same) (
        rw same (elim (Bool-cases (str_eq owner.worker_id l.worker_id)) [
          | inl owns ↦
              let worker_same : owner.worker_id ≡ l.worker_id =
                ground (arith, eq_iff owner.worker_id l.worker_id) in
              rw owns (
                rw same (
                  ap (λ w. some (record { worker_id = w; expires_at = expiry l now }))
                      (sym worker_same),
                  λ e. refl,
                ))
          | inr other ↦ rw other (h, λ e. refl)
        ]))
    | inr apart ↦ elim (Bool-cases (is_worker (holder keys id now) l.worker_id)) [
      | inl owns ↦ rw owns (rw apart (h, λ e. cc))
      | inr other ↦ rw other (rw apart (h, λ e. cc))
    ]
  ]

  run_call-Owns :
      (keys : Keys) (until : ℕ) (call : LeaseCall)
      → Owns keys until
      → time_of call < until
      → IsNoRelease call
      → Owns (run_call keys call).0 (until_after until call)
        × IsAnswered call (run_call keys call).1
  run_call-Owns keys until (acquires l id now) h t n = acquire-Owns keys until l id now h t
  run_call-Owns keys until (releases l id now) h t n = release-Owns keys until l id now h t n
  run_call-Owns keys until (renews l id now) h t n = renew-Owns keys until l id now h t

  -- Each call comes while the owner has the key, and the owner does not release it.
  abbrev pub IsKept : ℕ → List LeaseCall → Type 0
  IsKept until [] = Unit
  IsKept until (call ∷ calls) =
      (time_of call < until) × IsNoRelease call × IsKept (until_after until call) calls

  abbrev pub AreAnswered : Keys → List LeaseCall → Type 0
  AreAnswered keys [] = Unit
  AreAnswered keys (call ∷ calls) =
      IsAnswered call (run_call keys call).1 × AreAnswered (run_call keys call).0 calls

  run_calls-AreAnswered :
      (calls : List LeaseCall) (keys : Keys) (until : ℕ)
      → Owns keys until
      → IsKept until calls
      → AreAnswered keys calls
  run_calls-AreAnswered [] keys until h k = tt
  run_calls-AreAnswered (call ∷ calls) keys until h k =
      let (owns, answered) = run_call-Owns keys until call h k.0 k.1 in
      (answered, run_calls-AreAnswered calls (run_call keys call).0 _ owns k.2)

  -- Whatever the workers call, one that has acquired a lease is its only owner: until it releases the
  -- instance, and while each call comes before the lease has run for its time to live since the
  -- acquisition or the last renewal by the owner, every acquisition of the instance fails, the owner
  -- renews, and no other worker renews or releases.
  pub acquire-AreAnswered :
      (keys : Keys) (now : ℕ) (calls : List LeaseCall)
      → let r = acquire owner keys instance_id now in
        r.2 ≡ true → IsKept (expiry owner now) calls → AreAnswered r.1 calls
  unfolding acquire
  acquire-AreAnswered keys now calls acquired k =
      run_calls-AreAnswered calls _ (expiry owner now)
        (set_if_free-Owns (holder keys instance_id now) keys now acquired) k
