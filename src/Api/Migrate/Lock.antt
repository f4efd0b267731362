-- ===== src/Api/Migrate/Lock.antt =====
-- The wait for the advisory lock ends.
use reimbursement_analyzer.Prelude.{
  ℕ, zero, suc, ◌+◌, ◌*◌, ◌/◌, ◌≤◌, ◌≡◌, ◌⊎◌, refl, Bool, true, false, Option, none, some, leb, inl,
  inr, Bool-cases, arith, if◌then◌else◌,
}
use reimbursement_analyzer.Api.Migrate.{
  lock_poll, Wait, acquired, timed_out, await_lock, advisory_lock,
}

module _ (free : ℕ → Bool) (cost : ℕ → ℕ) where
  -- An attempt at the time `s` ended the wait; a timeout is not before the deadline.
  abbrev pub Ended : ℕ → Wait → Type 0
  Ended deadline (acquired t) = (s : ℕ) × (free s ≡ true) × (t ≡ s + cost s)
  Ended deadline (timed_out t) = (s : ℕ) × (free s ≡ false) × (t ≡ s + cost s) × (deadline ≤ t)

  abbrev IsEnded : ℕ → Option Wait → Type 0
  IsEnded deadline r = (o : Wait) × (r ≡ some o) × Ended deadline o

  -- One attempt, where the rounds that follow end or the deadline has come.
  attempt-Ended :
      (deadline t : ℕ) (rest : Option Wait)
      → IsEnded deadline rest ⊎ (deadline ≤ t + cost t)
      → IsEnded deadline (
          if free t
          then some (acquired (t + cost t))
          else if leb deadline (t + cost t)
          then some (timed_out (t + cost t))
          else rest)
  attempt-Ended deadline t rest h = elim (Bool-cases (free t)) [
    | inl got ↦ (acquired (t + cost t), rw got refl, (t, got, refl))
    | inr missed ↦ elim (Bool-cases (leb deadline (t + cost t))) [
      | inl late ↦ (timed_out (t + cost t), rw (missed, late) refl, (t, missed, refl, ground arith))
      | inr early ↦ elim h [
        | inl (o, e, ended) ↦ (o, rw (missed, early) e, ended)
        | inr now ↦ absurd (ground arith)
      ]
    ]
  ]

  await_lock-Ended :
      (k deadline t : ℕ)
      → deadline ≤ t + k * lock_poll
      → IsEnded deadline (await_lock free cost (suc k) deadline t)
  unfolding await_lock
  await_lock-Ended zero deadline t le = attempt-Ended deadline t none (inr (omega arith))
  await_lock-Ended (suc k) deadline t le =
      attempt-Ended deadline t (await_lock free cost (suc k) deadline (t + cost t + lock_poll))
        (inl (await_lock-Ended k deadline (t + cost t + lock_poll) (omega arith)))

  -- The wait for the lock always ends: with the lock, after an attempt that got it, or with a
  -- MigrationLockTimeout, after an attempt that did not and no earlier than the timeout.
  pub advisory_lock-Ended :
      (timeout start : ℕ)
      → (o : Wait) × (advisory_lock free cost timeout start ≡ some o) × Ended (start + timeout) o
  unfolding advisory_lock
  advisory_lock-Ended timeout start =
      await_lock-Ended (suc (timeout / lock_poll)) (start + timeout) start (omega arith)
