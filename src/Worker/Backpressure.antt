-- ===== src/Worker/Backpressure.antt =====
-- The rounds of the wait for memory.
use image_bed.Errors.{Result, err, ok}
use image_bed.Prelude.{
  Bool-cases, arith, inl, inr, ltb, refl, some, suc, true, zero, ℕ, ◌*◌, ◌+◌, ◌<◌, ◌≡◌, ◌≤◌,
}
use image_bed.Worker.{
  Sleeps, Watch, backpressure_interval, backpressure_timeout, still_over_limit, wait_for_memory,
  wait_rounds,
}

module _ (watch : Watch) where
  -- Each round but the first comes after a sleep.
  clock-after :
      Sleeps watch → (n : ℕ) → watch.clock 0 + n * backpressure_interval ≤ watch.clock (suc n)
  clock-after s zero = omega (arith, s.0)
  clock-after s (suc n) = omega (arith, s.1 n, clock-after s n)

  wait_rounds-ends :
      Sleeps watch
      → (fuel n : ℕ) → 17 ≤ fuel + n
      → 0 < fuel
      → (r : Result (Unit {0})) × (wait_rounds watch fuel (suc n) ≡ some r)
  unfolding wait_rounds
  wait_rounds-ends s zero n enough p = absurd (omega arith)
  wait_rounds-ends s (suc fuel) n enough p = elim (Bool-cases (watch.memory_ok (suc n))) [
    | inl e ↦ (ok tt, rw e refl)
    | inr e ↦ elim (Bool-cases (ltb (watch.clock 0 + backpressure_timeout) (watch.clock (suc n)))) [
      | inl late ↦ (err still_over_limit, rw (e, late) refl)
      | inr early ↦
          let in_time : watch.clock (suc n) ≤ watch.clock 0 + backpressure_timeout = ground arith in
          let n_small : n < 16 = omega (arith, clock-after s n, in_time) in
          let (r, h) = wait_rounds-ends s fuel (suc n) (omega arith) (omega arith) in
          (r, rw (e, early) h)
    ]
  ]

  -- With a clock that a sleep moves by its interval, seventeen rounds are enough: the wait for memory
  -- returns, and it returns an error only if the check of memory failed at the start.
  pub wait_for_memory-ends :
      Sleeps watch
      → (fuel : ℕ) → 17 ≤ fuel
      → (r : Result (Unit {0})) × (wait_for_memory watch fuel ≡ some r)
        × (watch.memory_ok 0 ≡ true → r ≡ ok tt)
  unfolding wait_for_memory
  wait_for_memory-ends s fuel enough = elim (Bool-cases (watch.memory_ok 0)) [
    | inl e ↦ (ok tt, rw e refl, λ h. refl)
    | inr e ↦
        let (r, h) = wait_rounds-ends s fuel 0 (omega arith) (omega arith) in
        (r, rw e h, λ k. absurd cc)
  ]
