-- ===== src/Eventing/Liveness.antt =====
-- The connector gets there, or stops.
use foto.Base.{
  ℕ, zero, suc, ◌+◌, ◌-◌, ◌*◌, ◌≤◌, ◌<◌, ◌≡◌, inl, inr, refl, sym, ap, ◌∙◌, subst, arith, Bool,
  true, false, Bool-cases, ◌&&◌, ◌||◌, some,
}
use foto.Eventing.{
  next_delay, dialing, waiting, installed, finished, Eventing, opened, Answer, connect, wait,
  register_projections, run, step_at, advance, publisher_or_nil,
}

-- A run of some steps, where an attempt and what follows it meet the answer of that attempt.
unfoldable pub run_for : (ℕ → Answer) → ℕ → Eventing → Eventing
run_for answers zero s = s
run_for answers (suc n) s = run_for answers n (advance (answers s.attempt) s)

abbrev pub is_up : Answer → Bool
is_up a = a.dials && a.builds

abbrev up : Eventing → Eventing
up s = record s {
  stream = some s.attempt;
  publisher = some s.attempt;
  mux = some s.attempt;
  pc = installed;
}

abbrev again : Eventing → Eventing
again s = record s { attempt = suc s.attempt; delay = next_delay s.delay; pc = dialing }

module _ (answers : ℕ → Answer) (s : Eventing) (at_dial : s.pc ≡ dialing) where
  advance-up : is_up (answers s.attempt) ≡ true → advance (answers s.attempt) s ≡ up s
  unfolding advance step_at connect
  advance-up e = ap (λ p. step_at p (answers s.attempt) s) at_dial ∙ rw e refl

  advance-down :
      is_up (answers s.attempt) ≡ false → advance (answers s.attempt) s ≡ record s { pc = waiting }
  unfolding advance step_at connect
  advance-down e = ap (λ p. step_at p (answers s.attempt) s) at_dial ∙ rw e refl

  run_for-up :
      is_up (answers s.attempt) ≡ true → publisher_or_nil (run_for answers 2 s) ≡ some s.attempt
  unfolding run_for advance step_at
  run_for-up e =
      subst (λ u. publisher_or_nil (run_for answers 1 u) ≡ some s.attempt) (sym (advance-up e)) refl

  run_for-up_finished : is_up (answers s.attempt) ≡ true → (run_for answers 5 s).pc ≡ finished
  unfolding run_for advance step_at register_projections run
  run_for-up_finished e =
      subst (λ u. (run_for answers 4 u).pc ≡ finished) (sym (advance-up e))
        (elim (Bool-cases (answers s.attempt).runs) [ inl q ↦ rw q refl | inr q ↦ rw q refl ])

  run_for-again :
      is_up (answers s.attempt) ≡ false
      → (answers s.attempt).cancelled ≡ false
      → run_for answers 2 s ≡ again s
  unfolding run_for advance step_at wait
  run_for-again e c = subst (λ u. run_for answers 1 u ≡ again s) (sym (advance-down e)) (rw c refl)

  run_for-cancelled :
      is_up (answers s.attempt) ≡ false
      → (answers s.attempt).cancelled ≡ true
      → (run_for answers 2 s).pc ≡ finished
  unfolding run_for advance step_at wait
  run_for-cancelled e c =
      subst (λ u. (run_for answers 1 u).pc ≡ finished) (sym (advance-down e)) (rw c refl)

run_for-two :
    (answers : ℕ → Answer) (n : ℕ) (s : Eventing)
    → run_for answers (suc (suc n)) s ≡ run_for answers n (run_for answers 2 s)
unfolding run_for
run_for-two answers n s = refl

or_left : (a b : Bool) → a ≡ false → (a || b) ≡ true → b ≡ true
or_left a b h e = ground arith

module _ (answers : ℕ → Answer) (k : ℕ) where
  connects_from :
      (d : ℕ) (s : Eventing)
      → s.pc ≡ dialing
      → s.attempt + d ≡ k
      → is_up (answers k) ≡ true
      → ((j : ℕ) → j < k → (answers j).cancelled ≡ false)
      → (n c : ℕ) × (n ≤ 2 * d + 2) × (c ≤ k) × (publisher_or_nil (run_for answers n s) ≡ some c)
  connects_from zero s p e u calm =
      let e' : k ≡ s.attempt = omega arith in
      (
        2,
        s.attempt,
        omega arith,
        omega arith,
        run_for-up answers s p (subst (λ j. is_up (answers j) ≡ true) e' u),
      )
  connects_from (suc d) s p e u calm = elim (Bool-cases (is_up (answers s.attempt))) [
    | inl up_now ↦ (2, s.attempt, omega arith, omega arith, run_for-up answers s p up_now)
    | inr down ↦
        let (n, c, few, small, got) = connects_from d (again s) refl (omega arith) u calm in
        (
          suc (suc n),
          c,
          omega arith,
          small,
          ap publisher_or_nil (
                run_for-two answers n s
                ∙ ap (run_for answers n)
                    (run_for-again answers s p down (calm s.attempt (omega arith))))
              ∙ got,
        )
  ]

  -- If the broker answers at some attempt, and the context is not done in a pause before it, then handlers
  -- have a publisher after at most two steps for each attempt up to that one.
  pub connects :
      1 ≤ k
      → is_up (answers k) ≡ true
      → ((j : ℕ) → j < k → (answers j).cancelled ≡ false)
      → (n c : ℕ) × (n ≤ 2 * k) × (c ≤ k) × (publisher_or_nil (run_for answers n opened) ≡ some c)
  connects pos u calm =
      let (n, c, few, small, got) = connects_from (k - 1) opened refl (omega arith) u calm in
      (n, c, omega arith, small, got)

  finishes_from :
      (d : ℕ) (s : Eventing)
      → s.pc ≡ dialing
      → s.attempt + d ≡ k
      → (is_up (answers k) || (answers k).cancelled) ≡ true
      → (n : ℕ) × (n ≤ 2 * d + 5) × ((run_for answers n s).pc ≡ finished)
  finishes_from zero s p e u =
      let same : k ≡ s.attempt = omega arith in
      elim (Bool-cases (is_up (answers s.attempt))) [
        | inl up_now ↦ (5, omega arith, run_for-up_finished answers s p up_now)
        | inr down ↦ (
          2,
          omega arith,
          run_for-cancelled answers s p down (
              or_left (is_up (answers s.attempt)) (answers s.attempt).cancelled down
                (subst (λ j. (is_up (answers j) || (answers j).cancelled) ≡ true) same u)),
        )
      ]
  finishes_from (suc d) s p e u = elim (Bool-cases (is_up (answers s.attempt))) [
    | inl up_now ↦ (5, omega arith, run_for-up_finished answers s p up_now)
    | inr down ↦ elim (Bool-cases (answers s.attempt).cancelled) [
      | inl stop ↦ (2, omega arith, run_for-cancelled answers s p down stop)
      | inr go_on ↦
          let (n, few, done) = finishes_from d (again s) refl (omega arith) u in
          (
            suc (suc n),
            omega arith,
            ap (λ t. t.pc)
                  (run_for-two answers n s
                    ∙ ap (run_for answers n) (run_for-again answers s p down go_on))
                ∙ done,
          )
    ]
  ]

  -- If some attempt reaches the broker, or the context is done in the pause behind it, then the connector
  -- comes to its end, after at most two steps for each attempt up to that one and three more.
  pub finishes :
      1 ≤ k
      → (is_up (answers k) || (answers k).cancelled) ≡ true
      → (n : ℕ) × (n ≤ 2 * k + 3) × ((run_for answers n opened).pc ≡ finished)
  finishes pos u =
      let (n, few, done) = finishes_from (k - 1) opened refl (omega arith) u in
      (n, omega arith, done)
