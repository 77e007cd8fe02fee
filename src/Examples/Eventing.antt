-- ===== src/Examples/Eventing.antt =====
-- The broker's connection at concrete inputs.
use foto.Base.{ℕ, ◌≤◌, ◌*◌, ◌+◌, ◌≡◌, refl, arith, true, false, ltb, if◌then◌else◌}
use foto.Eventing.{Answer, opened, advance, Reach, start, later, finished}
use foto.Eventing.Invariant.{IsConsistent, Reach-IsConsistent}
use foto.Eventing.Liveness.{run_for, finishes}

-- The broker does not answer, and answers.
abbrev pub absent : Answer
absent = record { dials = false; builds = true; cancelled = false; runs = true }

abbrev pub there : Answer
there = record { dials = true; builds = true; cancelled = false; runs = true }

-- A second attempt that succeeds.
pub second_attempt : Reach (advance there (advance absent (advance absent opened)))
second_attempt = later (later (later start absent) absent) there

Reach-IsConsistent_example : IsConsistent (advance there (advance absent (advance absent opened)))
Reach-IsConsistent_example = Reach-IsConsistent second_attempt

-- The broker answers from the third attempt on.
abbrev pub third_time : ℕ → Answer
third_time n = if ltb n 3 then absent else there

finishes_example : (n : ℕ) × (n ≤ 2 * 3 + 3) × ((run_for third_time n opened).pc ≡ finished)
finishes_example = finishes third_time 3 (omega arith) refl
