-- ===== src/Tests/Rings.antt =====
-- Concrete interleavings for src/runtime/mpsc_ring.h, on a ring of two cells.
use raft_rsm.Prelude.{
  ℕ, zero, suc, ◌≡◌, ◌≢◌, ◌≤◌, ◌+◌, ◌^◌, refl, true, false, some, List, [], ◌∷◌, ◌++◌, arith,
  length, get_elem?, take,
}
use mathlib.Core.Option.{none-ne-some}
use raft_rsm.Runtime.MpscRing.{Event, begins, produces, consumes, produce, step, run, init}
use raft_rsm.Runtime.MpscRing.Valid.{owns}
use raft_rsm.Runtime.MpscRing.Runs.{run_fifo, run_next, push_fails_full}

-- Producers 0 and 1 push 7 and 8; producer 1 claims first and publishes last.
abbrev crossed : List (Event ℕ)
crossed =
    begins 0 7
    ∷ begins 1 8
    ∷ produces 1 false
    ∷ produces 1 true
    ∷ produces 1 false
    ∷ produces 1 false
    ∷ produces 0 false
    ∷ produces 0 false
    ∷ produces 0 false
    ∷ produces 0 false
    ∷ produces 0 false
    ∷ produces 0 false
    ∷ produces 1 false
    ∷ produces 1 false
    ∷ []

-- Then producer 2 begins on the full ring.
abbrev full : List (Event ℕ)
full = crossed ++ begins 2 9 ∷ []

crossed_claims : (run (init 1 0) crossed).claimed ≡ 8 ∷ 7 ∷ []
unfolding run step produce init
crossed_claims = refl

run_fifo_example :
    let s = run (init 1 0) (crossed ++ consumes ∷ consumes ∷ consumes ∷ []) in
    (s.popped ≡ take (length s.popped) s.claimed)
    × (length s.popped ≤ length s.claimed)
    × (length s.claimed ≤ length s.popped + 2 ^ 1)
run_fifo_example = run_fifo 0 0 (crossed ++ consumes ∷ consumes ∷ consumes ∷ [])

crossed_published : (i : ℕ) → owns ((run (init 1 0) crossed).producers i) ≢ some 0
unfolding run step produce init
crossed_published zero e = none-ne-some 0 e
crossed_published (suc zero) e = none-ne-some 0 e
crossed_published (suc (suc i)) e = ground arith

run_next_example :
    (b : ℕ) × (get_elem? (run (init 1 0) crossed).claimed 0 ≡ some b)
    × ((run (run (init 1 0) crossed) (consumes ∷ consumes ∷ consumes ∷ [])).popped
        ≡ (run (init 1 0) crossed).popped ++ b ∷ [])
unfolding run step produce init
run_next_example = run_next 0 0 crossed refl (omega arith) crossed_published

push_fails_full_example :
    length (run (init 1 0) full).claimed ≡ length (run (init 1 0) full).popped + 2 ^ 1
unfolding run step produce init
push_fails_full_example = push_fails_full 0 0 full 2 false refl refl
