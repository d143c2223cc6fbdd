-- ===== src/Tests/Gates.antt =====
-- Interleavings at the gate of src/runtime/wake_gate.h.
use raft_rsm.Prelude.{ℕ, ◌≡◌, refl, ◌⊎◌, true, false, List, [], ◌∷◌, arith}
use raft_rsm.Runtime.WakeGate.{
  Event, produces, waits, produce, wait, step, run, gate, is_pending, sleeps,
}
use raft_rsm.Runtime.WakeGate.Runs.{no_wakeup_lost}

-- Producer 4 publishes just before the consumer sleeps.
abbrev close_call : List Event
close_call = waits ∷ waits ∷ waits ∷ waits ∷ waits ∷ produces 4 ∷ waits ∷ []

no_wakeup_lost_example :
    let g = run gate close_call in
    (i : ℕ) × (is_pending (g.producers i) ≡ true)
    × ((sleeps (run g (produces i ∷ [])).consumer ≡ false)
        ⊎ (sleeps (run g (produces i ∷ produces i ∷ [])).consumer ≡ false))
unfolding run step produce wait
no_wakeup_lost_example = no_wakeup_lost close_call refl (omega arith)
