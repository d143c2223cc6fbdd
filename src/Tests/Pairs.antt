-- ===== src/Tests/Pairs.antt =====
-- Concrete interleavings for src/runtime/spsc_ring.h, on a ring of two slots.
use raft_rsm.Prelude.{ℕ, ◌≡◌, ◌≤◌, ◌+◌, ◌^◌, ◌↔◌, refl, false, List, [], ◌∷◌, ◌++◌, length, take}
use raft_rsm.Runtime.SpscRing.{
  Event, begins, produces, consumes, peeks, returned, produce, consume, consumer_has_work, step,
  run, init,
}
use raft_rsm.Runtime.SpscRing.Runs.{run_in_order, push_refused_iff}

-- A push of one value.
abbrev pushes : ℕ → List (Event ℕ)
pushes v = begins v ∷ produces ∷ produces ∷ produces ∷ []

-- Two values fill the ring, and a third finds it full.
abbrev full : List (Event ℕ)
full = pushes 7 ++ (pushes 8 ++ begins 9 ∷ produces ∷ [])

-- A pop while the third is refused.
abbrev popping : List (Event ℕ)
popping = full ++ peeks ∷ consumes ∷ produces ∷ consumes ∷ consumes ∷ []

popping_pops : (run (init 1 0) popping).popped ≡ 7 ∷ []
unfolding run step produce consume consumer_has_work init
popping_pops = refl

run_in_order_example :
    let s = run (init 1 0) popping in
    (s.popped ≡ take (length s.popped) s.pushed)
    × (length s.popped ≤ length s.pushed)
    × (length s.pushed ≤ length s.popped + 2 ^ 1)
run_in_order_example = run_in_order 0 0 popping

push_refused_iff_example :
    let s = run (init 1 0) full in
    ((step s produces).producer ≡ returned false) ↔ (length s.pushed ≡ length s.popped + 2 ^ 1)
unfolding run step produce consume consumer_has_work init
push_refused_iff_example = push_refused_iff 0 0 9 full refl
