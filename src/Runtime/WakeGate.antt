-- ===== src/Runtime/WakeGate.antt =====
-- src/runtime/wake_gate.h: the gate that a consumer sleeps at, as the steps of one consumer and any
-- number of producers. Work is what the producers made visible and the consumer has not taken.
pub mod Wakes
pub mod Runs
use raft_rsm.Prelude.{
  ℕ, suc, ◌+◌, ◌-◌, ◌/◌, ◌%◌, ◌^◌, Bool, true, false, not, List, [], ◌∷◌, ◌==◌, if◌then◌else◌,
  add64, sub64,
}
use raft_rsm.Runtime.MpscRing.{store}

-- `kEpochInc`.
abbrev pub epoch_inc : ℕ
epoch_inc = 2 ^ 32

abbrev pub waiters : ℕ → ℕ
waiters state = state % 2 ^ 32

abbrev pub epoch : ℕ → ℕ
epoch state = state / 2 ^ 32

-- Where a producer is: before its work is visible, before the read-modify-write of `notify`, or
-- before the lock that it notifies under.
pub data Producer : Type 0 where
  idle bumping notifying : Producer

-- Where the consumer is within `waitUntil`, with the epoch that it registered in: outside, before the
-- first look at the work, before the lock, before the predicate's load of the epoch and its look
-- at the work, both with the lock, before it sleeps, asleep without the lock, and before it leaves.
pub data Consumer : Type 0 where
  away leaving : Consumer
  registered locking tests_epoch tests_work dozing asleep : ℕ → Consumer

pub record WakeGate : Type 0 where
  pub state : ℕ
  pub work : ℕ
  pub producers : ℕ → Producer
  pub consumer : Consumer

abbrev pub holds_lock : Consumer → Bool
holds_lock (tests_epoch e) = true
holds_lock (tests_work e) = true
holds_lock (dozing e) = true
holds_lock _ = false

-- `notify_all`.
abbrev pub woken : Consumer → Consumer
woken (asleep e) = locking e
woken c = c

-- A producer's next access. To notify it needs the lock.
unfoldable pub produce : WakeGate → ℕ → Producer → WakeGate
produce g i idle = record g { work = suc g.work; producers = store g.producers i bumping }
produce g i bumping = record g {
  state = add64 g.state epoch_inc;
  producers = store g.producers i (if waiters g.state == 0 then idle else notifying);
}
produce g i notifying =
    if holds_lock g.consumer
    then g
    else record g { consumer = woken g.consumer; producers = store g.producers i idle }

-- The consumer's next access. While it sleeps it makes none.
unfoldable pub wait : WakeGate → Consumer → WakeGate
wait g away = record g { state = add64 g.state 1; consumer = registered (epoch g.state) }
wait g (registered e) = record g { consumer = if g.work == 0 then locking e else leaving }
wait g (locking e) = record g { consumer = tests_epoch e }
wait g (tests_epoch e) = record g {
  consumer = if epoch g.state == e then tests_work e else leaving;
}
wait g (tests_work e) = record g { consumer = if g.work == 0 then dozing e else leaving }
wait g (dozing e) = record g { consumer = asleep e }
wait g (asleep e) = g
wait g leaving = record g { state = sub64 g.state 1; consumer = away }

-- The deadline passes, or the cap of the park.
abbrev pub expired : Consumer → Consumer
expired (asleep e) = leaving
expired c = c

abbrev pub is_away : Consumer → Bool
is_away away = true
is_away _ = false

-- The producer has not finished to notify.
abbrev pub is_pending : Producer → Bool
is_pending idle = false
is_pending _ = true

abbrev pub sleeps : Consumer → Bool
sleeps (asleep e) = true
sleeps _ = false

-- A producer's access, the consumer's, a deadline, or an item that the consumer takes outside.
pub data Event : Type 0 where
  produces : ℕ → Event
  waits expires takes : Event

unfoldable pub step : WakeGate → Event → WakeGate
step g (produces i) = produce g i (g.producers i)
step g waits = wait g g.consumer
step g expires = record g { consumer = expired g.consumer }
step g takes = if is_away g.consumer then record g { work = g.work - 1 } else g

unfoldable pub run : WakeGate → List Event → WakeGate
run g [] = g
run g (e ∷ es) = run (step g e) es

abbrev pub gate : WakeGate
gate = record { state = 0; work = 0; producers = λ i. idle; consumer = away }
