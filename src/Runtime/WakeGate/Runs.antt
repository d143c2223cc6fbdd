-- ===== src/Runtime/WakeGate/Runs.antt =====
-- Runs of the consumer and the producers at the gate of src/runtime/wake_gate.h.
use mathlib.Core.Bool.{false≢true}
use mathlib.Core.Logic.{◌≢◌}
use raft_rsm.Prelude.{ℕ, ◌≡◌, refl, ap, ◌⊎◌, inl, inr, true, false, List, [], ◌∷◌, arith, ◌==◌}
use raft_rsm.Runtime.MpscRing.Valid.{store_self}
use raft_rsm.Runtime.WakeGate.{
  waiters, Producer, idle, bumping, notifying, Consumer, away, leaving, registered, locking,
  tests_epoch, tests_work, dozing, asleep, WakeGate, produce, Event, produces, step, run, gate,
  sleeps, is_pending,
}
use raft_rsm.Runtime.WakeGate.Wakes.{Valid, present, run-Valid}

asleep_in : (c : Consumer) → sleeps c ≡ true → (e : ℕ) × (c ≡ asleep e)
asleep_in away h = absurd (false≢true h)
asleep_in leaving h = absurd (false≢true h)
asleep_in (registered e) h = absurd (false≢true h)
asleep_in (locking e) h = absurd (false≢true h)
asleep_in (tests_epoch e) h = absurd (false≢true h)
asleep_in (tests_work e) h = absurd (false≢true h)
asleep_in (dozing e) h = absurd (false≢true h)
asleep_in (asleep e) h = (e, refl)

-- A producer that notifies wakes a consumer that sleeps.
notify_wakes :
    (g : WakeGate) (i e : ℕ)
    → g.consumer ≡ asleep e
    → g.producers i ≡ notifying
    → sleeps (step g (produces i)).consumer ≡ false
unfolding step produce
notify_wakes g i e at p = rw (p, at) refl

module _ (g : WakeGate) (v : Valid g) (i e : ℕ) (at : g.consumer ≡ asleep e) where
  bumped_sleeps : g.producers i ≡ bumping → (step g (produces i)).consumer ≡ asleep e
  unfolding step produce
  bumped_sleeps p = rw p at

  bumped_notifies : g.producers i ≡ bumping → (step g (produces i)).producers i ≡ notifying
  unfolding step produce
  bumped_notifies p =
      let w : (waiters g.state == 0) ≡ false = ground (arith, v.counted, ap present at) in
      rw (p, w) (store_self g.producers i notifying)

  wakes_from :
      (p : Producer)
      → g.producers i ≡ p
      → is_pending p ≡ true
      → (sleeps (run g (produces i ∷ [])).consumer ≡ false)
        ⊎ (sleeps (run g (produces i ∷ produces i ∷ [])).consumer ≡ false)
  unfolding run
  wakes_from idle h on = absurd (false≢true on)
  wakes_from bumping h on =
      inr (notify_wakes (step g (produces i)) i e (bumped_sleeps h) (bumped_notifies h))
  wakes_from notifying h on = inl (notify_wakes g i e at h)

-- No wake-up is lost: in a state that the threads reach, if there is work and the consumer sleeps,
-- then one or two more accesses of a producer that has not finished to notify wake it.
pub no_wakeup_lost :
    (es : List Event)
    → sleeps (run gate es).consumer ≡ true
    → (run gate es).work ≢ 0
    → let g = run gate es in
      (i : ℕ) × (is_pending (g.producers i) ≡ true)
      × ((sleeps (run g (produces i ∷ [])).consumer ≡ false)
          ⊎ (sleeps (run g (produces i ∷ produces i ∷ [])).consumer ≡ false))
no_wakeup_lost es s w =
    let g = run gate es in
    let fresh : Valid gate = record {
      small = omega arith;
      counted = refl;
      watched = λ r. absurd (false≢true r);
    } in
    let v = run-Valid gate es fresh in
    let (e, at) = asleep_in g.consumer s in
    elim (v.watched (rw at refl)) [
      | inl nothing ↦ absurd (w nothing)
      | inr (i, on) ↦ (i, on, wakes_from g v i e at (g.producers i) refl on)
    ]
