-- ===== src/Runtime/WakeGate/Wakes.antt =====
-- Wake-ups at the gate of src/runtime/wake_gate.h.
use mathlib.Core.Bool.{false≢true}
use raft_rsm.Prelude.{
  ℕ, ◌<◌, ◌≡◌, refl, ap, sym, ◌∙◌, ◌⊎◌, inl, inr, Bool, true, false, List, [], ◌∷◌, arith, ◌==◌,
  ==_iff, if◌then◌else◌, Bool-cases, add64, sub64, u64_mod,
}
use raft_rsm.Runtime.MpscRing.{store}
use raft_rsm.Runtime.MpscRing.Valid.{store_self}
use raft_rsm.Runtime.WakeGate.{
  epoch_inc, waiters, epoch, Producer, idle, bumping, notifying, Consumer, away, leaving,
  registered, locking, tests_epoch, tests_work, dozing, asleep, WakeGate, holds_lock, woken,
  produce, wait, expired, is_away, Event, produces, waits, expires, takes, step, run, is_pending,
}

-- The number of waiters.
abbrev pub present : Consumer → ℕ
present away = 0
present _ = 1

-- The consumer has seen no work and goes to sleep, or sleeps.
abbrev pub rests : Consumer → Bool
rests (dozing e) = true
rests (asleep e) = true
rests _ = false

pub record Valid (g : WakeGate) : Type 0 where
  pub small : g.state < u64_mod
  pub counted : waiters g.state ≡ present g.consumer
  pub watched :
      rests g.consumer ≡ true → (g.work ≡ 0) ⊎ ((i : ℕ) × (is_pending (g.producers i) ≡ true))

add-waiters : (s : ℕ) → waiters (add64 s epoch_inc) ≡ waiters s
add-waiters s = omega arith

register-waiters : (s : ℕ) → waiters s ≡ 0 → waiters (add64 s 1) ≡ 1
register-waiters s e = omega arith

leave-waiters : (s : ℕ) → s < u64_mod → waiters s ≡ 1 → waiters (sub64 s 1) ≡ 0
leave-waiters s h e = omega arith

sub-small : (s : ℕ) → sub64 s 1 < u64_mod
sub-small s = omega arith

add-small : (s n : ℕ) → add64 s n < u64_mod
add-small s n = omega arith

-- The producer that moves is pending.
still_watched :
    (g : WakeGate) (i : ℕ) (p : Producer)
    → is_pending p ≡ true
    → (j : ℕ) × (is_pending (store g.producers i p j) ≡ true)
still_watched g i p h = (i, ap is_pending (store_self g.producers i p) ∙ h)

present-rests : (c : Consumer) → rests c ≡ true → present c ≡ 1
present-rests away h = absurd (false≢true h)
present-rests leaving h = refl
present-rests (registered e) h = refl
present-rests (locking e) h = refl
present-rests (tests_epoch e) h = refl
present-rests (tests_work e) h = refl
present-rests (dozing e) h = refl
present-rests (asleep e) h = refl

present-woken : (c : Consumer) → present (woken c) ≡ present c
present-woken away = refl
present-woken leaving = refl
present-woken (registered e) = refl
present-woken (locking e) = refl
present-woken (tests_epoch e) = refl
present-woken (tests_work e) = refl
present-woken (dozing e) = refl
present-woken (asleep e) = refl

-- Who does not hold the lock does not rest once woken.
rests-woken : (c : Consumer) → holds_lock c ≡ false → rests (woken c) ≡ false
rests-woken away h = refl
rests-woken leaving h = refl
rests-woken (registered e) h = refl
rests-woken (locking e) h = refl
rests-woken (tests_epoch e) h = refl
rests-woken (tests_work e) h = refl
rests-woken (dozing e) h = absurd (false≢true (sym h))
rests-woken (asleep e) h = refl

-- A bump that sees a waiter leaves its producer pending.
bump_watched :
    (g : WakeGate) (i : ℕ)
    → Valid g
    → rests g.consumer ≡ true
    → is_pending (if waiters g.state == 0 then idle else notifying) ≡ true
bump_watched g i v r =
    let w : (waiters g.state == 0) ≡ false =
      ground (arith, v.counted, present-rests g.consumer r) in
    rw w refl

produces-Valid :
    (g : WakeGate) (i : ℕ) (p : Producer) → g.producers i ≡ p → Valid g → Valid (produce g i p)
unfolding produce
produces-Valid g i idle at v = record {
  small = v.small;
  counted = v.counted;
  watched = λ r. inr (still_watched g i bumping refl);
}
produces-Valid g i bumping at v = record {
  small = add-small g.state epoch_inc;
  counted = add-waiters g.state ∙ v.counted;
  watched = λ r. inr (still_watched g i _ (bump_watched g i v r));
}
produces-Valid g i notifying at v = elim (Bool-cases (holds_lock g.consumer)) [
  | inl locked ↦ rw locked v
  | inr free ↦ rw free (record {
    small = v.small;
    counted = v.counted ∙ sym (present-woken g.consumer);
    watched = λ r. absurd (false≢true (sym (rests-woken g.consumer free) ∙ r));
  })
]

-- The consumer gets to a state of the same presence, in which it rests only if there is no work.
moves :
    (g : WakeGate) (c : Consumer)
    → Valid g
    → present c ≡ present g.consumer
    → (rests c ≡ true → (g.work ≡ 0) ⊎ ((i : ℕ) × (is_pending (g.producers i) ≡ true)))
    → Valid (record g { consumer = c })
moves g c v same watch = record { small = v.small; counted = v.counted ∙ sym same; watched = watch }

-- The same of a state in which it does not rest.
walks :
    (g : WakeGate) (c : Consumer)
    → Valid g
    → present c ≡ present g.consumer
    → rests c ≡ false
    → Valid (record g { consumer = c })
walks g c v same off = moves g c v same (λ r. absurd (false≢true (sym off ∙ r)))

stays : (g : WakeGate) (c : Consumer) → Valid g → g.consumer ≡ c → Valid (record g { consumer = c })
stays g c v at = moves g c v (sym (ap present at)) (λ r. v.watched (ap rests at ∙ r))

waits-Valid : (g : WakeGate) (c : Consumer) → g.consumer ≡ c → Valid g → Valid (wait g c)
unfolding wait
waits-Valid g away at v = record {
  small = add-small g.state 1;
  counted = register-waiters g.state (v.counted ∙ ap present at);
  watched = λ r. absurd (false≢true r);
}
waits-Valid g (registered e) at v = elim (Bool-cases (g.work == 0)) [
  | inl nothing ↦ rw nothing (walks g (locking e) v (sym (ap present at)) refl)
  | inr work ↦ rw work (walks g leaving v (sym (ap present at)) refl)
]
waits-Valid g (locking e) at v = walks g (tests_epoch e) v (sym (ap present at)) refl
waits-Valid g (tests_epoch e) at v = elim (Bool-cases (epoch g.state == e)) [
  | inl same ↦ rw same (walks g (tests_work e) v (sym (ap present at)) refl)
  | inr new ↦ rw new (walks g leaving v (sym (ap present at)) refl)
]
waits-Valid g (tests_work e) at v = elim (Bool-cases (g.work == 0)) [
  | inl nothing ↦
      rw nothing
        (moves g (dozing e) v (sym (ap present at)) (λ r. inl ((==_iff g.work 0).0 nothing)))
  | inr work ↦ rw work (walks g leaving v (sym (ap present at)) refl)
]
waits-Valid g (dozing e) at v =
    moves g (asleep e) v (sym (ap present at)) (λ r. v.watched (ap rests at))
waits-Valid g (asleep e) at v = v
waits-Valid g leaving at v = record {
  small = sub-small g.state;
  counted = leave-waiters g.state v.small (v.counted ∙ ap present at);
  watched = λ r. absurd (false≢true r);
}

expires-Valid :
    (g : WakeGate) (c : Consumer)
    → g.consumer ≡ c
    → Valid g
    → Valid (record g { consumer = expired c })
expires-Valid g (asleep e) at v = walks g leaving v (sym (ap present at)) refl
expires-Valid g away at v = stays g away v at
expires-Valid g leaving at v = stays g leaving v at
expires-Valid g (registered e) at v = stays g (registered e) v at
expires-Valid g (locking e) at v = stays g (locking e) v at
expires-Valid g (tests_epoch e) at v = stays g (tests_epoch e) v at
expires-Valid g (tests_work e) at v = stays g (tests_work e) v at
expires-Valid g (dozing e) at v = stays g (dozing e) v at

away-rests : (c : Consumer) → is_away c ≡ true → rests c ≡ false
away-rests away h = refl
away-rests leaving h = refl
away-rests (registered e) h = refl
away-rests (locking e) h = refl
away-rests (tests_epoch e) h = refl
away-rests (tests_work e) h = refl
away-rests (dozing e) h = absurd (false≢true h)
away-rests (asleep e) h = absurd (false≢true h)

step-Valid : (g : WakeGate) (e : Event) → Valid g → Valid (step g e)
unfolding step
step-Valid g (produces i) v = produces-Valid g i (g.producers i) refl v
step-Valid g waits v = waits-Valid g g.consumer refl v
step-Valid g expires v = expires-Valid g g.consumer refl v
step-Valid g takes v = elim (Bool-cases (is_away g.consumer)) [
  | inl out ↦ rw out (record {
    small = v.small;
    counted = v.counted;
    watched = λ r. absurd (false≢true (sym (away-rests g.consumer out) ∙ r));
  })
  | inr busy ↦ rw busy v
]

pub run-Valid : (g : WakeGate) (es : List Event) → Valid g → Valid (run g es)
unfolding run
run-Valid g [] v = v
run-Valid g (e ∷ es) v = run-Valid (step g e) es (step-Valid g e v)
