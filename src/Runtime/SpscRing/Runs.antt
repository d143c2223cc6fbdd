-- ===== src/Runtime/SpscRing/Runs.antt =====
-- Any interleaving of the two threads of src/runtime/spsc_ring.h.
use native.Mathlib.Nat.{pow-suc}
use mathlib.Core.Bool.{false≢true}
use raft_rsm.Prelude.{
  ℕ, suc, ◌+◌, ◌^◌, ◌≤◌, ◌<◌, ◌≡◌, ◌↔◌, refl, inl, inr, ap, sym, ◌∙◌, Bool, true, false, List, [],
  ◌∷◌, ◌++◌, arith, ltb→ge, ltb→lt, pow_pos, length, length-take, take, Bool-cases, append-nil,
}
use raft_rsm.Runtime.SpscRing.{
  SpscRing, Producer, idle, checking, refreshing, writing, publishing, returned, Consumer, waiting,
  reloading, reading, retiring, looks_full, looks_empty, produce, consume, consumer_has_work,
  System, is_free, is_waiting, put, got, Event, begins, produces, consumes, peeks, step, run, init,
}
use raft_rsm.Runtime.SpscRing.Valid.{
  ProducerValid, ConsumerValid, Valid, moves, advances, refreshes, reloads,
}
use raft_rsm.Runtime.SpscRing.Moves.{writes, publishes, retires}

abbrev is_writing : {A : Type 0} → Producer A → Bool
is_writing (writing v) = true
is_writing _ = false

module _ {A : Type 0} where
  -- A ring that does not look full, by a copy of the head that may be old, has room.
  looks_full-room :
      (s : System A)
      → Valid s
      → looks_full s.ring ≡ false
      → s.ring.tail < s.ring.head + s.ring.capacity
  looks_full-room s v e = omega (arith, ltb→ge _ _ e, v.two, v.stale_head)

  looks_empty-left :
      (s : System A) → Valid s → looks_empty s.ring ≡ false → s.ring.head < s.ring.cached_tail
  looks_empty-left s v e = let h = v.ahead in grind arith

  produces_from :
      (s : System A) (p : Producer A)
      → Valid s
      → ProducerValid s.ring p
      → let (p', ring) = produce s.ring p in
        Valid (record s { ring = ring; producer = p'; pushed = s.pushed ++ put p })
  unfolding produce
  produces_from s idle v ok = rw append-nil (moves s idle v tt)
  produces_from s (checking a) v ok = rw append-nil (elim (Bool-cases (looks_full s.ring)) [
    | inl full ↦ rw full (moves s (refreshing a) v tt)
    | inr room ↦ rw room (moves s (writing a) v (looks_full-room s v room))
  ])
  produces_from s (refreshing a) v ok =
      let ring = record s.ring { cached_head = s.ring.head } in
      let s' = record s { ring = ring } in
      let v' = refreshes s v in
      rw append-nil (elim (Bool-cases (looks_full ring)) [
        | inl full ↦ rw full (moves s' (returned false) v' tt)
        | inr room ↦ rw room (moves s' (writing a) v' (looks_full-room s' v' room))
      ])
  produces_from s (writing a) v ok = rw append-nil (writes s a v ok)
  produces_from s (publishing a) v ok = publishes s a v ok.0 ok.1
  produces_from s (returned b) v ok = rw append-nil (moves s (returned b) v tt)

  consumes_from :
      (s : System A) (c : Consumer A)
      → Valid s
      → ConsumerValid s.ring s.pushed c
      → let (c', ring) = consume s.ring c in
        Valid (record s { ring = ring; consumer = c'; popped = s.popped ++ got c })
  unfolding consume
  consumes_from s waiting v ok = rw append-nil (elim (Bool-cases (looks_empty s.ring)) [
    | inl empty ↦ rw empty (advances s reloading v tt)
    | inr left ↦ rw left (advances s reading v (looks_empty-left s v left))
  ])
  consumes_from s reloading v ok =
      let ring = record s.ring { cached_tail = s.ring.tail } in
      let s' = record s { ring = ring } in
      let v' = reloads s v in
      rw append-nil (elim (Bool-cases (looks_empty ring)) [
        | inl empty ↦ rw empty (advances s' waiting v' tt)
        | inr left ↦ rw left (advances s' reading v' (looks_empty-left s' v' left))
      ])
  consumes_from s reading v ok = rw append-nil (
      advances s (retiring _) v
        (ok, v.held s.ring.head (omega arith) (omega (arith, v.stale_tail))))
  consumes_from s (retiring a) v ok = retires s a v ok.0 ok.1

  peeks_from :
      (s : System A)
      → Valid s
      → let (b, ring) = consumer_has_work s.ring in Valid (record s { ring = ring })
  unfolding consumer_has_work
  peeks_from s v = elim (Bool-cases (looks_empty s.ring)) [
    | inl empty ↦ rw empty (reloads s v)
    | inr left ↦ rw left v
  ]

  step-Valid : (s : System A) (e : Event A) → Valid s → Valid (step s e)
  unfolding step
  step-Valid s (begins a) v = elim (Bool-cases (is_free s.producer)) [
    | inl free ↦ rw free (moves s (checking a) v tt)
    | inr busy ↦ rw busy v
  ]
  step-Valid s produces v = produces_from s s.producer v v.giver
  step-Valid s consumes v = consumes_from s s.consumer v v.taker
  step-Valid s peeks v = elim (Bool-cases (is_waiting s.consumer)) [
    | inl w ↦ rw w (peeks_from s v)
    | inr busy ↦ rw busy v
  ]

  run-Valid : (s : System A) (es : List (Event A)) → Valid s → Valid (run s es)
  unfolding run
  run-Valid s [] v = v
  run-Valid s (e ∷ es) v = run-Valid (step s e) es (step-Valid s e v)

  produce-capacity : (r : SpscRing A) (p : Producer A) → (produce r p).1.capacity ≡ r.capacity
  unfolding produce
  produce-capacity r idle = refl
  produce-capacity r (checking v) = refl
  produce-capacity r (refreshing v) = refl
  produce-capacity r (writing v) = refl
  produce-capacity r (publishing v) = refl
  produce-capacity r (returned b) = refl

  consume-capacity : (r : SpscRing A) (c : Consumer A) → (consume r c).1.capacity ≡ r.capacity
  unfolding consume
  consume-capacity r waiting = refl
  consume-capacity r reloading = refl
  consume-capacity r reading = refl
  consume-capacity r (retiring v) = refl

  step-capacity : (s : System A) (e : Event A) → (step s e).ring.capacity ≡ s.ring.capacity
  unfolding step consumer_has_work
  step-capacity s (begins v) = ground arith
  step-capacity s produces = produce-capacity s.ring s.producer
  step-capacity s consumes = consume-capacity s.ring s.consumer
  step-capacity s peeks = ground arith

  run-capacity : (s : System A) (es : List (Event A)) → (run s es).ring.capacity ≡ s.ring.capacity
  unfolding run
  run-capacity s [] = refl
  run-capacity s (e ∷ es) = run-capacity (step s e) es ∙ step-capacity s e

  init-Valid : (k : ℕ) (a : A) → Valid (init (suc k) a)
  unfolding init
  init-Valid k a = record {
    two = omega (arith, pow-suc 2 k, pow_pos k);
    counted = refl;
    stale_head = omega arith;
    ahead = omega arith;
    stale_tail = omega arith;
    room = omega arith;
    held = λ p lo hi. absurd (omega arith);
    giver = tt;
    taker = tt;
    fifo = refl;
  }

  length-popped : (s : System A) → Valid s → length s.popped ≡ s.ring.head
  length-popped s v =
      ap length v.fifo
      ∙ length-take s.ring.head s.pushed
      ∙ omega (arith, v.counted, v.ahead, v.stale_tail)

  -- Whatever the two threads interleave, the values that the consumer of a ring of at least two slots
  -- got are the first of those that were published, each once and in that order, and the ring holds
  -- no more values than its capacity.
  pub run_in_order :
      (k : ℕ) (a : A) (es : List (Event A))
      → let s = run (init (suc k) a) es in
        (s.popped ≡ take (length s.popped) s.pushed)
        × (length s.popped ≤ length s.pushed)
        × (length s.pushed ≤ length s.popped + 2 ^ suc k)
  unfolding init
  run_in_order k a es =
      let s = run (init (suc k) a) es in
      let v = run-Valid (init (suc k) a) es (init-Valid k a) in
      let n = length-popped s v in
      (
        v.fifo ∙ ap (λ n. take n s.pushed) (sym n),
        omega (arith, n, v.counted, v.ahead, v.stale_tail),
        omega (arith, n, v.counted, v.room, run-capacity (init (suc k) a) es),
      )

  -- In a state that the two threads reach, a push that loads the head is refused by its next step
  -- exactly if as many values as there are slots are published and not taken.
  pub push_refused_iff :
      (k : ℕ) (a b : A) (es : List (Event A))
      → (run (init (suc k) a) es).producer ≡ refreshing b
      → let s = run (init (suc k) a) es in
        ((step s produces).producer ≡ returned false)
        ↔ (length s.pushed ≡ length s.popped + 2 ^ suc k)
  unfolding init step produce
  push_refused_iff k a b es e =
      let s = run (init (suc k) a) es in
      let v = run-Valid (init (suc k) a) es (init-Valid k a) in
      let n = length-popped s v in
      let c = run-capacity (init (suc k) a) es in
      rw e (elim (Bool-cases (looks_full (record s.ring { cached_head = s.ring.head }))) [
        | inl full ↦
            rw full
              ((λ r. omega (arith, n, c, v.counted, v.room, v.two, ltb→lt _ _ full)), (λ h. refl))
        | inr room ↦ rw room (
          (λ r. absurd (false≢true (sym (ap is_writing r)))),
          (λ h. absurd (omega (arith, n, c, v.counted, v.two, ltb→ge _ _ room))),
        )
      ])
