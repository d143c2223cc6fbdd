-- ===== src/Runtime/MpscRing/Consumes.antt =====
-- The steps of the consumer of src/runtime/mpsc_ring.h keep the ring valid.
use native.Mathlib.Decide.{dec_lt, ℕ_discrete}
use native.Mathlib.Nat.{add-mod_right}
use raft_rsm.Prelude.{
  ℕ, suc, ◌+◌, ◌%◌, ◌≤◌, ◌<◌, ◌≡◌, ◌≢◌, inl, inr, ap, subst, ◌∙◌, true, some, [], ◌∷◌, ◌++◌, arith,
  ==_iff, get_elem?, take, take-suc, Bool-cases, append-nil,
}
use raft_rsm.Runtime.MpscRing.{
  MpscRing, store, Producer, idle, looking, claiming, writing, publishing, returned, Consumer,
  waiting, reading, recycling, System, consumer_has_work, consume, got, step, consumes,
}
use raft_rsm.Runtime.MpscRing.Valid.{
  store_self, store_other, Claim, ProducerValid, ConsumerValid, Ready, Valid,
}
use raft_rsm.Runtime.MpscRing.Publishes.{cells_apart}

module _ {A : Type 0} where
  -- The consumer's own cell is published only within the window.
  has_work-Ready :
      (s : System A) → Valid s → consumer_has_work s.ring ≡ true → Ready s.ring s.claimed
  has_work-Ready s v h =
      let published : s.ring.seq (s.ring.dequeue_pos % s.ring.capacity) ≡ s.ring.dequeue_pos + 1 =
        (==_iff _ _).0 h in
      elim (dec_lt s.ring.dequeue_pos s.ring.enqueue_pos) [
        | yes lt ↦ (lt, published)
        | no ge ↦ absurd (
            omega
              (arith, v.free s.ring.dequeue_pos (omega arith) (omega (arith, v.two)), published))
      ]

  Ready-value :
      (s : System A)
      → Valid s
      → Ready s.ring s.claimed
      → get_elem? s.claimed s.ring.dequeue_pos
        ≡ some (s.ring.value (s.ring.dequeue_pos % s.ring.capacity))
  Ready-value s v r = elim (v.held s.ring.dequeue_pos (omega arith) r.0) [
    | inl (j, owner, seq) ↦ absurd (omega (arith, seq, r.1))
    | inr (seq, value) ↦ value
  ]

  -- The ring after the recycling store.
  abbrev recycled : MpscRing A → MpscRing A
  recycled r = record r {
    seq = store r.seq (r.dequeue_pos % r.capacity) (r.dequeue_pos + r.capacity);
    dequeue_pos = r.dequeue_pos + 1;
  }

  module _ (s : System A) (v : Valid s) (ready : Ready s.ring s.claimed) where
    kept :
        (q : ℕ)
        → s.ring.dequeue_pos ≤ q
        → q < s.ring.dequeue_pos + s.ring.capacity
        → s.ring.dequeue_pos ≢ q
        → (recycled s.ring).seq (q % s.ring.capacity) ≡ s.ring.seq (q % s.ring.capacity)
    kept q lo hi h =
        store_other s.ring.seq (s.ring.dequeue_pos % s.ring.capacity) (q % s.ring.capacity) _
          (cells_apart s s.ring.dequeue_pos q (omega arith) (omega (arith, v.two)) lo hi h)

    Claim-recycled :
        (q : ℕ) (b : A) → Claim s.ring s.claimed q b → Claim (recycled s.ring) s.claimed q b
    Claim-recycled q b c =
        let differ : s.ring.dequeue_pos ≢ q = λ e.
          absurd (omega (arith, c.seq, ready.1, ap (λ p. s.ring.seq (p % s.ring.capacity)) e)) in
        record {
          low = omega (arith, c.low, differ);
          high = c.high;
          seq = kept q c.low (omega (arith, c.high, v.room)) differ ∙ c.seq;
          at = c.at;
        }

    ProducerValid-recycled :
        (p : Producer A)
        → ProducerValid s.ring s.claimed p
        → ProducerValid (recycled s.ring) s.claimed p
    ProducerValid-recycled idle h = tt
    ProducerValid-recycled (returned b) h = tt
    ProducerValid-recycled (looking q b) h = h
    ProducerValid-recycled (claiming q b) h = (h.0, λ k. omega (arith, h.1 k))
    ProducerValid-recycled (writing q b) h = Claim-recycled q b h
    ProducerValid-recycled (publishing q b) h = (Claim-recycled q b h.0, h.1)

    recycles :
        (a : A)
        → get_elem? s.claimed s.ring.dequeue_pos ≡ some a
        → Valid
            (record s { ring = recycled s.ring; consumer = waiting; popped = s.popped ++ a ∷ [] })
    recycles a at = record {
      two = v.two;
      counted = v.counted;
      behind = omega (arith, ready.0);
      room = omega (arith, v.room);
      free = λ q lo hi. elim (ℕ_discrete (s.ring.dequeue_pos + s.ring.capacity) q) [
        | yes e ↦
            subst (λ q. (recycled s.ring).seq (q % s.ring.capacity) ≡ q) e
              (rw (add-mod_right s.ring.dequeue_pos s.ring.capacity)
                (store_self s.ring.seq (s.ring.dequeue_pos % s.ring.capacity) _))
        | no differ ↦
            kept q (omega arith) (omega arith) (λ e. absurd (omega (arith, e, ready.0)))
            ∙ v.free q lo (omega arith)
      ];
      held = λ q lo hi.
          let same =
            kept q (omega arith) (omega (arith, v.room)) (λ e. absurd (omega (arith, e))) in
          elim (v.held q (omega arith) hi) [
            | inl (j, owner, seq) ↦ inl (j, owner, same ∙ seq)
            | inr (seq, value) ↦ inr (same ∙ seq, value)
          ];
      each = λ j. ProducerValid-recycled (s.producers j) (v.each j);
      alone = v.alone;
      taker = tt;
      fifo =
          ap (λ l. l ++ a ∷ []) v.fifo
          ∙ take-suc s.claimed s.ring.dequeue_pos at
          ∙ ap (λ n. take n s.claimed) {x = suc s.ring.dequeue_pos} (omega arith);
    }

  -- The consumer gets on without a change of the ring.
  advances :
      (s : System A) (c : Consumer A)
      → Valid s
      → ConsumerValid s.ring s.claimed c
      → Valid (record s { consumer = c })
  advances s c v ok = record {
    two = v.two;
    counted = v.counted;
    behind = v.behind;
    room = v.room;
    free = v.free;
    held = v.held;
    each = v.each;
    alone = v.alone;
    taker = ok;
    fifo = v.fifo;
  }

  consumes_from :
      (s : System A) (c : Consumer A)
      → Valid s
      → ConsumerValid s.ring s.claimed c
      → let (c', ring) = consume s.ring c in
        Valid (record s { ring = ring; consumer = c'; popped = s.popped ++ got c })
  unfolding consume
  consumes_from s waiting v ok = rw append-nil (elim (Bool-cases (consumer_has_work s.ring)) [
    | inl work ↦ rw work (advances s reading v (has_work-Ready s v work))
    | inr none_yet ↦ rw none_yet (advances s waiting v tt)
  ])
  consumes_from s reading v ok = rw append-nil (
      advances s (recycling (s.ring.value (s.ring.dequeue_pos % s.ring.capacity))) v
        (ok, Ready-value s v ok))
  consumes_from s (recycling a) v ok = recycles s v ok.0 a ok.1

  -- A step of the consumer.
  pub consumes-Valid : (s : System A) → Valid s → Valid (step s consumes)
  unfolding step
  consumes-Valid s v = consumes_from s s.consumer v v.taker
