-- ===== src/Runtime/SpscRing/Moves.antt =====
-- The write, the publishing store and the retiring store of src/runtime/spsc_ring.h.
use native.Mathlib.Decide.{ℕ_discrete}
use raft_rsm.Prelude.{
  ℕ, suc, ◌+◌, ◌%◌, ◌≤◌, ◌<◌, ◌≡◌, ap, sym, subst, ◌∙◌, true, some, [], ◌∷◌, ◌++◌, arith,
  length-append, get_elem?, get_elem?-lt, get_elem?-append_left, get_elem?-append_length, take,
  take-suc, take-append_left, mod_window,
}
use raft_rsm.Runtime.MpscRing.{store}
use raft_rsm.Runtime.MpscRing.Valid.{store_self, store_other}
use raft_rsm.Runtime.SpscRing.{
  SpscRing, Producer, idle, checking, refreshing, writing, publishing, returned, Consumer, waiting,
  reloading, reading, retiring, System,
}
use raft_rsm.Runtime.SpscRing.Valid.{ProducerValid, ConsumerValid, Valid}

module _ {A : Type 0} where
  -- The slot written is none that holds a value.
  write_apart :
      (s : System A)
      → Valid s
      → s.ring.tail < s.ring.head + s.ring.capacity
      → (a : A) (i : ℕ) → s.ring.head ≤ i
      → i < s.ring.tail
      → store s.ring.slot (s.ring.tail % s.ring.capacity) a (i % s.ring.capacity)
        ≡ s.ring.slot (i % s.ring.capacity)
  write_apart s v free a i lo hi =
      store_other s.ring.slot (s.ring.tail % s.ring.capacity) (i % s.ring.capacity) a (
        mod_window s.ring.capacity s.ring.head i s.ring.tail lo (omega arith) (omega arith)
          (omega arith) (λ e. absurd (omega (arith, e))))

  pub writes :
      (s : System A) (a : A)
      → Valid s
      → s.ring.tail < s.ring.head + s.ring.capacity
      → let ring = record s.ring { slot = store s.ring.slot (s.ring.tail % s.ring.capacity) a } in
        Valid (record s { ring = ring; producer = publishing a })
  writes s a v free = record {
    two = v.two;
    counted = v.counted;
    stale_head = v.stale_head;
    ahead = v.ahead;
    stale_tail = v.stale_tail;
    room = v.room;
    held = λ i lo hi. v.held i lo hi ∙ ap some (sym (write_apart s v free a i lo hi));
    giver = (free, store_self s.ring.slot (s.ring.tail % s.ring.capacity) a);
    taker = v.taker;
    fifo = v.fifo;
  }

  -- One more value stays behind what the consumer holds.
  taker_pushed :
      (s : System A) (a : A) (c : Consumer A)
      → ConsumerValid s.ring s.pushed c
      → ConsumerValid (record s.ring { tail = s.ring.tail + 1 }) (s.pushed ++ a ∷ []) c
  taker_pushed s a waiting h = tt
  taker_pushed s a reloading h = tt
  taker_pushed s a reading h = h
  taker_pushed s a (retiring b) h = (
    h.0,
    get_elem?-append_left s.ring.head s.pushed (a ∷ []) (get_elem?-lt s.pushed s.ring.head h.1)
        ∙ h.1,
  )

  pub publishes :
      (s : System A) (a : A)
      → Valid s
      → s.ring.tail < s.ring.head + s.ring.capacity
      → s.ring.slot (s.ring.tail % s.ring.capacity) ≡ a
      → Valid (record s {
        ring = record s.ring { tail = s.ring.tail + 1 };
        producer = returned true;
        pushed = s.pushed ++ a ∷ [];
      })
  publishes s a v free written = record {
    two = v.two;
    counted = omega (arith, v.counted, length-append s.pushed (a ∷ []));
    stale_head = v.stale_head;
    ahead = v.ahead;
    stale_tail = omega (arith, v.stale_tail);
    room = omega arith;
    held = λ i lo hi. elim (ℕ_discrete i s.ring.tail) [
      | yes e ↦
          subst (λ i. get_elem? (s.pushed ++ a ∷ []) i ≡ some (s.ring.slot (i % s.ring.capacity)))
            (sym (e ∙ v.counted))
            (get_elem?-append_length s.pushed [] a
              ∙ ap some (sym written ∙ ap (λ n. s.ring.slot (n % s.ring.capacity)) v.counted))
      | no differ ↦
          get_elem?-append_left i s.pushed (a ∷ []) (omega (arith, v.counted, differ))
          ∙ v.held i lo (omega (arith, differ))
    ];
    giver = tt;
    taker = taker_pushed s a s.consumer v.taker;
    fifo =
        v.fifo
        ∙ sym (
            take-append_left s.ring.head s.pushed (a ∷ [])
              (omega (arith, v.counted, v.ahead, v.stale_tail)));
  }

  -- The producer keeps its room when a slot is retired.
  giver_retired :
      (r : SpscRing A) (p : Producer A)
      → ProducerValid r p
      → ProducerValid (record r { head = r.head + 1 }) p
  giver_retired r idle h = tt
  giver_retired r (checking v) h = tt
  giver_retired r (refreshing v) h = tt
  giver_retired r (writing v) h = omega arith
  giver_retired r (publishing v) h = (omega (arith, h.0), h.1)
  giver_retired r (returned b) h = tt

  pub retires :
      (s : System A) (a : A)
      → Valid s
      → s.ring.head < s.ring.cached_tail
      → get_elem? s.pushed s.ring.head ≡ some a
      → Valid (record s {
        ring = record s.ring { head = s.ring.head + 1 };
        consumer = waiting;
        popped = s.popped ++ a ∷ [];
      })
  retires s a v some_left at = record {
    two = v.two;
    counted = v.counted;
    stale_head = omega (arith, v.stale_head);
    ahead = omega arith;
    stale_tail = v.stale_tail;
    room = omega (arith, v.room);
    held = λ i lo hi. v.held i (omega arith) hi;
    giver = giver_retired s.ring s.producer v.giver;
    taker = tt;
    fifo =
        ap (λ l. l ++ a ∷ []) v.fifo
        ∙ take-suc s.pushed s.ring.head at
        ∙ ap (λ n. take n s.pushed) {x = suc s.ring.head} (omega arith);
  }
