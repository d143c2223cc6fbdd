-- ===== src/Runtime/SpscRing/Valid.antt =====
-- What holds between the steps of the two threads of src/runtime/spsc_ring.h.
use raft_rsm.Prelude.{ℕ, ◌+◌, ◌%◌, ◌≤◌, ◌<◌, ◌≡◌, some, List, arith, length, get_elem?, take}
use raft_rsm.Runtime.SpscRing.{
  SpscRing, Producer, writing, publishing, Consumer, waiting, reloading, reading, retiring, System,
}

module _ {A : Type 0} where
  -- A producer that writes has room, and one that publishes has written.
  abbrev pub ProducerValid : SpscRing A → Producer A → Type 0
  ProducerValid r (writing v) = r.tail < r.head + r.capacity
  ProducerValid r (publishing v) =
      (r.tail < r.head + r.capacity) × (r.slot (r.tail % r.capacity) ≡ v)
  ProducerValid r _ = Unit

  -- A consumer that reads has a value, and one that retires has the first one.
  abbrev pub ConsumerValid : SpscRing A → List A → Consumer A → Type 0
  ConsumerValid r pushed reading = r.head < r.cached_tail
  ConsumerValid r pushed (retiring v) =
      (r.head < r.cached_tail) × (get_elem? pushed r.head ≡ some v)
  ConsumerValid r pushed _ = Unit

  pub record Valid (s : System A) : Type 0 where
    pub two : 2 ≤ s.ring.capacity
    pub counted : s.ring.tail ≡ length s.pushed
    pub stale_head : s.ring.cached_head ≤ s.ring.head
    pub ahead : s.ring.head ≤ s.ring.cached_tail
    pub stale_tail : s.ring.cached_tail ≤ s.ring.tail
    pub room : s.ring.tail ≤ s.ring.head + s.ring.capacity
    pub held :
        (i : ℕ)
        → s.ring.head ≤ i
        → i < s.ring.tail
        → get_elem? s.pushed i ≡ some (s.ring.slot (i % s.ring.capacity))
    pub giver : ProducerValid s.ring s.producer
    pub taker : ConsumerValid s.ring s.pushed s.consumer
    pub fifo : s.popped ≡ take s.ring.head s.pushed

  -- A producer moves on without a change of what is shared.
  pub moves :
      (s : System A) (p : Producer A)
      → Valid s
      → ProducerValid s.ring p
      → Valid (record s { producer = p })
  moves s p v ok = record {
    two = v.two;
    counted = v.counted;
    stale_head = v.stale_head;
    ahead = v.ahead;
    stale_tail = v.stale_tail;
    room = v.room;
    held = v.held;
    giver = ok;
    taker = v.taker;
    fifo = v.fifo;
  }

  -- The same of the consumer.
  pub advances :
      (s : System A) (c : Consumer A)
      → Valid s
      → ConsumerValid s.ring s.pushed c
      → Valid (record s { consumer = c })
  advances s c v ok = record {
    two = v.two;
    counted = v.counted;
    stale_head = v.stale_head;
    ahead = v.ahead;
    stale_tail = v.stale_tail;
    room = v.room;
    held = v.held;
    giver = v.giver;
    taker = ok;
    fifo = v.fifo;
  }

  -- The copy of the head is loaded again.
  pub refreshes :
      (s : System A)
      → Valid s
      → Valid (record s { ring = record s.ring { cached_head = s.ring.head } })
  refreshes s v = record {
    two = v.two;
    counted = v.counted;
    stale_head = omega arith;
    ahead = v.ahead;
    stale_tail = v.stale_tail;
    room = v.room;
    held = v.held;
    giver = v.giver;
    taker = v.taker;
    fifo = v.fifo;
  }

  taker_reloaded :
      (r : SpscRing A) (pushed : List A) (c : Consumer A)
      → r.cached_tail ≤ r.tail
      → ConsumerValid r pushed c
      → ConsumerValid (record r { cached_tail = r.tail }) pushed c
  taker_reloaded r pushed waiting le h = tt
  taker_reloaded r pushed reloading le h = tt
  taker_reloaded r pushed reading le h = omega arith
  taker_reloaded r pushed (retiring v) le h = (omega (arith, h.0), h.1)

  -- The copy of the tail is loaded again.
  pub reloads :
      (s : System A)
      → Valid s
      → Valid (record s { ring = record s.ring { cached_tail = s.ring.tail } })
  reloads s v = record {
    two = v.two;
    counted = v.counted;
    stale_head = v.stale_head;
    ahead = omega (arith, v.ahead, v.stale_tail);
    stale_tail = omega arith;
    room = v.room;
    held = v.held;
    giver = v.giver;
    taker = taker_reloaded s.ring s.pushed s.consumer v.stale_tail v.taker;
    fifo = v.fifo;
  }
