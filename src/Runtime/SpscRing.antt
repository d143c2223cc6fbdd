-- ===== src/Runtime/SpscRing.antt =====
-- src/runtime/spsc_ring.h: the bounded ring of one producer and one consumer, as the steps that the
-- two threads interleave. A step makes at most one access to what they share. Positions stay below
-- 2 ^ 64.
pub mod Valid
pub mod Moves
pub mod Runs
use raft_rsm.Prelude.{
  ℕ, zero, suc, ◌+◌, ◌-◌, ◌%◌, ◌^◌, Bool, true, false, not, List, [], ◌∷◌, ◌++◌, ltb, ◌==◌,
  if◌then◌else◌,
}
use raft_rsm.Runtime.MpscRing.{store}

-- The slots, each side's position, and each side's copy of the other's.
pub record SpscRing (A : Type 0) : Type 0 where
  pub capacity : ℕ
  pub slot : ℕ → A
  pub tail : ℕ
  pub cached_head : ℕ
  pub head : ℕ
  pub cached_tail : ℕ

-- Where the producer is within `tryPush`, or `tryProduce`, which fills the slot in place: before
-- the test of the cached head, before the load of the head, before the write of the slot, before
-- the publishing store, or returned.
pub data Producer (A : Type 0) : Type 0 where
  idle : Producer A
  checking refreshing writing publishing : A → Producer A
  returned : Bool → Producer A

-- Where the consumer is within `tryPop`, or `tryConsume`, which uses the slot in place: before the
-- test of the cached tail, before the load of the tail, before the move out, before the retiring
-- store.
pub data Consumer (A : Type 0) : Type 0 where
  waiting reloading reading : Consumer A
  retiring : A → Consumer A

module _ {A : Type 0} where
  -- `index & mask_`: the capacity is a power of two.
  abbrev pub slot_at : SpscRing A → ℕ → ℕ
  slot_at r pos = pos % r.capacity

  -- `tail - cachedHead_ > mask_`.
  abbrev pub looks_full : SpscRing A → Bool
  looks_full r = ltb (r.capacity - 1) (r.tail - r.cached_head)

  abbrev pub looks_empty : SpscRing A → Bool
  looks_empty r = r.head == r.cached_tail

  -- The producer's next access.
  unfoldable pub produce : SpscRing A → Producer A → Producer A × SpscRing A
  produce r idle = (idle, r)
  produce r (checking v) = ((if looks_full r then refreshing v else writing v), r)
  produce r (refreshing v) =
      let r' = record r { cached_head = r.head } in
      ((if looks_full r' then returned false else writing v), r')
  produce r (writing v) = (publishing v, record r { slot = store r.slot (slot_at r r.tail) v })
  produce r (publishing v) = (returned true, record r { tail = r.tail + 1 })
  produce r (returned b) = (returned b, r)

  -- The consumer's next access. A call that finds no work returns at once.
  unfoldable pub consume : SpscRing A → Consumer A → Consumer A × SpscRing A
  consume r waiting = ((if looks_empty r then reloading else reading), r)
  consume r reloading =
      let r' = record r { cached_tail = r.tail } in
      ((if looks_empty r' then waiting else reading), r')
  consume r reading = (retiring (r.slot (slot_at r r.head)), r)
  consume r (retiring v) = (waiting, record r { head = r.head + 1 })

  -- `consumerHasWork`.
  unfoldable pub consumer_has_work : SpscRing A → Bool × SpscRing A
  consumer_has_work r =
      let r' = record r { cached_tail = r.tail } in
      if not (looks_empty r) then (true, r) else (not (looks_empty r'), r')

-- The ring with its threads. Beside it, the values that were published and those that the consumer
-- got, in order.
pub record System (A : Type 0) : Type 0 where
  pub ring : SpscRing A
  pub producer : Producer A
  pub consumer : Consumer A
  pub pushed : List A
  pub popped : List A

-- The producer may begin a push.
abbrev pub is_free : {A : Type 0} → Producer A → Bool
is_free idle = true
is_free (returned b) = true
is_free _ = false

-- The consumer may look for work.
abbrev pub is_waiting : {A : Type 0} → Consumer A → Bool
is_waiting waiting = true
is_waiting _ = false

-- The value that a publishing producer adds.
abbrev pub put : {A : Type 0} → Producer A → List A
put (publishing v) = v ∷ []
put _ = []

-- The value that a retiring consumer returns.
abbrev pub got : {A : Type 0} → Consumer A → List A
got (retiring v) = v ∷ []
got _ = []

-- The producer begins to push a value or makes its next access; the consumer makes its next access,
-- or asks whether it has work.
pub data Event (A : Type 0) : Type 0 where
  begins : A → Event A
  produces consumes peeks : Event A

module _ {A : Type 0} where
  unfoldable pub step : System A → Event A → System A
  step s (begins v) = if is_free s.producer then record s { producer = checking v } else s
  step s produces =
      let (p, ring) = produce s.ring s.producer in
      record s { ring = ring; producer = p; pushed = s.pushed ++ put s.producer }
  step s consumes =
      let (c, ring) = consume s.ring s.consumer in
      record s { ring = ring; consumer = c; popped = s.popped ++ got s.consumer }
  step s peeks =
      let (b, ring) = consumer_has_work s.ring in
      if is_waiting s.consumer then record s { ring = ring } else s

  unfoldable pub run : System A → List (Event A) → System A
  run s [] = s
  run s (e ∷ es) = run (step s e) es

  -- The constructor, with 2 ^ k slots.
  unfoldable pub init : ℕ → A → System A
  init k v = record {
    ring = record {
      capacity = 2 ^ k;
      slot = λ i. v;
      tail = 0;
      cached_head = 0;
      head = 0;
      cached_tail = 0;
    };
    producer = idle;
    consumer = waiting;
    pushed = [];
    popped = [];
  }
