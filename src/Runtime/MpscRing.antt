-- ===== src/Runtime/MpscRing.antt =====
-- src/runtime/mpsc_ring.h: the bounded ring of many producers and one consumer, as the steps that
-- its threads interleave. A step is one access to what threads share: a load, a store, or the
-- compare-exchange. Positions stay below 2 ^ 63, where the signed difference of the source is the
-- comparison.
pub mod Valid
pub mod Produces
pub mod Publishes
pub mod Consumes
pub mod Steps
pub mod Runs
use raft_rsm.Prelude.{
  ℕ, zero, suc, ◌+◌, ◌-◌, ◌%◌, ◌^◌, Bool, true, false, not, ◌&&◌, Option, none, some, List, [], ◌∷◌,
  ◌++◌, ltb, ◌==◌, if◌then◌else◌,
}

-- `cells_[i].seq` and `cells_[i].value` for i below the capacity, and the two positions.
pub record MpscRing (A : Type 0) : Type 0 where
  pub capacity : ℕ
  pub seq : ℕ → ℕ
  pub value : ℕ → A
  pub enqueue_pos : ℕ
  pub dequeue_pos : ℕ

-- A store to one cell.
abbrev pub store : {A : Type 0} → (ℕ → A) → ℕ → A → ℕ → A
store f i a j = if i == j then a else f j

-- Where a producer is within `tryPush`, or `tryProduce`, which fills the cell in place: before the load of the cell's sequence, before the
-- compare-exchange, before the write of the value, before the publishing store, or returned.
pub data Producer (A : Type 0) : Type 0 where
  idle : Producer A
  looking claiming writing publishing : ℕ → A → Producer A
  returned : Bool → Producer A

-- Where the consumer is within `tryPop`, or `tryConsume`, which uses the cell in place: before the load, before the move out, before the recycling
-- store.
pub data Consumer (A : Type 0) : Type 0 where
  waiting reading : Consumer A
  recycling : A → Consumer A

module _ {A : Type 0} where
  -- `pos & mask_`: the capacity is a power of two.
  abbrev pub cell_of : MpscRing A → ℕ → ℕ
  cell_of r pos = pos % r.capacity

  -- A producer's next access. A weak compare-exchange may fail where the values agree.
  unfoldable pub produce : Bool → MpscRing A → Producer A → Producer A × MpscRing A
  produce weak r idle = (idle, r)
  produce weak r (looking pos v) =
      let seq = r.seq (cell_of r pos) in
      (
        (if seq == pos
            then claiming pos v
            else if ltb seq pos
            then returned false
            else looking r.enqueue_pos v),
        r,
      )
  produce weak r (claiming pos v) =
      if (r.enqueue_pos == pos) && not weak
      then (writing pos v, record r { enqueue_pos = pos + 1 })
      else (looking r.enqueue_pos v, r)
  produce weak r (writing pos v) =
      (publishing pos v, record r { value = store r.value (cell_of r pos) v })
  produce weak r (publishing pos v) =
      (returned true, record r { seq = store r.seq (cell_of r pos) (pos + 1) })
  produce weak r (returned b) = (returned b, r)

  -- `consumerHasWork`.
  abbrev pub consumer_has_work : MpscRing A → Bool
  consumer_has_work r = r.seq (cell_of r r.dequeue_pos) == r.dequeue_pos + 1

  -- The consumer's next access. A call that finds no work returns at once.
  unfoldable pub consume : MpscRing A → Consumer A → Consumer A × MpscRing A
  consume r waiting = ((if consumer_has_work r then reading else waiting), r)
  consume r reading = (recycling (r.value (cell_of r r.dequeue_pos)), r)
  consume r (recycling v) = (
    waiting,
    record r {
      seq = store r.seq (cell_of r r.dequeue_pos) (r.dequeue_pos + r.capacity);
      dequeue_pos = r.dequeue_pos + 1;
    },
  )

-- The ring with its threads. Beside it, the values in the order in which their positions were
-- claimed, and those that the consumer got, in order.
pub record System (A : Type 0) : Type 0 where
  pub ring : MpscRing A
  pub producers : ℕ → Producer A
  pub consumer : Consumer A
  pub claimed : List A
  pub popped : List A

-- A thread that may begin a push.
abbrev pub is_free : {A : Type 0} → Producer A → Bool
is_free idle = true
is_free (returned b) = true
is_free _ = false

-- The value of a claim that was just won.
abbrev pub won : {A : Type 0} → Producer A → List A
won (writing pos v) = v ∷ []
won _ = []

-- The value that a recycling consumer returns.
abbrev pub got : {A : Type 0} → Consumer A → List A
got (recycling v) = v ∷ []
got _ = []

-- A thread begins to push a value, a producer makes its next access, or the consumer does.
pub data Event (A : Type 0) : Type 0 where
  begins : ℕ → A → Event A
  produces : ℕ → Bool → Event A
  consumes : Event A

module _ {A : Type 0} where
  unfoldable pub step : System A → Event A → System A
  step s (begins i v) =
      if is_free (s.producers i)
      then record s { producers = store s.producers i (looking s.ring.enqueue_pos v) }
      else s
  step s (produces i weak) =
      let (p, ring) = produce weak s.ring (s.producers i) in
      record s { ring = ring; producers = store s.producers i p; claimed = s.claimed ++ won p }
  step s consumes =
      let (c, ring) = consume s.ring s.consumer in
      record s { ring = ring; consumer = c; popped = s.popped ++ got s.consumer }

  unfoldable pub run : System A → List (Event A) → System A
  run s [] = s
  run s (e ∷ es) = run (step s e) es

  -- The constructor, with 2 ^ k cells: cell i is free for position i.
  unfoldable pub init : ℕ → A → System A
  init k v = record {
    ring = record {
      capacity = 2 ^ k;
      seq = λ i. i;
      value = λ i. v;
      enqueue_pos = 0;
      dequeue_pos = 0;
    };
    producers = λ i. idle;
    consumer = waiting;
    claimed = [];
    popped = [];
  }
