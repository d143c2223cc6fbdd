-- ===== src/Runtime/MpscRing/Runs.antt =====
-- Any interleaving of the threads of src/runtime/mpsc_ring.h.
use mathlib.Core.Bool.{false≢true}
use native.Mathlib.Decide.{dec_lt, ℕ_discrete}
use native.Mathlib.Nat.{add-mod_right, mod-eq_of_lt}
use raft_rsm.Prelude.{
  ℕ, zero, suc, ◌+◌, ◌%◌, ◌^◌, ◌≤◌, ◌<◌, ◌≡◌, ◌≢◌, inl, inr, ap, sym, subst, ◌∙◌, refl, Bool, true,
  false, not, some, List, [], ◌∷◌, ◌++◌, arith, ==_iff, length, get_elem?, take, length-take,
  mod_apart, append-nil,
}
use raft_rsm.Runtime.MpscRing.{
  MpscRing, Producer, idle, looking, claiming, writing, publishing, returned, is_free, waiting,
  System, produce, consume, consumer_has_work, Event, produces, consumes, step, run, init,
}
use raft_rsm.Runtime.MpscRing.Valid.{store_self, owns, ProducerValid, Valid}
use raft_rsm.Runtime.MpscRing.Steps.{run-Valid, init-Valid, run-capacity}

-- Every cell belongs to a position of the window.
cell_in_window : (n c d : ℕ) → c < n → (p : ℕ) × (d ≤ p) × (p < d + n) × (p % n ≡ c)
cell_in_window n c zero h = (c, omega arith, omega arith, mod-eq_of_lt h)
cell_in_window n c (suc d) h =
    let (p, low, high, at) = cell_in_window n c d h in
    elim (ℕ_discrete p d) [
      | yes e ↦ (p + n, omega arith, omega arith, add-mod_right p n ∙ at)
      | no differ ↦ (p, omega arith, omega arith, at)
    ]

module _ {A : Type 0} where
  length-popped : (s : System A) → Valid s → length s.popped ≡ s.ring.dequeue_pos
  length-popped s v =
      ap length v.fifo
      ∙ length-take s.ring.dequeue_pos s.claimed
      ∙ omega (arith, v.counted, v.behind)

  -- Whatever the threads interleave, the values that the consumer of a ring of at least two cells got
  -- are the first of those whose positions were claimed, each once and in that order, and the ring
  -- holds no more values than its capacity.
  pub run_fifo :
      (k : ℕ) (a : A) (es : List (Event A))
      → let s = run (init (suc k) a) es in
        (s.popped ≡ take (length s.popped) s.claimed)
        × (length s.popped ≤ length s.claimed)
        × (length s.claimed ≤ length s.popped + 2 ^ suc k)
  unfolding init
  run_fifo k a es =
      let s = run (init (suc k) a) es in
      let v = run-Valid (init (suc k) a) es (init-Valid k a) in
      let n = length-popped s v in
      let c : s.ring.capacity ≡ 2 ^ suc k = run-capacity (init (suc k) a) es in
      (
        v.fifo ∙ ap (λ n. take n s.claimed) (sym n),
        omega (arith, n, v.counted, v.behind),
        omega (arith, n, v.counted, v.room, c),
      )

  -- The next value is published unless its producer is still at it.
  next_published :
      (s : System A)
      → Valid s
      → s.ring.dequeue_pos < s.ring.enqueue_pos
      → ((i : ℕ) → owns (s.producers i) ≢ some s.ring.dequeue_pos)
      → (consumer_has_work s.ring ≡ true)
        × (get_elem? s.claimed s.ring.dequeue_pos
            ≡ some (s.ring.value (s.ring.dequeue_pos % s.ring.capacity)))
  next_published s v lt published = elim (v.held s.ring.dequeue_pos (omega arith) lt) [
    | inl (j, owner, seq) ↦ absurd (published j owner)
    | inr (seq, value) ↦ ((==_iff _ _).1 seq, value)
  ]

  three_steps :
      (s : System A)
      → s.consumer ≡ waiting
      → consumer_has_work s.ring ≡ true
      → (run s (consumes ∷ consumes ∷ consumes ∷ [])).popped
        ≡ s.popped ++ s.ring.value (s.ring.dequeue_pos % s.ring.capacity) ∷ []
  unfolding run step consume
  three_steps s c work =
      rw (c, work)
        (ap (λ l. l ++ s.ring.value (s.ring.dequeue_pos % s.ring.capacity) ∷ [])
          (append-nil (s.popped ++ []) ∙ append-nil s.popped))

  seq-ge :
      (s : System A) (p : ℕ)
      → Valid s
      → s.ring.dequeue_pos ≤ p
      → p < s.ring.dequeue_pos + s.ring.capacity
      → p ≤ s.ring.seq (p % s.ring.capacity)
  seq-ge s p v low high = elim (dec_lt p s.ring.enqueue_pos) [
    | yes lt ↦ elim (v.held p low lt) [
      | inl (j, owner, seq) ↦ omega (arith, seq)
      | inr (seq, value) ↦ omega (arith, seq)
    ]
    | no ge ↦ omega (arith, v.free p (omega arith) high)
  ]

  low_full :
      (s : System A) (pos : ℕ)
      → Valid s
      → pos ≤ s.ring.enqueue_pos
      → s.ring.seq (pos % s.ring.capacity) < pos
      → s.ring.enqueue_pos ≡ s.ring.dequeue_pos + s.ring.capacity
  low_full s pos v le low =
      elim (dec_lt s.ring.enqueue_pos (s.ring.dequeue_pos + s.ring.capacity)) [
        | yes lt ↦
            let (p, a, b, at) =
              cell_in_window s.ring.capacity (pos % s.ring.capacity) s.ring.dequeue_pos
                (omega (arith, v.two)) in
            let below : p < pos = omega (arith, seq-ge s p v a b, ap s.ring.seq at) in
            absurd (mod_apart s.ring.capacity p pos below (omega arith) (sym at))
        | no ge ↦ omega (arith, v.room)
      ]

  -- No value is lost: in a state that the threads reach, if values are claimed that the consumer has
  -- not got, and the producer of the first of them has published, then the next three steps of a
  -- consumer that waits give it that value.
  pub run_next :
      (k : ℕ) (a : A) (es : List (Event A))
      → let s = run (init (suc k) a) es in
        s.consumer ≡ waiting
        → length s.popped < length s.claimed
        → ((i : ℕ) → owns (s.producers i) ≢ some (length s.popped))
        → (b : A) × (get_elem? s.claimed (length s.popped) ≡ some b)
          × ((run s (consumes ∷ consumes ∷ consumes ∷ [])).popped ≡ s.popped ++ b ∷ [])
  run_next k a es c lt published =
      let s = run (init (suc k) a) es in
      let v = run-Valid (init (suc k) a) es (init-Valid k a) in
      let n = length-popped s v in
      let (work, value) =
        next_published s v (omega (arith, n, v.counted))
          (λ i e. published i (e ∙ ap some (sym n))) in
      (_, ap (get_elem? s.claimed) n ∙ value, three_steps s c work)

  abbrev failed : Producer A → Bool
  failed (returned b) = not b
  failed _ = false

  -- Only the load of a sequence below the position fails a push.
  produce_fails :
      (weak : Bool) (r : MpscRing A) (p : Producer A)
      → is_free p ≡ false
      → failed (produce weak r p).0 ≡ true
      → (pos : ℕ) × (b : A) × (p ≡ looking pos b) × (r.seq (pos % r.capacity) < pos)
  unfolding produce
  produce_fails weak r idle busy f = absurd (false≢true (sym busy))
  produce_fails weak r (looking pos b) busy f = (pos, b, refl, ground arith)
  produce_fails weak r (claiming pos b) busy f = ground arith
  produce_fails weak r (writing pos b) busy f = absurd (false≢true f)
  produce_fails weak r (publishing pos b) busy f = absurd (false≢true f)
  produce_fails weak r (returned b) busy f = absurd (false≢true (sym busy))

  producer-step :
      (s : System A) (i : ℕ) (weak : Bool)
      → (step s (produces i weak)).producers i ≡ (produce weak s.ring (s.producers i)).0
  unfolding step
  producer-step s i weak = store_self s.producers i _

  -- A push fails only on a full ring: in a state that the threads reach, where the next access of a
  -- producer that is within a push makes it return false, as many values as there are cells are
  -- claimed and not taken.
  pub push_fails_full :
      (k : ℕ) (a : A) (es : List (Event A)) (i : ℕ) (weak : Bool)
      → let s = run (init (suc k) a) es in
        is_free (s.producers i) ≡ false
        → (step s (produces i weak)).producers i ≡ returned false
        → length s.claimed ≡ length s.popped + 2 ^ suc k
  unfolding init
  push_fails_full k a es i weak busy fails =
      let s = run (init (suc k) a) es in
      let v = run-Valid (init (suc k) a) es (init-Valid k a) in
      let (pos, b, e, low) =
        produce_fails weak s.ring (s.producers i) busy
          (ap failed (sym (producer-step s i weak) ∙ fails)) in
      let behind : pos ≤ s.ring.enqueue_pos = subst (ProducerValid s.ring s.claimed) e (v.each i) in
      let full = low_full s pos v behind low in
      let c : s.ring.capacity ≡ 2 ^ suc k = run-capacity (init (suc k) a) es in
      omega (arith, length-popped s v, v.counted, full, c)
