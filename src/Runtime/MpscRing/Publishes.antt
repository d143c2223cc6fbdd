-- ===== src/Runtime/MpscRing/Publishes.antt =====
-- The write and the publishing store of src/runtime/mpsc_ring.h keep the ring valid.
use mathlib.Core.Option.{some_inj}
use native.Mathlib.Decide.{ℕ_discrete}
use raft_rsm.Prelude.{
  ℕ, ◌+◌, ◌%◌, ◌≤◌, ◌<◌, ◌≡◌, ◌≢◌, inl, inr, refl, ap, sym, subst, ◌∙◌, true, false, some, List,
  arith, ◌==◌, mod_window, append-nil,
}
use raft_rsm.Runtime.MpscRing.{
  MpscRing, store, Producer, idle, looking, claiming, writing, publishing, returned, Consumer,
  waiting, reading, recycling, System,
}
use raft_rsm.Runtime.MpscRing.Valid.{
  store_self, store_other, store_cases, owns, owns-store, store-owner, owned-Claim, still, Claim,
  ProducerValid, ConsumerValid, Ready, Held, Valid,
}
use raft_rsm.Runtime.MpscRing.Produces.{moved}

module _ {A : Type 0} where
  -- Positions of one window that differ have different cells.
  pub cells_apart :
      (s : System A) (p q : ℕ)
      → s.ring.dequeue_pos ≤ p
      → p < s.ring.dequeue_pos + s.ring.capacity
      → s.ring.dequeue_pos ≤ q
      → q < s.ring.dequeue_pos + s.ring.capacity
      → p ≢ q
      → (p % s.ring.capacity == q % s.ring.capacity) ≡ false
  cells_apart s p q a b a' b' h =
      mod_window s.ring.capacity s.ring.dequeue_pos q p a' b' a b (λ e. h (sym e))

  -- Another producer owns another position.
  other_owner :
      (s : System A) (i j : ℕ) {pos q : ℕ}
      → Valid s
      → (i == j) ≡ false
      → owns (s.producers i) ≡ some pos
      → owns (s.producers j) ≡ some q
      → pos ≢ q
  other_owner s i j {pos} {q} v h e f k =
      let same = v.alone i j q (e ∙ ap some k) f in absurd (ground arith)

  module _ (r : MpscRing A) (claimed : List A) (seq : ℕ → ℕ) (value : ℕ → A) where
    abbrev cells : MpscRing A
    cells = record r { seq = seq; value = value }

    Claim-cells :
        (q : ℕ) (b : A)
        → seq (q % r.capacity) ≡ r.seq (q % r.capacity)
        → Claim r claimed q b
        → Claim cells claimed q b
    Claim-cells q b e c = record { low = c.low; high = c.high; seq = e ∙ c.seq; at = c.at }

    -- New contents of cells other than the one a producer owns.
    ProducerValid-cells :
        (p : Producer A)
        → ((q : ℕ)
            → owns p ≡ some q
            → (seq (q % r.capacity) ≡ r.seq (q % r.capacity))
              × (value (q % r.capacity) ≡ r.value (q % r.capacity)))
        → ProducerValid r claimed p
        → ProducerValid cells claimed p
    ProducerValid-cells idle e h = tt
    ProducerValid-cells (returned b) e h = tt
    ProducerValid-cells (looking q b) e h = h
    ProducerValid-cells (claiming q b) e h = h
    ProducerValid-cells (writing q b) e h = Claim-cells q b (e q refl).0 h
    ProducerValid-cells (publishing q b) e h =
        (Claim-cells q b (e q refl).0 h.0, (e q refl).1 ∙ h.1)

    -- New contents of cells other than the consumer's.
    ConsumerValid-cells :
        (c : Consumer A)
        → (Ready r claimed → seq (r.dequeue_pos % r.capacity) ≡ r.seq (r.dequeue_pos % r.capacity))
        → ConsumerValid r claimed c
        → ConsumerValid cells claimed c
    ConsumerValid-cells waiting e h = tt
    ConsumerValid-cells reading e h = (h.0, e h ∙ h.1)
    ConsumerValid-cells (recycling b) e h = ((h.0.0, e h.0 ∙ h.0.1), h.1)

  -- The value is written, and the cell is not yet published.
  pub writes :
      (s : System A) (i pos : ℕ) (a : A)
      → Valid s
      → owns (s.producers i) ≡ some pos
      → Claim s.ring s.claimed pos a
      → Valid (
          moved s i
            (publishing pos a)
            (record s.ring { value = store s.ring.value (pos % s.ring.capacity) a }))
  writes s i pos a v o c =
      let r' = record s.ring { value = store s.ring.value (pos % s.ring.capacity) a } in
      let kept : (q : ℕ)
          → s.ring.dequeue_pos ≤ q
          → q < s.ring.enqueue_pos
          → pos ≢ q
          → r'.value (q % s.ring.capacity) ≡ s.ring.value (q % s.ring.capacity) =
        λ q lo hi h. store_other s.ring.value (pos % s.ring.capacity) (q % s.ring.capacity) a (
          cells_apart s pos q c.low (omega (arith, c.high, v.room)) lo (omega (arith, v.room)) h) in
      rw append-nil (record {
        two = v.two;
        counted = v.counted;
        behind = v.behind;
        room = v.room;
        free = v.free;
        held = λ q lo hi. elim (v.held q lo hi) [
          | inl (j, owner, seq) ↦
              inl (j, owns-store s.producers i j (publishing pos a) (sym o) ∙ owner, seq)
          | inr (seq, got) ↦
              let differ : pos ≢ q = λ e.
                absurd (omega (arith, seq, c.seq, ap (λ p. s.ring.seq (p % s.ring.capacity)) e)) in
              inr (seq, got ∙ ap some (sym (kept q lo hi differ)))
        ];
        each = λ j.
            store_cases (ProducerValid r' s.claimed) s.producers i j (publishing pos a)
              (
                record { low = c.low; high = c.high; seq = c.seq; at = c.at },
                store_self s.ring.value (pos % s.ring.capacity) a,
              )
              (λ h.
                ProducerValid-cells s.ring s.claimed s.ring.seq r'.value (s.producers j)
                  (λ q f.
                    let d = (owned-Claim s.ring s.claimed (s.producers j) (v.each j) f).1 in
                    (refl, kept q d.low d.high (other_owner s i j v h o f)))
                  (v.each j));
        alone = λ j k q e f.
            v.alone j k q (sym (owns-store s.producers i j (publishing pos a) (sym o)) ∙ e)
              (sym (owns-store s.producers i k (publishing pos a) (sym o)) ∙ f);
        taker =
            ConsumerValid-cells s.ring s.claimed s.ring.seq r'.value s.consumer (λ _. refl) v.taker;
        fifo = v.fifo;
      })

  -- The publishing store.
  pub publishes :
      (s : System A) (i pos : ℕ) (a : A)
      → Valid s
      → owns (s.producers i) ≡ some pos
      → Claim s.ring s.claimed pos a
      → s.ring.value (pos % s.ring.capacity) ≡ a
      → Valid (
          moved s i
            (returned true)
            (record s.ring { seq = store s.ring.seq (pos % s.ring.capacity) (pos + 1) }))
  publishes s i pos a v o c written =
      let seq' = store s.ring.seq (pos % s.ring.capacity) (pos + 1) in
      let r' = record s.ring { seq = seq' } in
      let kept : (q : ℕ)
          → s.ring.dequeue_pos ≤ q
          → q < s.ring.dequeue_pos + s.ring.capacity
          → pos ≢ q
          → seq' (q % s.ring.capacity) ≡ s.ring.seq (q % s.ring.capacity) =
        λ q lo hi h.
          store_other s.ring.seq (pos % s.ring.capacity) (q % s.ring.capacity) (pos + 1)
            (cells_apart s pos q c.low (omega (arith, c.high, v.room)) lo hi h) in
      rw append-nil (record {
        two = v.two;
        counted = v.counted;
        behind = v.behind;
        room = v.room;
        free = λ q lo hi.
            kept q (omega (arith, v.behind)) hi (λ e. absurd (omega (arith, e, c.high)))
            ∙ v.free q lo hi;
        held = λ q lo hi. elim (ℕ_discrete pos q) [
          | yes e ↦ subst (Held r' s.claimed (store s.producers i (returned true))) e (
              inr (
                store_self s.ring.seq (pos % s.ring.capacity) (pos + 1),
                c.at ∙ ap some (sym written),
              ))
          | no differ ↦ elim (v.held q lo hi) [
            | inl (j, owner, seq) ↦ inl (
              j,
              store-owner s.producers i j (returned true) (λ k. differ (some_inj.0 (sym o ∙ k)))
                  owner,
              kept q lo (omega (arith, v.room)) differ ∙ seq,
            )
            | inr (seq, got) ↦ inr (kept q lo (omega (arith, v.room)) differ ∙ seq, got)
          ]
        ];
        each = λ j.
            store_cases (ProducerValid r' s.claimed) s.producers i j (returned true) tt (λ h.
              ProducerValid-cells s.ring s.claimed seq' s.ring.value (s.producers j)
                (λ q f.
                  let d = (owned-Claim s.ring s.claimed (s.producers j) (v.each j) f).1 in
                  (kept q d.low (omega (arith, d.high, v.room)) (other_owner s i j v h o f), refl))
                (v.each j));
        alone = λ j k q e f.
            v.alone j k q (still s.producers i j (returned true) refl e)
              (still s.producers i k (returned true) refl f);
        taker =
            ConsumerValid-cells s.ring s.claimed seq' s.ring.value s.consumer
              (λ ready. kept s.ring.dequeue_pos (omega arith) (omega (arith, v.two)) (λ e.
                absurd
                  (omega (arith, e, ready.1, c.seq, ap (λ p. s.ring.seq (p % s.ring.capacity)) e))))
              v.taker;
        fifo = v.fifo;
      })
