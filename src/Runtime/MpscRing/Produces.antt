-- ===== src/Runtime/MpscRing/Produces.antt =====
-- The steps of the producers of src/runtime/mpsc_ring.h keep the ring valid.
use mathlib.Core.Option.{none-ne-some, some_inj}
use raft_rsm.Prelude.{
  ℕ, ◌+◌, ◌<◌, ◌≡◌, ◌⊎◌, inl, inr, ap, sym, subst, ◌∙◌, none, some, List, [], ◌∷◌, ◌++◌, arith,
  length-append, get_elem?, get_elem?-append_left, get_elem?-append_length, get_elem?-lt,
  take-append_left, append-nil,
}
use native.Mathlib.Decide.{dec_lt}
use raft_rsm.Runtime.MpscRing.{
  MpscRing, store, Producer, idle, looking, claiming, writing, publishing, returned, Consumer,
  waiting, reading, recycling, System, won,
}
use raft_rsm.Runtime.MpscRing.Valid.{
  store_self, store_cases, owns, owns-store, store-owner, owner-store, owned-Claim, Claim,
  ProducerValid, ConsumerValid, Valid,
}

module _ {A : Type 0} where
  -- The state after a producer's step.
  abbrev pub moved : System A → ℕ → Producer A → MpscRing A → System A
  moved s i p ring = record s {
    ring = ring;
    producers = store s.producers i p;
    claimed = s.claimed ++ won p;
  }

  -- A producer that owns no position and changes nothing moves on.
  pub stays :
      (s : System A) (i : ℕ) (p : Producer A)
      → Valid s
      → won p ≡ []
      → owns p ≡ owns (s.producers i)
      → ProducerValid s.ring s.claimed p
      → Valid (moved s i p s.ring)
  stays s i p v w o ok =
      let same : s.claimed ++ won p ≡ s.claimed =
        ap (λ l. s.claimed ++ l) w ∙ append-nil s.claimed in
      rw same (record {
        two = v.two;
        counted = v.counted;
        behind = v.behind;
        room = v.room;
        free = v.free;
        held = λ q lo hi. elim (v.held q lo hi) [
          | inl (j, owner, seq) ↦ inl (j, owns-store s.producers i j p o ∙ owner, seq)
          | inr done ↦ inr done
        ];
        each =
            λ j. store_cases (ProducerValid s.ring s.claimed) s.producers i j p ok (λ _. v.each j);
        alone = λ j k q e f.
            v.alone j k q (sym (owns-store s.producers i j p o) ∙ e)
              (sym (owns-store s.producers i k p o) ∙ f);
        taker = v.taker;
        fifo = v.fifo;
      })

  get_elem?-claimed :
      (claimed : List A) (pos : ℕ) (a w : A)
      → get_elem? claimed pos ≡ some a
      → get_elem? (claimed ++ w ∷ []) pos ≡ some a
  get_elem?-claimed claimed pos a w e =
      get_elem?-append_left pos claimed (w ∷ []) (get_elem?-lt claimed pos e) ∙ e

  Claim-win :
      (r : MpscRing A) (claimed : List A) (pos : ℕ) (a w : A)
      → Claim r claimed pos a
      → Claim (record r { enqueue_pos = r.enqueue_pos + 1 }) (claimed ++ w ∷ []) pos a
  Claim-win r claimed pos a w c = record {
    low = c.low;
    high = omega (arith, c.high);
    seq = c.seq;
    at = get_elem?-claimed claimed pos a w c.at;
  }

  ProducerValid-win :
      (r : MpscRing A) (claimed : List A) (w : A) (p : Producer A)
      → ProducerValid r claimed p
      → ProducerValid (record r { enqueue_pos = r.enqueue_pos + 1 }) (claimed ++ w ∷ []) p
  ProducerValid-win r claimed w idle h = tt
  ProducerValid-win r claimed w (returned b) h = tt
  ProducerValid-win r claimed w (looking pos a) h = omega arith
  ProducerValid-win r claimed w (claiming pos a) h =
      (omega (arith, h.0), λ k. absurd (omega (arith, h.0)))
  ProducerValid-win r claimed w (writing pos a) h = Claim-win r claimed pos a w h
  ProducerValid-win r claimed w (publishing pos a) h = (Claim-win r claimed pos a w h.0, h.1)

  ConsumerValid-win :
      (r : MpscRing A) (claimed : List A) (w : A) (c : Consumer A)
      → ConsumerValid r claimed c
      → ConsumerValid (record r { enqueue_pos = r.enqueue_pos + 1 }) (claimed ++ w ∷ []) c
  ConsumerValid-win r claimed w waiting h = tt
  ConsumerValid-win r claimed w reading h = (omega (arith, h.0), h.1)
  ConsumerValid-win r claimed w (recycling a) h =
      ((omega (arith, h.0.0), h.0.1), get_elem?-claimed claimed r.dequeue_pos a w h.1)

  -- A new claim is above the others.
  alone_win :
      (s : System A) (i : ℕ) (a : A)
      → Valid s
      → (j k q : ℕ)
      → ((i ≡ j) × (some s.ring.enqueue_pos ≡ some q)) ⊎ (owns (s.producers j) ≡ some q)
      → ((i ≡ k) × (some s.ring.enqueue_pos ≡ some q)) ⊎ (owns (s.producers k) ≡ some q)
      → j ≡ k
  alone_win s i a v j k q (inl e) (inl f) = sym e.0 ∙ f.0
  alone_win s i a v j k q (inl e) (inr f) =
      let c = (owned-Claim s.ring s.claimed (s.producers k) (v.each k) f).1 in
      absurd (omega (arith, some_inj.0 e.1, c.high))
  alone_win s i a v j k q (inr e) (inl f) =
      let c = (owned-Claim s.ring s.claimed (s.producers j) (v.each j) e).1 in
      absurd (omega (arith, some_inj.0 f.1, c.high))
  alone_win s i a v j k q (inr e) (inr f) = v.alone j k q e f

  -- A compare-exchange that succeeds.
  pub wins :
      (s : System A) (i : ℕ) (a : A)
      → Valid s
      → owns (s.producers i) ≡ none
      → s.ring.enqueue_pos < s.ring.dequeue_pos + s.ring.capacity
      → Valid (
          moved s i
            (writing s.ring.enqueue_pos a)
            (record s.ring { enqueue_pos = s.ring.enqueue_pos + 1 }))
  wins s i a v o spot =
      let enq = s.ring.enqueue_pos in
      let r' = record s.ring { enqueue_pos = enq + 1 } in
      let claimed = s.claimed ++ a ∷ [] in
      let mine : Claim r' claimed enq a = record {
        low = v.behind;
        high = omega arith;
        seq = v.free enq (omega arith) spot;
        at =
            subst (λ n. get_elem? claimed n ≡ some a) v.counted
              (get_elem?-append_length s.claimed [] a);
      } in
      record {
        two = v.two;
        counted = omega (arith, length-append s.claimed (a ∷ []), v.counted);
        behind = omega (arith, v.behind);
        room = omega arith;
        free = λ p lo hi. v.free p (omega arith) hi;
        held = λ q lo hi. elim (dec_lt q enq) [
          | yes old ↦ elim (v.held q lo old) [
            | inl (j, owner, seq) ↦
                inl (j, store-owner s.producers i j _ (λ k. none-ne-some _ (sym o ∙ k)) owner, seq)
            | inr (seq, got) ↦ inr (seq, get_elem?-claimed s.claimed q _ a got)
          ]
          | no new ↦
              let at_end : q ≡ enq = omega arith in
              rw at_end (
                inl (
                  i,
                  ap owns (store_self s.producers i (writing enq a)),
                  v.free enq (omega arith) spot,
                ))
        ];
        each = λ j.
            store_cases (ProducerValid r' claimed) s.producers i j (writing enq a) mine
              (λ _. ProducerValid-win s.ring s.claimed a (s.producers j) (v.each j));
        alone = λ j k q e f.
            alone_win s i a v j k q (owner-store s.producers i j (writing enq a) e)
              (owner-store s.producers i k (writing enq a) f);
        taker = ConsumerValid-win s.ring s.claimed a s.consumer v.taker;
        fifo =
            v.fifo
            ∙ sym (
                take-append_left s.ring.dequeue_pos s.claimed (a ∷ [])
                  (omega (arith, v.counted, v.behind)));
      }
