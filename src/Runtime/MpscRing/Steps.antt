-- ===== src/Runtime/MpscRing/Steps.antt =====
-- The steps of src/runtime/mpsc_ring.h from its constructor on keep the ring valid.
use mathlib.Core.Bool.{false≢true}
use mathlib.Core.Option.{none-ne-some}
use native.Mathlib.Decide.{dec_lt}
use native.Mathlib.Nat.{add-mod_right, mod-eq_of_lt, pow-suc}
use raft_rsm.Prelude.{
  pow_pos, ℕ, suc, ◌+◌, ◌%◌, ◌≤◌, ◌<◌, ◌≡◌, inl, inr, refl, ap, sym, subst, ◌∙◌, Bool, true, false,
  not, ◌&&◌, none, List, [], ◌∷◌, arith, ◌==◌, ==_iff, ltb, Bool-cases, append-nil,
}
use raft_rsm.Raft.Rules.{if_cases}
use raft_rsm.Runtime.MpscRing.{
  MpscRing, store, Producer, idle, looking, claiming, writing, publishing, returned, Consumer,
  waiting, reading, recycling, System, produce, consume, is_free, Event, begins, produces, consumes,
  step, run, init,
}
use raft_rsm.Runtime.MpscRing.Valid.{owns, ProducerValid, Valid}
use raft_rsm.Runtime.MpscRing.Produces.{moved, stays, wins}
use raft_rsm.Runtime.MpscRing.Publishes.{writes, publishes}
use raft_rsm.Runtime.MpscRing.Consumes.{consumes-Valid}

module _ {A : Type 0} where
  -- A position whose cell bears it may be claimed: the ring is not full.
  spot :
      (s : System A) (pos : ℕ)
      → Valid s
      → pos ≤ s.ring.enqueue_pos
      → s.ring.seq (pos % s.ring.capacity) ≡ pos
      → s.ring.enqueue_pos ≤ pos
      → pos < s.ring.dequeue_pos + s.ring.capacity
  spot s pos v le e ge = elim (dec_lt pos (s.ring.dequeue_pos + s.ring.capacity)) [
    | yes lt ↦ lt
    | no full ↦
        let end : s.ring.dequeue_pos + s.ring.capacity ≡ pos = omega (arith, v.room) in
        let cell : s.ring.seq (s.ring.dequeue_pos % s.ring.capacity) ≡ pos =
          ap s.ring.seq (sym (add-mod_right s.ring.dequeue_pos s.ring.capacity))
          ∙ ap (λ p. s.ring.seq (p % s.ring.capacity)) end
          ∙ e in
        elim (v.held s.ring.dequeue_pos (omega arith) (omega (arith, v.two))) [
          | inl (j, owner, seq) ↦ absurd (omega (arith, v.two, cell, seq))
          | inr (seq, value) ↦ absurd (omega (arith, v.two, cell, seq))
        ]
  ]

  produces_from :
      (s : System A) (i : ℕ) (weak : Bool) (p : Producer A)
      → Valid s
      → s.producers i ≡ p
      → ProducerValid s.ring s.claimed p
      → let (p', ring) = produce weak s.ring p in Valid (moved s i p' ring)
  unfolding produce
  produces_from s i weak idle v e ok = stays s i idle v refl (sym (ap owns e)) tt
  produces_from s i weak (returned b) v e ok = stays s i (returned b) v refl (sym (ap owns e)) tt
  produces_from s i weak (looking pos a) v e ok =
      elim (Bool-cases (s.ring.seq (pos % s.ring.capacity) == pos)) [
        | inl here ↦
            let seq = (==_iff _ pos).0 here in
            rw here (stays s i (claiming pos a) v refl (sym (ap owns e)) (ok, spot s pos v ok seq))
        | inr other ↦ elim (Bool-cases (ltb (s.ring.seq (pos % s.ring.capacity)) pos)) [
          | inl low ↦ rw (other, low) (stays s i (returned false) v refl (sym (ap owns e)) tt)
          | inr high ↦
              rw (other, high)
                (stays s i (looking s.ring.enqueue_pos a) v refl (sym (ap owns e)) (omega arith))
        ]
      ]
  produces_from s i weak (claiming pos a) v e ok =
      elim (Bool-cases ((s.ring.enqueue_pos == pos) && not weak)) [
        | inl hit ↦
            let at : s.ring.enqueue_pos ≡ pos = (==_iff _ pos).0 (ground arith) in
            rw hit (
              subst (λ q. Valid (moved s i (writing q a) (record s.ring { enqueue_pos = q + 1 })))
                at (wins s i a v (ap owns e) (omega (arith, ok.1 (omega arith), at))))
        | inr miss ↦
            rw miss
              (stays s i (looking s.ring.enqueue_pos a) v refl (sym (ap owns e)) (omega arith))
      ]
  produces_from s i weak (writing pos a) v e ok = writes s i pos a v (ap owns e) ok
  produces_from s i weak (publishing pos a) v e ok = publishes s i pos a v (ap owns e) ok.0 ok.1

  is_free-owns : (p : Producer A) → is_free p ≡ true → owns p ≡ none
  is_free-owns idle h = refl
  is_free-owns (returned b) h = refl
  is_free-owns (looking pos a) h = refl
  is_free-owns (claiming pos a) h = refl
  is_free-owns (writing pos a) h = absurd (false≢true h)
  is_free-owns (publishing pos a) h = absurd (false≢true h)

  step-Valid : (s : System A) (e : Event A) → Valid s → Valid (step s e)
  unfolding step
  step-Valid s (begins i a) v = elim (Bool-cases (is_free (s.producers i))) [
    | inl free ↦
        let p = looking s.ring.enqueue_pos a in
        let begun = stays s i p v refl (sym (is_free-owns (s.producers i) free)) (omega arith) in
        rw free (
          subst (λ l. Valid (record s { producers = store s.producers i p; claimed = l }))
            (append-nil s.claimed) begun)
    | inr busy ↦ rw busy v
  ]
  step-Valid s (produces i weak) v = produces_from s i weak (s.producers i) v refl (v.each i)
  step-Valid s consumes v = consumes-Valid s v

  pub run-Valid : (s : System A) (es : List (Event A)) → Valid s → Valid (run s es)
  unfolding run
  run-Valid s [] v = v
  run-Valid s (e ∷ es) v = run-Valid (step s e) es (step-Valid s e v)

  pub init-Valid : (k : ℕ) (a : A) → Valid (init (suc k) a)
  unfolding init
  init-Valid k a = record {
    two = omega (arith, pow-suc 2 k, pow_pos k);
    counted = refl;
    behind = omega arith;
    room = omega arith;
    free = λ p lo hi. mod-eq_of_lt (omega arith);
    held = λ p lo hi. absurd (omega arith);
    each = λ i. tt;
    alone = λ i j p e f. absurd (none-ne-some _ e);
    taker = tt;
    fifo = refl;
  }

  produce-capacity :
      (weak : Bool) (r : MpscRing A) (p : Producer A) → (produce weak r p).1.capacity ≡ r.capacity
  unfolding produce
  produce-capacity weak r idle = refl
  produce-capacity weak r (returned b) = refl
  produce-capacity weak r (looking pos a) = refl
  produce-capacity weak r (claiming pos a) = ground arith
  produce-capacity weak r (writing pos a) = refl
  produce-capacity weak r (publishing pos a) = refl

  consume-capacity : (r : MpscRing A) (c : Consumer A) → (consume r c).1.capacity ≡ r.capacity
  unfolding consume
  consume-capacity r waiting = refl
  consume-capacity r reading = refl
  consume-capacity r (recycling a) = refl

  step-capacity : (s : System A) (e : Event A) → (step s e).ring.capacity ≡ s.ring.capacity
  unfolding step
  step-capacity s (begins i a) =
      if_cases (λ (t : System A). t.ring.capacity ≡ s.ring.capacity) (is_free (s.producers i)) refl
        refl
  step-capacity s (produces i weak) = produce-capacity weak s.ring (s.producers i)
  step-capacity s consumes = consume-capacity s.ring s.consumer

  pub run-capacity :
      (s : System A) (es : List (Event A)) → (run s es).ring.capacity ≡ s.ring.capacity
  unfolding run
  run-capacity s [] = refl
  run-capacity s (e ∷ es) = run-capacity (step s e) es ∙ step-capacity s e
