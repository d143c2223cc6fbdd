-- ===== src/Runtime/MpscRing/Valid.antt =====
-- What holds of the cells, the positions and the threads of src/runtime/mpsc_ring.h between steps.
use mathlib.Core.Option.{none-ne-some, some_inj}
use raft_rsm.Prelude.{
  ℕ, ◌+◌, ◌%◌, ◌≤◌, ◌<◌, ◌≡◌, ◌≢◌, ◌⊎◌, inl, inr, refl, ap, sym, subst, ◌∙◌, false, Option, none,
  some, List, arith, ◌==◌, ==_iff, length, get_elem?, take, Bool-cases,
}
use raft_rsm.Runtime.MpscRing.{
  MpscRing, store, Producer, idle, looking, claiming, writing, publishing, returned, Consumer,
  waiting, reading, recycling, System,
}

module _ {B : Type 0} where
  pub store_self : (f : ℕ → B) (i : ℕ) (a : B) → store f i a i ≡ a
  store_self f i a = ground (arith, ==_iff i i)

  pub store_other : (f : ℕ → B) (i j : ℕ) (a : B) → (i == j) ≡ false → store f i a j ≡ f j
  store_other f i j a h = ground arith

  pub store_cases :
      (P : B → Type 0) (f : ℕ → B) (i j : ℕ) (a : B)
      → P a
      → ((i == j) ≡ false → P (f j))
      → P (store f i a j)
  store_cases P f i j a p q = elim (Bool-cases (i == j)) [
    | inl same ↦ rw same p
    | inr other ↦ rw other (q other)
  ]

module _ {A : Type 0} where
  -- The position that a producer has claimed and not published.
  abbrev pub owns : Producer A → Option ℕ
  owns (writing pos v) = some pos
  owns (publishing pos v) = some pos
  owns _ = none

  module _ (r : MpscRing A) (claimed : List A) where
    -- A claim within the window of positions, whose cell still bears the claimed position.
    pub record Claim (pos : ℕ) (v : A) : Type 0 where
      pub low : r.dequeue_pos ≤ pos
      pub high : pos < r.enqueue_pos
      pub seq : r.seq (pos % r.capacity) ≡ pos
      pub at : get_elem? claimed pos ≡ some v

    abbrev pub ProducerValid : Producer A → Type 0
    ProducerValid (looking pos v) = pos ≤ r.enqueue_pos
    ProducerValid (claiming pos v) =
        (pos ≤ r.enqueue_pos) × (r.enqueue_pos ≤ pos → pos < r.dequeue_pos + r.capacity)
    ProducerValid (writing pos v) = Claim pos v
    ProducerValid (publishing pos v) = Claim pos v × (r.value (pos % r.capacity) ≡ v)
    ProducerValid _ = Unit

    -- The next cell is published.
    abbrev pub Ready : Type 0
    Ready =
        (r.dequeue_pos < r.enqueue_pos) × (r.seq (r.dequeue_pos % r.capacity) ≡ r.dequeue_pos + 1)

    abbrev pub ConsumerValid : Consumer A → Type 0
    ConsumerValid waiting = Unit
    ConsumerValid reading = Ready
    ConsumerValid (recycling v) = Ready × (get_elem? claimed r.dequeue_pos ≡ some v)

    -- A claimed position: a producer is at it, or its value is published.
    abbrev pub Held : (ℕ → Producer A) → ℕ → Type 0
    Held producers p =
        ((i : ℕ) × (owns (producers i) ≡ some p) × (r.seq (p % r.capacity) ≡ p))
        ⊎ ((r.seq (p % r.capacity) ≡ p + 1)
            × (get_elem? claimed p ≡ some (r.value (p % r.capacity))))

  pub record Valid (s : System A) : Type 0 where
    pub two : 2 ≤ s.ring.capacity
    pub counted : length s.claimed ≡ s.ring.enqueue_pos
    pub behind : s.ring.dequeue_pos ≤ s.ring.enqueue_pos
    pub room : s.ring.enqueue_pos ≤ s.ring.dequeue_pos + s.ring.capacity
    pub free :
        (p : ℕ)
        → s.ring.enqueue_pos ≤ p
        → p < s.ring.dequeue_pos + s.ring.capacity
        → s.ring.seq (p % s.ring.capacity) ≡ p
    pub held :
        (p : ℕ)
        → s.ring.dequeue_pos ≤ p
        → p < s.ring.enqueue_pos
        → Held s.ring s.claimed s.producers p
    pub each : (i : ℕ) → ProducerValid s.ring s.claimed (s.producers i)
    pub alone : (i j p : ℕ) → owns (s.producers i) ≡ some p → owns (s.producers j) ≡ some p → i ≡ j
    pub taker : ConsumerValid s.ring s.claimed s.consumer
    pub fifo : s.popped ≡ take s.ring.dequeue_pos s.claimed

  pub owns-store :
      (ps : ℕ → Producer A) (i j : ℕ) (p : Producer A)
      → owns p ≡ owns (ps i)
      → owns (store ps i p j) ≡ owns (ps j)
  owns-store ps i j p o = elim (Bool-cases (i == j)) [
    | inl same ↦ rw same (o ∙ ap (λ k. owns (ps k)) ((==_iff i j).0 same))
    | inr other ↦ ap owns (store_other ps i j p other)
  ]

  -- A producer moves: the other owners, and where the owners are from.
  pub store-owner :
      (ps : ℕ → Producer A) (i j : ℕ) (p : Producer A) {q : ℕ}
      → owns (ps i) ≢ some q
      → owns (ps j) ≡ some q
      → owns (store ps i p j) ≡ some q
  store-owner ps i j p o e = elim (Bool-cases (i == j)) [
    | inl same ↦ absurd (o (ap (λ k. owns (ps k)) ((==_iff i j).0 same) ∙ e))
    | inr other ↦ ap owns (store_other ps i j p other) ∙ e
  ]

  pub owner-store :
      (ps : ℕ → Producer A) (i j : ℕ) (p : Producer A) {q : ℕ}
      → owns (store ps i p j) ≡ some q
      → ((i ≡ j) × (owns p ≡ some q)) ⊎ (owns (ps j) ≡ some q)
  owner-store ps i j p e = elim (Bool-cases (i == j)) [
    | inl same ↦ inl ((==_iff i j).0 same, sym (rw same refl) ∙ e)
    | inr other ↦ inr (sym (ap owns (store_other ps i j p other)) ∙ e)
  ]

  pub still :
      (ps : ℕ → Producer A) (i j : ℕ) (p : Producer A) {q : ℕ}
      → owns p ≡ none
      → owns (store ps i p j) ≡ some q
      → owns (ps j) ≡ some q
  still ps i j p o e = elim (owner-store ps i j p e) [
    | inl (same, mine) ↦ absurd (none-ne-some _ (sym o ∙ mine))
    | inr f ↦ f
  ]

  -- What a producer owns is a claim.
  pub owned-Claim :
      (r : MpscRing A) (claimed : List A) (p : Producer A) {pos : ℕ}
      → ProducerValid r claimed p
      → owns p ≡ some pos
      → (a : A) × Claim r claimed pos a
  owned-Claim r claimed idle h e = absurd (none-ne-some _ e)
  owned-Claim r claimed (returned b) h e = absurd (none-ne-some _ e)
  owned-Claim r claimed (looking q a) h e = absurd (none-ne-some _ e)
  owned-Claim r claimed (claiming q a) h e = absurd (none-ne-some _ e)
  owned-Claim r claimed (writing q a) h e = (a, subst (λ p. Claim r claimed p a) (some_inj.0 e) h)
  owned-Claim r claimed (publishing q a) h e =
      (a, subst (λ p. Claim r claimed p a) (some_inj.0 e) h.0)
