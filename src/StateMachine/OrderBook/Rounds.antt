-- ===== src/StateMachine/OrderBook/Rounds.antt =====
-- The loop of `match` in src/statemachine/order_book.cpp: its rounds and its end.
use raft_rsm.Prelude.{
  ℕ, zero, suc, ◌≤◌, ◌<◌, ◌≡◌, ◌≢◌, refl, ◌⊎◌, inl, inr, true, false, none, some, [], ◌∷◌, arith,
  ◌==◌, Bool-cases, Option-cases, length,
}
use raft_rsm.StateMachine.OrderBook.{
  ObSide, Resting, Level, OrderBook, Matching, opposite, book_of, best, set_best, crosses, exchange,
  fill, level_after, trade, round, match_loop, resting_count, match,
}
use raft_rsm.StateMachine.OrderBook.Weights.{
  resting_count_eq, set_best-weigh, book_of-exchange, length-level_after,
}

-- The two ways of a round.
abbrev pub Trades : ObSide → ℕ → Matching → ℕ → Resting → Level → Type 0
Trades taker limit m p maker later =
    (best taker (book_of (opposite taker) m.book) ≡ some (p, maker ∷ later))
    × (crosses taker limit p ≡ true)
    × (m.qty ≢ 0)

-- Where the loop ends: nothing is left to trade, or the other side is empty, or its best level does
-- not cross the limit, or holds no order.
abbrev pub Finished : ObSide → ℕ → Matching → Type 0
Finished taker limit m =
    (m.qty ≡ 0)
    ⊎ ((best taker (book_of (opposite taker) m.book) ≡ none)
        ⊎ ((p : ℕ) × (level : Level) × (best taker (book_of (opposite taker) m.book)
              ≡ some (p, level))
            × ((crosses taker limit p ≡ false) ⊎ (level ≡ []))))

module _ (taker : ObSide) (limit : ℕ) where
  pub round-cases :
      (m : Matching)
      → ((round taker limit m ≡ none) × Finished taker limit m)
        ⊎ ((p : ℕ) × (maker : Resting) × (later : Level) × (round taker limit m
              ≡ some (exchange taker p maker later m))
            × Trades taker limit m p maker later)
  unfolding round trade fill
  round-cases m = elim (Bool-cases (m.qty == 0)) [
    | inl z ↦ inl (rw z refl, inl (ground arith))
    | inr nz ↦ elim (Option-cases (best taker (book_of (opposite taker) m.book))) [
      | inl e ↦ inl (rw (nz, e) refl, inr (inl e))
      | inr ((p, []), e) ↦ inl (rw (nz, e) (ground arith), inr (inr (p, [], e, inr refl)))
      | inr ((p, maker ∷ later), e) ↦ elim (Bool-cases (crosses taker limit p)) [
        | inl c ↦ inr (p, maker, later, rw (nz, e, c) refl, (e, c, ground arith))
        | inr c ↦ inl (rw (nz, e, c) refl, inr (inr (p, maker ∷ later, e, inl c)))
      ]
    ]
  ]

  -- What every exchange keeps, the loop keeps.
  pub match_loop-inv :
      (P : Matching → Type 0)
      → ((m : Matching) (p : ℕ) (maker : Resting) (later : Level)
          → Trades taker limit m p maker later
          → P m
          → P (exchange taker p maker later m))
      → (n : ℕ) (m : Matching) → P m
      → P (match_loop n taker limit m)
  unfolding match_loop round
  match_loop-inv P keep zero m h = h
  match_loop-inv P keep (suc n) m h = elim (round-cases m) [
    | inl (e, done) ↦ rw (e, match_loop) h
    | inr (p, maker, later, e, t) ↦
        rw (e, match_loop)
          (match_loop-inv P keep n (exchange taker p maker later m) (keep m p maker later t h))
  ]

  measure :
      (m : Matching) (p : ℕ) (maker : Resting) (later : Level)
      → Trades taker limit m p maker later
      → let m' = exchange taker p maker later m in
        (m'.qty ≡ 0)
        ⊎ (resting_count (book_of (opposite taker) m'.book)
            < resting_count (book_of (opposite taker) m.book))
  unfolding exchange
  measure m p maker later (e, c, nz) =
      let moved =
        set_best-weigh length refl (level_after m.qty maker later) taker
          (book_of (opposite taker) m.book) p (maker ∷ later) e in
      rw (book_of-exchange taker p maker later m) (elim (length-level_after m.qty maker later) [
        | inl z ↦ inl z
        | inr one ↦ inr (
            omega (
              arith,
              moved,
              one,
              resting_count_eq (book_of (opposite taker) m.book),
              resting_count_eq (
                  set_best taker (level_after m.qty maker later) (book_of (opposite taker) m.book)),
            ))
      ])

  -- Enough fuel: the loop ends by itself.
  pub match_loop-Finished :
      (n : ℕ) (m : Matching)
      → (m.qty ≡ 0) ⊎ (resting_count (book_of (opposite taker) m.book) ≤ n)
      → Finished taker limit (match_loop n taker limit m)
  unfolding match_loop
  match_loop-Finished zero m (inl z) = inl z
  match_loop-Finished zero m (inr le) = elim (round-cases m) [
    | inl (e, done) ↦ done
    | inr (p, maker, later, e, t) ↦ absurd (
        omega (
          arith,
          le,
          resting_count_eq (book_of (opposite taker) m.book),
          set_best-weigh length refl [] taker (book_of (opposite taker) m.book) p (maker ∷ later)
              t.0,
        ))
  ]
  match_loop-Finished (suc n) m h = elim (round-cases m) [
    | inl (e, done) ↦ rw (e, match_loop) done
    | inr (p, maker, later, e, t) ↦
        rw (e, match_loop)
          (match_loop-Finished n (exchange taker p maker later m) (elim h [
            | inl z ↦ absurd (t.2 z)
            | inr le ↦ elim (measure m p maker later t) [
              | inl z ↦ inl z
              | inr less ↦ inr (omega (arith, le, less))
            ]
          ]))
  ]

module _ (taker : ObSide) (limit qty : ℕ) (o : OrderBook) where
  -- Matching an order ends by itself: its quantity is used up, or the other side is empty, or the
  -- best level there does not cross its limit (or holds no order).
  pub match-Finished : Finished taker limit (match taker limit qty o)
  unfolding match
  match-Finished =
      match_loop-Finished taker limit (resting_count (book_of (opposite taker) o)) _
        (inr (omega arith))
