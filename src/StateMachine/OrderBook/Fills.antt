-- ===== src/StateMachine/OrderBook/Fills.antt =====
-- What `match` in src/statemachine/order_book.cpp trades.
use raft_rsm.Prelude.{ℕ, ◌+◌, ◌≡◌, refl, ◌∙◌, true, [], ◌∷◌, arith, All, All-append}
use raft_rsm.StateMachine.OrderBook.{
  ObSide, ObFill, Resting, Level, OrderBook, Matching, opposite, book_of, crosses, exchange,
  fill_qty, level_after, resting_count, match,
}
use raft_rsm.StateMachine.OrderBook.Weights.{
  level_qty, volume, traded, traded-append, set_best-weigh, book_of-exchange, own_book-exchange,
  fill_qty_bounds, level_qty-level_after,
}
use raft_rsm.StateMachine.OrderBook.Rounds.{Trades, match_loop-inv}

module _ (taker : ObSide) (limit : ℕ) where
  -- A trade conserves the taker's quantity and the quantity that rests on the other side.
  abbrev pub Conserves : Matching → Matching → Type 0
  Conserves m m' =
      (m'.qty + traded m'.fills ≡ m.qty + traded m.fills)
      × (volume (book_of (opposite taker) m'.book) + traded m'.fills
          ≡ volume (book_of (opposite taker) m.book) + traded m.fills)

  exchange-Conserves :
      (m : Matching) (p : ℕ) (maker : Resting) (later : Level)
      → Trades taker limit m p maker later
      → Conserves m (exchange taker p maker later m)
  unfolding exchange
  exchange-Conserves m p maker later (e, c, nz) =
      let added =
        traded-append m.fills
          (record { maker_order_id = maker.id; price = p; qty = fill_qty m.qty maker } ∷ []) in
      let moved =
        set_best-weigh level_qty refl (level_after m.qty maker later) taker
          (book_of (opposite taker) m.book) p (maker ∷ later) e in
      let bounds = fill_qty_bounds m.qty maker in
      let level = level_qty-level_after m.qty maker later in
      (
        omega (arith, bounds, added),
        rw (book_of-exchange taker p maker later m) (omega (arith, moved, level, added)),
      )

  -- A fill at a price within the limit.
  abbrev pub Within : ObFill → Type 0
  Within f = crosses taker limit f.price ≡ true

  exchange-Within :
      (m : Matching) (p : ℕ) (maker : Resting) (later : Level)
      → Trades taker limit m p maker later
      → All Within m.fills
      → All Within (exchange taker p maker later m).fills
  unfolding exchange
  exchange-Within m p maker later t h = All-append Within m.fills _ h (t.1, tt)

module _ (taker : ObSide) (limit qty : ℕ) (o : OrderBook) where
  abbrev pub Balanced : Matching → Type 0
  Balanced m =
      (m.qty + traded m.fills ≡ qty)
      × (volume (book_of (opposite taker) m.book) + traded m.fills
          ≡ volume (book_of (opposite taker) o))
      × (book_of taker m.book ≡ book_of taker o)
      × All (Within taker limit) m.fills

  keep :
      (m : Matching) (p : ℕ) (maker : Resting) (later : Level)
      → Trades taker limit m p maker later
      → Balanced m
      → Balanced (exchange taker p maker later m)
  keep m p maker later t (own, other, same, within) =
      let (own', other') = exchange-Conserves taker limit m p maker later t in
      (
        own' ∙ own,
        other' ∙ other,
        own_book-exchange taker p maker later m ∙ same,
        exchange-Within taker limit m p maker later t within,
      )

  -- What an order trades comes off its own quantity and off the other side, its own side is left as
  -- it is, and every fill is at a price within the limit.
  pub match_conserves : Balanced (match taker limit qty o)
  unfolding match
  match_conserves =
      match_loop-inv taker limit Balanced keep (resting_count (book_of (opposite taker) o)) _
        (omega arith, omega arith, refl, tt)
