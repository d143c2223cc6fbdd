-- ===== src/StateMachine/OrderBook/Weights.antt =====
-- Measures of the books of src/statemachine/order_book.cpp, and what one trade does to them.
use raft_rsm.Prelude.{
  ℕ, suc, ◌+◌, ◌-◌, ◌≤◌, ◌≡◌, refl, ◌⊎◌, some, List, [], ◌∷◌, ◌++◌, arith, length,
}
use raft_rsm.StateMachine.OrderBook.{
  ObSide, bid, ask, ObFill, Resting, Level, Book, Matching, opposite, book_of, first_level,
  last_level, keep_level, best, set_first, set_last, set_best, exchange, fill_qty, level_after,
  resting_count,
}

-- A measure of the levels, summed over a book.
abbrev pub weigh : (Level → ℕ) → Book → ℕ
weigh w [] = 0
weigh w ((price, level) ∷ b) = w level + weigh w b

abbrev pub level_qty : Level → ℕ
level_qty [] = 0
level_qty (x ∷ level) = x.qty + level_qty level

-- The quantity that rests in a book, and that a list of fills trades.
abbrev pub volume : Book → ℕ
volume b = weigh level_qty b

abbrev pub traded : List ObFill → ℕ
traded [] = 0
traded (f ∷ fills) = f.qty + traded fills

pub traded-append : (fs gs : List ObFill) → traded (fs ++ gs) ≡ traded fs + traded gs
traded-append [] gs = omega arith
traded-append (f ∷ fs) gs = omega (arith, traded-append fs gs)

pub resting_count_eq : (b : Book) → resting_count b ≡ weigh length b
unfolding resting_count
resting_count_eq [] = refl
resting_count_eq ((price, level) ∷ b) = omega (arith, resting_count_eq b)

module _ (w : Level → ℕ) (nil : w [] ≡ 0) (new : Level) where
  keep_level-weigh :
      (p : ℕ) (level : Level) (b : Book) → weigh w (keep_level p level b) ≡ w level + weigh w b
  keep_level-weigh p [] b = omega (arith, nil)
  keep_level-weigh p (x ∷ level) b = refl

  set_first-weigh :
      (b : Book) (p : ℕ) (old : Level)
      → first_level b ≡ some (p, old)
      → weigh w (set_first new b) + w old ≡ weigh w b + w new
  unfolding first_level set_first
  set_first-weigh [] p old e = cc
  set_first-weigh ((q, level) ∷ b) p old e =
      let same : level ≡ old = ground (arith, e) in
      rw same (omega (arith, keep_level-weigh q new b))

  set_last-weigh :
      (b : Book) (p : ℕ) (old : Level)
      → last_level b ≡ some (p, old)
      → weigh w (set_last new b) + w old ≡ weigh w b + w new
  unfolding last_level set_last
  set_last-weigh [] p old e = cc
  set_last-weigh ((q, level) ∷ []) p old e =
      let same : level ≡ old = ground (arith, e) in
      rw same (omega (arith, keep_level-weigh q new []))
  set_last-weigh ((q, level) ∷ y ∷ b) p old e = omega (arith, set_last-weigh (y ∷ b) p old e)

  pub set_best-weigh :
      (taker : ObSide) (b : Book) (p : ℕ) (old : Level)
      → best taker b ≡ some (p, old)
      → weigh w (set_best taker new b) + w old ≡ weigh w b + w new
  set_best-weigh bid b p old e = set_first-weigh b p old e
  set_best-weigh ask b p old e = set_last-weigh b p old e

-- The sides after a trade.
pub book_of-exchange :
    (taker : ObSide) (p : ℕ) (maker : Resting) (later : Level) (m : Matching)
    → book_of (opposite taker) (exchange taker p maker later m).book
      ≡ set_best taker (level_after m.qty maker later) (book_of (opposite taker) m.book)
unfolding exchange
book_of-exchange bid p maker later m = refl
book_of-exchange ask p maker later m = refl

pub own_book-exchange :
    (taker : ObSide) (p : ℕ) (maker : Resting) (later : Level) (m : Matching)
    → book_of taker (exchange taker p maker later m).book ≡ book_of taker m.book
unfolding exchange
own_book-exchange bid p maker later m = refl
own_book-exchange ask p maker later m = refl

pub fill_qty_bounds :
    (qty : ℕ) (maker : Resting) → (fill_qty qty maker ≤ qty) × (fill_qty qty maker ≤ maker.qty)
fill_qty_bounds qty maker = ground arith

pub level_qty-level_after :
    (qty : ℕ) (maker : Resting) (later : Level)
    → level_qty (level_after qty maker later) + fill_qty qty maker ≡ level_qty (maker ∷ later)
level_qty-level_after qty maker later = ground arith

-- A trade uses up the taker or the order.
pub length-level_after :
    (qty : ℕ) (maker : Resting) (later : Level)
    → (qty - fill_qty qty maker ≡ 0)
      ⊎ (suc (length (level_after qty maker later)) ≡ length (maker ∷ later))
length-level_after qty maker later = ground arith
