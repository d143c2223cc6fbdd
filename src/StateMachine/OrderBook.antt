-- ===== src/StateMachine/OrderBook.antt =====
-- src/statemachine/order_book.cpp, the book: its two sides, the locator index, and `match`, `rest`
-- and `remove`. A level holds its orders with the oldest first.
pub mod Commands
pub mod Weights
pub mod Rounds
pub mod Fills
pub mod Sorted
pub mod Uncrossed
pub mod Steps
pub mod Runs
pub mod Queries
use raft_rsm.Prelude.{
  ℕ, zero, suc, ◌+◌, ◌-◌, Bool, true, false, Option, none, some, List, [], ◌∷◌, ◌++◌, ltb, leb,
  ◌==◌, if◌then◌else◌, length,
}
use raft_rsm.StateMachine.Map.{word_key, lookup, insert, erase}
use raft_rsm.StateMachine.Kv.{Session}

pub data ObSide : Type 0 where
  bid ask : ObSide

pub record ObFill : Type 0 where
  pub maker_order_id : ℕ
  pub price : ℕ
  pub qty : ℕ

pub record Resting : Type 0 where
  pub id : ℕ
  pub qty : ℕ

abbrev pub Level : Type 0
Level = List Resting

-- Levels by price, the lowest first.
abbrev pub Book : Type 0
Book = List (ℕ × Level)

abbrev pub Locator : Type 0
Locator = List (ℕ × (ObSide × ℕ))

pub record OrderBook : Type 0 where
  pub bids : Book
  pub asks : Book
  pub index : Locator
  pub next_order_id : ℕ
  pub sessions : List (ℕ × Session)

abbrev pub empty_book : OrderBook
empty_book = record { bids = []; asks = []; index = []; next_order_id = 1; sessions = [] }

abbrev pub opposite : ObSide → ObSide
opposite bid = ask
opposite ask = bid

abbrev pub book_of : ObSide → OrderBook → Book
book_of bid o = o.bids
book_of ask o = o.asks

abbrev pub with_book : ObSide → Book → OrderBook → OrderBook
with_book bid b o = record o { bids = b }
with_book ask b o = record o { asks = b }

-- `begin()` and `std::prev(end())`.
unfoldable pub first_level : Book → Option (ℕ × Level)
first_level [] = none
first_level (x ∷ b) = some x

unfoldable pub last_level : Book → Option (ℕ × Level)
last_level [] = none
last_level (x ∷ []) = some x
last_level (x ∷ y ∷ b) = last_level (y ∷ b)

-- The best level of the book opposite to a taker.
abbrev pub best : ObSide → Book → Option (ℕ × Level)
best bid b = first_level b
best ask b = last_level b

-- A level that ran empty is erased.
abbrev pub keep_level : ℕ → Level → Book → Book
keep_level price [] b = b
keep_level price (o ∷ level) b = (price, o ∷ level) ∷ b

-- The book after a change of the level at such an iterator.
unfoldable pub set_first : Level → Book → Book
set_first level [] = []
set_first level ((price, old) ∷ b) = keep_level price level b

unfoldable pub set_last : Level → Book → Book
set_last level [] = []
set_last level ((price, old) ∷ []) = keep_level price level []
set_last level (x ∷ y ∷ b) = x ∷ set_last level (y ∷ b)

abbrev pub set_best : ObSide → Level → Book → Book
set_best bid level b = set_first level b
set_best ask level b = set_last level b

abbrev pub crosses : ObSide → ℕ → ℕ → Bool
crosses bid limit price = leb price limit
crosses ask limit price = leb limit price

-- The state of the loop of `match`.
pub record Matching : Type 0 where
  pub book : OrderBook
  pub qty : ℕ
  pub fills : List ObFill

-- What a taker of a quantity trades with an order, and the level behind the trade: an order that is
-- filled is popped.
abbrev pub fill_qty : ℕ → Resting → ℕ
fill_qty qty maker = if ltb qty maker.qty then qty else maker.qty

abbrev pub level_after : ℕ → Resting → Level → Level
level_after qty maker later =
    let left = maker.qty - fill_qty qty maker in
    if left == 0 then later else record maker { qty = left } ∷ later

-- A trade with the oldest order of the best level, at its price.
unfoldable pub exchange : ObSide → ℕ → Resting → Level → Matching → Matching
exchange taker price maker later m =
    let traded = fill_qty m.qty maker in
    let level = level_after m.qty maker later in
    let o = m.book in
    let o' = with_book (opposite taker) (set_best taker level (book_of (opposite taker) o)) o in
    record {
      book = record o' {
        index = if maker.qty - traded == 0 then erase maker.id o.index else o.index;
      };
      qty = m.qty - traded;
      fills = m.fills ++ record { maker_order_id = maker.id; price = price; qty = traded } ∷ [];
    }

-- A level is never empty in the source, where `front()` would be undefined.
unfoldable pub fill : ObSide → ℕ → Level → Matching → Option Matching
fill taker price [] m = none
fill taker price (maker ∷ later) m = some (exchange taker price maker later m)

unfoldable pub trade : ObSide → ℕ → Option (ℕ × Level) → Matching → Option Matching
trade taker limit none m = none
trade taker limit (some (price, level)) m =
    if crosses taker limit price then fill taker price level m else none

-- One round of the loop, or none where it ends.
unfoldable pub round : ObSide → ℕ → Matching → Option Matching
round taker limit m =
    if m.qty == 0 then none else trade taker limit (best taker (book_of (opposite taker) m.book)) m

-- The loop, with fuel.
unfoldable pub match_loop : ℕ → ObSide → ℕ → Matching → Matching
match_loop zero taker limit m = m
match_loop (suc fuel) taker limit m = elim (round taker limit m) [
  | none ↦ m
  | some m' ↦ match_loop fuel taker limit m'
]

-- The number of orders in a book: the rounds that the loop can take.
unfoldable pub resting_count : Book → ℕ
resting_count [] = 0
resting_count ((price, level) ∷ b) = length level + resting_count b

unfoldable pub match : ObSide → ℕ → ℕ → OrderBook → Matching
match taker limit qty o =
    match_loop (resting_count (book_of (opposite taker) o)) taker limit
      (record { book = o; qty = qty; fills = [] })

abbrev pub level_or_empty : Option Level → Level
level_or_empty none = []
level_or_empty (some level) = level

unfoldable pub rest : ObSide → ℕ → ℕ → ℕ → OrderBook → OrderBook
rest side price id qty o =
    let b = book_of side o in
    let level = level_or_empty (lookup price b) ++ record { id = id; qty = qty } ∷ [] in
    record (with_book side (insert price level b) o) { index = insert id (side, price) o.index }

-- The quantity of an order in a level, and the level without it.
unfoldable pub find_qty : ℕ → Level → Option ℕ
find_qty id [] = none
find_qty id (x ∷ level) = if x.id == id then some x.qty else find_qty id level

unfoldable pub take_out : ℕ → Level → Level
take_out id [] = []
take_out id (x ∷ level) = let after = take_out id level in if x.id == id then level else x ∷ after

abbrev pub qty_or_zero : Option ℕ → ℕ
qty_or_zero none = 0
qty_or_zero (some q) = q

-- `if (level.empty()) book.erase(levelIt)`.
abbrev pub put_level : ℕ → Level → Book → Book
put_level price [] b = erase price b
put_level price (x ∷ level) b = insert price (x ∷ level) b

unfoldable pub remove_at : ℕ → ObSide → ℕ → Option Level → OrderBook → ℕ × OrderBook
remove_at id side price none o = (0, o)
remove_at id side price (some level) o =
    let b = put_level price (take_out id level) (book_of side o) in
    (qty_or_zero (find_qty id level), record (with_book side b o) { index = erase id o.index })

-- `remove`, of an order at a side and price that the index gives; a level that is missing there,
-- undefined in the source, changes nothing.
unfoldable pub remove : ℕ → ObSide → ℕ → OrderBook → ℕ × OrderBook
remove id side price o = remove_at id side price (lookup price (book_of side o)) o
