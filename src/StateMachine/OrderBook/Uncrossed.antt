-- ===== src/StateMachine/OrderBook/Uncrossed.antt =====
-- The books of src/statemachine/order_book.cpp that do not cross: the definition of a sound pair of
-- books, and the change of one side.
use raft_rsm.Prelude.{ℕ, ◌≡◌, false, [], ◌∷◌, All}
use raft_rsm.StateMachine.Map.{word_key}
use raft_rsm.StateMachine.OrderBook.{
  ObSide, bid, ask, Level, Book, Locator, OrderBook, opposite, book_of, with_book, crosses,
}
use raft_rsm.StateMachine.OrderBook.Sorted.{Sorted, Full, Clear}

-- No level of the side crosses a level of the other book.
abbrev pub Apart : ObSide → Book → Book → Type 0
Apart side b c = All (λ (x : ℕ × Level). Clear side x.0 c) b

flip_one :
    (side : ObSide) (x : ℕ × Level) (b c : Book)
    → All (λ (y : ℕ × Level). crosses side y.0 x.0 ≡ false) b
    → Apart side b c
    → Apart side b (x ∷ c)
flip_one side x [] c h a = tt
flip_one side x (y ∷ b) c h a = ((h.0, a.0), flip_one side x b c h.1 a.1)

Apart-nil : (side : ObSide) (b : Book) → Apart side b []
Apart-nil side [] = tt
Apart-nil side (x ∷ b) = (tt, Apart-nil side b)

flip :
    (side : ObSide) (b c : Book)
    → All (λ (y : ℕ × Level). All (λ (x : ℕ × Level). crosses side x.0 y.0 ≡ false) b) c
    → Apart side b c
flip side b [] h = Apart-nil side b
flip side b (y ∷ c) h = flip_one side y b c h.0 (flip side b c h.1)

-- The two books: prices in order, no empty level and no empty order, and every bid below every ask.
pub record Sound (o : OrderBook) : Type 0 where
  pub sorted : (side : ObSide) → Sorted (book_of side o)
  pub full : (side : ObSide) → Full (book_of side o)
  pub apart : (side : ObSide) → Apart side (book_of side o) (book_of (opposite side) o)

-- Only the two books matter.
pub Sound-books : (o o' : OrderBook) → o'.bids ≡ o.bids → o'.asks ≡ o.asks → Sound o → Sound o'
Sound-books o o' eb ea h = record {
  sorted = λ side. elim side as (λ d. Sorted (book_of d o')) [
    | bid ↦ rw eb (h.sorted bid)
    | ask ↦ rw ea (h.sorted ask)
  ];
  full = λ side. elim side as (λ d. Full (book_of d o')) [
    | bid ↦ rw eb (h.full bid)
    | ask ↦ rw ea (h.full ask)
  ];
  apart = λ side. elim side as (λ d. Apart d (book_of d o') (book_of (opposite d) o')) [
    | bid ↦ rw (eb, ea) (h.apart bid)
    | ask ↦ rw (eb, ea) (h.apart ask)
  ];
}

-- A change of one side, of the index and of the counter.
pub changed :
    (side : ObSide) (b : Book) (o : OrderBook) (index : Locator)
    → Sound o
    → Sorted b
    → Full b
    → Apart side b (book_of (opposite side) o)
    → Sound (record (with_book side b o) { index = index })
changed bid b o index h s f a = record {
  sorted = λ side. elim side as (λ d. Sorted (book_of d (record o { bids = b; index = index }))) [
    | bid ↦ s
    | ask ↦ h.sorted ask
  ];
  full = λ side. elim side as (λ d. Full (book_of d (record o { bids = b; index = index }))) [
    | bid ↦ f
    | ask ↦ h.full ask
  ];
  apart = λ side.
      elim side
        as (λ d.
          Apart d (book_of d (record o { bids = b; index = index }))
            (book_of (opposite d) (record o { bids = b; index = index }))) [
              | bid ↦ a
              | ask ↦ flip ask o.asks b a
            ];
}
changed ask b o index h s f a = record {
  sorted = λ side. elim side as (λ d. Sorted (book_of d (record o { asks = b; index = index }))) [
    | bid ↦ h.sorted bid
    | ask ↦ s
  ];
  full = λ side. elim side as (λ d. Full (book_of d (record o { asks = b; index = index }))) [
    | bid ↦ h.full bid
    | ask ↦ f
  ];
  apart = λ side.
      elim side
        as (λ d.
          Apart d (book_of d (record o { asks = b; index = index }))
            (book_of (opposite d) (record o { asks = b; index = index }))) [
              | bid ↦ flip bid o.bids b a
              | ask ↦ a
            ];
}
