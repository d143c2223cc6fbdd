-- ===== src/StateMachine/OrderBook/Steps.antt =====
-- `match`, `rest` and `remove` of src/statemachine/order_book.cpp on sound books.
use raft_rsm.Prelude.{
  ℕ, ◌-◌, ◌≢◌, inl, inr, [], ◌∷◌, ◌++◌, arith, ◌==◌, Bool-cases, Option-cases, All, All-append,
}
use raft_rsm.StateMachine.Map.{word_key, lookup, insert}
use raft_rsm.StateMachine.OrderBook.{
  ObSide, Resting, Level, Book, OrderBook, Matching, opposite, book_of, set_best, exchange, match,
  rest, level_or_empty, level_after, fill_qty, take_out, put_level, remove, remove_at,
  resting_count,
}
use raft_rsm.StateMachine.OrderBook.Rounds.{Trades, Finished, match_loop-inv}
use raft_rsm.StateMachine.OrderBook.Sorted.{
  Sorted, Positive, FullLevel, Clear, All-insert, All-erase, All-set_best, All-best, All-lookup,
  Sorted-insert, Sorted-erase, Sorted-set_best, best-none, best-Clear,
}
use raft_rsm.StateMachine.OrderBook.Uncrossed.{Sound, changed}

level_after-Positive :
    (qty : ℕ) (maker : Resting) (later : Level)
    → All Positive (maker ∷ later)
    → All Positive (level_after qty maker later)
level_after-Positive qty maker later h = elim (Bool-cases (maker.qty - fill_qty qty maker == 0)) [
  | inl e ↦ rw e h.1
  | inr e ↦ rw e (ground (arith, e), h.1)
]

exchange-Sound :
    (taker : ObSide) (limit : ℕ) (m : Matching) (p : ℕ) (maker : Resting) (later : Level)
    → Trades taker limit m p maker later
    → Sound m.book
    → Sound (exchange taker p maker later m).book
unfolding exchange
exchange-Sound taker limit m p maker later t h =
    let other = opposite taker in
    let b = book_of other m.book in
    let c = book_of (opposite other) m.book in
    let level = level_after m.qty maker later in
    let full : FullLevel (maker ∷ later) =
      All-best (λ (x : ℕ × Level). FullLevel x.1) taker p (maker ∷ later) b t.0 (h.full other) in
    changed other (set_best taker level b) m.book _ h
      (Sorted-set_best taker level b (h.sorted other))
      (All-set_best (λ (x : ℕ × Level). FullLevel x.1) taker p (maker ∷ later) level b t.0
        (λ n. (n, level_after-Positive m.qty maker later full.1)) (h.full other))
      (All-set_best (λ (x : ℕ × Level). Clear other x.0 c) taker p (maker ∷ later) level b t.0
        (λ n.
          All-best (λ (x : ℕ × Level). Clear other x.0 c) taker p (maker ∷ later) b t.0
            (h.apart other))
        (h.apart other))

pub match-Sound :
    (taker : ObSide) (limit qty : ℕ) (o : OrderBook)
    → Sound o
    → Sound (match taker limit qty o).book
unfolding match
match-Sound taker limit qty o h =
    match_loop-inv taker limit (λ m. Sound m.book) (exchange-Sound taker limit)
      (resting_count (book_of (opposite taker) o)) _ h

-- After the matching of an order that is not used up, nothing crosses it.
pub Finished-Clear :
    (taker : ObSide) (limit : ℕ) (m : Matching)
    → Sound m.book
    → Finished taker limit m
    → m.qty ≢ 0
    → Clear taker limit (book_of (opposite taker) m.book)
Finished-Clear taker limit m h f n = elim f [
  | inl z ↦ absurd (n z)
  | inr (inl e) ↦ rw (best-none taker (book_of (opposite taker) m.book) e) tt
  | inr (inr (p, level, e, inl c)) ↦
      best-Clear taker limit p level (book_of (opposite taker) m.book) e (h.sorted (opposite taker))
        c
  | inr (inr (p, level, e, inr empty)) ↦ absurd (
      (All-best (λ (x : ℕ × Level). FullLevel x.1) taker p level (book_of (opposite taker) m.book) e
          (h.full (opposite taker))).0
        empty)
]

lookup-Positive :
    (side : ObSide) (price : ℕ) (o : OrderBook)
    → Sound o
    → All Positive (level_or_empty (lookup price (book_of side o)))
lookup-Positive side price o h = elim (Option-cases (lookup price (book_of side o))) [
  | inl e ↦ rw e tt
  | inr (level, e) ↦ rw e (
      (All-lookup (λ (x : ℕ × Level). FullLevel x.1) price level (book_of side o) e
        (h.full side)).1)
]

append_nonempty : (level : Level) (x : Resting) → level ++ x ∷ [] ≢ []
append_nonempty [] x e = cc
append_nonempty (y ∷ level) x e = cc

pub rest-Sound :
    (side : ObSide) (price id qty : ℕ) (o : OrderBook)
    → Sound o
    → qty ≢ 0
    → Clear side price (book_of (opposite side) o)
    → Sound (rest side price id qty o)
unfolding rest
rest-Sound side price id qty o h n c =
    let b = book_of side o in
    let level = level_or_empty (lookup price b) ++ record { id = id; qty = qty } ∷ [] in
    changed side (insert price level b) o _ h (Sorted-insert price level b (h.sorted side))
      (All-insert (λ (x : ℕ × Level). FullLevel x.1) price level b
        (
          append_nonempty (level_or_empty (lookup price b)) _,
          All-append Positive (level_or_empty (lookup price b)) _ (lookup-Positive side price o h)
              (n, tt),
        )
        (h.full side))
      (All-insert (λ (x : ℕ × Level). Clear side x.0 (book_of (opposite side) o)) price level b c
        (h.apart side))

take_out-Positive : (id : ℕ) (level : Level) → All Positive level → All Positive (take_out id level)
unfolding take_out
take_out-Positive id [] h = tt
take_out-Positive id (x ∷ level) h = elim (Bool-cases (x.id == id)) [
  | inl e ↦ rw e h.1
  | inr e ↦ rw e (h.0, take_out-Positive id level h.1)
]

module _ (P : ℕ × Level → Type 0) where
  All-put_level :
      (price : ℕ) (level : Level) (b : Book)
      → (level ≢ [] → P (price, level))
      → All P b
      → All P (put_level price level b)
  All-put_level price [] b h a = All-erase P price b a
  All-put_level price (x ∷ level) b h a = All-insert P price (x ∷ level) b (h cc) a

Sorted-put_level :
    (price : ℕ) (level : Level) (b : Book) → Sorted b → Sorted (put_level price level b)
Sorted-put_level price [] b s = Sorted-erase price b s
Sorted-put_level price (x ∷ level) b s = Sorted-insert price (x ∷ level) b s

pub remove-Sound :
    (id : ℕ) (side : ObSide) (price : ℕ) (o : OrderBook)
    → Sound o
    → Sound (remove id side price o).1
unfolding remove remove_at
remove-Sound id side price o h = elim (Option-cases (lookup price (book_of side o))) [
  | inl e ↦ rw e h
  | inr (level, e) ↦
      let b = book_of side o in
      let c = book_of (opposite side) o in
      let full : FullLevel level =
        All-lookup (λ (x : ℕ × Level). FullLevel x.1) price level b e (h.full side) in
      rw (e, remove, remove_at)
        (changed side (put_level price (take_out id level) b) o _ h
          (Sorted-put_level price (take_out id level) b (h.sorted side))
          (All-put_level (λ (x : ℕ × Level). FullLevel x.1) price (take_out id level) b
            (λ n. (n, take_out-Positive id level full.1)) (h.full side))
          (All-put_level (λ (x : ℕ × Level). Clear side x.0 c) price (take_out id level) b
            (λ n. All-lookup (λ (x : ℕ × Level). Clear side x.0 c) price level b e (h.apart side))
            (h.apart side)))
]
