-- ===== src/StateMachine/OrderBook/Queries.antt =====
-- The accessors `bestBid` and `bestAsk` of src/statemachine/order_book.cpp, after any commands.
use raft_rsm.Prelude.{
  ℕ, ◌<◌, ◌≤◌, ◌≡◌, refl, subst, All, false, Option, none, some, List, [], ◌∷◌, arith, add64,
}
use raft_rsm.Rpc.Types.{Bytes}
use raft_rsm.StateMachine.Map.{word_key}
use raft_rsm.StateMachine.OrderBook.{
  bid, ask, Level, Book, OrderBook, empty_book, first_level, last_level, crosses,
}
use raft_rsm.StateMachine.OrderBook.Commands.{apply_all}
use raft_rsm.StateMachine.OrderBook.Sorted.{Above, Sorted, Clear, All-best}
use raft_rsm.StateMachine.OrderBook.Runs.{apply_all-Sound, empty_book-Sound}

-- `total += o.qty` over a level.
unfoldable pub level_total : ℕ → Level → ℕ
level_total total [] = total
level_total total (x ∷ level) = level_total (add64 total x.qty) level

abbrev pub with_total : Option (ℕ × Level) → Option (ℕ × ℕ)
with_total none = none
with_total (some (price, level)) = some (price, level_total 0 level)

unfoldable pub best_bid : OrderBook → Option (ℕ × ℕ)
best_bid o = with_total (last_level o.bids)

unfoldable pub best_ask : OrderBook → Option (ℕ × ℕ)
best_ask o = with_total (first_level o.asks)

with_total-some :
    (x : Option (ℕ × Level)) (p v : ℕ)
    → with_total x ≡ some (p, v)
    → (level : Level) × (x ≡ some (p, level))
with_total-some none p v e = cc
with_total-some (some (q, level)) p v e =
    let same : q ≡ p = ground (arith, e) in (level, rw same refl)

-- The last level of a sorted book has the highest price.
last_highest :
    (p : ℕ) (level : Level) (b : Book)
    → Sorted b
    → last_level b ≡ some (p, level)
    → All (λ (x : ℕ × Level). x.0 ≤ p) b
unfolding last_level
last_highest p level [] s e = tt
last_highest p level ((q, l) ∷ []) s e = let same : q ≡ p = ground (arith, e) in (omega arith, tt)
last_highest p level ((q, l) ∷ y ∷ b) s e =
    let below : q < p = All-best (λ (x : ℕ × Level). q < x.0) ask p level (y ∷ b) e s.0 in
    (omega arith, last_highest p level (y ∷ b) s.1 e)

All-Above : (p : ℕ) (b : Book) → Above p b → All (λ (x : ℕ × Level). p ≤ x.0) b
All-Above p [] a = tt
All-Above p ((q, l) ∷ b) a = (omega (arith, a.0), All-Above p b a.1)

-- The first level of a sorted book has the lowest price.
first_lowest :
    (p : ℕ) (level : Level) (b : Book)
    → Sorted b
    → first_level b ≡ some (p, level)
    → All (λ (x : ℕ × Level). p ≤ x.0) b
unfolding first_level
first_lowest p level [] s e = tt
first_lowest p level ((q, l) ∷ b) s e =
    let same : q ≡ p = ground (arith, e) in
    (omega arith, All-Above p b (subst (λ k. Above k b) same s.0))

-- After any commands to an empty book, the best bid is below the best ask; no bid in the book is
-- above the one, and no ask is below the other.
pub best_bid-best_ask :
    (commands : List Bytes) (p v q w : ℕ)
    → best_bid (apply_all commands empty_book) ≡ some (p, v)
    → best_ask (apply_all commands empty_book) ≡ some (q, w)
    → (p < q)
      × All (λ (x : ℕ × Level). x.0 ≤ p) (apply_all commands empty_book).bids
      × All (λ (x : ℕ × Level). q ≤ x.0) (apply_all commands empty_book).asks
unfolding best_bid best_ask
best_bid-best_ask commands p v q w b a =
    let o = apply_all commands empty_book in
    let s = apply_all-Sound commands empty_book empty_book-Sound in
    let (bids, eb) = with_total-some (last_level o.bids) p v b in
    let (asks, ea) = with_total-some (first_level o.asks) q w a in
    let clear : Clear bid p o.asks =
      All-best (λ (x : ℕ × Level). Clear bid x.0 o.asks) ask p bids o.bids eb (s.apart bid) in
    let c = All-best (λ (x : ℕ × Level). crosses bid p x.0 ≡ false) bid q asks o.asks ea clear in
    (
      ground (arith, c),
      last_highest p bids o.bids (s.sorted bid) eb,
      first_lowest q asks o.asks (s.sorted ask) ea,
    )
