-- ===== src/StateMachine/OrderBook/Runs.antt =====
-- `apply` of src/statemachine/order_book.cpp on sound books, and runs of commands.
use raft_rsm.Prelude.{
  ℕ, ◌≡◌, ◌≢◌, refl, sym, inl, inr, Bool, true, not, ◌&&◌, ◌||◌, Option, none, some, List, [], ◌∷◌,
  arith, ltb, ◌==◌, Bool-cases, Option-cases, All,
}
use raft_rsm.Rpc.Types.{Bytes}
use raft_rsm.Rpc.Wire.{Reader, reader, read_word, exhausted}
use raft_rsm.Rpc.Decode.{pure, ◌>>=◌, continue, word, require}
use raft_rsm.StateMachine.Map.{word_key, lookup, insert}
use raft_rsm.StateMachine.Kv.{cached}
use raft_rsm.StateMachine.OrderBook.{
  ObSide, bid, ask, Level, OrderBook, opposite, book_of, match, find_qty, level_or_empty, remove,
  empty_book,
}
use raft_rsm.StateMachine.OrderBook.Commands.{
  ObOp, new, cancel, amend, side_of, ObRequest, new_order, cancel_order, amend_order, ObHeader,
  parse_header, parse_request, rest_residual, place, set_qty, at_least, amend_in_place,
  replace_order, cancel_at, amend_at, run_request, remember, apply_request, apply_header, apply,
  apply_all,
}
use raft_rsm.StateMachine.OrderBook.Rounds.{match-Finished}
use raft_rsm.StateMachine.OrderBook.Sorted.{
  Sorted, Positive, FullLevel, Full, Clear, All-insert, All-lookup, Sorted-insert,
}
use raft_rsm.StateMachine.OrderBook.Uncrossed.{Apart, Sound, Sound-books, changed}
use raft_rsm.StateMachine.OrderBook.Steps.{match-Sound, Finished-Clear, rest-Sound, remove-Sound}

-- A quantity that is placed is not 0.
abbrev pub Valid : ObRequest → Type 0
Valid (new_order side price qty) = qty ≢ 0
Valid (cancel_order id) = Unit
Valid (amend_order id price qty) = qty ≢ 0

-- What a decoder gives behind a test passed the test.
required :
    {A : Type 0} (test : Reader → Bool) (a : A) (r : Reader) (b : A)
    → ((require test >>= λ _. pure a) r).0 ≡ some b
    → (test r ≡ true) × (a ≡ b)
unfolding ◌>>=◌ continue require pure
required test a r b e = elim (Bool-cases (test r)) [
  | inl t ↦ (t, ground (arith, rw t at e))
  | inr f ↦ let e' = rw f at e in cc
]

positive :
    (side price qty : ℕ) (b : Bool)
    → (b && not (ltb 1 side || (price == 0 || qty == 0))) ≡ true
    → qty ≢ 0
positive side price qty b h = ground (arith, h)

parse_request-Valid :
    (op : ObOp) (r : Reader) (q : ObRequest) → (parse_request op r).0 ≡ some q → Valid q
unfolding parse_request ◌>>=◌ continue word require pure
parse_request-Valid new r q e =
    let (side, r1) = read_word 1 r in
    let (price, r2) = read_word 8 r1 in
    let (qty, r3) = read_word 8 r2 in
    let (test, same) =
      required (λ r. r.ok && exhausted r && not (ltb 1 side || (price == 0 || qty == 0)))
        (new_order (side_of side) price qty) r3 q e in
    rw (sym same) (positive side price qty (r3.ok && exhausted r3) test)
parse_request-Valid cancel r q e =
    let (test, same) =
      required (λ r. r.ok && exhausted r) (cancel_order (read_word 8 r).0) (read_word 8 r).1 q e in
    rw (sym same) tt
parse_request-Valid amend r q e =
    let (id, r1) = read_word 8 r in
    let (price, r2) = read_word 8 r1 in
    let (qty, r3) = read_word 8 r2 in
    let (test, same) =
      required (λ r. r.ok && exhausted r && not (price == 0 || qty == 0)) (amend_order id price qty)
        r3 q e in
    rw (sym same) (positive 0 price qty (r3.ok && exhausted r3) test)

place-Sound :
    (side : ObSide) (price id qty : ℕ) (o : OrderBook)
    → Sound o
    → Sound (place side price id qty o).1
unfolding place rest_residual
place-Sound side price id qty o h =
    let m = match side price qty o in
    let s = match-Sound side price qty o h in
    elim (Bool-cases (m.qty == 0)) [
      | inl e ↦ rw e s
      | inr e ↦ rw e (
          rest-Sound side price id m.qty m.book s (ground arith)
            (Finished-Clear side price m s (match-Finished side price qty o) (ground arith)))
    ]

set_qty-Positive :
    (id qty : ℕ) (level : Level)
    → qty ≢ 0
    → All Positive level
    → All Positive (set_qty id qty level)
unfolding set_qty
set_qty-Positive id qty [] n h = tt
set_qty-Positive id qty (x ∷ level) n h = elim (Bool-cases (x.id == id)) [
  | inl e ↦ rw e (n, h.1)
  | inr e ↦ rw e (h.0, set_qty-Positive id qty level n h.1)
]

set_qty-FullLevel :
    (id qty : ℕ) (level : Level) → qty ≢ 0 → FullLevel level → FullLevel (set_qty id qty level)
unfolding set_qty
set_qty-FullLevel id qty [] n f = absurd (f.0 refl)
set_qty-FullLevel id qty (x ∷ level) n f = elim (Bool-cases (x.id == id)) [
  | inl e ↦ rw e (cc, (n, f.1.1))
  | inr e ↦ rw e (cc, (f.1.0, set_qty-Positive id qty level n f.1.1))
]

amend_in_place-Sound :
    (id qty : ℕ) (side : ObSide) (price : ℕ) (o : OrderBook)
    → Sound o
    → qty ≢ 0
    → at_least qty (find_qty id (level_or_empty (lookup price (book_of side o)))) ≡ true
    → Sound (amend_in_place id qty side price o).1
unfolding amend_in_place find_qty
amend_in_place-Sound id qty side price o h n held =
    elim (Option-cases (lookup price (book_of side o))) [
      | inl e ↦ let held' = rw e at held in cc
      | inr (level, e) ↦
          let b = book_of side o in
          let c = book_of (opposite side) o in
          let full : FullLevel level =
            All-lookup (λ (x : ℕ × Level). FullLevel x.1) price level b e (h.full side) in
          rw (e, amend_in_place)
            (Sound-books _ _ refl refl (
              changed side (insert price (set_qty id qty level) b) o o.index h
                (Sorted-insert price (set_qty id qty level) b (h.sorted side))
                (All-insert (λ (x : ℕ × Level). FullLevel x.1) price (set_qty id qty level) b
                  (set_qty-FullLevel id qty level n full) (h.full side))
                (All-insert (λ (x : ℕ × Level). Clear side x.0 c) price (set_qty id qty level) b
                  (All-lookup (λ (x : ℕ × Level). Clear side x.0 c) price level b e (h.apart side))
                  (h.apart side))))
    ]

amend_at-Sound :
    (id price qty : ℕ) (at : Option (ObSide × ℕ)) (o : OrderBook)
    → Sound o
    → qty ≢ 0
    → Sound (amend_at id price qty at o).1
unfolding amend_at replace_order
amend_at-Sound id price qty none o h n = h
amend_at-Sound id price qty (some (side, old)) o h n =
    let held = at_least qty (find_qty id (level_or_empty (lookup old (book_of side o)))) in
    elim (Bool-cases ((price == old) && held)) [
      | inl e ↦ rw e (amend_in_place-Sound id qty side old o h n (ground arith))
      | inr e ↦
          rw e
            (place-Sound side price id qty (remove id side old o).1 (remove-Sound id side old o h))
    ]

cancel_at-Sound :
    (id : ℕ) (at : Option (ObSide × ℕ)) (o : OrderBook) → Sound o → Sound (cancel_at id at o).1
unfolding cancel_at
cancel_at-Sound id none o h = h
cancel_at-Sound id (some (side, price)) o h = remove-Sound id side price o h

run_request-Sound : (q : ObRequest) (o : OrderBook) → Sound o → Valid q → Sound (run_request q o).1
unfolding run_request
run_request-Sound (new_order side price qty) o h v =
    place-Sound side price o.next_order_id qty _ (Sound-books o _ refl refl h)
run_request-Sound (cancel_order id) o h v = cancel_at-Sound id (lookup id o.index) o h
run_request-Sound (amend_order id price qty) o h v =
    amend_at-Sound id price qty (lookup id o.index) o h v

apply_request-Sound :
    (h : ObHeader) (q : Option ObRequest) (o : OrderBook)
    → Sound o
    → ((r : ObRequest) → q ≡ some r → Valid r)
    → Sound (apply_request h q o).1
unfolding apply_request remember
apply_request-Sound h none o s v = s
apply_request-Sound h (some q) o s v =
    Sound-books (run_request q o).1 _ refl refl (run_request-Sound q o s (v q refl))

apply_header-Sound :
    (h : Option ObHeader) (r : Reader) (o : OrderBook) → Sound o → Sound (apply_header h r o).1
unfolding apply_header
apply_header-Sound none r o s = s
apply_header-Sound (some h) r o s =
    let run = apply_request-Sound h (parse_request h.op r).0 o s (parse_request-Valid h.op r) in
    elim (Bool-cases (h.client_id == 0)) [
      | inl e ↦ rw e run
      | inr e ↦ elim (Option-cases (cached h.seq_no (lookup h.client_id o.sessions))) [
        | inl n ↦ rw (e, n, apply_header) run
        | inr (result, y) ↦ rw (e, y, apply_header) s
      ]
    ]

-- Any commands, well-formed or not, leave a sound book sound: the prices of each side in order, no
-- empty level, no order of quantity 0, and every bid below every ask.
pub apply_all-Sound :
    (commands : List Bytes) (o : OrderBook) → Sound o → Sound (apply_all commands o)
unfolding apply_all apply
apply_all-Sound [] o h = h
apply_all-Sound (command ∷ commands) o h =
    let (header, r) = parse_header (reader command) in
    apply_all-Sound commands (apply_header header r o).1 (apply_header-Sound header r o h)

pub empty_book-Sound : Sound empty_book
empty_book-Sound = record {
  sorted = λ side. elim side as (λ d. Sorted (book_of d empty_book)) [ bid ↦ tt | ask ↦ tt ];
  full = λ side. elim side as (λ d. Full (book_of d empty_book)) [ bid ↦ tt | ask ↦ tt ];
  apart = λ side.
      elim side as (λ d. Apart d (book_of d empty_book) (book_of (opposite d) empty_book)) [
        | bid ↦ tt
        | ask ↦ tt
      ];
}
