-- ===== src/Tests/Books.antt =====
-- Runs of the order book and instances of its theorems.
use raft_rsm.Prelude.{ℕ, ◌≡◌, ◌<◌, ◌≤◌, refl, All, some, List, [], ◌∷◌}
use raft_rsm.Rpc.Types.{Bytes}
use raft_rsm.Rpc.Wire.{le_bytes, of_le, read_bytes, read_word}
use raft_rsm.Rpc.Decode.{word, require, pure, fail, ◌>>=◌, continue}
use raft_rsm.StateMachine.Map.{word_key, lookup, insert, erase}
use raft_rsm.StateMachine.Kv.{cached}
use raft_rsm.StateMachine.OrderBook.{
  bid, ask, Level, OrderBook, empty_book, match, match_loop, round, trade, fill, exchange,
  first_level, last_level, set_first, resting_count, rest, find_qty,
}
use raft_rsm.StateMachine.OrderBook.Commands.{
  new_order, amend_order, encode_ob, apply, apply_all, apply_header, apply_request, parse_header,
  parse_request, some_op, run_request, remember, place, rest_residual, amend_at, amend_in_place,
  set_qty, fills_bytes,
}
use raft_rsm.StateMachine.OrderBook.Rounds.{Finished, match-Finished}
use raft_rsm.StateMachine.OrderBook.Fills.{Balanced, match_conserves}
use raft_rsm.StateMachine.OrderBook.Uncrossed.{Sound}
use raft_rsm.StateMachine.OrderBook.Runs.{apply_all-Sound, empty_book-Sound}
use raft_rsm.StateMachine.OrderBook.Queries.{best_bid, best_ask, level_total, best_bid-best_ask}

-- Sell orders at 10 and 11.
abbrev two_asks : OrderBook
two_asks = record empty_book {
  asks = (10, record { id = 1; qty = 5 } ∷ []) ∷ (11, record { id = 2; qty = 5 } ∷ []) ∷ [];
  index = (1, (ask, 10)) ∷ (2, (ask, 11)) ∷ [];
  next_order_id = 3;
}

-- A buyer of 7 at 11 takes 5 at 10 and 2 at 11.
match_runs :
    (match bid 11 7 two_asks).fills
    ≡ record { maker_order_id = 1; price = 10; qty = 5 }
      ∷ record { maker_order_id = 2; price = 11; qty = 2 }
      ∷ []
unfolding match match_loop round trade fill exchange first_level set_first resting_count erase
match_runs = refl

match-Finished_example : Finished bid 11 (match bid 11 7 two_asks)
match-Finished_example = match-Finished bid 11 7 two_asks

match_conserves_example : Balanced bid 11 7 two_asks (match bid 11 7 two_asks)
match_conserves_example = match_conserves bid 11 7 two_asks

-- A sell of 5 at 10, a buy of 3 at 9, the buy cut to 2, and a sell of 4 at 14.
abbrev session : List Bytes
session =
    encode_ob 7 1 (new_order ask 10 5)
    ∷ encode_ob 8 1 (new_order bid 9 3)
    ∷ encode_ob 8 2 (amend_order 2 9 2)
    ∷ encode_ob 7 2 (new_order ask 14 4)
    ∷ []

apply_all-Sound_example : Sound (apply_all session empty_book)
apply_all-Sound_example = apply_all-Sound session empty_book empty_book-Sound

session_runs :
    (best_bid (apply_all session empty_book) ≡ some (9, 2))
    × (best_ask (apply_all session empty_book) ≡ some (10, 5))
unfolding best_bid best_ask level_total apply_all apply apply_header apply_request parse_header
    parse_request some_op run_request remember place rest_residual amend_at amend_in_place set_qty
    find_qty encode_ob match match_loop round trade first_level last_level resting_count rest lookup
    insert word require pure fail ◌>>=◌ continue read_word read_bytes le_bytes of_le cached
    fills_bytes
session_runs = (refl, refl)

best_bid-best_ask_example :
    (9 < 10)
    × All (λ (x : ℕ × Level). x.0 ≤ 9) (apply_all session empty_book).bids
    × All (λ (x : ℕ × Level). 10 ≤ x.0) (apply_all session empty_book).asks
best_bid-best_ask_example = best_bid-best_ask session 9 2 10 5 session_runs.0 session_runs.1
