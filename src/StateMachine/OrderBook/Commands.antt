-- ===== src/StateMachine/OrderBook/Commands.antt =====
-- src/statemachine/order_book.cpp: the command and result formats, and `apply`.
use raft_rsm.Prelude.{
  ℕ, zero, suc, Bool, false, not, ◌&&◌, ◌||◌, Option, none, some, List, [], ◌∷◌, ◌++◌, ltb, leb,
  ◌==◌, if◌then◌else◌, length, add64,
}
use raft_rsm.Rpc.Types.{Bytes}
use raft_rsm.Rpc.Wire.{Reader, le_bytes, reader, exhausted}
use raft_rsm.Rpc.Decode.{Decoder, pure, fail, ◌>>=◌, ◌>>◌, word, require}
use raft_rsm.StateMachine.Map.{word_key, lookup, insert}
use raft_rsm.StateMachine.Kv.{cached}
use raft_rsm.StateMachine.OrderBook.{
  ObSide, bid, ask, ObFill, Level, OrderBook, Matching, book_of, with_book, match, rest, remove,
  find_qty, level_or_empty,
}

pub data ObOp : Type 0 where
  new cancel amend : ObOp

abbrev pub op_code : ObOp → ℕ
op_code new = 1
op_code cancel = 2
op_code amend = 3

abbrev pub op_of_code : ℕ → Option ObOp
op_of_code (suc zero) = some new
op_of_code (suc (suc zero)) = some cancel
op_of_code (suc (suc (suc zero))) = some amend
op_of_code _ = none

abbrev pub side_code : ObSide → ℕ
side_code bid = 0
side_code ask = 1

-- `static_cast<ObSide>` of 0 or 1.
abbrev pub side_of : ℕ → ObSide
side_of zero = bid
side_of _ = ask

-- The status bytes 'O', 'N' and 'E'.
abbrev pub ob_ok : ℕ
ob_ok = b'O'

abbrev pub ob_reject : ℕ
ob_reject = b'N'

abbrev pub ob_malformed : ℕ
ob_malformed = b'E'

-- What a command asks for.
pub data ObRequest : Type 0 where
  new_order : ObSide → ℕ → ℕ → ObRequest
  cancel_order : ℕ → ObRequest
  amend_order : ℕ → ℕ → ℕ → ObRequest

abbrev pub op_of : ObRequest → ObOp
op_of (new_order side price qty) = new
op_of (cancel_order id) = cancel
op_of (amend_order id price qty) = amend

pub record ObHeader : Type 0 where
  pub client_id : ℕ
  pub seq_no : ℕ
  pub op : ObOp

-- `identityPrefix`.
abbrev pub identity_prefix : ObHeader → Bytes → Bytes
identity_prefix h operands =
    le_bytes 8 h.client_id ++ (le_bytes 8 h.seq_no ++ (le_bytes 1 (op_code h.op) ++ operands))

abbrev pub operand_bytes : ObRequest → Bytes
operand_bytes (new_order side price qty) =
    le_bytes 1 (side_code side) ++ (le_bytes 8 price ++ le_bytes 8 qty)
operand_bytes (cancel_order id) = le_bytes 8 id
operand_bytes (amend_order id price qty) = le_bytes 8 id ++ (le_bytes 8 price ++ le_bytes 8 qty)

-- `encodeObNewInto`, `encodeObCancelInto` and `encodeObAmendInto`.
unfoldable pub encode_ob : ℕ → ℕ → ObRequest → Bytes
encode_ob client_id seq_no q =
    identity_prefix (record { client_id = client_id; seq_no = seq_no; op = op_of q })
      (operand_bytes q)

unfoldable pub some_op : Option ObOp → Decoder ObOp
some_op none = fail
some_op (some op) = pure op

-- The first part of `apply`, up to the session check.
unfoldable pub parse_header : Decoder ObHeader
parse_header = do
  client_id ← word 8
  seq_no ← word 8
  op_byte ← word 1
  require (λ r. r.ok && not (ltb op_byte 1 || ltb 3 op_byte))
  op ← some_op (op_of_code op_byte)
  pure (record { client_id = client_id; seq_no = seq_no; op = op })

-- The operands that follow the header; a failure is a malformed command.
unfoldable pub parse_request : ObOp → Decoder ObRequest
parse_request new = do
  side ← word 1
  price ← word 8
  qty ← word 8
  require (λ r. r.ok && exhausted r && not (ltb 1 side || (price == 0 || qty == 0)))
  pure (new_order (side_of side) price qty)
parse_request cancel = do id ← word 8; require (λ r. r.ok && exhausted r); pure (cancel_order id)
parse_request amend = do
  id ← word 8
  price ← word 8
  qty ← word 8
  require (λ r. r.ok && exhausted r && not (price == 0 || qty == 0))
  pure (amend_order id price qty)

unfoldable pub fills_bytes : List ObFill → Bytes
fills_bytes [] = []
fills_bytes (f ∷ fills) =
    le_bytes 8 f.maker_order_id ++ (le_bytes 8 f.price ++ (le_bytes 8 f.qty ++ fills_bytes fills))

abbrev pub result_bytes : ℕ → ℕ → List ObFill → Bytes
result_bytes id resting fills =
    ob_ok ∷ le_bytes 8 id
    ++ (le_bytes 8 resting ++ (le_bytes 4 (length fills) ++ fills_bytes fills))

-- `if (residual > 0) rest(...)`.
unfoldable pub rest_residual : ObSide → ℕ → ℕ → Matching → OrderBook
rest_residual side price id m = if m.qty == 0 then m.book else rest side price id m.qty m.book

-- Matching an order and resting what is left of it.
unfoldable pub place : ObSide → ℕ → ℕ → ℕ → OrderBook → Bytes × OrderBook
place side price id qty o =
    let m = match side price qty o in (result_bytes id m.qty m.fills, rest_residual side price id m)

-- `pos->qty = newQty` at the order's place.
unfoldable pub set_qty : ℕ → ℕ → Level → Level
set_qty id qty [] = []
set_qty id qty (x ∷ level) =
    let after = set_qty id qty level in
    if x.id == id then record x { qty = qty } ∷ level else x ∷ after

-- Whether an amendment keeps its time priority: the same price, and no more than the order has.
abbrev pub at_least : ℕ → Option ℕ → Bool
at_least qty none = false
at_least qty (some q) = leb qty q

unfoldable pub amend_in_place : ℕ → ℕ → ObSide → ℕ → OrderBook → Bytes × OrderBook
amend_in_place id qty side price o =
    let b = book_of side o in
    let level = set_qty id qty (level_or_empty (lookup price b)) in
    (result_bytes id qty [], with_book side (insert price level b) o)

unfoldable pub replace_order : ℕ → ℕ → ℕ → ObSide → ℕ → OrderBook → Bytes × OrderBook
replace_order id new_price new_qty side price o =
    place side new_price id new_qty (remove id side price o).1

-- The branches of `apply` by what the index gives for the order.
unfoldable pub cancel_at : ℕ → Option (ObSide × ℕ) → OrderBook → Bytes × OrderBook
cancel_at id none o = (ob_reject ∷ [], o)
cancel_at id (some (side, price)) o =
    let (removed, o') = remove id side price o in (result_bytes id removed [], o')

unfoldable pub amend_at : ℕ → ℕ → ℕ → Option (ObSide × ℕ) → OrderBook → Bytes × OrderBook
amend_at id new_price new_qty none o = (ob_reject ∷ [], o)
amend_at id new_price new_qty (some (side, price)) o =
    let held = find_qty id (level_or_empty (lookup price (book_of side o))) in
    if (new_price == price) && at_least new_qty held
    then amend_in_place id new_qty side price o
    else replace_order id new_price new_qty side price o

unfoldable pub run_request : ObRequest → OrderBook → Bytes × OrderBook
run_request (new_order side price qty) o =
    place side price o.next_order_id qty (record o { next_order_id = add64 o.next_order_id 1 })
run_request (cancel_order id) o = cancel_at id (lookup id o.index) o
run_request (amend_order id price qty) o = amend_at id price qty (lookup id o.index) o

-- `sessions_[clientId] = Session{seqNo, result}` for a client with a session.
unfoldable pub remember : ObHeader → Bytes → OrderBook → OrderBook
remember h result o = record o {
  sessions =
      if h.client_id == 0
      then o.sessions
      else insert h.client_id (record { last_seq = h.seq_no; last_result = result }) o.sessions;
}

unfoldable pub apply_request : ObHeader → Option ObRequest → OrderBook → Bytes × OrderBook
apply_request h none o = (ob_malformed ∷ [], o)
apply_request h (some q) o = let (result, o') = run_request q o in (result, remember h result o')

-- A duplicate is answered from its session before its operands are read.
unfoldable pub apply_header : Option ObHeader → Reader → OrderBook → Bytes × OrderBook
apply_header none r o = (ob_malformed ∷ [], o)
apply_header (some h) r o =
    if h.client_id == 0
    then apply_request h (parse_request h.op r).0 o
    else elim (cached h.seq_no (lookup h.client_id o.sessions)) [
      | some result ↦ (result, o)
      | none ↦ apply_request h (parse_request h.op r).0 o
    ]

unfoldable pub apply : Bytes → OrderBook → Bytes × OrderBook
apply command o = let (h, r) = parse_header (reader command) in apply_header h r o

-- The book after a log of commands.
unfoldable pub apply_all : List Bytes → OrderBook → OrderBook
apply_all [] o = o
apply_all (command ∷ commands) o = apply_all commands (apply command o).1
