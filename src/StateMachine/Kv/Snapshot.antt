-- ===== src/StateMachine/Kv/Snapshot.antt =====
-- src/statemachine/kv_store.cpp: `serialize` and `deserialize`.
pub mod RoundTrip
use raft_rsm.Prelude.{
  ℕ, zero, suc, Bool, true, false, Option, none, some, List, [], ◌∷◌, ◌++◌, if◌then◌else◌, length,
}
use raft_rsm.Rpc.Types.{Bytes}
use raft_rsm.Rpc.Wire.{le_bytes, reader, exhausted}
use raft_rsm.Rpc.Decode.{Decoder, pure, ◌>>=◌, ◌>>◌, word, require, decode_blob}
use raft_rsm.StateMachine.Map.{bytes_key, word_key, insert}
use raft_rsm.StateMachine.Kv.{put_string, Session, KvMap, KvStateMachine}

abbrev pub pairs_bytes : KvMap → Bytes
pairs_bytes [] = []
pairs_bytes ((key, value) ∷ m) = put_string key ++ (put_string value ++ pairs_bytes m)

abbrev pub sessions_bytes : List (ℕ × Session) → Bytes
sessions_bytes [] = []
sessions_bytes ((client_id, s) ∷ m) =
    le_bytes 8 client_id
    ++ (le_bytes 8 s.last_seq ++ (put_string s.last_result ++ sessions_bytes m))

unfoldable pub serialize : KvStateMachine → Bytes
serialize sm =
    le_bytes 8 (length sm.kv)
    ++ (pairs_bytes sm.kv ++ (le_bytes 8 (length sm.sessions) ++ sessions_bytes sm.sessions))

-- The next round of a loop that runs while the cursor is good.
unfoldable pub while_ok : {A : Type 0} → Decoder A → A → Decoder A
while_ok round stop r = if r.ok then round r else (some stop, r)

unfoldable pub decode_pairs : ℕ → KvMap → Decoder KvMap
decode_pairs zero kv = pure kv
decode_pairs (suc n) kv =
    while_ok (do key ← decode_blob; value ← decode_blob; decode_pairs n (insert key value kv)) kv

unfoldable pub decode_sessions : ℕ → List (ℕ × Session) → Decoder (List (ℕ × Session))
decode_sessions zero sessions = pure sessions
decode_sessions (suc n) sessions =
    while_ok
      (do
        client_id ← word 8
        last_seq ← word 8
        last_result ← decode_blob
        decode_sessions n
            (insert client_id (record { last_seq = last_seq; last_result = last_result }) sessions))
      sessions

unfoldable pub decode_store : Decoder KvStateMachine
decode_store = do
  kv_count ← word 8
  kv ← decode_pairs kv_count []
  session_count ← word 8
  sessions ← decode_sessions session_count []
  require exhausted
  pure (record { kv = kv; sessions = sessions })

-- A snapshot that does not parse changes nothing.
abbrev pub restored : Option KvStateMachine → KvStateMachine → Bool × KvStateMachine
restored none sm = (false, sm)
restored (some s) sm = (true, s)

unfoldable pub deserialize : Bytes → KvStateMachine → Bool × KvStateMachine
deserialize bytes sm = restored (decode_store (reader bytes)).0 sm
