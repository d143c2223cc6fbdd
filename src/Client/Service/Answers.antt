-- ===== src/Client/Service/Answers.antt =====
-- Which requests wait for which entries in src/client/client_service.cpp, and how they are answered.
use raft_rsm.Prelude.{
  ℕ, zero, suc, ◌+◌, ◌≤◌, ◌<◌, ◌≡◌, refl, ap, ◌∙◌, true, false, Option, none, some, List, [], ◌∷◌,
  ◌++◌, arith, if◌then◌else◌, length, get_elem?, get_elem?-append_right, add64, add64_eq, u64_mod,
  mod_apart, length-append, Option-cases, inl, inr,
}
use mathlib.Core.Option.{none-ne-some, some_inj}
use raft_rsm.Rpc.Types.{Bytes, ClientReply, LogEntry, LogIndex, NodeId, Term, ok}
use raft_rsm.Storage.Log.{entry_at}
use raft_rsm.Raft.State.{Host, is_leader, append_log}
use raft_rsm.Raft.Leader.{stamp, is_empty}
use raft_rsm.Client.Pending
use raft_rsm.Client.Pending.{Pending, PendingTable, slot_of}
use raft_rsm.Client.Pending.Slots.{waiting, waiting-put, length-put, waiting-take, waiting-room}
use raft_rsm.Client.Service.{
  decode_prefix, is_same, Buffered, ClientService, commands_of, pending_of, not_leader_reply,
  put_all, reply, answer, on_applied, clear_batch, flush_batch,
}
use raft_rsm.Client.Service.Proposals.{first_of, propose_batch-Grown, flush_batch_leader}

waiting-put_self :
    (t : PendingTable) (i : LogIndex) (p : Pending)
    → 1 ≤ length t
    → waiting (Pending.put i p t) i ≡ some p
waiting-put_self t i p h = waiting-put t i i p h ∙ ground arith

waiting-put_near :
    (t : PendingTable) (i j : LogIndex) (p : Pending)
    → j < i
    → i < j + length t
    → waiting (Pending.put i p t) j ≡ waiting t j
waiting-put_near t i j p h k =
    let apart = mod_apart (length t) j i h k in waiting-put t i j p (omega arith) ∙ ground arith

-- A batch leaves the requests just before it.
put_all-before :
    (bs : List Buffered) (t : PendingTable) (i j : LogIndex)
    → j < i
    → i + length bs ≤ j + length t
    → i + length bs < u64_mod
    → waiting (put_all i bs t) j ≡ waiting t j
unfolding put_all
put_all-before [] t i j h k w = refl
put_all-before (b ∷ bs) t i j h k w =
    let next : add64 i 1 ≡ i + 1 = add64_eq i 1 (omega arith) in
    rw (put_all, next)
      (put_all-before bs (Pending.put i (pending_of b) t) (i + 1) j (omega arith)
          (omega (arith, length-put t i (pending_of b))) (omega arith)
        ∙ waiting-put_near t i j (pending_of b) h (omega arith))

-- Each request of a batch waits at its own index.
pub put_all-at :
    (bs : List Buffered) (t : PendingTable) (i k : LogIndex) {b : Buffered}
    → length bs ≤ length t
    → i + length bs < u64_mod
    → get_elem? bs k ≡ some b
    → waiting (put_all i bs t) (i + k) ≡ some (pending_of b)
unfolding put_all
put_all-at [] t i k h w e = absurd (none-ne-some _ e)
put_all-at (x ∷ bs) t i zero {b} h w e =
    let next : add64 i 1 ≡ i + 1 = add64_eq i 1 (omega arith) in
    let here : i + 0 ≡ i = omega arith in
    rw (put_all, next, here)
      (put_all-before bs (Pending.put i (pending_of x) t) (i + 1) i (omega arith)
          (omega (arith, length-put t i (pending_of x))) (omega arith)
        ∙ waiting-put_self t i (pending_of x) (omega arith)
        ∙ ap (λ b. some (pending_of b)) (some_inj.0 e))
put_all-at (x ∷ bs) t i (suc k) h w e =
    let next : add64 i 1 ≡ i + 1 = add64_eq i 1 (omega arith) in
    let there : i + suc k ≡ (i + 1) + k = omega arith in
    rw (put_all, next, there)
      (put_all-at bs (Pending.put i (pending_of x) t) (i + 1) k
        (omega (arith, length-put t i (pending_of x))) (omega arith) e)

get_elem?-stamp :
    (term : Term) (bs : List Buffered) (k : ℕ) {b : Buffered}
    → get_elem? bs k ≡ some b
    → get_elem? (stamp term (commands_of bs)) k ≡ some (record { term = term; command = b.command })
get_elem?-stamp term [] k e = absurd (none-ne-some _ e)
get_elem?-stamp term (x ∷ bs) zero e =
    ap (λ b. some (record { term = term; command = b.command })) (some_inj.0 e)
get_elem?-stamp term (x ∷ bs) (suc k) e = get_elem?-stamp term bs k e

is_empty-some :
    (bs : List Buffered) (k : ℕ) {b : Buffered}
    → get_elem? bs k ≡ some b
    → is_empty (commands_of bs) ≡ false
is_empty-some [] k e = absurd (none-ne-some _ e)
is_empty-some (x ∷ bs) k e = refl

length-stamp : (term : Term) (bs : List Bytes) → length (stamp term bs) ≡ length bs
length-stamp term [] = refl
length-stamp term (b ∷ bs) = ap suc (length-stamp term bs)

length-commands_of : (bs : List Buffered) → length (commands_of bs) ≡ length bs
length-commands_of [] = refl
length-commands_of (b ∷ bs) = ap suc (length-commands_of bs)

-- The answers to the request that waits for an applied entry: none if none waits.
abbrev pub answers :
    {S : Type 0} → ClientService S → LogEntry → Bytes → Option Pending → List (NodeId × ClientReply)
answers s e result none = []
answers s e result (some p) =
    (
      p.reply_to,
      (if is_same (decode_prefix e.command) p.client_id p.seq_no
          then record { status = ok; leader_hint = s.core.self; result = result }
          else not_leader_reply s.leader_hint),
    )
    ∷ []

module _ {S : Type 0} where
  answer-sent :
      (s : ClientService S) (e : LogEntry) (result : Bytes) (p : Pending)
      → ((answer s e result p).sent ≡ answers s e result (some p) ++ s.sent)
        × ((answer s e result p).pending ≡ s.pending)
  unfolding answer reply
  answer-sent s e result p = ground arith

  -- When an entry is applied at an index, the request that waits there is answered once, with the
  -- result if the entry carries its client and its sequence number and as a redirect if not, and then
  -- waits no more; if none waits, no answer is sent.
  pub on_applied-answers :
      (s : ClientService S) (index : LogIndex) (e : LogEntry) (result : Bytes)
      → let s' = on_applied s index e result in
        (s'.sent ≡ answers s e result (waiting s.pending index) ++ s.sent)
        × (waiting s'.pending index ≡ none)
  unfolding on_applied
  on_applied-answers s index e result = elim (Option-cases (waiting s.pending index)) [
    | inl w ↦ rw (on_applied, w) (refl, w)
    | inr (p, w) ↦
        let t = (Pending.take index s.pending).1 in
        let (sent, rest) = answer-sent (record s { pending = t }) e result p in
        rw (on_applied, w)
          (
            sent,
            ap (λ t. waiting t index) rest
                ∙ waiting-take s.pending index index (waiting-room s.pending index w)
                ∙ ground arith,
          )
  ]

module _ {S : Type 0} (host : Host S) where
  -- A leader's flush, whose log and table of pending requests have room: the k-th buffered command is the entry at the k-th new
  -- index, and its request waits there.
  pub flush_batch-waiting :
      (s : ClientService S) (k : ℕ) (b : Buffered)
      → is_leader s.core.role ≡ true
      → length s.buffer ≤ length s.pending
      → length s.core.log + length s.buffer + 1 < u64_mod
      → get_elem? s.buffer k ≡ some b
      → let s' = flush_batch host s in
        (get_elem? s'.core.log (length s.core.log + k)
          ≡ some (record { term = s.core.current_term; command = b.command }))
        × (waiting s'.pending (length s.core.log + 1 + k) ≡ some (pending_of b))
        × (s'.sent ≡ s.sent)
  unfolding clear_batch append_log
  flush_batch-waiting s k b h room small e =
      let more = is_empty-some s.buffer k e in
      let grown = propose_batch-Grown host s.core (commands_of s.buffer) h more in
      let new = stamp s.core.current_term (commands_of s.buffer) in
      let first : first_of (append_log s.core new) (commands_of s.buffer) ≡ length s.core.log + 1 =
        let total = length-append s.core.log new in
        omega (
          arith,
          total,
          length-stamp s.core.current_term (commands_of s.buffer),
          length-commands_of s.buffer,
        ) in
      rw (flush_batch_leader host s h more, first)
        (
          ap (λ l. get_elem? l (length s.core.log + k)) grown.log
              ∙ get_elem?-append_right k s.core.log new
              ∙ get_elem?-stamp s.core.current_term s.buffer k e,
          put_all-at s.buffer s.pending (length s.core.log + 1) k room (omega arith) e,
          refl,
        )

  -- A buffered request whose command carries its identity is answered with the result of its own
  -- entry, once: when a leader has flushed and the k-th new entry of its log is applied, the answer
  -- goes to the client that sent the request, and applying at that index again sends no other.
  pub flush_batch_answered :
      (s : ClientService S) (k : ℕ) (b : Buffered) (again : LogEntry) (result other : Bytes)
      → is_leader s.core.role ≡ true
      → length s.buffer ≤ length s.pending
      → length s.core.log + length s.buffer + 1 < u64_mod
      → get_elem? s.buffer k ≡ some b
      → is_same (decode_prefix b.command) b.client_id b.seq_no ≡ true
      → let s' = flush_batch host s in
        let index = length s.core.log + 1 + k in
        let e : LogEntry = record { term = s.core.current_term; command = b.command } in
        let s1 = on_applied s' index e result in
        (entry_at s'.core.log index ≡ some e)
        × (s1.sent
            ≡ (b.from, record { status = ok; leader_hint = s'.core.self; result = result })
              ∷ s.sent)
        × ((on_applied s1 index again other).sent ≡ s1.sent)
  unfolding entry_at
  flush_batch_answered s k b again result other h room small e same =
      let s' = flush_batch host s in
      let entry : LogEntry = record { term = s.core.current_term; command = b.command } in
      let (logged, w, quiet) = flush_batch-waiting s k b h room small e in
      let index : length s.core.log + 1 + k ≡ suc (length s.core.log + k) = omega arith in
      let at = length s.core.log + 1 + k in
      let first = on_applied-answers s' at entry result in
      let second = on_applied-answers (on_applied s' at entry result) at again other in
      (
        ap (entry_at s'.core.log) index ∙ logged,
        rw (first.0, w, same, quiet) refl,
        rw (second.0, first.1) refl,
      )
