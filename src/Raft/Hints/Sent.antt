-- ===== src/Raft/Hints/Sent.antt =====
-- The reply of a follower whose log has another term at the previous index (src/raft/raft_core.cpp).
use raft_rsm.Prelude.{
  ◌<◌, ◌≤◌, ◌≡◌, ◌≢◌, refl, true, false, not, List, ◌∷◌, arith, ltb, ◌==◌, le→ltb,
}
use raft_rsm.Rpc.Types.{LogIndex, NodeId, AppendEntries, append_entries_reply}
use raft_rsm.Storage.Log.{term_at, last_index}
use raft_rsm.Raft.State.{Host, Core, Output, send, is_leader, persist_term_and_vote}
use raft_rsm.Raft.Roles.{reset_election_timer, adopt_term, retire, become_follower}
use raft_rsm.Raft.Follower.{
  recognise, check_and_merge, reply, reply_conflict, on_append_entries, first_of_term,
}
use raft_rsm.Raft.Hints.{StartsRun, first_of_term-hint}

module _ {S : Type 0} (host : Host S) where
  recognise-keeps :
      (c : Core S) (ae : AppendEntries)
      → ((recognise host c ae).log ≡ c.log) × ((recognise host c ae).current_term ≡ c.current_term)
  unfolding recognise reset_election_timer become_follower retire adopt_term persist_term_and_vote
  recognise-keeps c ae = ground arith

  -- The branch of the term mismatch.
  mismatch_replies :
      (c : Core S) (from : NodeId) (ae : AppendEntries)
      → ae.prev_log_index ≤ last_index c.log
      → term_at c.log ae.prev_log_index ≢ ae.prev_log_term
      → check_and_merge host c from ae
        ≡ reply_conflict c from (term_at c.log ae.prev_log_index) ae.prev_log_index
  unfolding check_and_merge
  mismatch_replies c from ae within differs =
      let long : ltb (last_index c.log) ae.prev_log_index ≡ false = le→ltb _ _ within in
      let other : not (term_at c.log ae.prev_log_index == ae.prev_log_term) ≡ true = ground arith in
      rw (long, other) refl

  -- A follower or a candidate, whose log reaches the previous index of a current leader's message but
  -- has another term there, answers with a failure that carries its term, the conflicting term, and
  -- the first index of the run of that term which the previous index belongs to: every entry from
  -- there up to the previous index is of that term, and the entry just before, if there is one, is
  -- of another. It leaves its log as it is.
  pub on_append_entries_hint :
      (c : Core S) (from : NodeId) (ae : AppendEntries)
      → c.current_term ≤ ae.term
      → is_leader c.role ≡ false
      → 0 < ae.prev_log_index
      → ae.prev_log_index ≤ last_index c.log
      → term_at c.log ae.prev_log_index ≢ ae.prev_log_term
      → let c' = on_append_entries host c from ae in
        let conflict_term = term_at c.log ae.prev_log_index in
        (i : LogIndex) × StartsRun c.log conflict_term i ae.prev_log_index
        × (c'.log ≡ c.log)
        × ((earlier : List Output) × (c'.out
              ≡ send from (
                  append_entries_reply (record {
                    term = c.current_term;
                    success = false;
                    conflict_index = i;
                    conflict_term = conflict_term;
                  }))
                ∷ earlier))
  unfolding on_append_entries reply_conflict reply
  on_append_entries_hint c from ae current follows positive within differs =
      let l = recognise host c ae in
      let (log, term) = recognise-keeps c ae in
      let fresh : ltb ae.term c.current_term ≡ false = le→ltb _ _ current in
      let sent = mismatch_replies l from ae (rw log within) (rw log differs) in
      (
        first_of_term c.log (term_at c.log ae.prev_log_index) ae.prev_log_index,
        first_of_term-hint c.log ae.prev_log_index positive,
        rw (fresh, follows, sent) log,
        (l.out, rw (fresh, follows, sent, log, term) refl),
      )
