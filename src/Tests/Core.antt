-- ===== src/Tests/Core.antt =====
-- Runs of the consensus core and instances of its theorems.
use raft_rsm.Prelude.{
  ℕ, ◌≤◌, ◌<◌, ◌⊎◌, ◌≡◌, refl, inl, inr, false, List, [], ◌∷◌, ◌++◌, arith, take, drop, length, max,
  ◌+◌, ◌-◌,
}
use raft_rsm.Rpc.Types.{
  LogIndex, NodeId, AppendEntries, AppendEntriesReply, request_vote, append_entries,
  append_entries_reply,
}
use raft_rsm.Raft.Follower.{walk, truncate_log, append_new, merge_entries, on_append_entries}
use raft_rsm.Storage.Log.{term_at, last_term, truncate_suffix_from, entry_at}
use raft_rsm.Raft.State.{Output, send, append_log, persist_term_and_vote, get}
use raft_rsm.Raft.Apply.{apply_inline, apply_entry, apply_next, apply_loop, apply_committed}
use raft_rsm.Raft.Roles.{reset_election_timer, adopt_term, retire, become_follower}
use raft_rsm.Raft.Leader.{matching, commit_target, advance_commit, on_append_entries_reply}
use raft_rsm.Raft.Election.{grants, candidate_log_at_least_as_up_to_date, on_request_vote}
use raft_rsm.Raft.Handle.{
  Call, receives, pumps, ticks, waits, run, step, handle, lift_term, dispatch, term_of,
}
use raft_rsm.Raft.Commit.{HeldByMost, advance_commit_sound, advance_commit_complete}
use raft_rsm.Raft.Hints.{StartsRun}
use raft_rsm.Raft.Hints.Sent.{on_append_entries_hint}
use raft_rsm.Raft.Hints.Taken.{Suggests, on_append_entries_reply_lowers}
use raft_rsm.Raft.Ballot.{Forward, run-Forward}
use raft_rsm.Raft.Merge.Laws.{
  Agrees, merge_entries-Agrees, merge_entries_known, merge_entries-keeps,
}
use raft_rsm.Raft.Applied.{InOrder}
use raft_rsm.Raft.Applied.Calls.{peak, run-InOrder}
use raft_rsm.Raft.Disk.{Durable, disk}
use raft_rsm.Raft.Disk.Runs.{run-Durable}
use raft_rsm.Raft.Disk.Votes.{run_votes_once}
use raft_rsm.Tests.Fixtures.{host, entry, three_terms, node, leading, conflicting, delayed}

abbrev calls : List Call
calls =
    receives 3 (append_entries conflicting)
    ∷ receives 2 (
        request_vote (record { term = 4; candidate_id = 2; last_log_index = 9; last_log_term = 3 }))
    ∷ receives 3 (
        request_vote (record { term = 4; candidate_id = 3; last_log_index = 9; last_log_term = 3 }))
    ∷ pumps
    ∷ []

run-Durable_example : Durable (disk node) (run host node calls)
run-Durable_example =
    run-Durable (disk node) host node calls (omega arith, (tt, (tt, (tt, tt)))) (refl, tt)

-- Two candidates of term 4 ask one after the other.
abbrev rivals : List Call
rivals =
    receives 2
      (request_vote (record { term = 4; candidate_id = 2; last_log_index = 9; last_log_term = 3 }))
    ∷ receives 3 (
        request_vote (record { term = 4; candidate_id = 3; last_log_index = 9; last_log_term = 3 }))
    ∷ []

run_votes_once_example : ◌≡◌ {A = ℕ} 2 2
unfolding run step handle lift_term dispatch term_of become_follower adopt_term retire
    persist_term_and_vote reset_election_timer on_request_vote grants
    candidate_log_at_least_as_up_to_date last_term
run_votes_once_example =
    run_votes_once host node rivals 4 2 2 (tt, (tt, tt)) refl (inr (inr (inl refl)))
      (inr (inr (inl refl)))

-- Then node 1 itself stands for election.
abbrev campaign : List Call
campaign = rivals ++ waits 500 ∷ ticks ∷ []

run-Forward_example : Forward node (run host node campaign)
unfolding run step handle lift_term dispatch term_of become_follower adopt_term retire
    persist_term_and_vote reset_election_timer on_request_vote grants
    candidate_log_at_least_as_up_to_date last_term
run-Forward_example = run-Forward host node campaign (tt, (tt, (tt, (omega arith, tt))))

merge_entries-Agrees_example :
    (take 1 (merge_entries node conflicting).log ≡ take 1 three_terms)
    × Agrees (drop 1 (merge_entries node conflicting).log) conflicting.entries
    × (4 ≤ length (merge_entries node conflicting).log)
merge_entries-Agrees_example = merge_entries-Agrees node conflicting (omega arith)

merge_entries_known_example : (merge_entries node delayed).log ≡ three_terms
merge_entries_known_example = merge_entries_known node delayed (omega arith) (refl, tt)

merge_entries-keeps_example : take 2 (merge_entries node conflicting).log ≡ take 2 three_terms
merge_entries-keeps_example =
    merge_entries-keeps node conflicting (omega arith) 1 (omega arith) (refl, tt)

-- The conflicting entry 2 is replaced, and entry 3 follows.
merge_runs : (merge_entries node conflicting).log ≡ entry 1 ∷ entry 1 ∷ entry 3 ∷ entry 3 ∷ []
unfolding merge_entries walk truncate_log append_new append_log truncate_suffix_from term_at
merge_runs = refl

advance_commit_sound_example :
    let k = (advance_commit host leading).commit_index in
    (k ≡ 1) ⊎ ((1 < k) × (k ≤ 3) × (term_at three_terms k ≡ 2) × HeldByMost leading k)
advance_commit_sound_example =
    advance_commit_sound host leading ((refl, (refl, tt)), (refl, (refl, tt)))

-- Node 2 holds index 3, as the leader does.
advance_commit_complete_example : 3 ≤ (advance_commit host leading).commit_index
unfolding get term_at
advance_commit_complete_example =
    advance_commit_complete host leading 3 (omega arith) (omega arith)
      (λ i a b. let e : i ≡ 3 = omega arith in rw e refl)
      (2 ∷ [], (refl, tt), ((refl, omega arith), tt), omega arith)

-- The entry of index 3 commits, and with it index 2 of the older term; the second is applied.
advance_commit_runs : (advance_commit host leading).commit_index ≡ 3
unfolding advance_commit commit_target matching term_at apply_committed apply_loop apply_next
    apply_entry apply_inline entry_at
advance_commit_runs = refl

-- Index 2 has term 1 in the follower's log, and so has index 1.
abbrev other_term : AppendEntries
other_term = record conflicting { prev_log_index = 2; prev_log_term = 2 }

on_append_entries_hint_example :
    let c' = on_append_entries host node 3 other_term in
    (i : LogIndex) × StartsRun three_terms (term_at three_terms 2) i 2
    × (c'.log ≡ three_terms)
    × ((earlier : List Output) × (c'.out
          ≡ send 3 (
              append_entries_reply (record {
                term = 2;
                success = false;
                conflict_index = i;
                conflict_term = term_at three_terms 2;
              }))
            ∷ earlier))
unfolding term_at
on_append_entries_hint_example =
    on_append_entries_hint host node 3 other_term (omega arith) refl (omega arith) (omega arith)
      (omega arith)

-- Node 3 has nothing of term 5, and asks for index 1.
abbrev behind : AppendEntriesReply
behind = record { term = 2; success = false; conflict_index = 1; conflict_term = 5 }

on_append_entries_reply_lowers_example :
    let c' = on_append_entries_reply host leading 3 behind in
    let n = get c'.next_index 3 in
    (0 < n)
    × (n ≤ max 1 (0 + 1))
    × ((h : LogIndex) × Suggests three_terms behind h × ((n ≡ h) ⊎ (h ≤ 0) ⊎ (1 < h)))
    × ((p : NodeId) → (p ≡ 3) ⊎ (get c'.next_index p ≡ get leading.next_index p))
    × ((p : NodeId) → get c'.match_index p ≡ get leading.match_index p)
    × ((m : AppendEntries) × (c'.out ≡ send 3 (append_entries m) ∷ [])
        × (m.prev_log_index ≡ n - 1)
        × (m.entries ≡ drop (n - 1) three_terms))
unfolding get
on_append_entries_reply_lowers_example =
    on_append_entries_reply_lowers host leading 3 behind refl refl refl (omega arith) (omega arith)
      (omega arith)

run-InOrder_example :
    InOrder host [] (disk node) (run host node calls)
    × ((run host node calls).last_applied ≤ max 0 (peak host node calls))
run-InOrder_example = run-InOrder host [] (disk node) node calls (refl, refl, tt, refl, tt)
