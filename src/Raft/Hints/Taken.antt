-- ===== src/Raft/Hints/Taken.antt =====
-- The leader after a failed consistency check (src/raft/raft_core.cpp): where it goes on from.
use native.Mathlib.Decide.{dec_lt}
use raft_rsm.Prelude.{
  ◌+◌, ◌-◌, ◌<◌, ◌≤◌, ◌≡◌, ◌≢◌, refl, sym, ap, ◌∙◌, ◌⊎◌, inl, inr, true, false, not, [], ◌∷◌, arith,
  min, max, ◌==◌, ==_iff, Bool-cases, if◌then◌else◌, drop, u64_mod, add64_eq, sub64_eq,
}
use raft_rsm.Rpc.Types.{LogIndex, NodeId, AppendEntries, AppendEntriesReply, append_entries}
use raft_rsm.Storage.Log.{Log, term_at, last_index}
use raft_rsm.Storage.Log.Terms.{entries_from_eq}
use raft_rsm.Raft.State.{Host, Core, IndexMap, send, get, put, touch, is_leader}
use raft_rsm.Raft.Leader.{
  last_of_term, lowered_next, back_off, send_append_entries, append_entries_for,
  on_append_entries_reply,
}
use raft_rsm.Raft.Hints.{last_of_term_lem}

get-put :
    (m : IndexMap) (k j : NodeId) (v : LogIndex)
    → get (put m k v) j ≡ (if k == j then v else get m j)
unfolding get put
get-put [] k j v = refl
get-put ((i, w) ∷ m) k j v = ground (arith, get-put m k j v)

get-put_self : (m : IndexMap) (k : NodeId) (v : LogIndex) → get (put m k v) k ≡ v
get-put_self m k v = ground (arith, get-put m k k v)

get-touch : (m : IndexMap) (k j : NodeId) → get (touch m k) j ≡ get m j
get-touch m k j = ground (arith, get-put m k j (get m k), ap (get m) {x = k} {y = j})

get-others :
    (m : IndexMap) (k p : NodeId) (v : LogIndex) → (p ≡ k) ⊎ (get (touch (put m k v) k) p ≡ get m p)
get-others m k p v = elim (Bool-cases (k == p)) [
  | inl same ↦ inl (sym ((==_iff k p).0 same))
  | inr other ↦ inr (get-touch (put m k v) k p ∙ get-put m k p v ∙ rw other refl)
]

-- What is kept between two bounds is itself, or it is outside of them.
kept_between :
    (h next match n : LogIndex)
    → n ≡ max (max (min h next) (match + 1)) 1
    → (n ≡ h) ⊎ (h ≤ match) ⊎ (next < h)
kept_between h next match n e = elim (dec_lt match h) [
  | no low ↦ inr (inl (omega arith))
  | yes past ↦ elim (dec_lt next h) [ yes high ↦ inr (inr high) | no within ↦ inl (omega arith) ]
]

-- Where a failed reply tells the leader to go on: behind the leader's last entry of the conflicting
-- term, or, where the reply names no term or the leader has no entry of it, at the reply's index.
abbrev pub Suggests : Log → AppendEntriesReply → LogIndex → Type 0
Suggests log r h =
    ((k : LogIndex) × (0 < k)
      × (k ≤ last_index log)
      × (term_at log k ≡ r.conflict_term)
      × ((j : LogIndex) → k < j → j ≤ last_index log → term_at log j ≢ r.conflict_term)
      × (r.conflict_term ≢ 0)
      × (h ≡ k + 1))
    ⊎ (((r.conflict_term ≡ 0)
          ⊎ ((j : LogIndex) → 0 < j → j ≤ last_index log → term_at log j ≢ r.conflict_term))
        × (h ≡ r.conflict_index))

module _ {S : Type 0} (host : Host S) (c : Core S) (from : NodeId) (r : AppendEntriesReply) where
  -- The suggestion, and how it is kept between the match and the old next index.
  lowered_next_lem :
      last_index c.log + 1 < u64_mod
      → get c.match_index from + 1 < u64_mod
      → (h : LogIndex) × Suggests c.log r h
        × (lowered_next host c from r
            ≡ max (max (min h (get c.next_index from)) (get c.match_index from + 1)) 1)
  unfolding lowered_next
  lowered_next_lem small fit =
      let last = last_of_term c.log r.conflict_term (last_index c.log) in
      let (found, within, later) = last_of_term_lem c.log r.conflict_term (last_index c.log) in
      let m = add64_eq (get c.match_index from) 1 fit in
      elim (Bool-cases (r.conflict_term == 0)) [
        | inl untold ↦
            (r.conflict_index, inr (inl ((==_iff _ _).0 untold), refl), rw (untold, m) refl)
        | inr told ↦ elim (Bool-cases (last == 0)) [
          | inl missing ↦
              let zero = (==_iff last 0).0 missing in
              (
                r.conflict_index,
                inr (inr (λ j a b. later j (omega (arith, zero, a)) b), refl),
                rw (told, missing, m) refl,
              )
          | inr there ↦
              let e = add64_eq last 1 (omega (arith, within, small)) in
              let positive : 0 < last = ground arith in
              let own : term_at c.log last ≡ r.conflict_term = ground arith in
              (
                last + 1,
                inl (last, positive, within, own, later, ground arith, refl),
                rw (told, there, m, e) refl,
              )
        ]
      ]

  fails :
      is_leader c.role ≡ true
      → r.term ≡ c.current_term
      → r.success ≡ false
      → on_append_entries_reply host c from r ≡ back_off host c from r
  unfolding on_append_entries_reply
  fails leads current failed =
      let same : not (r.term == c.current_term) ≡ false = ground arith in
      rw (leads, same, failed) refl

  -- A leader that gets a failed reply of its term lowers the peer's next index to where the reply
  -- suggests, unless that is not past the peer's match or is past the old next index; the next index
  -- stays past the match and is not raised, except past the match. It sends the entries from
  -- there at once, and leaves all that it knows of other peers and all matches. The log's end, the
  -- match and the next index are below 2^64 - 1.
  pub on_append_entries_reply_lowers :
      is_leader c.role ≡ true
      → r.term ≡ c.current_term
      → r.success ≡ false
      → last_index c.log + 1 < u64_mod
      → get c.match_index from + 1 < u64_mod
      → get c.next_index from < u64_mod
      → let c' = on_append_entries_reply host c from r in
        let n = get c'.next_index from in
        (get c.match_index from < n)
        × (n ≤ max (get c.next_index from) (get c.match_index from + 1))
        × ((h : LogIndex) × Suggests c.log r h
            × ((n ≡ h) ⊎ (h ≤ get c.match_index from) ⊎ (get c.next_index from < h)))
        × ((p : NodeId) → (p ≡ from) ⊎ (get c'.next_index p ≡ get c.next_index p))
        × ((p : NodeId) → get c'.match_index p ≡ get c.match_index p)
        × ((m : AppendEntries) × (c'.out ≡ send from (append_entries m) ∷ c.out)
            × (m.prev_log_index ≡ n - 1)
            × (m.entries ≡ drop (n - 1) c.log))
  unfolding back_off send_append_entries append_entries_for
  on_append_entries_reply_lowers leads current failed small fit bound =
      let (h, suggests, exact) = lowered_next_lem small fit in
      let n' = lowered_next host c from r in
      let next = put c.next_index from n' in
      let self = get-put_self c.next_index from n' in
      let n = get-touch next from from ∙ self in
      rw (fails leads current failed) (
        omega (arith, n, exact),
        omega (arith, n, exact),
        (h, suggests, kept_between h _ _ _ (n ∙ exact)),
        (λ p. get-others c.next_index from p n'),
        (λ p. get-touch c.match_index from p),
        (
          _,
          refl,
          rw (n, self) (sub64_eq n' 1 (omega arith) (omega arith)),
          rw (n, self) (entries_from_eq c.log n'),
        ),
      )
