-- ===== src/Raft/Commit.antt =====
-- The commit rule of the leader: `advanceCommit` of src/raft/raft_core.cpp.
use raft_rsm.Prelude.{
  ℕ, zero, suc, ◌+◌, ◌*◌, ◌≤◌, ◌<◌, ◌≡◌, refl, ◌⊎◌, inl, inr, Bool, true, false, not, Option, none,
  some, leb, leb→le, List, [], ◌∷◌, length, All, elem, Distinct, Distinct-le, ==_iff, if◌then◌else◌,
  ◌==◌, arith, Bool-cases, Option-cases,
}
use raft_rsm.Rpc.Types.{LogEntry, LogIndex, NodeId, Term}
use raft_rsm.Storage.Log.{Log, last_index, term_at}
use raft_rsm.Raft.State.{Host, Core, IndexMap, majority, get}
use raft_rsm.Raft.Apply.{apply_inline, offer, apply_entry, apply_committed}
use raft_rsm.Raft.Leader.{matching, commit_target, advance_commit}
use raft_rsm.Raft.Rules.{apply_committed_inv}

-- All entries from index j up to index n are of term t.
abbrev pub AllOfTerm : Log → Term → LogIndex → LogIndex → Type 0
AllOfTerm log t j n = (i : LogIndex) → j ≤ i → i ≤ n → term_at log i ≡ t

-- More than half of the cluster holds index k: the node itself and different peers whose
-- acknowledged index reaches it.
abbrev pub HeldByMost : {S : Type 0} → Core S → LogIndex → Type 0
HeldByMost c k =
    (vs : List NodeId) × Distinct vs
    × All (λ v. (elem v c.peers ≡ true) × (k ≤ get c.match_index v)) vs
    × (length c.peers + 1 < 2 * (1 + length vs))

-- The peers that a map of acknowledged indices has.
abbrev pub keys : IndexMap → List NodeId
keys [] = []
keys ((peer, m) ∷ rest) = peer ∷ keys rest

-- Each key of the map once, as in a `std::map`, and all of them peers.
abbrev pub Tracked : {S : Type 0} → Core S → Type 0
Tracked c = Distinct (keys c.match_index) × All (λ v. elem v c.peers ≡ true) (keys c.match_index)

-- The keys whose index reaches k.
abbrev holders : IndexMap → LogIndex → List NodeId
holders [] k = []
holders ((peer, m) ∷ rest) k =
    let others = holders rest k in if leb k m then peer ∷ others else others

length-holders : (m : IndexMap) (k : LogIndex) → length (holders m k) ≡ matching m k
unfolding matching
length-holders [] k = refl
length-holders ((peer, i) ∷ rest) k = ground (arith, length-holders rest k)

elem-holders :
    (m : IndexMap) (k : LogIndex) (v : NodeId)
    → elem v (keys m) ≡ false
    → elem v (holders m k) ≡ false
elem-holders [] k v e = refl
elem-holders ((peer, i) ∷ rest) k v e = ground (arith, elem-holders rest k v)

Distinct-holders : (m : IndexMap) (k : LogIndex) → Distinct (keys m) → Distinct (holders m k)
Distinct-holders [] k d = tt
Distinct-holders ((peer, i) ∷ rest) k d = elim (Bool-cases (leb k i)) [
  | inl e ↦ rw e (elem-holders rest k peer d.0, Distinct-holders rest k d.1)
  | inr e ↦ rw e (Distinct-holders rest k d.1)
]

-- The indices of others are found behind a pair.
reach-others :
    (P : NodeId → Type 0) (peer : NodeId) (i k : LogIndex) (rest : IndexMap) (vs : List NodeId)
    → elem peer vs ≡ false
    → All (λ v. P v × (k ≤ get rest v)) vs
    → All (λ v. P v × (k ≤ get ((peer, i) ∷ rest) v)) vs
unfolding get
reach-others P peer i k rest [] e a = tt
reach-others P peer i k rest (v ∷ vs) e a =
    let apart : (peer == v) ≡ false = ground arith in
    ((a.0.0, rw apart a.0.1), reach-others P peer i k rest vs (ground arith) a.1)

holders-reach :
    (P : NodeId → Type 0) (m : IndexMap) (k : LogIndex)
    → Distinct (keys m)
    → All P (keys m)
    → All (λ v. P v × (k ≤ get m v)) (holders m k)
unfolding get
holders-reach P [] k d a = tt
holders-reach P ((peer, i) ∷ rest) k d a =
    let own : (peer == peer) ≡ true = (==_iff peer peer).1 refl in
    let others =
      reach-others P peer i k rest (holders rest k) (elem-holders rest k peer d.0)
        (holders-reach P rest k d.1 a.1) in
    elim (Bool-cases (leb k i)) [
      | inl e ↦ rw e ((a.0, rw own (leb→le k i e)), others)
      | inr e ↦ rw e others
    ]

matching-HeldByMost :
    {S : Type 0} (c : Core S) (k : LogIndex)
    → Tracked c
    → majority c ≤ 1 + matching c.match_index k
    → HeldByMost c k
matching-HeldByMost c k (once, peers) enough = (
  holders c.match_index k,
  Distinct-holders c.match_index k once,
  holders-reach (λ v. elem v c.peers ≡ true) c.match_index k once peers,
  omega (arith, length-holders c.match_index k),
)

-- Who reaches an index past 0 has a pair of the map.
reach-holders :
    (m : IndexMap) (k : LogIndex) (v : NodeId) → 0 < k → k ≤ get m v → elem v (holders m k) ≡ true
unfolding get
reach-holders [] k v p h = absurd (omega arith)
reach-holders ((peer, i) ∷ rest) k v p h = ground (arith, reach-holders rest k v)

holders_reached :
    (P : NodeId → Type 0) (m : IndexMap) (k : LogIndex) (vs : List NodeId)
    → 0 < k
    → All (λ v. P v × (k ≤ get m v)) vs
    → All (λ v. elem v (holders m k) ≡ true) vs
holders_reached P m k [] p a = tt
holders_reached P m k (v ∷ vs) p a = (reach-holders m k v p a.0.1, holders_reached P m k vs p a.1)

HeldByMost-matching :
    {S : Type 0} (c : Core S) (k : LogIndex)
    → 0 < k
    → HeldByMost c k
    → majority c ≤ 1 + matching c.match_index k
HeldByMost-matching c k p (vs, distinct, reach, most) =
    let m = c.match_index in
    let within = holders_reached (λ v. elem v c.peers ≡ true) m k vs p reach in
    omega (arith, Distinct-le vs (holders m k) distinct within, length-holders m k)

module _ (cur : Term) (commit : LogIndex) (log : Log) (matches : IndexMap) (quorum : ℕ) where
  commit_target_sound :
      (n k : LogIndex)
      → commit_target cur commit log matches quorum n ≡ some k
      → (commit < k) × (k ≤ n) × (term_at log k ≡ cur) × (quorum ≤ 1 + matching matches k)
  unfolding commit_target
  commit_target_sound zero k e = cc
  commit_target_sound (suc n) k e = ground (arith, commit_target_sound n k)

  commit_target_complete :
      (n j : LogIndex)
      → commit < j
      → j ≤ n
      → AllOfTerm log cur j n
      → quorum ≤ 1 + matching matches j
      → (k : LogIndex) × (commit_target cur commit log matches quorum n ≡ some k) × (j ≤ k)
  unfolding commit_target
  commit_target_complete zero j a b all q = absurd (omega arith)
  commit_target_complete (suc n) j a b all q =
      let above : leb (suc n) commit ≡ false = ground arith in
      let same : not (term_at log (suc n) == cur) ≡ false =
        ground (arith, all (suc n) b (omega arith)) in
      elim (Bool-cases (leb quorum (1 + matching matches (suc n)))) [
        | inl e ↦ rw (above, same, e) (suc n, refl, b)
        | inr e ↦
            rw (above, same, e)
              (commit_target_complete n j a (below e) (λ i p r. all i p (omega arith)) q)
      ]
    where
      below : leb quorum (1 + matching matches (suc n)) ≡ false → j ≤ n
      below e = ground arith

module _ {S : Type 0} (host : Host S) where
  commit_index-apply :
      (n : LogIndex) (c : Core S) → c.commit_index ≡ n → (apply_committed host c).commit_index ≡ n
  unfolding apply_entry apply_inline offer
  commit_index-apply n =
      apply_committed_inv host (λ c. c.commit_index ≡ n) (λ c i e h. entry host.sink c i e h)
    where
      entry :
          (sink : Option (ℕ → LogIndex → LogEntry → Bool)) (c : Core S) (i : LogIndex)
          (e : LogEntry)
          → c.commit_index ≡ n
          → (apply_entry host sink c i e).1.commit_index ≡ n
      entry none c i e h = h
      entry (some sink) c i e h = ground arith

  -- The outcome of the scan decides the commit index.
  commit_index-advance :
      (c : Core S) (r : Option LogIndex)
      → commit_target c.current_term c.commit_index c.log c.match_index
          (majority c)
          (last_index c.log)
        ≡ r
      → (advance_commit host c).commit_index ≡ elim r [ none ↦ c.commit_index | some n ↦ n ]
  unfolding advance_commit
  commit_index-advance c none e = rw (e, advance_commit)
  commit_index-advance c (some n) e =
      rw (e, advance_commit) (commit_index-apply n (record c { commit_index = n }) refl)

  -- `advanceCommit` leaves the commit index, or moves it up, within the log, to an entry of the
  -- current term that more than half of the cluster holds, the leader with its log and different
  -- peers that acknowledged it: no entry of an older term is committed by counting. The map of
  -- acknowledged indices has each of its keys once, and they are peers.
  pub advance_commit_sound :
      (c : Core S)
      → Tracked c
      → let k = (advance_commit host c).commit_index in
        (k ≡ c.commit_index)
        ⊎ ((c.commit_index < k)
            × (k ≤ last_index c.log)
            × (term_at c.log k ≡ c.current_term)
            × HeldByMost c k)
  advance_commit_sound c tracked =
      elim (Option-cases (
        commit_target c.current_term c.commit_index c.log c.match_index (majority c)
          (last_index c.log))) [
            | inl e ↦ inl (commit_index-advance c none e)
            | inr (n, e) ↦
                let (up, within, own, enough) =
                  commit_target_sound c.current_term c.commit_index c.log c.match_index (majority c)
                    (last_index c.log) n e in
                rw (commit_index-advance c (some n) e)
                  (inr (up, within, own, matching-HeldByMost c n tracked enough))
          ]

  -- Conversely, if more than half of the cluster holds an uncommitted index, the leader and different
  -- nodes that acknowledged it, and all entries from it on are of the current term, then
  -- `advanceCommit` commits up to that index or beyond.
  pub advance_commit_complete :
      (c : Core S) (j : LogIndex)
      → c.commit_index < j
      → j ≤ last_index c.log
      → AllOfTerm c.log c.current_term j (last_index c.log)
      → HeldByMost c j
      → j ≤ (advance_commit host c).commit_index
  advance_commit_complete c j a b all held =
      let (k, e, h) =
        commit_target_complete c.current_term c.commit_index c.log c.match_index (majority c)
          (last_index c.log) j a b all (HeldByMost-matching c j (omega arith) held) in
      rw (commit_index-advance c (some k) e) h
