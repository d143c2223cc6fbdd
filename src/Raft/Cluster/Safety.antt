-- ===== src/Raft/Cluster/Safety.antt =====
-- Elections of a cluster of the nodes of src/raft/raft_core.cpp.
use raft_rsm.Prelude.{
  ◌≡◌, sym, subst, ◌∙◌, inl, inr, true, List, [], ◌∷◌, arith, elem, All, All-elem, majorities_meet,
}
use raft_rsm.Rpc.Types.{NodeId, Term}
use raft_rsm.Raft.State.{Core, majority}
use raft_rsm.Raft.Disk.Votes.{Voted, Voted-unique}
use raft_rsm.Raft.Elections.{Backs}
use raft_rsm.Raft.Elections.Wins.{Leads, Won-Quorum}
use raft_rsm.Raft.Cluster.{Setup, Event, boot, happen_all, AllAllowed}
use raft_rsm.Raft.Cluster.Sound.{view, Sound, AllSound, Sized, boot-AllSound, happen_all-AllSound}

All-first : (P Q : NodeId → Type 0) (vs : List NodeId) → All (λ v. P v × Q v) vs → All P vs
All-first P Q [] h = tt
All-first P Q (v ∷ vs) h = (h.0.0, All-first P Q vs h.1)

module _ {S : Type 0} (setup : Setup S) (nodes : NodeId → Core S) where
  -- A vote behind node i is on the disk of a member.
  Backs-Voted :
      (i : NodeId) (t : Term) (v : NodeId)
      → elem i setup.members ≡ true
      → Sound setup nodes i (nodes i)
      → Backs (view setup nodes i (nodes i)) (nodes i).self (nodes i).out t v
      → (elem v setup.members ≡ true) × Voted t i (nodes v).out
  Backs-Voted i t v member s (inl (own, voted)) =
      let e = own ∙ s.0 in
      (
        subst (λ v. elem v setup.members ≡ true) (sym e) member,
        subst (λ v. Voted t i (nodes v).out) (sym e)
            (subst (λ x. Voted t x (nodes i).out) s.0 voted),
      )
  Backs-Voted i t v member s (inr given) = given

  All-Voted :
      (i : NodeId) (t : Term) (vs : List NodeId)
      → elem i setup.members ≡ true
      → Sound setup nodes i (nodes i)
      → All (Backs (view setup nodes i (nodes i)) (nodes i).self (nodes i).out t) vs
      → All (λ v. (elem v setup.members ≡ true) × Voted t i (nodes v).out) vs
  All-Voted i t [] member s h = tt
  All-Voted i t (v ∷ vs) member s h =
      (Backs-Voted i t v member s h.0, All-Voted i t vs member s h.1)

  one_leader :
      (t : Term) (i k : NodeId)
      → AllSound setup nodes
      → elem i setup.members ≡ true
      → elem k setup.members ≡ true
      → Leads t (nodes i).out
      → Leads t (nodes k).out
      → i ≡ k
  one_leader t i k all a b p q =
      let s = all i a in
      let s' = all k b in
      let (vs, enough, distinct, behind) =
        Won-Quorum (view setup nodes i (nodes i)) (nodes i).self (majority (nodes i)) (nodes i).out
          t s.2.2 p in
      let (ws, enough', distinct', behind') =
        Won-Quorum (view setup nodes k (nodes k)) (nodes k).self (majority (nodes k)) (nodes k).out
          t s'.2.2 q in
      let voted = All-Voted i t vs a s behind in
      let voted' = All-Voted k t ws b s' behind' in
      let (x, m, m') =
        majorities_meet vs ws setup.members distinct distinct' (All-first _ _ vs voted)
          (All-first _ _ ws voted') (omega (arith, s.1, s'.1, enough, enough')) in
      let v = All-elem _ x vs voted m in
      let w = All-elem _ x ws voted' m' in
      Voted-unique (setup.disk x) t i k (nodes x).out (all x v.0).3.1 v.1 w.1

module _ {S : Type 0} (setup : Setup S) where
  -- Election Safety, over nodes that start from any disks, each with one peer less than there are
  -- members, and any events, where every message that arrives was sent to the node by a member or is
  -- a client's, messages fit the log's 64-bit indices and no election starts at the largest 64-bit
  -- term: two members that became leader of the same term, whenever and between whatever restarts,
  -- are the same node.
  pub election_safety :
      (es : List (Event S)) (t : Term) (i k : NodeId)
      → Sized setup
      → AllAllowed setup (boot setup) es
      → elem i setup.members ≡ true
      → elem k setup.members ≡ true
      → Leads t (happen_all setup (boot setup) es i).out
      → Leads t (happen_all setup (boot setup) es k).out
      → i ≡ k
  election_safety es t i k sized allowed =
      one_leader setup (happen_all setup (boot setup) es) t i k
        (happen_all-AllSound setup (boot setup) es (boot-AllSound setup sized) allowed)
