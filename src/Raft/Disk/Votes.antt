-- ===== src/Raft/Disk/Votes.antt =====
-- The saves of a run and the votes in them (src/raft/raft_core.cpp).
use raft_rsm.Prelude.{
  subst, sym, inl, [], ◌<◌, ◌≡◌, refl, sym, ◌⊎◌, inl, inr, Option, some, List, [], ◌∷◌, arith,
}
use raft_rsm.Rpc.Types.{NodeId, Term}
use raft_rsm.Raft.State.{
  Host, Core, Output, save, log_append, log_truncate, send, transition, client, applied, handed_off,
}
use raft_rsm.Raft.Handle.{Call, run}
use raft_rsm.Raft.Disk.{Disk, write, recover, disk, Raises, Kept, Backed}
use raft_rsm.Raft.Disk.Runs.{Rooms, run-Durable}

-- The node saved a vote for x in term t.
abbrev pub Voted : Term → NodeId → List Output → Type 0
Voted t x [] = ⊥
Voted t x (o ∷ os) = (o ≡ save t (some x)) ⊎ Voted t x os

-- A vote of term t is still on the disk, or the disk's term is past t.
abbrev Holds : Disk → Term → NodeId → Type 0
Holds d t x = (t < d.term) ⊎ ((d.term ≡ t) × (d.vote ≡ some x))

Raises-Holds :
    (d : Disk) (t u : Term) (x : NodeId) (v : Option NodeId)
    → Raises d u v
    → Holds d t x
    → Holds (record d { term = u; vote = v }) t x
Raises-Holds d t u x v r h = ground arith

write-Holds :
    (d : Disk) (t : Term) (x : NodeId) (o : Output) → Kept d o → Holds d t x → Holds (write d o) t x
write-Holds d t x (save u v) k h = Raises-Holds d t u x v k h
write-Holds d t x (log_append es) k h = h
write-Holds d t x (log_truncate i) k h = h
write-Holds d t x (send to m) k h = h
write-Holds d t x (transition u r e) k h = h
write-Holds d t x (client from r) k h = h
write-Holds d t x (applied i e r) k h = h
write-Holds d t x (handed_off i e) k h = h

Voted-Holds :
    (d : Disk) (t : Term) (x : NodeId) (os : List Output)
    → Voted t x os
    → Backed d os
    → Holds (recover d os) t x
Voted-Holds d t x [] v b = absurd v
Voted-Holds d t x (o ∷ os) (inl e) b =
    subst (λ o. Holds (write (recover d os) o) t x) (sym e) (inr (refl, refl))
Voted-Holds d t x (o ∷ os) (inr v) b =
    write-Holds (recover d os) t x o b.0 (Voted-Holds d t x os v b.1)

-- A save of a vote for x after one for y of the same term is a save of the same vote.
resave : (d : Disk) (t : Term) (x y : NodeId) → Raises d t (some x) → Holds d t y → x ≡ y
resave d t x y r h = ground arith

pub Voted-unique :
    (d : Disk) (t : Term) (x y : NodeId) (os : List Output)
    → Backed d os
    → Voted t x os
    → Voted t y os
    → x ≡ y
Voted-unique d t x y [] b v w = absurd v
Voted-unique d t x y (o ∷ os) b (inl e) (inl f) = cc
Voted-unique d t x y (o ∷ os) b (inl e) (inr w) =
    resave (recover d os) t x y (subst (Kept (recover d os)) e b.0) (Voted-Holds d t y os w b.1)
Voted-unique d t x y (o ∷ os) b (inr v) (inl f) =
    sym
      (resave (recover d os) t y x (subst (Kept (recover d os)) f b.0) (Voted-Holds d t x os v b.1))
Voted-unique d t x y (o ∷ os) b (inr v) (inr w) = Voted-unique d t x y os b.1 v w

module _ {S : Type 0} (host : Host S) where
  -- Over any calls whose messages fit the log's 64-bit indices and whose elections do not start at
  -- the largest 64-bit term, from a state whose history is still empty: two votes that were saved
  -- for the same term are for the same candidate.
  pub run_votes_once :
      (c : Core S) (xs : List Call) (t : Term) (x y : NodeId)
      → Rooms host c xs
      → c.out ≡ []
      → Voted t x (run host c xs).out
      → Voted t y (run host c xs).out
      → x ≡ y
  run_votes_once c xs t x y r fresh v w =
      Voted-unique (disk c) t x y (run host c xs).out
        (run-Durable (disk c) host c xs r (rw fresh (refl, tt))).1 v w
