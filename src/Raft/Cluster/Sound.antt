-- ===== src/Raft/Cluster/Sound.antt =====
-- What holds of every node of a cluster (src/raft/raft_core.cpp) after every event.
use mathlib.Core.Bool.{false≢true}
use raft_rsm.Prelude.{
  ℕ, ◌+◌, ◌≡◌, refl, sym, subst, ◌∙◌, inl, inr, true, false, List, [], ◌∷◌, length, ◌==◌, ==_iff,
  Bool-cases, elem, All, All-elem,
}
use raft_rsm.Rpc.Types.{
  NodeId, Term, Message, request_vote, request_vote_reply, append_entries, append_entries_reply,
  client_request, client_reply,
}
use raft_rsm.Raft.State.{Core, send}
use raft_rsm.Raft.Handle.{Call, starts, ticks, pumps, receives, proposes, proposes_batch, waits}
use raft_rsm.Raft.Disk.{Durable}
use raft_rsm.Raft.Disk.Votes.{Voted}
use raft_rsm.Raft.Disk.Runs.{step-Durable}
use raft_rsm.Raft.Elections.{View, Claim, Elected}
use raft_rsm.Raft.Elections.Calls.{Honest, HonestCall, step-Elected}
use raft_rsm.Raft.Elections.Wins.{Sent-Claim, Elected-map}
use raft_rsm.Raft.Cluster.{
  Setup, Event, calls, restarts, is_client, construct, set, boot, restart, happen, happen_all,
  Arrives, Allowed, AllAllowed,
}

module _ {S : Type 0} where
  set-same : (nodes : NodeId → Core S) (i : NodeId) (c : Core S) → set nodes i c i ≡ c
  unfolding set
  set-same nodes i c = rw ((==_iff i i).1 refl) refl

  set-other :
      (nodes : NodeId → Core S) (i : NodeId) (c : Core S) (j : NodeId)
      → (i == j) ≡ false
      → set nodes i c j ≡ nodes j
  unfolding set
  set-other nodes i c j e = rw e refl

module _ {S : Type 0} (setup : Setup S) where
  -- The votes that the members saved for node i.
  abbrev pub view : (NodeId → Core S) → NodeId → Core S → View
  view nodes i c = record {
    voted = λ t v. (elem v setup.members ≡ true) × Voted t i (nodes v).out;
    self = c.self;
    peers = c.peers;
    out = c.out;
  }

  -- Node i, of state c, among the nodes.
  abbrev pub Sound : (NodeId → Core S) → NodeId → Core S → Type 0
  Sound nodes i c =
      (c.self ≡ i)
      × (length c.peers + 1 ≡ length setup.members)
      × Elected (view nodes i c) c
      × Durable (setup.disk i) c

  abbrev pub AllSound : (NodeId → Core S) → Type 0
  AllSound nodes = (j : NodeId) → elem j setup.members ≡ true → Sound nodes j (nodes j)

  -- No node forgets a vote.
  abbrev Grows : (NodeId → Core S) → (NodeId → Core S) → Type 0
  Grows nodes nodes' =
      (v : NodeId) (t : Term) (x : NodeId)
      → elem v setup.members ≡ true
      → Voted t x (nodes v).out
      → Voted t x (nodes' v).out

  Sound-grown :
      (nodes nodes' : NodeId → Core S) (i : NodeId) (c : Core S)
      → Grows nodes nodes'
      → Sound nodes i c
      → Sound nodes' i c
  Sound-grown nodes nodes' i c g (self, sized, elected, durable) = (
    self,
    sized,
    Elected-map (view nodes i c) (view nodes' i c) (λ t v h. (h.0, g v t i h.0 h.1)) c
        (refl, refl, (λ t x v. v)) elected,
    durable,
  )

  -- The state that a node moves to.
  abbrev New : (NodeId → Core S) → NodeId → Core S → Type 0
  New nodes i c = Elected (view nodes i (nodes i)) c × Durable (setup.disk i) c

  New-Sound :
      (nodes : NodeId → Core S) (i : NodeId) (c : Core S)
      → Sound nodes i (nodes i)
      → New nodes i c
      → Sound nodes i c
  New-Sound nodes i c (self, sized, old, on_disk) (elected, durable) =
      let since = elected.4 in
      (
        since.0 ∙ self,
        subst (λ ps. length ps + 1 ≡ length setup.members) (sym since.1) sized,
        Elected-map (view nodes i (nodes i)) (view nodes i c) (λ t v h. h) c
            (refl, refl, (λ t x v. v)) elected,
        durable,
      )

  set-Grows :
      (nodes : NodeId → Core S) (i : NodeId) (c : Core S)
      → New nodes i c
      → Grows nodes (set nodes i c)
  set-Grows nodes i c new v t x member voted = elim (Bool-cases (i == v)) [
    | inr other ↦ subst (λ s. Voted t x s.out) (sym (set-other nodes i c v other)) voted
    | inl same ↦
        let e = (==_iff i v).0 same in
        let kept = new.0.4.2 t x (subst (λ v. Voted t x (nodes v).out) (sym e) voted) in
        subst (λ v. Voted t x (set nodes i c v).out) e
          (subst (λ s. Voted t x s.out) (sym (set-same nodes i c)) kept)
  ]

  set-AllSound :
      (nodes : NodeId → Core S) (i : NodeId) (c : Core S)
      → AllSound nodes
      → New nodes i c
      → AllSound (set nodes i c)
  set-AllSound nodes i c all new j member =
      let grows = Sound-grown nodes (set nodes i c) in
      let g = set-Grows nodes i c new in
      elim (Bool-cases (i == j)) [
        | inr other ↦
            subst (Sound (set nodes i c) j) (sym (set-other nodes i c j other))
              (grows j (nodes j) g (all j member))
        | inl same ↦
            let e = (==_iff i j).0 same in
            let own = all i (subst (λ j. elem j setup.members ≡ true) (sym e) member) in
            subst (λ j. Sound (set nodes i c) j (set nodes i c j)) e
              (subst (Sound (set nodes i c) i) (sym (set-same nodes i c))
                (grows i c g (New-Sound nodes i c own new)))
      ]

  -- What a member sent is true.
  Claim-Honest :
      (nodes : NodeId → Core S) (i from : NodeId) (m : Message) (c : Core S)
      → elem from setup.members ≡ true
      → (nodes from).self ≡ from
      → Claim (nodes from).self (nodes from).out (send i m)
      → Honest (view nodes i c) from m
  Claim-Honest nodes i from (request_vote m) c member self h = h ∙ self
  Claim-Honest nodes i from (request_vote_reply m) c member self h = λ g. (member, h g)
  Claim-Honest nodes i from (append_entries m) c member self h = tt
  Claim-Honest nodes i from (append_entries_reply m) c member self h = tt
  Claim-Honest nodes i from (client_request m) c member self h = tt
  Claim-Honest nodes i from (client_reply m) c member self h = tt

  client-Honest : (v : View) (from : NodeId) (m : Message) → is_client m ≡ true → Honest v from m
  client-Honest v from (request_vote m) e = absurd (false≢true e)
  client-Honest v from (request_vote_reply m) e = absurd (false≢true e)
  client-Honest v from (append_entries m) e = tt
  client-Honest v from (append_entries_reply m) e = tt
  client-Honest v from (client_request m) e = tt
  client-Honest v from (client_reply m) e = tt

  Arrives-Honest :
      (nodes : NodeId → Core S) (i : NodeId) (x : Call)
      → AllSound nodes
      → Arrives setup nodes i x
      → HonestCall (view nodes i (nodes i)) x
  Arrives-Honest nodes i (receives from m) all (inl client) =
      client-Honest (view nodes i (nodes i)) from m client
  Arrives-Honest nodes i (receives from m) all (inr (member, sent)) =
      let s = all from member in
      Claim-Honest nodes i from m (nodes i) member s.0
        (Sent-Claim (nodes from).self i m (nodes from).out s.2.3 sent)
  Arrives-Honest nodes i starts all h = tt
  Arrives-Honest nodes i ticks all h = tt
  Arrives-Honest nodes i pumps all h = tt
  Arrives-Honest nodes i (proposes x) all h = tt
  Arrives-Honest nodes i (proposes_batch xs) all h = tt
  Arrives-Honest nodes i (waits d) all h = tt

  -- The disk read back is the one that the history wrote.
  restart-New :
      (nodes : NodeId → Core S) (i : NodeId) (sm : S) (now drawn : ℕ)
      → Sound nodes i (nodes i)
      → New nodes i (restart setup i (nodes i) sm now drawn)
  unfolding restart construct
  restart-New nodes i sm now drawn
        (self, sized, (behind, distinct, won, fair, since), (read, backed)) =
      (((λ e. absurd (false≢true e)), tt, won, fair, (refl, refl, (λ t x v. v))), (refl, backed))

  pub happen-AllSound :
      (nodes : NodeId → Core S) (e : Event S)
      → AllSound nodes
      → Allowed setup nodes e
      → AllSound (happen setup nodes e)
  unfolding happen
  happen-AllSound nodes (calls i x) all (member, arrives, room) =
      let s = all i member in
      set-AllSound nodes i _ all (
        step-Elected (view nodes i (nodes i)) (setup.host i) (nodes i) x
            (Arrives-Honest nodes i x all arrives) s.2,
        step-Durable (setup.disk i) (setup.host i) (nodes i) x room s.3,
      )
  happen-AllSound nodes (restarts i sm now drawn) all member =
      set-AllSound nodes i _ all (restart-New nodes i sm now drawn (all i member))

  pub happen_all-AllSound :
      (nodes : NodeId → Core S) (es : List (Event S))
      → AllSound nodes
      → AllAllowed setup nodes es
      → AllSound (happen_all setup nodes es)
  unfolding happen_all
  happen_all-AllSound nodes [] all h = all
  happen_all-AllSound nodes (e ∷ es) all h =
      happen_all-AllSound (happen setup nodes e) es (happen-AllSound nodes e all h.0) h.1

  -- Each member's peers are the others, by their number.
  abbrev pub Sized : Type 0
  Sized = All (λ j. length (setup.peers j) + 1 ≡ length setup.members) setup.members

  pub boot-AllSound : Sized → AllSound (boot setup)
  unfolding boot construct
  boot-AllSound sized j member = (
    refl,
    All-elem _ j setup.members sized member,
    ((λ e. absurd (false≢true e)), tt, tt, tt, (refl, refl, (λ t x v. v))),
    (refl, tt),
  )
