-- ===== src/Client/Service/Batches.antt =====
-- The order in which src/client/client_service.cpp's proposals enter the log, batched or not.
use raft_rsm.Prelude.{
  ℕ, ◌≡◌, refl, ap, sym, ◌∙◌, true, Option, none, some, List, [], ◌∷◌, ◌++◌, ltb, leb,
  if◌then◌else◌, length, append_assoc, append-nil, Bool-cases, inl, inr, ◌⊎◌,
}
use mathlib.Core.List.{map-append}
use mathlib.Core.Bool.{false≢true}
use raft_rsm.Raft.Rules.{if_cases}
use raft_rsm.Rpc.Types.{Bytes, ClientRequest, LogIndex, NodeId}
use raft_rsm.Storage.Log.{Log}
use raft_rsm.Raft.State.{Host, is_leader}
use raft_rsm.Raft.Leader.{propose, stamp, is_empty}
use raft_rsm.Client.Service.Proposals.{
  Grown, propose-Grown, propose_batch-Grown, flush_batch_leader,
}
use raft_rsm.Client.Service.{
  decode_prefix, is_same, Buffered, ClientService, commands_of, reply, clear_batch, flush_batch,
  buffer_request, after_propose, accept_request, on_client_request, requests, hint_of,
}

-- The log with the buffered commands behind it.
abbrev pub arrived : {S : Type 0} → ClientService S → Log
arrived s = s.core.log ++ stamp s.core.current_term (commands_of s.buffer)

-- The command of a request that passes the identity check.
abbrev pub accepted : ClientRequest → List Bytes
accepted req =
    if is_same (decode_prefix req.command) req.client_id req.seq_no then req.command ∷ [] else []

abbrev pub accepted_all : List (NodeId × ClientRequest) → List Bytes
accepted_all [] = []
accepted_all ((from, req) ∷ rest) = accepted req ++ accepted_all rest

-- What an operation of a leader's service does to the log.
pub record Arrived {S : Type 0} (s s' : ClientService S) (commands : List Bytes) : Type 0 where
  pub entries : arrived s' ≡ arrived s ++ stamp s.core.current_term commands
  pub current_term : s'.core.current_term ≡ s.core.current_term
  pub role : s'.core.role ≡ s.core.role
  pub max_batch : s'.max_batch ≡ s.max_batch

is_empty-nil : (bs : List Buffered) → is_empty (commands_of bs) ≡ true → bs ≡ []
is_empty-nil [] h = refl
is_empty-nil (b ∷ bs) h = absurd (false≢true h)

module _ {S : Type 0} (host : Host S) where
  flush_batch-Arrived :
      (s : ClientService S)
      → is_leader s.core.role ≡ true
      → Arrived s (flush_batch host s) [] × ((flush_batch host s).buffer ≡ [])
  unfolding flush_batch clear_batch
  flush_batch-Arrived s h = elim (Bool-cases (is_empty (commands_of s.buffer))) [
    | inl nothing ↦
        let empty = is_empty-nil s.buffer nothing in
        rw (flush_batch, nothing)
          (
            record {
              entries = sym (append-nil (arrived s));
              current_term = refl;
              role = refl;
              max_batch = refl;
            },
            empty,
          )
    | inr more ↦
        let grown = propose_batch-Grown host s.core (commands_of s.buffer) h more in
        rw (flush_batch_leader host s h more) (
          record {
            entries = append-nil _ ∙ grown.log ∙ sym (append-nil (arrived s));
            current_term = grown.current_term;
            role = grown.role;
            max_batch = refl;
          },
          refl,
        )
  ]

  buffered-Arrived :
      (s : ClientService S) (b : Buffered)
      → Arrived s (record s { buffer = s.buffer ++ b ∷ [] }) (b.command ∷ [])
  buffered-Arrived s b =
      let term = s.core.current_term in
      let last : stamp term (commands_of (s.buffer ++ b ∷ []))
          ≡ stamp term (commands_of s.buffer) ++ stamp term (b.command ∷ []) =
        ap (stamp term) (map-append (λ b. b.command) s.buffer (b ∷ []))
        ∙ map-append (λ command. record { term = term; command = command }) (commands_of s.buffer)
            (b.command ∷ []) in
      record {
        entries = ap (λ es. s.core.log ++ es) last ∙ sym (append_assoc s.core.log _ _);
        current_term = refl;
        role = refl;
        max_batch = refl;
      }

  Arrived-trans :
      (a b c : ClientService S) (xs ys : List Bytes)
      → Arrived a b xs
      → Arrived b c ys
      → Arrived a c (xs ++ ys)
  Arrived-trans a b c xs ys p q = record {
    entries =
        q.entries
        ∙ ap (λ t. arrived b ++ stamp t ys) p.current_term
        ∙ ap (λ es. es ++ stamp a.core.current_term ys) p.entries
        ∙ append_assoc (arrived a) _ _
        ∙ ap (λ es. arrived a ++ es) (sym (map-append _ xs ys));
    current_term = q.current_term ∙ p.current_term;
    role = q.role ∙ p.role;
    max_batch = q.max_batch ∙ p.max_batch;
  }

  Arrived-refl :
      (s s' : ClientService S)
      → s'.core ≡ s.core
      → s'.buffer ≡ s.buffer
      → s'.max_batch ≡ s.max_batch
      → Arrived s s' []
  Arrived-refl s s' c b m = record {
    entries = rw (c, b) (sym (append-nil (arrived s)));
    current_term = ap (λ c. c.current_term) c;
    role = ap (λ c. c.role) c;
    max_batch = m;
  }

  buffer_request-Arrived :
      (s : ClientService S) (from : NodeId) (req : ClientRequest)
      → is_leader s.core.role ≡ true
      → Arrived s (buffer_request host s from req) (req.command ∷ [])
  unfolding buffer_request
  buffer_request-Arrived s from req h =
      let b : Buffered = record {
        from = from;
        client_id = req.client_id;
        seq_no = req.seq_no;
        command = req.command;
      } in
      let s' = record s { buffer = s.buffer ++ b ∷ [] } in
      let one = buffered-Arrived s b in
      if_cases (λ t. Arrived s t (req.command ∷ [])) (leb s'.max_batch (length s'.buffer))
        (Arrived-trans s s' _ (req.command ∷ []) [] one (flush_batch-Arrived s' h).0) one

  Grown-Arrived :
      (s s' : ClientService S) (commands : List Bytes)
      → Grown s.core s'.core commands
      → s.buffer ≡ []
      → s'.buffer ≡ []
      → s'.max_batch ≡ s.max_batch
      → Arrived s s' commands
  Grown-Arrived s s' commands g e e' m = record {
    entries =
        rw (e, e')
          (append-nil _
            ∙ g.log
            ∙ ap (λ l. l ++ stamp s.core.current_term commands) (sym (append-nil s.core.log)));
    current_term = g.current_term;
    role = g.role;
    max_batch = m;
  }

  -- With batching off nothing is buffered.
  propose-Arrived :
      (s : ClientService S) (from : NodeId) (req : ClientRequest) (index : Option LogIndex)
      → is_leader s.core.role ≡ true
      → s.buffer ≡ []
      → let s' = record s { core = (propose host s.core req.command).0 } in
        Arrived s (after_propose s' from req index) (req.command ∷ [])
        × ((after_propose s' from req index).buffer ≡ [])
  unfolding after_propose reply
  propose-Arrived s from req none h e =
      (Grown-Arrived s _ (req.command ∷ []) (propose-Grown host s.core req.command h) e e refl, e)
  propose-Arrived s from req (some i) h e =
      (Grown-Arrived s _ (req.command ∷ []) (propose-Grown host s.core req.command h) e e refl, e)

  -- Nothing is buffered while batching is off.
  abbrev pub Unbuffered : ClientService S → Type 0
  Unbuffered s = (ltb 1 s.max_batch ≡ true) ⊎ (s.buffer ≡ [])

  accept_request-Arrived :
      (s : ClientService S) (from : NodeId) (req : ClientRequest)
      → is_leader s.core.role ≡ true
      → Unbuffered s
      → Arrived s (accept_request host s from req) (req.command ∷ [])
        × Unbuffered (accept_request host s from req)
  unfolding accept_request
  accept_request-Arrived s from req h u = elim (Bool-cases (ltb 1 s.max_batch)) [
    | inl big ↦
        let one = buffer_request-Arrived s from req h in
        rw (accept_request, big) (one, inl (ap (ltb 1) one.max_batch ∙ big))
    | inr small ↦
        let empty : s.buffer ≡ [] = elim u [
          | inl big ↦ absurd (false≢true (sym small ∙ big))
          | inr e ↦ e
        ] in
        let (one, e) = propose-Arrived s from req (propose host s.core req.command).1 h empty in
        rw (accept_request, small) (one, inr e)
  ]

  -- A request to a leader.
  on_client_request-Arrived :
      (s : ClientService S) (from : NodeId) (req : ClientRequest)
      → is_leader s.core.role ≡ true
      → Unbuffered s
      → Arrived s (on_client_request host s from req) (accepted req)
        × Unbuffered (on_client_request host s from req)
  unfolding on_client_request reply
  on_client_request-Arrived s from req h u =
      elim (Bool-cases (is_same (decode_prefix req.command) req.client_id req.seq_no)) [
        | inl same ↦
            let s' = record s { leader_hint = hint_of s.core.leader_id } in
            let (one, u') = accept_request-Arrived s' from req h u in
            rw (on_client_request, h, same)
              (
                record {
                  entries = one.entries;
                  current_term = one.current_term;
                  role = one.role;
                  max_batch = one.max_batch;
                },
                u',
              )
        | inr other ↦ rw (on_client_request, h, other) (Arrived-refl s _ refl refl refl, u)
      ]

  requests-Arrived :
      (s : ClientService S) (rs : List (NodeId × ClientRequest))
      → is_leader s.core.role ≡ true
      → Unbuffered s
      → Arrived s (requests host s rs) (accepted_all rs)
  unfolding requests
  requests-Arrived s [] h u = Arrived-refl s s refl refl refl
  requests-Arrived s ((from, req) ∷ rest) h u =
      let s' = on_client_request host s from req in
      let (one, u') = on_client_request-Arrived s from req h u in
      Arrived-trans s s' _ (accepted req) (accepted_all rest) one
        (requests-Arrived s' rest (ap is_leader one.role ∙ h) u')

  -- On a leader, requests and then a flush append the commands that pass the identity check, and no
  -- others, in the order of their arrival, whatever the batch size is; nothing stays in the buffer.
  pub requests-log :
      (s : ClientService S) (m : ℕ) (rs : List (NodeId × ClientRequest))
      → is_leader s.core.role ≡ true
      → s.buffer ≡ []
      → let s' = flush_batch host (requests host (record s { max_batch = m }) rs) in
        (s'.core.log ≡ s.core.log ++ stamp s.core.current_term (accepted_all rs)) × (s'.buffer ≡ [])
  requests-log s m rs h e =
      let s0 = record s { max_batch = m } in
      let all = requests-Arrived s0 rs h (inr e) in
      let (flushed, empty) =
        flush_batch-Arrived (requests host s0 rs) (ap is_leader all.role ∙ h) in
      let both = Arrived-trans s0 (requests host s0 rs) _ (accepted_all rs) [] all flushed in
      let s' = flush_batch host (requests host s0 rs) in
      let term = s.core.current_term in
      (
        sym (append-nil s'.core.log)
            ∙ ap (λ b. s'.core.log ++ stamp s'.core.current_term (commands_of b)) (sym empty)
            ∙ both.entries
            ∙ ap
                (λ b.
                  (s.core.log ++ stamp term (commands_of b)) ++ stamp term (accepted_all rs ++ []))
                e
            ∙ ap (λ l. l ++ stamp term (accepted_all rs ++ [])) (append-nil s.core.log)
            ∙ ap (λ cs. s.core.log ++ stamp term cs) (append-nil (accepted_all rs)),
        empty,
      )
