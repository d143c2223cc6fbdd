-- ===== src/StateMachine/Kv/Sessions.antt =====
-- The session table of src/statemachine/kv_store.cpp under retries.
use raft_rsm.Prelude.{
  ℕ, ◌≤◌, ◌≡◌, ◌≢◌, refl, ap, ◌∙◌, ◌⊎◌, inl, inr, true, false, Option, none, some, List, [], ◌∷◌,
  arith, ◌==◌, if◌then◌else◌, Bool-cases, Option-cases, All,
}
use raft_rsm.Rpc.Types.{Bytes}
use raft_rsm.Rpc.Wire.{reader}
use raft_rsm.StateMachine.Map.{word_key, lookup, lookup-insert}
use raft_rsm.StateMachine.Kv.{
  KvCommand, Session, KvStateMachine, cached, run_op, apply_command, apply_parsed, apply, apply_all,
  parse_kv_command,
}

-- The session of a client.
abbrev pub session : ℕ → KvStateMachine → Option Session
session k sm = lookup k sm.sessions

-- What the bytes of a command parse to.
abbrev pub parsed : Bytes → Option KvCommand
parsed command = (parse_kv_command (reader command)).0

-- The client's session has reached the sequence number.
abbrev pub Seen : ℕ → ℕ → KvStateMachine → Type 0
Seen k q sm = (s : Session) × (session k sm ≡ some s) × (q ≤ s.last_seq)

-- What the next retry of the sequence number would be answered from.
abbrev pub answer : ℕ → ℕ → KvStateMachine → Option Bytes
answer k q sm = cached q (session k sm)

session-run_op :
    (c : KvCommand) (sm : KvStateMachine) (k : ℕ)
    → session k (run_op c sm).1 ≡ (
        if c.client_id == 0
        then session k sm
        else if c.client_id == k
        then some (record { last_seq = c.seq_no; last_result = (run_op c sm).0 })
        else session k sm)
unfolding run_op
session-run_op c sm k = elim (Bool-cases (c.client_id == 0)) [
  | inl e ↦ rw e
  | inr e ↦ rw e (lookup-insert c.client_id k _ sm.sessions)
]

module _ (c : KvCommand) (sm : KvStateMachine) where
  -- The three ways of a well-formed command.
  pub apply_command-cases :
      ((apply_command c sm ≡ run_op c sm)
        × ((c.client_id ≡ 0) ⊎ (answer c.client_id c.seq_no sm ≡ none)))
      ⊎ ((c.client_id ≢ 0)
          × ((r : Bytes) × (answer c.client_id c.seq_no sm ≡ some r)
              × (apply_command c sm ≡ (r, sm))))
  unfolding apply_command
  apply_command-cases = elim (Bool-cases (c.client_id == 0)) [
    | inl e ↦ inl (rw e, inl (ground arith))
    | inr e ↦ elim (Option-cases (cached c.seq_no (lookup c.client_id sm.sessions))) [
      | inl n ↦ inl (rw (e, n, apply_command), inr n)
      | inr (r, y) ↦ inr ((ground arith), (r, y, rw (e, y, apply_command)))
    ]
  ]

  -- A well-formed command of a client with a session leaves an answer for its retry: its result.
  apply_command-answer :
      c.client_id ≢ 0
      → answer c.client_id c.seq_no (apply_command c sm).1 ≡ some (apply_command c sm).0
  unfolding cached
  apply_command-answer h = elim apply_command-cases [
    | inl (e, n) ↦ rw e (rw (session-run_op c sm c.client_id) (ground arith))
    | inr (n, (r, y, e)) ↦ rw e y
  ]

  -- A command of another client, or of none, leaves the session.
  apply_command-other : (k : ℕ) → c.client_id ≢ k → session k (apply_command c sm).1 ≡ session k sm
  apply_command-other k h = elim apply_command-cases [
    | inl (e, n) ↦ rw e (rw (session-run_op c sm k) (ground arith))
    | inr (n, (r, y, e)) ↦ rw e refl
  ]

  -- A command that is not a duplicate has a later number than its session.
  later :
      (s : Session)
      → session c.client_id sm ≡ some s
      → answer c.client_id c.seq_no sm ≡ none
      → s.last_seq ≤ c.seq_no
  unfolding cached
  later s e n = let n' = rw e at n in ground arith

  run_op-Seen :
      (k q : ℕ)
      → (c.client_id ≡ 0) ⊎ (answer c.client_id c.seq_no sm ≡ none)
      → Seen k q sm
      → Seen k q (run_op c sm).1
  run_op-Seen k q n (s, e, le) = elim (Bool-cases (c.client_id == 0)) [
    | inl nil ↦ (s, session-run_op c sm k ∙ rw nil e, le)
    | inr nonzero ↦ elim (Bool-cases (c.client_id == k)) [
      | inr other ↦ (s, session-run_op c sm k ∙ rw (nonzero, other) e, le)
      | inl own ↦ (
        record { last_seq = c.seq_no; last_result = (run_op c sm).0 },
        session-run_op c sm k ∙ rw (nonzero, own),
        newer own nonzero,
      )
    ]
  ]
    where
      newer : (c.client_id == k) ≡ true → (c.client_id == 0) ≡ false → q ≤ c.seq_no
      newer own nz =
          let same : c.client_id ≡ k = ground arith in
          let e' : session c.client_id sm ≡ some s = rw same e in
          elim n [ inl z ↦ absurd (ground arith) | inr new ↦ omega (arith, later s e' new) ]

  -- A session never goes back.
  apply_command-Seen : (k q : ℕ) → Seen k q sm → Seen k q (apply_command c sm).1
  apply_command-Seen k q h = elim apply_command-cases [
    | inl (e, n) ↦ rw e (run_op-Seen k q n h)
    | inr (n, (r, y, e)) ↦ rw e h
  ]

  -- A command with an answer is a duplicate.
  apply_command_duplicate :
      (r : Bytes)
      → c.client_id ≢ 0
      → answer c.client_id c.seq_no sm ≡ some r
      → apply_command c sm ≡ (r, sm)
  apply_command_duplicate r h y = elim apply_command-cases [
    | inl (e, n) ↦ elim n [ inl z ↦ absurd (h z) | inr new ↦ cc ]
    | inr (n, (r', y', e)) ↦ cc
  ]

  -- A command that its session has reached is a duplicate, and changes nothing.
  apply_command_known : c.client_id ≢ 0 → Seen c.client_id c.seq_no sm → (apply_command c sm).1 ≡ sm
  unfolding cached
  apply_command_known h (s, e, le) =
      let y : answer c.client_id c.seq_no sm ≡ some s.last_result = rw e (ground arith) in
      ap (λ (p : Bytes × KvStateMachine). p.1) (apply_command_duplicate s.last_result h y)

-- The client of a well-formed command.
abbrev pub Other : ℕ → Bytes → Type 0
Other k command = (c : KvCommand) → parsed command ≡ some c → c.client_id ≢ k

apply_parsed-Seen :
    (o : Option KvCommand) (sm : KvStateMachine) (k q : ℕ)
    → Seen k q sm
    → Seen k q (apply_parsed o sm).1
unfolding apply_parsed
apply_parsed-Seen none sm k q h = h
apply_parsed-Seen (some c) sm k q h = apply_command-Seen c sm k q h

apply_all-Seen :
    (rest : List Bytes) (sm : KvStateMachine) (k q : ℕ) → Seen k q sm → Seen k q (apply_all rest sm)
unfolding apply_all apply
apply_all-Seen [] sm k q h = h
apply_all-Seen (x ∷ rest) sm k q h =
    apply_all-Seen rest (apply x sm).1 k q (apply_parsed-Seen (parsed x) sm k q h)

session-apply_parsed :
    (o : Option KvCommand) (sm : KvStateMachine) (k : ℕ)
    → ((c : KvCommand) → o ≡ some c → c.client_id ≢ k)
    → session k (apply_parsed o sm).1 ≡ session k sm
unfolding apply_parsed
session-apply_parsed none sm k h = refl
session-apply_parsed (some c) sm k h = apply_command-other c sm k (h c refl)

session-apply_all :
    (rest : List Bytes) (sm : KvStateMachine) (k : ℕ)
    → All (Other k) rest
    → session k (apply_all rest sm) ≡ session k sm
unfolding apply_all apply
session-apply_all [] sm k h = refl
session-apply_all (x ∷ rest) sm k h =
    session-apply_all rest (apply x sm).1 k h.1 ∙ session-apply_parsed (parsed x) sm k h.0

answer-Seen : (k q : ℕ) (sm : KvStateMachine) (r : Bytes) → answer k q sm ≡ some r → Seen k q sm
unfolding cached
answer-Seen k q sm r y = elim (Option-cases (session k sm)) [
  | inl n ↦ let y' = rw n at y in cc
  | inr (s, e) ↦ let y' = rw e at y in (s, e, ground arith)
]

module _ (command : Bytes) (c : KvCommand) (sm : KvStateMachine) (rest : List Bytes) where
  -- Once a well-formed command of a client with a session was applied, applying it again changes
  -- nothing, whatever commands were applied in between.
  pub apply_again_state :
      parsed command ≡ some c
      → c.client_id ≢ 0
      → let later = apply_all rest (apply command sm).1 in (apply command later).1 ≡ later
  unfolding apply apply_parsed
  apply_again_state e h = rw e (
      apply_command_known c (apply_all rest (apply_command c sm).1) h (
        apply_all-Seen rest (apply_command c sm).1 c.client_id c.seq_no (
          answer-Seen c.client_id c.seq_no (apply_command c sm).1 (apply_command c sm).0
            (apply_command-answer c sm h))))

  -- If no other command of its client was applied in between, the retry is also answered with the
  -- first result.
  pub apply_again_result :
      parsed command ≡ some c
      → c.client_id ≢ 0
      → All (Other c.client_id) rest
      → let later = apply_all rest (apply command sm).1 in
        apply command later ≡ ((apply command sm).0, later)
  unfolding apply apply_parsed
  apply_again_result e h others = rw e (
      apply_command_duplicate c (apply_all rest (apply_command c sm).1) (apply_command c sm).0 h (
        ap (cached c.seq_no) (session-apply_all rest (apply_command c sm).1 c.client_id others)
        ∙ apply_command-answer c sm h))
