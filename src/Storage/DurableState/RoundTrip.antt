-- ===== src/Storage/DurableState/RoundTrip.antt =====
-- The metadata file of src/storage/durable_state.cpp across a save and a crash within one.
use raft_rsm.Prelude.{
  ℕ, ◌^◌, ◌<◌, ◌≡◌, refl, ap, ◌∙◌, not, ◌&&◌, ltb, true, Option, none, some, [], ◌++◌, arith, ◌==◌,
  ==_iff, length, take, take-all, take-append_at, length-append, append_assoc,
}
use raft_rsm.Rpc.Types.{Bytes, NodeId, Term}
use raft_rsm.Rpc.Wire.{le_bytes, Reader, reader}
use raft_rsm.Rpc.Wire.Words.{length-le_bytes}
use raft_rsm.Rpc.Decode.{pure}
use raft_rsm.Rpc.Decode.Rules.{
  Reads, Reads-pure, Reads-word, Reads-require, Accepts, Accepts-bind, Accepts-last, Reads-first,
}
use raft_rsm.Storage.DurableState.{
  MetaFiles, magic, version, meta_size, crc_offset, has_vote, vote_or_zero, read_vote, meta_body,
  meta_bytes, write_tmp, rename, save, parse_meta, load, open_state,
}

abbrev pub VoteFits : Option NodeId → Type 0
VoteFits none = Unit
VoteFits (some v) = v < 2 ^ 16

vote_laws :
    (v : Option NodeId)
    → VoteFits v
    → (has_vote v < 256) × (vote_or_zero v < 2 ^ 16) × (read_vote (has_vote v) (vote_or_zero v) ≡ v)
vote_laws none h = (omega arith, omega arith, refl)
vote_laws (some v) h = (omega arith, h, refl)

voted_test : (v : Option NodeId) → (true && (not (ltb 1 (has_vote v)) && true)) ≡ true
voted_test none = refl
voted_test (some v) = refl

module _ (crc : Bytes → ℕ) (small : (bs : Bytes) → crc bs < 2 ^ 32) where
  length-meta_body : (t : Term) (v : Option NodeId) → length (meta_body crc t v) ≡ crc_offset
  length-meta_body t v = simp (length-append, length-le_bytes)

  length-meta_bytes : (t : Term) (v : Option NodeId) → length (meta_bytes crc t v) ≡ meta_size
  length-meta_bytes t v = omega (
    arith,
    length-append (meta_body crc t v) (le_bytes 4 (crc (meta_body crc t v))),
    length-meta_body t v,
    length-le_bytes 4 (crc (meta_body crc t v)),
  )

  flat :
      (t : Term) (v : Option NodeId) (s : ℕ)
      → meta_body crc t v ++ le_bytes 4 s
        ≡ le_bytes 4 magic
          ++ (le_bytes 1 version
              ++ (le_bytes 8 t
                  ++ (le_bytes 1 (has_vote v) ++ (le_bytes 2 (vote_or_zero v) ++ le_bytes 4 s))))
  flat t v s = simp append_assoc

  accepts :
      (t : Term) (v : Option NodeId) (s : ℕ)
      → t < 2 ^ 64
      → VoteFits v
      → s < 2 ^ 32
      → Accepts
          (parse_meta crc s)
          (le_bytes 4 magic
            ++ (le_bytes 1 version
                ++ (le_bytes 8 t
                    ++ (le_bytes 1 (has_vote v) ++ (le_bytes 2 (vote_or_zero v) ++ le_bytes 4 s)))))
          (t, v)
  unfolding parse_meta
  accepts t v s ht hv hs =
      let laws = vote_laws v hv in
      let same : (s == s) ≡ true = (==_iff s s).1 refl in
      let got : Reads (pure {A = Term × Option NodeId} (t, read_vote (has_vote v) (vote_or_zero v)))
          [] (t, v) =
        rw laws.2 (Reads-pure (t, v)) in
      let ends =
        Reads-first (λ x. pure (t, read_vote (has_vote v) (vote_or_zero v))) tt
          (Reads-require
            (λ r. (magic == magic && version == version) && (not (ltb 1 (has_vote v)) && s == s))
            (λ rest. rw same (voted_test v)))
          got in
      Accepts-bind _ magic (Reads-word 4 magic (omega arith)) (
        Accepts-bind _ version (Reads-word 1 version (omega arith)) (
          Accepts-bind _ t (Reads-word 8 t ht) (
            Accepts-bind _ (has_vote v) (Reads-word 1 (has_vote v) laws.0) (
              Accepts-bind _ (vote_or_zero v) (Reads-word 2 (vote_or_zero v) laws.1) (
                Accepts-last _ s (Reads-word 4 s hs) (record {
                  at = ap (λ (p : Option (Term × Option NodeId) × Reader). p.0) (ends.at []);
                }))))))

  load_good :
      (bs body : Bytes) (state : Term × Option NodeId)
      → length bs ≡ meta_size
      → take crc_offset bs ≡ body
      → (parse_meta crc (crc body) (reader bs)).0 ≡ some state
      → load crc (some bs) ≡ some state
  unfolding load
  load_good bs body state size front read = let e = (==_iff _ _).1 size in rw (e, front) read

  open_good :
      (files : MetaFiles) (state : Term × Option NodeId)
      → load crc files.meta ≡ some state
      → open_state crc files ≡ some (state, record files { tmp = none })
  unfolding open_state
  open_good files state h = rw (h, open_state) refl

  open_state-save :
      (t : Term) (v : Option NodeId) (files : MetaFiles)
      → t < 2 ^ 64
      → VoteFits v
      → open_state crc (save crc t v files)
        ≡ some ((t, v), record { meta = some (meta_bytes crc t v); tmp = none })
  unfolding save rename write_tmp
  open_state-save t v files ht hv =
      let body = meta_body crc t v in
      let bytes = meta_bytes crc t v in
      let whole : take meta_size bytes ≡ bytes =
        take-all meta_size bytes (omega (arith, length-meta_bytes t v)) in
      let loaded : load crc (some bytes) ≡ some (t, v) =
        load_good bytes body (t, v) (length-meta_bytes t v)
          (take-append_at crc_offset body (le_bytes 4 (crc body)) (length-meta_body t v))
          (ap (λ bs. (parse_meta crc (crc body) (reader bs)).0) (flat t v (crc body))
            ∙ Accepts.at (accepts t v (crc body) ht hv (small body))) in
      ap (λ bs. open_state crc (record { meta = some bs; tmp = none })) whole
      ∙ open_good (record { meta = some bytes; tmp = none }) (t, v) loaded

  -- A save is atomic: a start after a crash while the temporary file was written, after any part of
  -- its bytes, is as if the save had not begun, and a start after the rename loads the term and the
  -- vote that were saved, with no temporary file left.
  pub save_atomic :
      (t : Term) (v : Option NodeId) (files : MetaFiles)
      → t < 2 ^ 64
      → VoteFits v
      → ((k : ℕ) → open_state crc (write_tmp crc k t v files) ≡ open_state crc files)
        × (open_state crc (save crc t v files)
            ≡ some ((t, v), record { meta = some (meta_bytes crc t v); tmp = none }))
  unfolding open_state write_tmp
  save_atomic t v files ht hv = ((λ k. refl), open_state-save t v files ht hv)
