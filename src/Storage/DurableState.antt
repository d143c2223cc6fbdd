-- ===== src/Storage/DurableState.antt =====
-- src/storage/durable_state.cpp: the term and the vote in a metadata file that is replaced by a
-- rename. The checksum (src/storage/crc32c.cpp) is a parameter.
pub mod RoundTrip
use raft_rsm.Prelude.{
  ℕ, zero, suc, Bool, true, false, not, ◌&&◌, ◌||◌, Option, none, some, List, [], ◌∷◌, ◌++◌, ltb,
  ◌==◌, if◌then◌else◌, length, take,
}
use raft_rsm.Rpc.Types.{Bytes, NodeId, Term}
use raft_rsm.Rpc.Wire.{le_bytes, Reader, reader}
use raft_rsm.Rpc.Decode.{Decoder, pure, ◌>>=◌, ◌>>◌, word, require}

abbrev pub magic : ℕ
magic = 0x4D4D5352

abbrev pub version : ℕ
version = 1

abbrev pub meta_size : ℕ
meta_size = 20

abbrev pub crc_offset : ℕ
crc_offset = 16

-- The two files, with what is durable in them.
pub record MetaFiles : Type 0 where
  pub meta : Option Bytes
  pub tmp : Option Bytes

abbrev pub has_vote : Option NodeId → ℕ
has_vote none = 0
has_vote (some v) = 1

abbrev pub vote_or_zero : Option NodeId → NodeId
vote_or_zero none = 0
vote_or_zero (some v) = v

-- The vote that the file holds.
abbrev pub read_vote : ℕ → NodeId → Option NodeId
read_vote zero vote = none
read_vote _ vote = some vote

module _ (crc : Bytes → ℕ) where
  abbrev pub meta_body : Term → Option NodeId → Bytes
  meta_body t v =
      le_bytes 4 magic
      ++ (le_bytes 1 version
          ++ (le_bytes 8 t ++ (le_bytes 1 (has_vote v) ++ le_bytes 2 (vote_or_zero v))))

  abbrev pub meta_bytes : Term → Option NodeId → Bytes
  meta_bytes t v = meta_body t v ++ le_bytes 4 (crc (meta_body t v))

  -- `pwriteAll` to the temporary file, after its first k bytes.
  unfoldable pub write_tmp : ℕ → Term → Option NodeId → MetaFiles → MetaFiles
  write_tmp k t v files = record files { tmp = some (take k (meta_bytes t v)) }

  unfoldable pub rename : MetaFiles → MetaFiles
  rename files = record { meta = files.tmp; tmp = none }

  unfoldable pub save : Term → Option NodeId → MetaFiles → MetaFiles
  save t v files = rename (write_tmp meta_size t v files)

  unfoldable pub parse_meta : ℕ → Decoder (Term × Option NodeId)
  parse_meta sum = do
    file_magic ← word 4
    file_version ← word 1
    term ← word 8
    voted ← word 1
    vote ← word 2
    stored ← word 4
    require (λ r.
        (file_magic == magic && file_version == version) && (not (ltb 1 voted) && stored == sum))
    pure (term, read_vote voted vote)

  -- The constructor: the leftover of a crash is removed, and the file, if there is one, is read. A
  -- corrupt file, where the source throws, is none.
  unfoldable pub load : Option Bytes → Option (Term × Option NodeId)
  load none = some (0, none)
  load (some bs) =
      if not (length bs == meta_size)
      then none
      else (parse_meta (crc (take crc_offset bs)) (reader bs)).0

  unfoldable pub open_state : MetaFiles → Option ((Term × Option NodeId) × MetaFiles)
  open_state files = elim (load files.meta) [
    | none ↦ none
    | some state ↦ some (state, record files { tmp = none })
  ]
