-- ===== src/Tests/Frames.antt =====
-- Concrete byte streams for src/transport/frame.h.
use mathlib.Core.List.{flatten}
use raft_rsm.Prelude.{◌≡◌, refl, inl, none, List, [], ◌∷◌, arith}
use raft_rsm.Rpc.Types.{Bytes}
use raft_rsm.Transport.Frame.{
  write_length_prefix, read_length, round, assemble, assembler, leave, feed, feed_all,
}
use raft_rsm.Transport.Frame.Streams.{feed_all-stream, feed_all_poisoned}

-- Two frames, cut within the first prefix and within the second body.
abbrev reads : List Bytes
reads = (0 ∷ 0 ∷ []) ∷ (0 ∷ 2 ∷ 7 ∷ 8 ∷ 0 ∷ 0 ∷ 0 ∷ 3 ∷ 1 ∷ []) ∷ (2 ∷ 3 ∷ []) ∷ []

abbrev two_frames : List Bytes
two_frames = (7 ∷ 8 ∷ []) ∷ (1 ∷ 2 ∷ 3 ∷ []) ∷ []

reads_deliver : feed_all reads assembler ≡ (two_frames, assembler)
unfolding feed_all assemble feed round read_length
reads_deliver = refl

feed_all-stream_example : feed_all reads assembler ≡ (two_frames, assembler)
unfolding flatten write_length_prefix
feed_all-stream_example =
    feed_all-stream two_frames (0 ∷ 0 ∷ [])
      ((0 ∷ 2 ∷ 7 ∷ 8 ∷ 0 ∷ 0 ∷ 0 ∷ 3 ∷ 1 ∷ []) ∷ (2 ∷ 3 ∷ []) ∷ [])
      ((omega arith, omega arith), ((omega arith, omega arith), tt)) refl

-- A good frame and then a prefix that declares no bytes.
feed_all_poisoned_example :
    (feed_all ((0 ∷ 0 ∷ 0 ∷ 1 ∷ 5 ∷ 0 ∷ []) ∷ (0 ∷ 0 ∷ 0 ∷ 4 ∷ []) ∷ []) assembler
      ≡ ((5 ∷ []) ∷ [], leave none))
    × ((cs : Bytes) → feed cs (leave none) ≡ ([], leave none))
unfolding flatten write_length_prefix read_length
feed_all_poisoned_example =
    feed_all_poisoned ((5 ∷ []) ∷ []) (0 ∷ 0 ∷ 0 ∷ 0 ∷ 4 ∷ []) (0 ∷ 0 ∷ 0 ∷ 1 ∷ 5 ∷ 0 ∷ [])
      ((0 ∷ 0 ∷ 0 ∷ 4 ∷ []) ∷ []) ((omega arith, omega arith), tt) (omega arith) (inl refl) refl
