-- ===== src/Transport/Frame.antt =====
-- src/transport/frame.h and frame.cpp: the length prefix and `FrameAssembler`. Frames are the
-- bodies that `onFrame` is called with, in order.
pub mod Split
pub mod Streams
use raft_rsm.Prelude.{
  ℕ, zero, suc, ◌+◌, ◌*◌, ◌/◌, ◌%◌, ◌^◌, Bool, true, false, ◌||◌, Option, none, some, List, [], ◌∷◌,
  ◌++◌, ltb, ◌==◌, if◌then◌else◌, length, take, drop,
}
use raft_rsm.Rpc.Types.{Bytes, envelope_size, max_payload_size}

abbrev pub length_prefix_size : ℕ
length_prefix_size = 4

-- The largest legal body.
abbrev pub max_frame_size : ℕ
max_frame_size = envelope_size + max_payload_size

-- `writeLengthPrefix`.
unfoldable pub write_length_prefix : ℕ → Bytes
write_length_prefix n = n / 2 ^ 24 % 256 ∷ n / 2 ^ 16 % 256 ∷ n / 2 ^ 8 % 256 ∷ n % 256 ∷ []

-- The declared length: the first four bytes, the highest first. Bytes do not overlap when they are
-- combined.
unfoldable pub read_length : Bytes → ℕ
read_length (a ∷ b ∷ c ∷ d ∷ rest) = a * 2 ^ 24 + b * 2 ^ 16 + c * 2 ^ 8 + d
read_length _ = 0

pub record FrameAssembler : Type 0 where
  pub buf : Bytes
  pub poisoned : Bool

abbrev pub assembler : FrameAssembler
assembler = record { buf = []; poisoned = false }

-- One round of the loop of `feed`, on the bytes from `off`.
pub data Round : Type 0 where
  incomplete invalid : Round
  complete : Bytes → Bytes → Round

unfoldable pub round : Bytes → Round
round bs =
    let len = read_length bs in
    if ltb (length bs) length_prefix_size
    then incomplete
    else if (len == 0) || ltb max_frame_size len
    then invalid
    else if ltb (length bs) (length_prefix_size + len)
    then incomplete
    else complete (take len (drop length_prefix_size bs)) (drop (length_prefix_size + len) bs)

-- The loop: the frames, and the bytes that are left, none after a protocol error. The fuel is the
-- number of bytes.
unfoldable pub assemble : ℕ → Bytes → List Bytes × Option Bytes
assemble zero bs = ([], some bs)
assemble (suc fuel) bs = elim (round bs) [
  | incomplete ↦ ([], some bs)
  | invalid ↦ ([], none)
  | complete body rest ↦ let (frames, left) = assemble fuel rest in (body ∷ frames, left)
]

-- The state at the end of the loop: an error clears the buffer.
abbrev pub leave : Option Bytes → FrameAssembler
leave none = record { buf = []; poisoned = true }
leave (some left) = record { buf = left; poisoned = false }

-- The frames delivered, and the state. The result of the call is that the state is not poisoned.
unfoldable pub feed : Bytes → FrameAssembler → List Bytes × FrameAssembler
feed bs a =
    if a.poisoned
    then ([], a)
    else let (frames, left) = assemble (length (a.buf ++ bs)) (a.buf ++ bs) in (frames, leave left)

-- `reset`.
abbrev pub reset : FrameAssembler → FrameAssembler
reset a = record a { buf = []; poisoned = false }

-- The reads of a connection, one after the other.
unfoldable pub feed_all : List Bytes → FrameAssembler → List Bytes × FrameAssembler
feed_all [] a = ([], a)
feed_all (bs ∷ rest) a =
    let (frames, a') = feed bs a in let (more, a'') = feed_all rest a' in (frames ++ more, a'')
