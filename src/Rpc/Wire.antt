-- ===== src/Rpc/Wire.antt =====
-- src/rpc/wire.h: the bounds-checked little-endian cursors `Writer` and `Reader`.
pub mod Words
pub mod Cursors
use raft_rsm.Prelude.{
  ℕ, zero, suc, ◌+◌, ◌-◌, ◌*◌, ◌/◌, ◌%◌, Bool, true, false, not, ◌&&◌, ◌||◌, Option, none, some,
  List, [], ◌∷◌, ◌++◌, ltb, ◌==◌, if◌then◌else◌, length, take, drop,
}
use raft_rsm.Rpc.Types.{Bytes}

-- The n low bytes of a value, `static_cast<std::uint8_t>(v >> (8 * i))` for i = 0 .. n - 1: each
-- round shifts by eight more bits.
unfoldable pub le_bytes : ℕ → ℕ → Bytes
le_bytes zero v = []
le_bytes (suc n) v = v % 256 ∷ le_bytes n (v / 256)

-- `v = (v << 8) | b[i]` from the last byte to the first. The low byte of `v << 8` is 0, and n bytes
-- never leave an n-byte word.
unfoldable pub of_le : Bytes → ℕ
of_le [] = 0
of_le (b ∷ bs) = of_le bs * 256 + b

-- The output buffer's size, what was written to its front, and the sticky flag.
pub record Writer : Type 0 where
  pub capacity : ℕ
  pub buf : Bytes
  pub ok : Bool

abbrev pub writer : ℕ → Writer
writer n = record { capacity = n; buf = []; ok = true }

-- `put` and `bytes`: all of the bytes or none, and none after a failure.
unfoldable pub put : Bytes → Writer → Writer
put bs w =
    if not w.ok || ltb (w.capacity - length w.buf) (length bs)
    then record w { ok = false }
    else record w { buf = w.buf ++ bs }

abbrev pub write_u8 : ℕ → Writer → Writer
write_u8 v = put (le_bytes 1 v)

abbrev pub write_u16 : ℕ → Writer → Writer
write_u16 v = put (le_bytes 2 v)

abbrev pub write_u32 : ℕ → Writer → Writer
write_u32 v = put (le_bytes 4 v)

abbrev pub write_u64 : ℕ → Writer → Writer
write_u64 v = put (le_bytes 8 v)

-- The unread input and the sticky flag.
pub record Reader : Type 0 where
  pub input : Bytes
  pub ok : Bool

abbrev pub reader : Bytes → Reader
reader bs = record { input = bs; ok = true }

abbrev pub remaining : Reader → ℕ
remaining r = length r.input

-- `exhausted`.
abbrev pub exhausted : Reader → Bool
exhausted r = r.ok && (remaining r == 0)

-- `take` and `readBytes`: the next n bytes, or a failure that keeps the position.
unfoldable pub read_bytes : ℕ → Reader → Option Bytes × Reader
read_bytes n r =
    if not r.ok || ltb (remaining r) n
    then (none, record r { ok = false })
    else (some (take n r.input), record r { input = drop n r.input })

abbrev pub value : Option Bytes → ℕ
value none = 0
value (some bs) = of_le bs

-- An n-byte word, 0 past the end.
unfoldable pub read_word : ℕ → Reader → ℕ × Reader
read_word n r = let (bs, r') = read_bytes n r in (value bs, r')

abbrev pub read_u8 : Reader → ℕ × Reader
read_u8 = read_word 1

abbrev pub read_u16 : Reader → ℕ × Reader
read_u16 = read_word 2

abbrev pub read_u32 : Reader → ℕ × Reader
read_u32 = read_word 4

abbrev pub read_u64 : Reader → ℕ × Reader
read_u64 = read_word 8
