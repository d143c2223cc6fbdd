-- ===== src/Rpc/Wire/Words.antt =====
-- Words and their little-endian bytes (src/rpc/wire.h).
use raft_rsm.Prelude.{
  ℕ, zero, suc, ◌+◌, ◌*◌, ◌/◌, ◌%◌, ◌^◌, ◌<◌, ◌≡◌, refl, ap, [], ◌∷◌, arith, length, All,
}
use native.Mathlib.Nat.{pow-suc}
use raft_rsm.Rpc.Types.{Bytes}
use raft_rsm.Rpc.Wire.{le_bytes, of_le}

-- A sequence of octets.
abbrev pub Octets : Bytes → Type 0
Octets = All (λ b. b < 256)

pub length-le_bytes : (n v : ℕ) → length (le_bytes n v) ≡ n
unfolding le_bytes
length-le_bytes zero v = refl
length-le_bytes (suc n) v = ap suc (length-le_bytes n (v / 256))

pub Octets-le_bytes : (n v : ℕ) → Octets (le_bytes n v)
unfolding le_bytes
Octets-le_bytes zero v = tt
Octets-le_bytes (suc n) v = (omega arith, Octets-le_bytes n (v / 256))

-- Reading a word's bytes back gives the word, if it fits.
pub of_le-le_bytes : (n v : ℕ) → v < 256 ^ n → of_le (le_bytes n v) ≡ v
unfolding le_bytes of_le
of_le-le_bytes zero v h = omega arith
of_le-le_bytes (suc n) v h =
    let e = pow-suc 256 n in
    let ih = of_le-le_bytes n (v / 256) (omega (arith, e)) in omega (arith, ih)

pub of_le-lt : (bs : Bytes) → Octets bs → of_le bs < 256 ^ length bs
unfolding of_le
of_le-lt [] o = omega arith
of_le-lt (b ∷ bs) o = omega (arith, pow-suc 256 (length bs), of_le-lt bs o.1)

pub le_bytes-of_le : (bs : Bytes) → Octets bs → le_bytes (length bs) (of_le bs) ≡ bs
unfolding le_bytes of_le
le_bytes-of_le [] o = refl
le_bytes-of_le (b ∷ bs) o =
    let low : (of_le bs * 256 + b) % 256 ≡ b = omega arith in
    let high : (of_le bs * 256 + b) / 256 ≡ of_le bs = omega arith in
    rw (low, high) (ap (◌∷◌ b) (le_bytes-of_le bs o.1))
