-- ===== src/Prelude/Words.antt =====
-- Machine integers: a `std::uint64_t` is a number below 2 ^ 64 whose operations wrap.
use Prim.Native.Nat.{ℕ, zero, suc, ◌+◌, ◌-◌, ◌%◌, ◌^◌, ◌<◌, ◌≤◌}
use mathlib.Core.Path.{◌≡◌, subst}
use mathlib.Core.Bool.{false}
use raft_rsm.Prelude.Tests.{◌==◌}
use mathlib.Core.Logic.{◌≢◌}
use native.Mathlib.Nat.{mod-add-mod, mod-eq_of_lt, mod-eq-sub-mod, pow-suc}
use native.Mathlib.Decide.{dec_lt}
use native.Mathlib.Omega.{arith}

abbrev pub u64_mod : ℕ
u64_mod = 2 ^ 64

-- Additions and subtractions of the source, on 64 bits.
abbrev pub add64 : ℕ → ℕ → ℕ
add64 a b = (a + b) % 2 ^ 64

abbrev pub sub64 : ℕ → ℕ → ℕ
sub64 a b = (a + 2 ^ 64 - b) % 2 ^ 64

pub add64_eq : (a b : ℕ) → a + b < u64_mod → add64 a b ≡ a + b
add64_eq a b h = omega arith

pub sub64_eq : (a b : ℕ) → a < u64_mod → b ≤ a → sub64 a b ≡ a - b
sub64_eq a b h k = omega arith

-- Numbers closer than n have different remainders by n.
mod_apart_by : (n i d : ℕ) → 1 ≤ d → d < n → (i + d) % n ≢ i % n
mod_apart_by n i d p q = elim (dec_lt (i % n + d) n) [
  | yes below ↦ omega (arith, mod-add-mod i n d, mod-eq_of_lt below)
  | no above ↦ omega (
    arith,
    mod-add-mod i n d,
    mod-eq-sub-mod {n = i % n + d} {m = n} (omega arith),
    mod-eq_of_lt {n = i % n + d - n} {m = n} (omega arith),
  )
]

pub mod_apart : (n i j : ℕ) → i < j → j < i + n → j % n ≢ i % n
mod_apart n i j p q =
    subst (λ k. k % n ≢ i % n) (omega arith) (mod_apart_by n i (j - i) (omega arith) (omega arith))

-- The same whichever is the greater.
pub mod_window :
    (n d i j : ℕ) → d ≤ i → i < d + n → d ≤ j → j < d + n → i ≢ j → (j % n == i % n) ≡ false
mod_window n d i j a b a' b' h = elim (dec_lt i j) [
  | yes lt ↦ let apart = mod_apart n i j lt (omega arith) in ground arith
  | no ge ↦ let apart = mod_apart n j i (omega arith) (omega arith) in ground arith
]

pub pow_pos : (k : ℕ) → 1 ≤ 2 ^ k
pow_pos zero = omega arith
pow_pos (suc k) = omega (arith, pow-suc 2 k, pow_pos k)
