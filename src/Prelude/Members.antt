-- ===== src/Prelude/Members.antt =====
-- Lists of numbers without repetition, and majorities of them.
use Prim.Native.Nat.{ℕ, suc, ◌+◌, ◌≤◌, ◌<◌}
use mathlib.Core.Path.{◌≡◌, refl, ap, subst}
use mathlib.Core.Logic.{◌⊎◌, inl, inr}
use mathlib.Core.Bool.{Bool, true, false, ◌||◌, false≢true}
use mathlib.Core.List.{List, [], ◌∷◌, ◌++◌}
use native.Mathlib.Omega.{arith}
use raft_rsm.Prelude.Tests.{◌==◌, ==_iff, if◌then◌else◌, Bool-cases}
use raft_rsm.Prelude.Lists.{length, length-append, All, All-append}

abbrev pub elem : ℕ → List ℕ → Bool
elem x [] = false
elem x (y ∷ ys) = (y == x) || elem x ys

-- No number occurs twice.
abbrev pub Distinct : List ℕ → Type 0
Distinct [] = Unit
Distinct (x ∷ xs) = (elem x xs ≡ false) × Distinct xs

abbrev without : ℕ → List ℕ → List ℕ
without x [] = []
without x (y ∷ ys) = let rest = y ∷ without x ys in if y == x then ys else rest

length-without : (x : ℕ) (ys : List ℕ) → elem x ys ≡ true → suc (length (without x ys)) ≡ length ys
length-without x [] e = absurd (false≢true e)
length-without x (y ∷ ys) e = elim (Bool-cases (y == x)) [
  | inl same ↦ rw same refl
  | inr other ↦ rw other (ap suc (length-without x ys (ground arith)))
]

elem-without :
    (x z : ℕ) (ys : List ℕ) → (x == z) ≡ false → elem z ys ≡ true → elem z (without x ys) ≡ true
elem-without x z [] h e = e
elem-without x z (y ∷ ys) h e = ground (arith, elem-without x z ys h)

All-elem-without :
    (x : ℕ) (xs ys : List ℕ)
    → elem x xs ≡ false
    → All (λ z. elem z ys ≡ true) xs
    → All (λ z. elem z (without x ys) ≡ true) xs
All-elem-without x [] ys h a = tt
All-elem-without x (z ∷ xs) ys h a =
    let apart : (x == z) ≡ false = ground arith in
    let rest : elem x xs ≡ false = ground arith in
    (elem-without x z ys apart a.0, All-elem-without x xs ys rest a.1)

-- Distinct members are at most as many as the members.
pub Distinct-le :
    (xs ys : List ℕ) → Distinct xs → All (λ x. elem x ys ≡ true) xs → length xs ≤ length ys
Distinct-le [] ys d a = omega arith
Distinct-le (x ∷ xs) ys d a = omega (
  arith,
  length-without x ys a.0,
  Distinct-le xs (without x ys) d.1 (All-elem-without x xs ys d.0 a.1),
)

elem-append :
    (x : ℕ) (xs ys : List ℕ) → elem x xs ≡ false → elem x ys ≡ false → elem x (xs ++ ys) ≡ false
elem-append x [] ys h k = k
elem-append x (y ∷ xs) ys h k = ground (arith, elem-append x xs ys)

-- Two lists share a number, or they are distinct together.
shared :
    (xs ys : List ℕ)
    → Distinct xs
    → Distinct ys
    → ((x : ℕ) × (elem x xs ≡ true) × (elem x ys ≡ true)) ⊎ Distinct (xs ++ ys)
shared [] ys d e = inr e
shared (x ∷ xs) ys d e = elim (Bool-cases (elem x ys)) [
  | inl both ↦ inl (x, ground arith, both)
  | inr lone ↦ elim (shared xs ys d.1 e) [
    | inl (z, a, b) ↦ inl (z, ground arith, b)
    | inr apart ↦ inr (elem-append x xs ys d.0 lone, apart)
  ]
]

-- Two majorities share a member.
pub majorities_meet :
    (xs ys members : List ℕ)
    → Distinct xs
    → Distinct ys
    → All (λ x. elem x members ≡ true) xs
    → All (λ x. elem x members ≡ true) ys
    → length members < length xs + length ys
    → (x : ℕ) × (elem x xs ≡ true) × (elem x ys ≡ true)
majorities_meet xs ys members d e a b many = elim (shared xs ys d e) [
  | inl common ↦ common
  | inr apart ↦ absurd (
      omega
        (arith, length-append xs ys, Distinct-le (xs ++ ys) members apart (All-append _ xs ys a b)))
]

pub All-elem : (P : ℕ → Type 0) (x : ℕ) (xs : List ℕ) → All P xs → elem x xs ≡ true → P x
All-elem P x [] a e = absurd (false≢true e)
All-elem P x (y ∷ xs) a e = elim (Bool-cases (y == x)) [
  | inl same ↦ subst P ((==_iff y x).0 same) a.0
  | inr other ↦ All-elem P x xs a.1 (ground arith)
]
