-- ===== src/Raft/Hints.antt =====
-- The scans of the log behind the hints of a failed consistency check (src/raft/raft_core.cpp).
pub mod Sent
pub mod Taken
use raft_rsm.Prelude.{
  zero, suc, ◌+◌, ◌≤◌, ◌<◌, ◌≡◌, ◌≢◌, refl, ◌⊎◌, inl, inr, false, ◌&&◌, leb, ltb, ◌==◌, arith,
  Bool-cases, u64_mod,
}
use raft_rsm.Rpc.Types.{LogIndex, Term}
use raft_rsm.Storage.Log.{Log, term_at}
use raft_rsm.Raft.Leader.{last_of_term}
use raft_rsm.Raft.Follower.{first_of_term}

-- Index i starts the run of entries of term t that index n belongs to.
pub record StartsRun (log : Log) (t : Term) (i n : LogIndex) : Type 0 where
  pub positive : 0 < i
  pub bounded : i ≤ n
  pub of_term : (j : LogIndex) → i ≤ j → j ≤ n → term_at log j ≡ t
  pub first : (i ≡ 1) ⊎ ((k : LogIndex) × (i ≡ suc k) × (term_at log k ≢ t))

module _ (log : Log) (t : Term) where
  StartsRun-suc :
      (i m : LogIndex) → term_at log (suc m) ≡ t → StartsRun log t i m → StartsRun log t i (suc m)
  StartsRun-suc i m e r = record {
    positive = r.positive;
    bounded = omega (arith, r.bounded);
    of_term = λ j a b. last j a b;
    first = r.first;
  }
    where
      last : (j : LogIndex) → i ≤ j → j ≤ suc m → term_at log j ≡ t
      last j a b = elim (Bool-cases (leb j m)) [
        | inl le ↦ r.of_term j a (ground arith)
        | inr gt ↦ let top : j ≡ suc m = ground arith in rw top e
      ]

  StartsRun-self :
      (m : LogIndex)
      → term_at log (suc m) ≡ t
      → (suc m ≡ 1) ⊎ (term_at log m ≢ t)
      → StartsRun log t (suc m) (suc m)
  StartsRun-self m e f = record {
    positive = omega arith;
    bounded = omega arith;
    of_term = λ j a b. let top : j ≡ suc m = omega arith in rw top e;
    first = elim f [ inl one ↦ inl one | inr other ↦ inr (m, refl, other) ];
  }

  first_of_term-StartsRun :
      (m : LogIndex) → 0 < m → term_at log m ≡ t → StartsRun log t (first_of_term log t m) m
  unfolding first_of_term
  first_of_term-StartsRun zero h e = absurd (omega arith)
  first_of_term-StartsRun (suc m) h e = elim (Bool-cases (ltb 1 (suc m) && (term_at log m == t))) [
    | inl on ↦ rw on (
        StartsRun-suc (first_of_term log t m) m e
          (first_of_term-StartsRun m (ground arith) (ground arith)))
    | inr off ↦ rw off (StartsRun-self m e (ground arith))
  ]

pub first_of_term-hint :
    (log : Log) (prev : LogIndex)
    → 0 < prev
    → StartsRun log (term_at log prev) (first_of_term log (term_at log prev) prev) prev
first_of_term-hint log prev h = first_of_term-StartsRun log (term_at log prev) prev h refl

-- What `last_of_term` finds: the last index up to n of term t, or 0 if there is none.
pub last_of_term_lem :
    (log : Log) (t : Term) (n : LogIndex)
    → let i = last_of_term log t n in
      ((i ≡ 0) ⊎ (term_at log i ≡ t))
      × (i ≤ n)
      × ((j : LogIndex) → i < j → j ≤ n → term_at log j ≢ t)
unfolding last_of_term
last_of_term_lem log t zero = (inl refl, omega arith, λ j a b. absurd (omega arith))
last_of_term_lem log t (suc n) = elim (Bool-cases (term_at log (suc n) == t)) [
  | inl e ↦ rw e (inr (ground arith), omega arith, λ j a b. absurd (omega arith))
  | inr e ↦
      let ih = last_of_term_lem log t n in
      rw e (ih.0, omega (arith, ih.1), λ j a b. top ih.2 e j a b)
]
  where
    top :
        ((j : LogIndex) → last_of_term log t n < j → j ≤ n → term_at log j ≢ t)
        → (term_at log (suc n) == t) ≡ false
        → (j : LogIndex) → last_of_term log t n < j
        → j ≤ suc n
        → term_at log j ≢ t
    top ih e j a b = elim (Bool-cases (leb j n)) [
      | inl le ↦ ih j a (ground arith)
      | inr gt ↦ let last : j ≡ suc n = ground arith in rw last (ground arith)
    ]
