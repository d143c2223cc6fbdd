-- ===== src/StateMachine/Map/Order.antt =====
-- The order of the keys of a `std::map` (src/statemachine).
use mathlib.Core.Bool.{false≢true}
use raft_rsm.Prelude.{
  ℕ, ◌≡◌, refl, sym, ap, subst, inl, inr, true, false, List, [], ◌∷◌, ◌++◌, arith, ltb, ◌==◌,
  Bool-cases,
}
use raft_rsm.Rpc.Types.{Bytes}
use raft_rsm.StateMachine.Map.{Key, bytes_eq, bytes_less, bytes_key, word_key, insert, erase}

-- The order of keys is strict and total.
pub record Ordered (K : Type 0) ⦃key : Key K⦄ : Type 0 where
  pub apart : (a b : K) → key.less a b ≡ true → (key.eq a b ≡ false) × (key.less b a ≡ false)
  pub trans : (a b c : K) → key.less a b ≡ true → key.less b c ≡ true → key.less a c ≡ true
  pub total : (a b : K) → key.eq a b ≡ false → key.less b a ≡ false → key.less a b ≡ true

bytes_apart :
    (a b : Bytes) → bytes_less a b ≡ true → (bytes_eq a b ≡ false) × (bytes_less b a ≡ false)
bytes_apart a [] h = absurd (false≢true h)
bytes_apart [] (y ∷ ys) h = (refl, refl)
bytes_apart (x ∷ xs) (y ∷ ys) h = ground (arith, bytes_apart xs ys)

bytes_trans :
    (a b c : Bytes) → bytes_less a b ≡ true → bytes_less b c ≡ true → bytes_less a c ≡ true
bytes_trans a b [] h k = absurd (false≢true k)
bytes_trans [] b (z ∷ zs) h k = refl
bytes_trans (x ∷ xs) [] (z ∷ zs) h k = absurd (false≢true h)
bytes_trans (x ∷ xs) (y ∷ ys) (z ∷ zs) h k = ground (arith, bytes_trans xs ys zs)

bytes_total : (a b : Bytes) → bytes_eq a b ≡ false → bytes_less b a ≡ false → bytes_less a b ≡ true
bytes_total [] [] h k = absurd (false≢true (sym h))
bytes_total [] (y ∷ ys) h k = refl
bytes_total (x ∷ xs) [] h k = absurd (false≢true (sym k))
bytes_total (x ∷ xs) (y ∷ ys) h k = ground (arith, bytes_total xs ys)

instance pub bytes_ordered : Ordered Bytes
bytes_ordered = record { apart = bytes_apart; trans = bytes_trans; total = bytes_total }

word_apart : (a b : ℕ) → ltb a b ≡ true → ((a == b) ≡ false) × (ltb b a ≡ false)
word_apart a b h = ground arith

word_trans : (a b c : ℕ) → ltb a b ≡ true → ltb b c ≡ true → ltb a c ≡ true
word_trans a b c h k = ground arith

word_total : (a b : ℕ) → (a == b) ≡ false → ltb b a ≡ false → ltb a b ≡ true
word_total a b h k = ground arith

instance pub word_ordered : Ordered ℕ
word_ordered = record { apart = word_apart; trans = word_trans; total = word_total }

module _ {K V : Type 0} ⦃key : Key K⦄ where
  -- The key is before all keys of the map.
  abbrev pub Before : K → List (K × V) → Type 0
  Before k [] = Unit
  Before k ((j, w) ∷ m) = (key.less k j ≡ true) × Before k m

  -- The key is after all keys of the map.
  abbrev pub After : K → List (K × V) → Type 0
  After k [] = Unit
  After k ((j, w) ∷ m) = (key.less j k ≡ true) × After k m

  abbrev pub Sorted : List (K × V) → Type 0
  Sorted [] = Unit
  Sorted ((j, w) ∷ m) = Before j m × Sorted m

  module _ ⦃ord : Ordered K⦄ where
    Before-trans : (j k : K) (m : List (K × V)) → key.less j k ≡ true → Before k m → Before j m
    Before-trans j k [] h b = tt
    Before-trans j k ((i, w) ∷ m) h b = (ord.trans j k i h b.0, Before-trans j k m h b.1)

    Before-insert :
        (j k : K) (v : V) (m : List (K × V))
        → key.less j k ≡ true
        → Before j m
        → Before j (insert k v m)
    unfolding insert
    Before-insert j k v [] h b = (h, tt)
    Before-insert j k v ((i, w) ∷ m) h b = elim (Bool-cases (key.eq i k)) [
      | inl same ↦ rw same (h, b.1)
      | inr other ↦ elim (Bool-cases (key.less k i)) [
        | inl less ↦ rw (other, less) (h, b)
        | inr more ↦ rw (other, more) (b.0, Before-insert j k v m h b.1)
      ]
    ]

    pub Sorted-insert : (k : K) (v : V) (m : List (K × V)) → Sorted m → Sorted (insert k v m)
    unfolding insert
    Sorted-insert k v [] s = (tt, tt)
    Sorted-insert k v ((i, w) ∷ m) s = elim (Bool-cases (key.eq i k)) [
      | inl same ↦
          let e : i ≡ k = (key.eq_iff i k).0 same in rw same (subst (λ i. Before i m) e s.0, s.1)
      | inr other ↦ elim (Bool-cases (key.less k i)) [
        | inl less ↦ rw (other, less) ((less, Before-trans k i m less s.0), s)
        | inr more ↦
            rw (other, more)
              (Before-insert i k v m (ord.total i k other more) s.0, Sorted-insert k v m s.1)
      ]
    ]

    Before-erase : (j k : K) (m : List (K × V)) → Before j m → Before j (erase k m)
    unfolding erase
    Before-erase j k [] b = tt
    Before-erase j k ((i, w) ∷ m) b = elim (Bool-cases (key.eq i k)) [
      | inl same ↦ rw same (Before-erase j k m b.1)
      | inr other ↦ rw other (b.0, Before-erase j k m b.1)
    ]

    pub Sorted-erase : (k : K) (m : List (K × V)) → Sorted m → Sorted (erase k m)
    unfolding erase
    Sorted-erase k [] s = tt
    Sorted-erase k ((i, w) ∷ m) s = elim (Bool-cases (key.eq i k)) [
      | inl same ↦ rw same (Sorted-erase k m s.1)
      | inr other ↦ rw other (Before-erase i k m s.0, Sorted-erase k m s.1)
    ]

    -- A key after all others goes to the end.
    pub insert-last :
        (k : K) (v : V) (m : List (K × V)) → After k m → insert k v m ≡ m ++ (k, v) ∷ []
    unfolding insert
    insert-last k v [] a = refl
    insert-last k v ((j, w) ∷ m) a =
        let d = ord.apart j k a.0 in rw (d.0, d.1) (ap (λ m. (j, w) ∷ m) (insert-last k v m a.1))

    pub After-append : (k : K) (xs ys : List (K × V)) → After k xs → After k ys → After k (xs ++ ys)
    After-append k [] ys a b = b
    After-append k ((j, w) ∷ xs) ys a b = (a.0, After-append k xs ys a.1 b)
