-- ===== src/StateMachine/OrderBook/Sorted.antt =====
-- The levels of the books of src/statemachine/order_book.cpp, by price, under each change of a book.
use raft_rsm.Prelude.{
  ℕ, ◌<◌, ◌≡◌, ◌≢◌, refl, sym, inl, inr, false, none, some, [], ◌∷◌, arith, ltb, ◌==◌, Bool-cases,
  All,
}
use raft_rsm.StateMachine.Map.{word_key, lookup, insert, erase}
use raft_rsm.StateMachine.OrderBook.{
  ObSide, bid, ask, Resting, Level, Book, first_level, last_level, best, keep_level, set_first,
  set_last, set_best, crosses,
}

abbrev pub Above : ℕ → Book → Type 0
Above p b = All (λ (x : ℕ × Level). p < x.0) b

abbrev pub Sorted : Book → Type 0
Sorted [] = Unit
Sorted ((p, level) ∷ b) = Above p b × Sorted b

abbrev pub Positive : Resting → Type 0
Positive x = x.qty ≢ 0

abbrev pub FullLevel : Level → Type 0
FullLevel level = (level ≢ []) × All Positive level

abbrev pub Full : Book → Type 0
Full b = All (λ (x : ℕ × Level). FullLevel x.1) b

Above-trans : (p q : ℕ) (b : Book) → p < q → Above q b → Above p b
Above-trans p q [] h a = tt
Above-trans p q ((r, level) ∷ b) h a = (omega (arith, h, a.0), Above-trans p q b h a.1)

-- A predicate of every level, through each change of a book.
module _ (P : ℕ × Level → Type 0) where
  pub All-insert :
      (q : ℕ) (level : Level) (b : Book) → P (q, level) → All P b → All P (insert q level b)
  unfolding insert
  All-insert q level [] h a = (h, tt)
  All-insert q level ((r, old) ∷ b) h a = elim (Bool-cases (r == q)) [
    | inl e ↦ rw e (h, a.1)
    | inr e ↦ elim (Bool-cases (ltb q r)) [
      | inl l ↦ rw (e, l) (h, a)
      | inr l ↦ rw (e, l) (a.0, All-insert q level b h a.1)
    ]
  ]

  pub All-erase : (q : ℕ) (b : Book) → All P b → All P (erase q b)
  unfolding erase
  All-erase q [] a = tt
  All-erase q ((r, old) ∷ b) a = elim (Bool-cases (r == q)) [
    | inl e ↦ rw e (All-erase q b a.1)
    | inr e ↦ rw e (a.0, All-erase q b a.1)
  ]

  All-keep_level :
      (q : ℕ) (level : Level) (b : Book)
      → (level ≢ [] → P (q, level))
      → All P b
      → All P (keep_level q level b)
  All-keep_level q [] b h a = a
  All-keep_level q (x ∷ level) b h a = (h cc, a)

  pub All-set_best :
      (taker : ObSide) (q : ℕ) (old level : Level) (b : Book)
      → best taker b ≡ some (q, old)
      → (level ≢ [] → P (q, level))
      → All P b
      → All P (set_best taker level b)
  unfolding first_level last_level set_first set_last
  All-set_best bid q old level [] e h a = tt
  All-set_best bid q old level ((r, l) ∷ b) e h a =
      let same : r ≡ q = ground (arith, e) in rw same (All-keep_level q level b h a.1)
  All-set_best ask q old level [] e h a = tt
  All-set_best ask q old level ((r, l) ∷ []) e h a =
      let same : r ≡ q = ground (arith, e) in rw same (All-keep_level q level [] h tt)
  All-set_best ask q old level (x ∷ y ∷ b) e h a =
      (a.0, All-set_best ask q old level (y ∷ b) e h a.1)

  pub All-best :
      (taker : ObSide) (q : ℕ) (level : Level) (b : Book)
      → best taker b ≡ some (q, level)
      → All P b
      → P (q, level)
  unfolding first_level last_level
  All-best bid q level [] e a = cc
  All-best bid q level (x ∷ b) e a =
      let same : x ≡ (q, level) = ground (arith, e) in rw (sym same) a.0
  All-best ask q level [] e a = cc
  All-best ask q level (x ∷ []) e a =
      let same : x ≡ (q, level) = ground (arith, e) in rw (sym same) a.0
  All-best ask q level (x ∷ y ∷ b) e a = All-best ask q level (y ∷ b) e a.1

  pub All-lookup :
      (q : ℕ) (level : Level) (b : Book) → lookup q b ≡ some level → All P b → P (q, level)
  unfolding lookup
  All-lookup q level [] e a = cc
  All-lookup q level ((r, l) ∷ b) e a = elim (Bool-cases (r == q)) [
    | inl y ↦
        let e' : l ≡ level = ground (arith, rw y at e) in
        let same : r ≡ q = ground arith in rw (sym same, sym e') a.0
    | inr y ↦ All-lookup q level b (rw y at e) a.1
  ]

pub Sorted-insert : (p : ℕ) (level : Level) (b : Book) → Sorted b → Sorted (insert p level b)
unfolding insert
Sorted-insert p level [] s = (tt, tt)
Sorted-insert p level ((r, old) ∷ b) s = elim (Bool-cases (r == p)) [
  | inl e ↦ let same : p ≡ r = ground arith in rw (e, same) s
  | inr e ↦ elim (Bool-cases (ltb p r)) [
    | inl l ↦ rw (e, l) ((ground arith, Above-trans p r b (ground arith) s.0), s)
    | inr l ↦
        rw (e, l)
          (
            All-insert (λ (x : ℕ × Level). r < x.0) p level b (ground arith) s.0,
            Sorted-insert p level b s.1,
          )
  ]
]

pub Sorted-erase : (p : ℕ) (b : Book) → Sorted b → Sorted (erase p b)
unfolding erase
Sorted-erase p [] s = tt
Sorted-erase p ((r, old) ∷ b) s = elim (Bool-cases (r == p)) [
  | inl e ↦ rw e (Sorted-erase p b s.1)
  | inr e ↦ rw e (All-erase (λ (x : ℕ × Level). r < x.0) p b s.0, Sorted-erase p b s.1)
]

Sorted-keep_level :
    (p : ℕ) (level : Level) (b : Book) → Above p b → Sorted b → Sorted (keep_level p level b)
Sorted-keep_level p [] b a s = s
Sorted-keep_level p (x ∷ level) b a s = (a, s)

Above-set_last : (p : ℕ) (level : Level) (b : Book) → Above p b → Above p (set_last level b)
unfolding set_last
Above-set_last p level [] a = tt
Above-set_last p level ((q, old) ∷ []) a =
    All-keep_level (λ (x : ℕ × Level). p < x.0) q level [] (λ n. a.0) tt
Above-set_last p level (x ∷ y ∷ b) a = (a.0, Above-set_last p level (y ∷ b) a.1)

pub Sorted-set_best :
    (taker : ObSide) (level : Level) (b : Book) → Sorted b → Sorted (set_best taker level b)
unfolding set_first set_last
Sorted-set_best bid level [] s = tt
Sorted-set_best bid level ((p, old) ∷ b) s = Sorted-keep_level p level b s.0 s.1
Sorted-set_best ask level [] s = tt
Sorted-set_best ask level ((p, old) ∷ []) s = Sorted-keep_level p level [] tt tt
Sorted-set_best ask level ((p, old) ∷ y ∷ b) s =
    (Above-set_last p level (y ∷ b) s.0, Sorted-set_best ask level (y ∷ b) s.1)

-- If the best level does not cross a limit, none does.
pub best-none : (taker : ObSide) (b : Book) → best taker b ≡ none → b ≡ []
unfolding first_level last_level
best-none bid [] e = refl
best-none bid (x ∷ b) e = cc
best-none ask [] e = refl
best-none ask (x ∷ []) e = cc
best-none ask (x ∷ y ∷ b) e = let n = best-none ask (y ∷ b) e in cc

abbrev pub Clear : ObSide → ℕ → Book → Type 0
Clear side limit b = All (λ (x : ℕ × Level). crosses side limit x.0 ≡ false) b

Above-Clear : (limit p : ℕ) (b : Book) → limit < p → Above p b → Clear bid limit b
Above-Clear limit p [] h a = tt
Above-Clear limit p (x ∷ b) h a = (ground (arith, h, a.0), Above-Clear limit p b h a.1)

pub best-Clear :
    (taker : ObSide) (limit p : ℕ) (level : Level) (b : Book)
    → best taker b ≡ some (p, level)
    → Sorted b
    → crosses taker limit p ≡ false
    → Clear taker limit b
unfolding first_level last_level
best-Clear bid limit p level [] e s c = tt
best-Clear bid limit p level ((q, l) ∷ b) e s c =
    let same : q ≡ p = ground (arith, e) in
    let c' : crosses bid limit q ≡ false = rw same c in
    (c', Above-Clear limit q b (ground arith) s.0)
best-Clear ask limit p level [] e s c = tt
best-Clear ask limit p level ((q, l) ∷ []) e s c =
    let same : q ≡ p = ground (arith, e) in (rw same c, tt)
best-Clear ask limit p level ((q, l) ∷ y ∷ b) e s c =
    let below : q < p = All-best (λ (x : ℕ × Level). q < x.0) ask p level (y ∷ b) e s.0 in
    (ground arith, best-Clear ask limit p level (y ∷ b) e s.1 c)
