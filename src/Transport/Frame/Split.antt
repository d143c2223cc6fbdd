-- ===== src/Transport/Frame/Split.antt =====
-- How the loop of src/transport/frame.h's `feed` sees a stream that arrives in parts.
use raft_rsm.Prelude.{
  ℕ, zero, suc, ◌+◌, ◌≤◌, ◌<◌, ◌≡◌, ◌≢◌, refl, ap, sym, ◌∙◌, Option, false, none, some, List, [],
  ◌∷◌, ◌++◌, arith, ltb, le→ltb, ltb→ge, ◌==◌, ◌||◌, length, drop, length-append, length-drop,
  take-append_left, append_assoc, append-nil, Bool-cases, inl, inr, ◌⊎◌,
}
use mathlib.Core.List.{flatten}
use raft_rsm.Rpc.Types.{Bytes}
use raft_rsm.Transport.Frame.{
  max_frame_size, read_length, Round, incomplete, invalid, complete, round, assemble, leave, feed,
  feed_all, FrameAssembler,
}

drop-append_left {ℓ} :
    {A : Type ℓ} (n : ℕ) (xs ys : List A) → n ≤ length xs → drop n (xs ++ ys) ≡ drop n xs ++ ys
drop-append_left zero xs ys h = refl
drop-append_left (suc n) [] ys h = absurd (omega arith)
drop-append_left (suc n) (x ∷ xs) ys h = drop-append_left n xs ys (omega arith)

read_length-append : (bs cs : Bytes) → 4 ≤ length bs → read_length (bs ++ cs) ≡ read_length bs
unfolding read_length
read_length-append (a ∷ b ∷ c ∷ d ∷ bs) cs h = refl
read_length-append [] cs h = absurd (omega arith)
read_length-append (a ∷ []) cs h = absurd (omega arith)
read_length-append (a ∷ b ∷ []) cs h = absurd (omega arith)
read_length-append (a ∷ b ∷ c ∷ []) cs h = absurd (omega arith)

Round-cases :
    (r : Round)
    → (r ≡ incomplete)
      ⊎ (r ≡ invalid)
      ⊎ ((body : Bytes) × (rest : Bytes) × (r ≡ complete body rest))
Round-cases incomplete = inl refl
Round-cases invalid = inr (inl refl)
Round-cases (complete body rest) = inr (inr (body, rest, refl))

-- What a round has decided, more bytes do not change.
abbrev extend : Round → Bytes → Round
extend incomplete cs = incomplete
extend invalid cs = invalid
extend (complete body rest) cs = complete body (rest ++ cs)

round-append : (bs cs : Bytes) → round bs ≢ incomplete → round (bs ++ cs) ≡ extend (round bs) cs
unfolding round
round-append bs cs h = elim (Bool-cases (ltb (length bs) 4)) [
  | inl short ↦ absurd (h (rw short refl))
  | inr enough ↦
      let four : 4 ≤ length bs = ltb→ge _ _ enough in
      let more : ltb (length (bs ++ cs)) 4 ≡ false =
        le→ltb _ _ (omega (arith, length-append bs cs)) in
      let len = read_length bs in
      elim (Bool-cases ((len == 0) || ltb max_frame_size len)) [
        | inl bad ↦ rw (read_length-append bs cs four, enough, more, bad) refl
        | inr good ↦ elim (Bool-cases (ltb (length bs) (4 + len))) [
          | inl short ↦ absurd (h (rw (enough, good, short) refl))
          | inr whole ↦
              let all : 4 + len ≤ length bs = ltb→ge _ _ whole in
              let still : ltb (length (bs ++ cs)) (4 + len) ≡ false =
                le→ltb _ _ (omega (arith, length-append bs cs)) in
              rw
                (
                  read_length-append bs cs four,
                  enough,
                  more,
                  good,
                  whole,
                  still,
                  drop-append_left 4 bs cs four,
                  drop-append_left (4 + len) bs cs all,
                  take-append_left len (drop 4 bs) cs (omega (arith, length-drop 4 bs)),
                )
                refl
        ]
      ]
]

-- A complete round takes the prefix at least.
round-shorter :
    (bs : Bytes) {body rest : Bytes} → round bs ≡ complete body rest → length rest < length bs
unfolding round
round-shorter bs {body} {rest} e = ground (arith, length-drop (4 + read_length bs) bs)

-- The frame and what follows it.
abbrev pub with_frame : Bytes → List Bytes × Option Bytes → List Bytes × Option Bytes
with_frame body r = (body ∷ r.0, r.1)

pub assemble-incomplete :
    (n : ℕ) (bs : Bytes) → round bs ≡ incomplete → assemble n bs ≡ ([], some bs)
unfolding assemble
assemble-incomplete zero bs e = refl
assemble-incomplete (suc n) bs e = rw (assemble, e) refl

pub assemble-invalid : (n : ℕ) (bs : Bytes) → round bs ≡ invalid → assemble (suc n) bs ≡ ([], none)
unfolding assemble
assemble-invalid n bs e = rw (assemble, e) refl

pub assemble-complete :
    (n : ℕ) (bs : Bytes) {body rest : Bytes}
    → round bs ≡ complete body rest
    → assemble (suc n) bs ≡ with_frame body (assemble n rest)
unfolding assemble
assemble-complete n bs e = rw (assemble, e) refl

round-nil : (bs : Bytes) → length bs ≤ 0 → round bs ≡ incomplete
unfolding round
round-nil [] h = refl
round-nil (b ∷ bs) h = absurd (omega arith)

-- Any two amounts of fuel that cover the bytes give the same.
pub assemble-fuel :
    (n m : ℕ) (bs : Bytes) → length bs ≤ n → length bs ≤ m → assemble n bs ≡ assemble m bs
assemble-fuel zero m bs p q =
    let e = round-nil bs p in assemble-incomplete zero bs e ∙ sym (assemble-incomplete m bs e)
assemble-fuel (suc n) zero bs p q =
    let e = round-nil bs q in assemble-incomplete (suc n) bs e ∙ sym (assemble-incomplete zero bs e)
assemble-fuel (suc n) (suc m) bs p q = elim (Round-cases (round bs)) [
  | inl e ↦ assemble-incomplete (suc n) bs e ∙ sym (assemble-incomplete (suc m) bs e)
  | inr (inl e) ↦ assemble-invalid n bs e ∙ sym (assemble-invalid m bs e)
  | inr (inr (body, rest, e)) ↦
      let shorter = round-shorter bs e in
      let same = assemble-fuel n m rest (omega arith) (omega arith) in
      assemble-complete n bs e ∙ ap (with_frame body) same ∙ sym (assemble-complete m bs e)
]

-- The loop on a longer stream goes on from what it left.
abbrev pub resume : ℕ → List Bytes × Option Bytes → Bytes → List Bytes × Option Bytes
resume n (frames, none) cs = (frames, none)
resume n (frames, some left) cs =
    let (more, left') = assemble n (left ++ cs) in (frames ++ more, left')

resume-with_frame :
    (n : ℕ) (body : Bytes) (r : List Bytes × Option Bytes) (cs : Bytes)
    → with_frame body (resume n r cs) ≡ resume n (with_frame body r) cs
resume-with_frame n body (frames, none) cs = refl
resume-with_frame n body (frames, some left) cs = refl

pub assemble-append :
    (k n : ℕ) (bs cs : Bytes)
    → length (bs ++ cs) ≤ n
    → n ≤ k
    → assemble n (bs ++ cs) ≡ resume k (assemble n bs) cs
assemble-append k zero bs cs h q =
    let e = round-nil bs (omega (arith, length-append bs cs)) in
    rw (assemble-incomplete zero bs e) (assemble-fuel zero k (bs ++ cs) h (omega arith))
assemble-append k (suc n) bs cs h q = elim (Round-cases (round bs)) [
  | inl e ↦
      rw (assemble-incomplete (suc n) bs e) (assemble-fuel (suc n) k (bs ++ cs) h (omega arith))
  | inr (inl e) ↦
      let e' : round (bs ++ cs) ≡ invalid =
        round-append bs cs (λ k. grind (arith)) ∙ ap (λ r. extend r cs) e in
      rw (assemble-invalid n bs e, assemble-invalid n (bs ++ cs) e') refl
  | inr (inr (body, rest, e)) ↦
      let e' : round (bs ++ cs) ≡ complete body (rest ++ cs) =
        round-append bs cs (λ k. grind (arith)) ∙ ap (λ r. extend r cs) e in
      let shorter = round-shorter bs e in
      let ih =
        assemble-append k n rest cs (omega (arith, length-append bs cs, length-append rest cs))
          (omega arith) in
      rw (assemble-complete n bs e, assemble-complete n (bs ++ cs) e', ih)
        (resume-with_frame k body (assemble n rest) cs)
]

abbrev pub finish : List Bytes × Option Bytes → List Bytes × FrameAssembler
finish r = (r.0, leave r.1)

abbrev open_at : Bytes → FrameAssembler
open_at bs = record { buf = bs; poisoned = false }

abbrev left_over : Option Bytes → Bytes
left_over none = []
left_over (some bs) = bs

-- The second read, whatever fuel its loop is given.
feed-resume :
    (k : ℕ) (r : List Bytes × Option Bytes) (cs : Bytes)
    → finish (resume (k + length cs + length (left_over r.1)) r cs)
      ≡ (r.0 ++ (feed cs (leave r.1)).0, (feed cs (leave r.1)).1)
unfolding feed
feed-resume k (frames, none) cs = ap (λ f. (f, leave none)) (sym (append-nil frames))
feed-resume k (frames, some left) cs =
    ap (λ r. (frames ++ r.0, leave r.1))
      (assemble-fuel (k + length cs + length left) (length (left ++ cs)) (left ++ cs)
        (omega (arith, length-append left cs)) (omega arith))

-- A stream may be cut anywhere: two reads deliver the frames of one, and leave the same state.
pub feed-append :
    (bs cs : Bytes) (a : FrameAssembler)
    → feed (bs ++ cs) a ≡ ((feed bs a).0 ++ (feed cs (feed bs a).1).0, (feed cs (feed bs a).1).1)
unfolding feed
feed-append bs cs a = elim (Bool-cases a.poisoned) [
  | inl closed ↦ rw (feed, closed) refl
  | inr live ↦
      let all = a.buf ++ bs in
      let first = assemble (length all) all in
      let k = length all + length cs + length (left_over first.1) in
      let split =
        assemble-append k (length (all ++ cs)) all cs (omega arith)
          (omega (arith, length-append all cs)) in
      let fuel =
        assemble-fuel (length (all ++ cs)) (length all) all (omega (arith, length-append all cs))
          (omega arith) in
      rw (live, ← append_assoc a.buf bs cs, split, fuel) (feed-resume (length all) first cs)
]

-- The reads of a connection deliver the frames of its whole stream, and leave the same state,
-- however the stream is cut into one or more reads.
pub feed_all-flatten :
    (bs : Bytes) (rest : List Bytes) (a : FrameAssembler)
    → feed_all (bs ∷ rest) a ≡ feed (flatten (bs ∷ rest)) a
unfolding feed_all flatten
feed_all-flatten bs [] a =
    ap (λ f. (f, (feed bs a).1)) (append-nil _) ∙ ap (λ cs. feed cs a) (sym (append-nil bs))
feed_all-flatten bs (cs ∷ rest) a =
    rw (feed-append bs (flatten (cs ∷ rest)) a, ← feed_all-flatten cs rest (feed bs a).1) refl
