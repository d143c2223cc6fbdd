-- ===== src/Transport/Frame/Streams.antt =====
-- The byte streams that src/transport/transport.cpp sends, and what src/transport/frame.h makes of
-- them.
use raft_rsm.Prelude.{
  ℕ, zero, suc, ◌+◌, ◌^◌, ◌≤◌, ◌<◌, ◌≡◌, ◌⊎◌, refl, ap, sym, ◌∙◌, false, ◌||◌, none, List, [], ◌∷◌,
  ◌++◌, arith, ltb, ◌==◌, le→ltb, length, drop, length-append, append_assoc, append-nil,
  take-append_length, drop-append_length, All,
}
use mathlib.Core.List.{flatten}
use raft_rsm.Rpc.Types.{Bytes}
use raft_rsm.Transport.Frame.{
  max_frame_size, write_length_prefix, read_length, invalid, complete, round, assemble, assembler,
  leave, feed, feed_all,
}
use raft_rsm.Transport.Frame.Split.{
  finish, assemble-incomplete, assemble-invalid, assemble-complete, assemble-fuel, feed_all-flatten,
}

-- Frames with their prefixes, one after the other.
abbrev pub stream : List Bytes → Bytes
stream [] = []
stream (f ∷ fs) = write_length_prefix (length f) ++ (f ++ stream fs)

-- A legal body.
abbrev pub FrameFits : Bytes → Type 0
FrameFits f = (1 ≤ length f) × (length f ≤ max_frame_size)

read_length-write_length_prefix :
    (n : ℕ) (rest : Bytes) → n < 2 ^ 32 → read_length (write_length_prefix n ++ rest) ≡ n
unfolding read_length write_length_prefix
read_length-write_length_prefix n rest h = omega arith

length-write_length_prefix : (n : ℕ) → length (write_length_prefix n) ≡ 4
unfolding write_length_prefix
length-write_length_prefix n = refl

drop-prefix : (k n : ℕ) (bs : Bytes) → drop (4 + n) (write_length_prefix k ++ bs) ≡ drop n bs
unfolding write_length_prefix
drop-prefix k n bs =
    let e : 4 + n ≡ suc (suc (suc (suc n))) = omega arith in
    ap (λ j. drop j (write_length_prefix k ++ bs)) e

round-frame :
    (f rest : Bytes)
    → FrameFits f
    → round (write_length_prefix (length f) ++ (f ++ rest)) ≡ complete f rest
unfolding round
round-frame f rest h =
    let prefix = write_length_prefix (length f) in
    let size : length (prefix ++ (f ++ rest)) ≡ 4 + (length f + length rest) = omega (
      arith,
      length-append prefix (f ++ rest),
      length-append f rest,
      length-write_length_prefix (length f),
    ) in
    let len = read_length-write_length_prefix (length f) (f ++ rest) (omega arith) in
    let enough : ltb (4 + (length f + length rest)) 4 ≡ false = le→ltb _ _ (omega arith) in
    let legal : ((length f == 0) || ltb max_frame_size (length f)) ≡ false = ground arith in
    let whole : ltb (4 + (length f + length rest)) (4 + length f) ≡ false =
      le→ltb _ _ (omega arith) in
    rw
      (
        size,
        len,
        enough,
        legal,
        whole,
        drop-prefix (length f) 0 (f ++ rest),
        drop-prefix (length f) (length f) (f ++ rest),
        take-append_length f rest,
        drop-append_length f rest,
      )
      refl

round-bad :
    (bs : Bytes)
    → 4 ≤ length bs
    → (read_length bs ≡ 0) ⊎ (max_frame_size < read_length bs)
    → round bs ≡ invalid
unfolding round
round-bad bs h bad = ground arith

assemble-stream :
    (n : ℕ) (fs : List Bytes) (tail : Bytes)
    → All FrameFits fs
    → length (stream fs ++ tail) ≤ n
    → assemble n (stream fs ++ tail) ≡ (fs ++ (assemble n tail).0, (assemble n tail).1)
assemble-stream n [] tail h p = refl
assemble-stream zero (f ∷ fs) tail h p = absurd (
    omega (
      arith,
      length-append (stream (f ∷ fs)) tail,
      length-append (write_length_prefix (length f)) (f ++ stream fs),
      length-write_length_prefix (length f),
    ))
assemble-stream (suc n) (f ∷ fs) tail h p =
    let prefix = write_length_prefix (length f) in
    let grouped : stream (f ∷ fs) ++ tail ≡ prefix ++ (f ++ (stream fs ++ tail)) =
      append_assoc prefix (f ++ stream fs) tail
      ∙ ap (λ bs. prefix ++ bs) (append_assoc f (stream fs) tail) in
    let size : length (prefix ++ (f ++ (stream fs ++ tail)))
        ≡ 4 + (length f + length (stream fs ++ tail)) =
      omega (
        arith,
        length-append prefix (f ++ (stream fs ++ tail)),
        length-append f (stream fs ++ tail),
        length-write_length_prefix (length f),
      ) in
    let room : length (stream fs ++ tail) ≤ n = omega (arith, ap length grouped) in
    let shorter =
      assemble-fuel (suc n) n tail (omega (arith, length-append (stream fs) tail))
        (omega (arith, length-append (stream fs) tail)) in
    rw
      (
        grouped,
        assemble-complete n _ (round-frame f (stream fs ++ tail) h.0),
        assemble-stream n fs tail h.1 room,
        shorter,
      )
      refl

feed-stream :
    (fs : List Bytes) (tail : Bytes)
    → All FrameFits fs
    → feed (stream fs ++ tail) assembler ≡ (
      fs ++ (assemble (length (stream fs ++ tail)) tail).0,
      leave (assemble (length (stream fs ++ tail)) tail).1,
    )
unfolding feed
feed-stream fs tail h = ap finish (assemble-stream _ fs tail h (omega arith))

-- Frames sent with their prefixes are delivered as they were sent, each once and in order, however
-- the stream is cut into reads, and the assembler is left as it began.
pub feed_all-stream :
    (fs : List Bytes) (bs : Bytes) (rest : List Bytes)
    → All FrameFits fs
    → flatten (bs ∷ rest) ≡ stream fs
    → feed_all (bs ∷ rest) assembler ≡ (fs, assembler)
unfolding assemble round
feed_all-stream fs bs rest h e =
    let n = length (stream fs ++ []) in
    feed_all-flatten bs rest assembler
    ∙ ap (λ s. feed s assembler) (e ∙ sym (append-nil (stream fs)))
    ∙ feed-stream fs [] h
    ∙ ap (λ r. (fs ++ r.0, leave r.1)) (assemble-incomplete n [] refl)
    ∙ ap (λ gs. (gs, assembler)) (append-nil fs)

-- A declared length of zero, or above the largest legal body, is a protocol error wherever it
-- stands and however the stream is cut: the frames before it are delivered and no others, the
-- assembler is poisoned, and all input that follows is rejected.
pub feed_all_poisoned :
    (fs : List Bytes) (bad bs : Bytes) (rest : List Bytes)
    → All FrameFits fs
    → 4 ≤ length bad
    → (read_length bad ≡ 0) ⊎ (max_frame_size < read_length bad)
    → flatten (bs ∷ rest) ≡ stream fs ++ bad
    → (feed_all (bs ∷ rest) assembler ≡ (fs, leave none))
      × ((cs : Bytes) → feed cs (leave none) ≡ ([], leave none))
unfolding feed
feed_all_poisoned fs bad bs rest h four illegal e = (
  feed_all-flatten bs rest assembler
      ∙ ap (λ s. feed s assembler) e
      ∙ feed-stream fs bad h
      ∙ ap (λ r. (fs ++ r.0, leave r.1))
          (stops (length (stream fs ++ bad)) (omega (arith, length-append (stream fs) bad)))
      ∙ ap (λ gs. (gs, leave none)) (append-nil fs),
  λ cs. refl,
)
  where
    stops : (n : ℕ) → 4 ≤ n → assemble n bad ≡ ([], none)
    stops zero p = absurd (omega arith)
    stops (suc n) p = assemble-invalid n bad (round-bad bad four illegal)
