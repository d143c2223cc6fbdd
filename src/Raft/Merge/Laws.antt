-- ===== src/Raft/Merge/Laws.antt =====
-- What a follower's log is after it accepted entries (src/raft/raft_core.cpp, `onAppendEntries`).
use raft_rsm.Prelude.{
  ℕ, zero, suc, ◌+◌, ◌≤◌, ◌≡◌, refl, sym, ap, ◌∙◌, inl, inr, List, [], ◌∷◌, ◌++◌, arith, ◌==◌,
  length, take, drop, length-append, drop-append_length, length-drop, length-take, take-append-drop,
  take-append_left, take-all, Bool-cases, ==_iff,
}
use raft_rsm.Rpc.Types.{LogEntry, AppendEntries}
use raft_rsm.Raft.State.{Core}
use raft_rsm.Raft.Follower.{merge_entries}
use raft_rsm.Raft.Merge.{merge_suffix, InRange, log-merge_entries}

-- Every new entry has an old one of its term at its place.
abbrev pub Agrees : List LogEntry → List LogEntry → Type 0
Agrees old [] = Unit
Agrees [] (n ∷ new) = ⊥
Agrees (o ∷ old) (n ∷ new) = (o.term ≡ n.term) × Agrees old new

-- Among the first k places, none holds entries of different terms.
abbrev pub AgreesUpTo : ℕ → List LogEntry → List LogEntry → Type 0
AgreesUpTo (suc k) (o ∷ old) (n ∷ new) = (o.term ≡ n.term) × AgreesUpTo k old new
AgreesUpTo _ _ _ = Unit

Agrees-refl : (new : List LogEntry) → Agrees new new
Agrees-refl [] = tt
Agrees-refl (n ∷ new) = (refl, Agrees-refl new)

merge_suffix-Agrees : (old new : List LogEntry) → Agrees (merge_suffix old new) new
unfolding merge_suffix
merge_suffix-Agrees old [] = tt
merge_suffix-Agrees [] (n ∷ new) = Agrees-refl (n ∷ new)
merge_suffix-Agrees (o ∷ old) (n ∷ new) = elim (Bool-cases (o.term == n.term)) [
  | inl eq ↦ rw eq ((==_iff o.term n.term).0 eq, merge_suffix-Agrees old new)
  | inr ne ↦ rw ne (Agrees-refl (n ∷ new))
]

merge_suffix_known : (old new : List LogEntry) → Agrees old new → merge_suffix old new ≡ old
unfolding merge_suffix
merge_suffix_known old [] h = refl
merge_suffix_known [] (n ∷ new) h = absurd h
merge_suffix_known (o ∷ old) (n ∷ new) h =
    rw ((==_iff o.term n.term).1 h.0) (ap (◌∷◌ o) (merge_suffix_known old new h.1))

length-merge_suffix : (old new : List LogEntry) → length new ≤ length (merge_suffix old new)
unfolding merge_suffix
length-merge_suffix old [] = omega arith
length-merge_suffix [] (n ∷ new) = omega arith
length-merge_suffix (o ∷ old) (n ∷ new) = ground (arith, length-merge_suffix old new)

take-merge_suffix :
    (k : ℕ) (old new : List LogEntry)
    → k ≤ length old
    → AgreesUpTo k old new
    → take k (merge_suffix old new) ≡ take k old
unfolding merge_suffix
take-merge_suffix zero old new h a = refl
take-merge_suffix (suc k) old [] h a = refl
take-merge_suffix (suc k) [] (n ∷ new) h a = absurd (omega arith)
take-merge_suffix (suc k) (o ∷ old) (n ∷ new) h a =
    rw ((==_iff o.term n.term).1 a.0) (ap (◌∷◌ o) (take-merge_suffix k old new (omega arith) a.1))

-- A prefix of the log that reaches past the previous index, in its two parts.
take-split :
    {A : Type 0} (p k : ℕ) (pre suf : List A)
    → length pre ≡ p
    → take (p + k) (pre ++ suf) ≡ pre ++ take k suf
take-split p k [] suf h = ap (λ n. take n suf) (omega arith)
take-split zero k (x ∷ pre) suf h = absurd (omega arith)
take-split (suc p) k (x ∷ pre) suf h =
    let e : suc p + k ≡ suc (p + k) = omega arith in
    rw e (ap (◌∷◌ x) (take-split p k pre suf (omega arith)))

drop-split : {A : Type 0} (p : ℕ) (pre suf : List A) → length pre ≡ p → drop p (pre ++ suf) ≡ suf
drop-split p pre suf h = rw (← h) (drop-append_length pre suf)

module _ {S : Type 0} (c : Core S) (ae : AppendEntries) (h : InRange c.log ae) where
  prefix_length : length (take ae.prev_log_index c.log) ≡ ae.prev_log_index
  prefix_length = omega (arith, length-take ae.prev_log_index c.log)

  -- If the previous index lies in the log and the last index of the message is a 64-bit number,
  -- then after the merge the log is unchanged up to the previous index, holds an entry of the same
  -- term for each entry of the message, and is at least as long as the message reaches.
  pub merge_entries-Agrees :
      (take ae.prev_log_index (merge_entries c ae).log ≡ take ae.prev_log_index c.log)
      × Agrees (drop ae.prev_log_index (merge_entries c ae).log) ae.entries
      × (ae.prev_log_index + length ae.entries ≤ length (merge_entries c ae).log)
  merge_entries-Agrees =
      let p = ae.prev_log_index in
      let pre = take p c.log in
      let suf = merge_suffix (drop p c.log) ae.entries in
      rw (log-merge_entries c ae h) (
        take-append_left p pre suf (omega (arith, prefix_length))
            ∙ take-all p pre (omega (arith, prefix_length)),
        rw (drop-split p pre suf prefix_length) (merge_suffix-Agrees (drop p c.log) ae.entries),
        omega (
          arith,
          length-append pre suf,
          prefix_length,
          length-merge_suffix (drop p c.log) ae.entries,
        ),
      )

  -- A message in range whose entries the log holds already, with the same terms, changes nothing:
  -- a delayed or duplicate message never deletes entries.
  pub merge_entries_known :
      Agrees (drop ae.prev_log_index c.log) ae.entries → (merge_entries c ae).log ≡ c.log
  merge_entries_known a =
      log-merge_entries c ae h
      ∙ rw (merge_suffix_known (drop ae.prev_log_index c.log) ae.entries a)
          (take-append-drop ae.prev_log_index c.log)

  -- The entries up to index k stay, if the message is in range and differs from none of them.
  pub merge_entries-keeps :
      (k : ℕ)
      → ae.prev_log_index + k ≤ length c.log
      → AgreesUpTo k (drop ae.prev_log_index c.log) ae.entries
      → take (ae.prev_log_index + k) (merge_entries c ae).log ≡ take (ae.prev_log_index + k) c.log
  merge_entries-keeps k room a =
      let p = ae.prev_log_index in
      let pre = take p c.log in
      let old = drop p c.log in
      let kept = take-merge_suffix k old ae.entries (omega (arith, length-drop p c.log)) a in
      ap (take (p + k)) (log-merge_entries c ae h)
      ∙ take-split p k pre (merge_suffix old ae.entries) prefix_length
      ∙ ap (◌++◌ pre) kept
      ∙ sym (take-split p k pre old prefix_length)
      ∙ ap (take (p + k)) (take-append-drop p c.log)
