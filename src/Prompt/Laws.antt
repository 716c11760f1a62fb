-- ===== src/Prompt/Laws.antt =====
-- What compaction keeps.
use duraclaw.Json.{pos}
use duraclaw.Prompt.{
  Message, CompactionResult, size_of, total_chars, reverse, size_after, keep_newest, with_note,
  unchanged, compact_messages,
}
use duraclaw.Shared.{
  suc, append_assoc, append_nil, length-append, ℕ, ◌+◌, ◌-◌, ◌≤◌, ◌<◌, ◌≡◌, refl, sym, ap, subst,
  ◌∙◌, inl, inr, arith, Bool, true, false, List, [], ◌∷◌, ◌++◌, length, ltb, leb, ◌==◌, Bool-cases,
  if◌then◌else◌,
}

reverse-append : (xs ys : List Message) → reverse (xs ++ ys) ≡ reverse ys ++ reverse xs
unfolding reverse
reverse-append [] ys = sym (append_nil (reverse ys))
reverse-append (x ∷ xs) ys =
    ap (λ l. l ++ x ∷ []) (reverse-append xs ys) ∙ append_assoc (reverse ys) (reverse xs) (x ∷ [])

reverse-reverse : (xs : List Message) → reverse (reverse xs) ≡ xs
unfolding reverse
reverse-reverse [] = refl
reverse-reverse (x ∷ xs) =
    reverse-append (reverse xs) (x ∷ []) ∙ ap (λ l. x ∷ l) (reverse-reverse xs)

total-append : (xs ys : List Message) → total_chars (xs ++ ys) ≡ total_chars xs + total_chars ys
total-append [] ys = ground (arith)
total-append (x ∷ xs) ys = ground (arith, total-append xs ys)

total-reverse : (xs : List Message) → total_chars (reverse xs) ≡ total_chars xs
unfolding reverse
total-reverse [] = refl
total-reverse (x ∷ xs) = ground (arith, total-append (reverse xs) (x ∷ []), total-reverse xs)

length-reverse : (xs : List Message) → length (reverse xs) ≡ length xs
unfolding reverse
length-reverse [] = refl
length-reverse (x ∷ xs) = ground (arith, length-append (reverse xs) (x ∷ []), length-reverse xs)

-- The separators of messages: one in front of each, but for the first where none is kept before it.
abbrev pub separators : Bool → ℕ → ℕ
separators some_kept n = if some_kept then n else n - 1

-- The messages from the newest on, the kept ones before the others; the kept ones fit, and with the
-- first of the others they would not.
record Split (max_chars used : ℕ) (some_kept : Bool) (ms kept : List Message) (omitted : ℕ)
    : Type 0 where
  others : List Message
  parts : ms ≡ kept ++ others
  count : length others ≡ omitted
  fits :
      used ≤ max_chars → used + (total_chars kept + separators some_kept (length kept)) ≤ max_chars
  full :
      (m : Message) (rest : List Message)
      → others ≡ m ∷ rest
      → max_chars < used + (total_chars kept + (size_of m + separators some_kept (length kept + 1)))

keep_newest-Split :
    (max_chars : ℕ) (ms : List Message) (used : ℕ) (some_kept : Bool)
    → Split max_chars used some_kept ms
        (keep_newest max_chars ms used some_kept).0
        (keep_newest max_chars ms used some_kept).1
unfolding keep_newest
keep_newest-Split max_chars [] used some_kept = record {
  others = [];
  parts = refl;
  count = refl;
  fits = λ l. ground arith;
  full = λ m rest e. absurd (cc);
}
keep_newest-Split max_chars (m ∷ older) used some_kept =
    elim (Bool-cases (ltb max_chars (used + size_after some_kept m))) [
      | inl t ↦ rw t (record {
        others = m ∷ older;
        parts = refl;
        count = ground (arith);
        fits = λ l. ground arith;
        full = λ x rest e.
            subst (λ y. max_chars < used + (0 + (size_of y + separators some_kept (0 + 1)))) {x = m}
              {y = x} (cc) (too_large t);
      })
      | inr f ↦
          let s = keep_newest-Split max_chars older (used + size_after some_kept m) true in
          rw f (record {
            others = s.others;
            parts = ap (λ l. m ∷ l) s.parts;
            count = s.count;
            fits = λ l.
                still_fits _
                  (length (keep_newest max_chars older (used + size_after some_kept m) true).0)
                  (s.fits (ground arith));
            full = λ x rest e. still_full _ _ _ (s.full x rest e);
          })
    ]
  where
    too_large :
        ltb max_chars (used + size_after some_kept m) ≡ true
        → max_chars < used + (0 + (size_of m + separators some_kept (0 + 1)))
    too_large t = ground arith

    still_fits :
        (total n : ℕ)
        → (used + size_after some_kept m) + (total + n) ≤ max_chars
        → used + ((size_of m + total) + separators some_kept (suc n)) ≤ max_chars
    still_fits total n l = ground arith

    still_full :
        (total size n : ℕ)
        → max_chars < (used + size_after some_kept m) + (total + (size + (n + 1)))
        → max_chars < used + ((size_of m + total) + (size + separators some_kept (suc n + 1)))
    still_full total size n l = ground arith

-- What `CompactMessages` promises for a positive number of bytes: the messages are the older ones,
-- which are left out and counted, and the newest ones, which are kept in their order and fit; if any is
-- left out, the kept ones fit with a separator between each two of them, and with the newest of those left
-- out and one more separator where one is kept, they would not; and a note stands in front.
pub record Compacts (messages : List Message) (max_chars : ℕ) (r : CompactionResult) : Type 0 where
  pub older : List Message
  pub kept : List Message
  pub parts : messages ≡ older ++ kept
  pub count : r.omitted ≡ length older
  pub shown : r.messages ≡ with_note (length older) kept
  pub fits : total_chars kept ≤ max_chars
  pub separated :
      (before : List Message) (m : Message)
      → older ≡ before ++ m ∷ []
      → total_chars kept + (length kept - 1) ≤ max_chars
  pub full :
      (before : List Message) (m : Message)
      → older ≡ before ++ m ∷ []
      → max_chars < total_chars kept + (size_of m + length kept)
  pub original : r.original_chars ≡ total_chars messages
  pub compacted_size : r.compacted_chars ≡ total_chars r.messages

snoc_nonempty : (before : List Message) (m : Message) → [] ≡ before ++ m ∷ [] → ⊥
snoc_nonempty [] m e = cc
snoc_nonempty (b ∷ before) m e = cc

unchanged-Compacts :
    (messages : List Message) (n : ℕ)
    → total_chars messages ≤ n
    → Compacts messages n (unchanged messages)
unchanged-Compacts messages n l = record {
  older = [];
  kept = messages;
  parts = refl;
  count = refl;
  shown = refl;
  fits = l;
  separated = λ before m e. absurd (snoc_nonempty before m e);
  full = λ before m e. absurd (snoc_nonempty before m e);
  original = refl;
  compacted_size = refl;
}

-- The newest of the older messages is the first that the loop leaves out.
newest_other :
    (others before : List Message) (m : Message)
    → reverse others ≡ before ++ m ∷ []
    → others ≡ m ∷ reverse before
unfolding reverse
newest_other others before m e =
    sym (reverse-reverse others) ∙ ap reverse e ∙ reverse-append before (m ∷ [])

-- For a positive number of bytes `CompactMessages` leaves out the older messages, counts them and puts a
-- note about them in front, and keeps the newest, in their order, which fit. If any is left out, those
-- that are kept fit with a separator between each two of them, and the newest of those left out would
-- not fit too. The sizes that it reports are those of the messages before and after.
pub compact_messages-Compacts :
    (messages : List Message) (n : ℕ)
    → 0 < n
    → Compacts messages n (compact_messages messages (pos n))
unfolding compact_messages
compact_messages-Compacts messages n p = elim (Bool-cases (n == 0)) [
  | inl t ↦ absurd (ground arith)
  | inr f ↦ elim (Bool-cases (leb (total_chars messages) n)) [
    | inl t ↦ rw (f, t) (unchanged-Compacts messages n (ground arith))
    | inr g ↦
        let r = keep_newest n (reverse messages) 0 false in
        let s = keep_newest-Split n (reverse messages) 0 false in
        let c : length (reverse s.others) ≡ r.1 = length-reverse s.others ∙ s.count in
        rw (f, g)
          (record {
            older = reverse s.others;
            kept = reverse r.0;
            parts =
                sym (reverse-reverse messages) ∙ ap reverse s.parts ∙ reverse-append r.0 s.others;
            count = sym c;
            shown = ap (λ k. with_note k (reverse r.0)) (sym c);
            fits = omega (arith, total-reverse r.0, s.fits (ground arith));
            separated = λ before m e.
                omega (arith, total-reverse r.0, length-reverse r.0, s.fits (ground arith));
            full = λ before m e. omega (
              arith,
              total-reverse r.0,
              length-reverse r.0,
              s.full m (reverse before) (newest_other s.others before m e),
            );
            original = refl;
            compacted_size = refl;
          })
  ]
]
