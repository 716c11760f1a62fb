-- ===== src/Runtime/Once.antt =====
-- A call that may not be run again completes once at most: the rows that are finished under one key.
pub mod Rows
pub mod Calls
use duraclaw.Runtime.Store.{
  Output, ToolRow, complete_row, complete_rows, is_finished, finished_once, key_of, row_key, World,
}
use duraclaw.Runtime.Calls.{Completed, prior_of, is_known, output_or, index_rows}
use duraclaw.Shared.{
  ℕ, suc, ◌+◌, ◌≤◌, ◌<◌, ◌≡◌, refl, sym, ap, ◌∙◌, inl, inr, ◌⊎◌, arith, Bool, true, false, not,
  ◌&&◌, List, [], ◌∷◌, ◌++◌, String, Option, none, some, str_eq, if◌then◌else◌, length, ◌==◌,
  Bool-cases,
}

abbrev is_done : ToolRow → Bool
is_done r = not r.retryable && is_finished r.output

abbrev pub one_if : Bool → ℕ
one_if b = if b then 1 else 0

-- How many rows that may not be run again are finished under a key.
abbrev pub finishes : String → List ToolRow → ℕ
finishes k [] = 0
finishes k (r ∷ rs) = one_if (is_done r && str_eq (row_key r) k) + finishes k rs

-- The identifiers of the rows count up.
abbrev pub Numbered : ℕ → List ToolRow → Type 0
Numbered n [] = Unit
Numbered n (r ∷ rs) = (r.id ≡ n) × Numbered (n + 1) rs

-- The rows are numbered, and no call that may not be run again is finished twice.
abbrev pub IsOnce : World → Type 0
IsOnce w = Numbered 0 w.tool_calls × ((k : String) → finishes k w.tool_calls ≤ 1)

-- The completed calls that the loop knows have all the keys of finished rows.
abbrev pub Tracks : Completed → World → Type 0
Tracks m w = (k : String) → 0 < finishes k w.tool_calls → is_known (prior_of k m) ≡ true

pub Numbered-append :
    (n : ℕ) (rs : List ToolRow) (r : ToolRow)
    → Numbered n rs
    → r.id ≡ n + length rs
    → Numbered n (rs ++ r ∷ [])
Numbered-append n [] r h e = (omega (arith, e), tt)
Numbered-append n (x ∷ rs) r h e = (h.0, Numbered-append (n + 1) rs r h.1 (omega (arith, e)))

pub Numbered-complete :
    (n i : ℕ) (out : Output) (rs : List ToolRow)
    → Numbered n rs
    → Numbered n (complete_rows i out rs)
unfolding complete_rows
Numbered-complete n i out [] h = tt
Numbered-complete n i out (x ∷ rs) h = (
  elim (Bool-cases (x.id == i)) [ inl t ↦ rw t h.0 | inr f ↦ rw f h.0 ],
  Numbered-complete (n + 1) i out rs h.1,
)

-- A number past the last names no row.
complete_past :
    (n i : ℕ) (out : Output) (rs : List ToolRow)
    → Numbered n rs
    → n + length rs ≤ i
    → complete_rows i out rs ≡ rs
unfolding complete_rows
complete_past n i out [] h l = refl
complete_past n i out (x ∷ rs) h l =
    rw (other, complete_past (n + 1) i out rs h.1 (omega arith)) refl
  where
    other : (x.id == i) ≡ false
    other = ground (arith, h.0)

complete-append :
    (i : ℕ) (out : Output) (rs qs : List ToolRow)
    → complete_rows i out (rs ++ qs) ≡ complete_rows i out rs ++ complete_rows i out qs
unfolding complete_rows
complete-append i out [] qs = refl
complete-append i out (x ∷ rs) qs = ap (λ l. complete_row i out x ∷ l) (complete-append i out rs qs)

pub finishes-append :
    (k : String) (rs qs : List ToolRow) → finishes k (rs ++ qs) ≡ finishes k rs + finishes k qs
finishes-append k [] qs = omega arith
finishes-append k (x ∷ rs) qs = omega (arith, finishes-append k rs qs)

-- The row that a call starts.
abbrev pub new_row : String → String → Bool → List ToolRow → ToolRow
new_row name hash again rs = record {
  id = length rs;
  tool_name = name;
  args_hash = hash;
  retryable = again;
  state = "running";
  output = none;
}

pub finishes-start :
    (k name hash : String) (again : Bool) (rs : List ToolRow)
    → finishes k (rs ++ new_row name hash again rs ∷ []) ≡ finishes k rs
finishes-start k name hash again rs =
    finishes-append k rs _ ∙ rw (and_false (not again)) (omega arith)
  where
    and_false : (b : Bool) → (b && false) ≡ false
    and_false true = refl
    and_false false = refl

eq_self : (n : ℕ) → (n == n) ≡ true
eq_self n = ground arith

-- When the started row completes, its key may be finished once more.
pub finishes-complete_rows :
    (k name hash : String) (again : Bool) (out : Output) (rs : List ToolRow)
    → Numbered 0 rs
    → finishes k (complete_rows (length rs) out (rs ++ new_row name hash again rs ∷ []))
      ≡ finishes k rs + one_if (not again && str_eq (key_of name hash) k)
unfolding complete_rows
finishes-complete_rows k name hash again out rs h =
    ap (finishes k) (complete-append (length rs) out rs (new_row name hash again rs ∷ []))
    ∙ finishes-append k (complete_rows (length rs) out rs) _
    ∙ rw (complete_past 0 (length rs) out rs h (omega arith)) (last again)
  where
    last :
        (b : Bool)
        → finishes k rs + finishes k (complete_rows (length rs) out (new_row name hash b rs ∷ []))
          ≡ finishes k rs + one_if (not b && str_eq (key_of name hash) k)
    last true = rw (eq_self (length rs)) (omega arith)
    last false = rw (eq_self (length rs)) (omega arith)

-- What `completedNonRetryableTools` reads of the rows tracks them.
known_before :
    (k : String) (rs : List ToolRow) (m : Completed)
    → is_known (prior_of k m) ≡ true
    → is_known (prior_of k (index_rows rs m)) ≡ true
unfolding index_rows
known_before k [] m h = h
known_before k (r ∷ rs) m h = known_before k rs _ (kept r.output)
  where
    kept : (o : Option Output) → is_known (prior_of k (output_or o m (row_key r))) ≡ true
    kept none = h
    kept (some out) = ground (arith, h)

pub index_rows-Tracks :
    (k : String) (rs : List ToolRow) (m : Completed)
    → 0 < finishes k rs
    → is_known (prior_of k (index_rows (finished_once rs) m)) ≡ true
unfolding index_rows finished_once
index_rows-Tracks k [] m h = absurd (omega arith)
index_rows-Tracks k (r ∷ rs) m h = elim (Bool-cases (is_done r)) [
  | inl d ↦ elim (Bool-cases (str_eq (row_key r) k)) [
    | inl t ↦ rw d (known_before k (finished_once rs) _ (entered r.output d t))
    | inr f ↦ rw d (index_rows-Tracks k rs _ (fewer h d f))
  ]
  | inr n ↦ rw n (index_rows-Tracks k rs m (skipped h n))
]
  where
    entered :
        (o : Option Output)
        → (not r.retryable && is_finished o) ≡ true
        → str_eq (row_key r) k ≡ true
        → is_known (prior_of k (output_or o m (row_key r))) ≡ true
    entered none d t = ground (arith)
    entered (some out) d t = rw t refl

    fewer :
        0 < finishes k (r ∷ rs)
        → is_done r ≡ true
        → str_eq (row_key r) k ≡ false
        → 0 < finishes k rs
    fewer h d f = ground (arith)

    skipped : 0 < finishes k (r ∷ rs) → is_done r ≡ false → 0 < finishes k rs
    skipped h n = ground (arith)
