-- ===== src/Generator/Dataset/Batches.antt =====
-- The batches that the reader finds in a file of groups, each below a separator line.
use mathlib.Core.List.{append_assoc, append-nil}
use banknote_chain.Base.{
  ℕ, zero, suc, ◌+◌, ◌≡◌, ◌∙◌, refl, sym, ap, ap₂, List, [], ◌∷◌, ◌++◌, map, true, false, length,
  ◌==◌, All, arith,
}
use banknote_chain.Base.Go.{Bytes}
use banknote_chain.Generator.Dataset.{is_separator, BatchReader, read_lines, next_batch}

-- A group: its separator line, and its lines.
pub record Group : Type 0 where
  pub separator : Bytes
  pub first : Bytes
  pub others : List Bytes

abbrev pub body : Group → List Bytes
body g = g.first ∷ g.others

abbrev pub IsGroup : Group → Type 0
IsGroup g = (is_separator g.separator ≡ true) × All (λ l. is_separator l ≡ false) (body g)

-- The lines of a file.
abbrev pub layout : List Group → List Bytes
layout [] = []
layout (g ∷ gs) = g.separator ∷ (body g ++ layout gs)

-- The batches that `n` calls give.
unfoldable pub batches : ℕ → BatchReader → List (List Bytes)
batches zero r = []
batches (suc n) r = let next = next_batch r in next.0 ∷ batches n next.1

read_lines-body :
    (acc g rest : List Bytes) (c : ℕ)
    → All (λ l. is_separator l ≡ false) g
    → read_lines acc (g ++ rest) c ≡ read_lines (acc ++ g) rest (c + length g)
unfolding read_lines
read_lines-body acc [] rest c h =
    ap₂ (λ a k. read_lines a rest k) (sym (append-nil acc)) (omega arith)
read_lines-body acc (l ∷ g) rest c (h, hs) =
    rw (read_lines, h)
      (read_lines-body (acc ++ l ∷ []) g rest (c + 1) hs
        ∙ ap₂ (λ a k. read_lines a rest k) (append_assoc acc (l ∷ []) g) (omega arith))

-- A reader whose next batch is the first of these groups, with the separator behind it.
abbrev reader_at : ℕ → List Group → BatchReader
reader_at c [] = record { lines = []; is_eof = true; count_line = c }
reader_at c (g ∷ gs) = record { lines = body g ++ layout gs; is_eof = false; count_line = c }

read_lines-end :
    (x : Bytes) (xs : List Bytes) (gs : List Group) (c : ℕ)
    → All IsGroup gs
    → read_lines (x ∷ xs) (layout gs) c ≡ (x ∷ xs, reader_at (c + 1) gs)
unfolding read_lines
read_lines-end x xs [] c h = refl
read_lines-end x xs (g ∷ gs) c (h, hs) =
    let busy : (suc (length xs) == 0) ≡ false = ground arith in rw (read_lines, h.0, busy) refl

next_batch-body :
    (c : ℕ) (g : Group) (gs : List Group)
    → IsGroup g
    → All IsGroup gs
    → next_batch (reader_at c (g ∷ gs)) ≡ (body g, reader_at (c + length (body g) + 1) gs)
unfolding next_batch
next_batch-body c g gs h hs =
    read_lines-body [] (body g) (layout gs) c h.1
    ∙ read_lines-end g.first g.others gs (c + length (body g)) hs

batches-at :
    (c : ℕ) (gs : List Group) → All IsGroup gs → batches (length gs) (reader_at c gs) ≡ map body gs
unfolding batches
batches-at c [] h = refl
batches-at c (g ∷ gs) (h, hs) =
    rw (next_batch-body c g gs h hs)
      (ap (λ r. body g ∷ r) (batches-at (c + length (body g) + 1) gs hs))

-- On a file of groups, each of which has a separator line and at least one line that is none below
-- it, and whose last line ends in a line feed, the calls give the groups one after another and
-- whole.
pub batches-layout :
    (gs : List Group) (c : ℕ)
    → All IsGroup gs
    → batches (length gs) (record { lines = layout gs; is_eof = false; count_line = c })
      ≡ map body gs
unfolding batches next_batch read_lines
batches-layout [] c h = refl
batches-layout (g ∷ gs) c (h, hs) =
    let found : read_lines [] (layout (g ∷ gs)) c
        ≡ (body g, reader_at (c + 1 + length (body g) + 1) gs) =
      rw (read_lines, h.0) (next_batch-body (c + 1) g gs h hs) in
    rw found (ap (λ r. body g ∷ r) (batches-at (c + 1 + length (body g) + 1) gs hs))
