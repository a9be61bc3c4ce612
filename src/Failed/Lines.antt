-- ===== src/Failed/Lines.antt =====
-- persistence/failed-inbound-file.ts: what is appended to the file is read back, whatever stood in
-- the file before, and what `keepOnly` writes is read back too.
use messaging_gateway.Prelude.{
  ℕ, true, false, List, [], ◌∷◌, ◌++◌, ◌==◌, ◌≡◌, refl, ◌∙◌, arith, filter, length, drop-append,
  All, All-append, Bool-cases, inl, inr,
}
use mathlib.Core.List.{append_assoc, append-nil}
use messaging_gateway.Failed.{
  Line, newline, ends_cut_short, append, split_from, has_text, read, join_lines, keep_only,
}

-- A line as `JSON.stringify` writes one: it holds no line break and is not blank.
abbrev pub NoBreak : Line → Type 0
NoBreak line = All (λ c. (c == newline) ≡ false) line

abbrev pub IsEntry : Line → Type 0
IsEntry line = NoBreak line × (has_text line ≡ true)

pub texts : Line → List ℕ → List Line
texts cur content = filter has_text (split_from cur content)

-- A line break ends the line before it, and what follows is read by itself.
pub texts-break :
    (cur content rest : List ℕ)
    → texts cur (content ++ newline ∷ rest) ≡ texts cur content ++ texts [] rest
unfolding texts split_from
texts-break cur [] rest = ground arith
texts-break cur (c ∷ content) rest =
    ground (arith, texts-break [] content rest, texts-break (cur ++ c ∷ []) content rest)

-- So it is after a file that does not end halfway through a line.
texts-whole :
    (cur : Line) (c : ℕ) (content rest : List ℕ)
    → ends_cut_short (c ∷ content) ≡ false
    → texts cur ((c ∷ content) ++ rest) ≡ texts cur (c ∷ content) ++ texts [] rest
unfolding texts split_from ends_cut_short
texts-whole cur c [] rest whole = ground arith
texts-whole cur c (d ∷ content) rest whole =
    ground
      (arith, texts-whole [] d content rest whole, texts-whole (cur ++ c ∷ []) d content rest whole)

split_from-line :
    (cur line rest : List ℕ)
    → NoBreak line
    → split_from cur (line ++ newline ∷ rest) ≡ (cur ++ line) ∷ split_from [] rest
unfolding split_from
split_from-line cur [] rest h = rw append-nil
split_from-line cur (c ∷ line) rest (p, h) =
    rw p (split_from-line (cur ++ c ∷ []) line rest h ∙ rw append_assoc)

pub texts-line :
    (line rest : List ℕ) → IsEntry line → texts [] (line ++ newline ∷ rest) ≡ line ∷ texts [] rest
unfolding texts
texts-line line rest (plain, text) = rw (split_from-line [] line rest plain) (rw text)

pub texts-nil : texts [] [] ≡ []
unfolding texts split_from
texts-nil = refl

texts-alone : (line : Line) → IsEntry line → texts [] (line ++ newline ∷ []) ≡ line ∷ []
texts-alone line e = texts-line line [] e ∙ rw texts-nil

pub read-eq : (content : List ℕ) → read content ≡ texts [] content
unfolding read texts
read-eq content = refl

-- An entry, a line that is not blank and has no line break in it, that is appended is read back
-- behind all that stood in the file, also when a crash cut the last line of the file short.
pub read-append :
    (content : List ℕ) (line : Line)
    → IsEntry line
    → read (append content line) ≡ read content ++ line ∷ []
unfolding append ends_cut_short
read-append [] line e =
    read-eq (line ++ newline ∷ []) ∙ texts-alone line e ∙ rw (read-eq, texts-nil)
read-append (c ∷ content) line e = elim (Bool-cases (ends_cut_short (c ∷ content))) [
  | inl cut ↦
      rw (cut, append)
        (read-eq _
          ∙ texts-break [] (c ∷ content) (line ++ newline ∷ [])
          ∙ rw (texts-alone line e, read-eq))
  | inr whole ↦
      rw (whole, append)
        (read-eq _
          ∙ texts-whole [] c content (line ++ newline ∷ []) whole
          ∙ rw (texts-alone line e, read-eq))
]

NoBreak-append : (xs ys : Line) → NoBreak xs → NoBreak ys → NoBreak (xs ++ ys)
NoBreak-append xs ys h k = All-append (λ c. (c == newline) ≡ false) xs ys h k

texts-IsEntry : (cur content : List ℕ) → NoBreak cur → All IsEntry (texts cur content)
unfolding texts split_from
texts-IsEntry cur [] h = elim (Bool-cases (has_text cur)) [
  | inl t ↦ rw t ((h, t), tt)
  | inr blank ↦ rw blank tt
]
texts-IsEntry cur (c ∷ content) h = elim (Bool-cases (c == newline)) [
  | inl end ↦ rw end (elim (Bool-cases (has_text cur)) [
    | inl t ↦ rw t ((h, t), texts-IsEntry [] content tt)
    | inr blank ↦ rw blank (texts-IsEntry [] content tt)
  ])
  | inr more ↦
      rw more (texts-IsEntry (cur ++ c ∷ []) content (NoBreak-append cur (c ∷ []) h (more, tt)))
]

-- Every line that is read is one that can be written back.
pub read-IsEntry : (content : List ℕ) → All IsEntry (read content)
read-IsEntry content = rw read-eq (texts-IsEntry [] content tt)

texts-join_lines :
    (lines : List Line) (rest : List ℕ)
    → All IsEntry lines
    → texts [] (join_lines lines ++ rest) ≡ lines ++ texts [] rest
unfolding join_lines
texts-join_lines [] rest h = refl
texts-join_lines (l ∷ lines) rest (e, h) =
    rw (append_assoc)
      (texts-line l (join_lines lines ++ rest) e ∙ rw (texts-join_lines lines rest h))

-- What `keepOnly` leaves is read back as the kept lines, each a whole entry, and then what came
-- in meanwhile.
pub read-keep_only :
    (lines : List Line) (before arrived : List ℕ)
    → All IsEntry lines
    → read (keep_only lines (length before) (before ++ arrived)) ≡ lines ++ read arrived
unfolding keep_only
read-keep_only lines before arrived h =
    rw (drop-append before arrived, read-eq, read-eq) (texts-join_lines lines arrived h)
