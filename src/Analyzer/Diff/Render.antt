-- ===== src/Analyzer/Diff/Render.antt =====
-- Unified diffs as a tool writes them, with the line numbers that each hunk removes and adds: the
-- meaning that the reader of backend/internal/analyzer/diff_parser.go is compared with.
use ai_test_assistant.Prelude.{
  ℕ, ◌+◌, ◌≡◌, Bool, true, false, ◌&&◌, Option, none, some, List, [], ◌∷◌, ◌++◌, map, Text, codes,
  All, has_byte, count_p,
}
use ai_test_assistant.Analyzer.Diff.{is_digit, no_newline_mark}

-- One line of a hunk. `no_newline` is the remark on the line before it.
pub data Edit : Type 0 where
  kept : Text → Edit
  removed : Text → Edit
  added : Text → Edit
  no_newline : Edit

-- One side of a hunk header: the digits of its first line, their value, and the count if written.
pub record Side : Type 0 where
  pub start_digits : Text
  pub start : ℕ
  pub count_digits : Option Text

pub record Hunk : Type 0 where
  pub old_side : Side
  pub new_side : Side
  pub heading : Text
  pub edits : List Edit

abbrev pub render_edit : Edit → Text
render_edit (kept t) = b' ' ∷ t
render_edit (removed t) = b'-' ∷ t
render_edit (added t) = b'+' ∷ t
render_edit no_newline = no_newline_mark

abbrev pub render_count : Option Text → Text
render_count none = []
render_count (some ds) = b',' ∷ ds

-- `a,b`, or `a` alone, in front of what follows.
abbrev pub render_side : Side → Text → Text
render_side s rest = s.start_digits ++ (render_count (s.count_digits) ++ rest)

-- `@@ -a,b +c,d @@ heading`.
unfoldable pub render_header : Hunk → Text
render_header h =
    codes "@@ -"
    ++ render_side (h.old_side) (codes " +" ++ render_side (h.new_side) (codes " @@" ++ h.heading))

unfoldable pub render_hunk : Hunk → List Text
unfolding render_header
render_hunk h = render_header h ∷ map render_edit (h.edits)

abbrev pub render_hunks : List Hunk → List Text
render_hunks [] = []
render_hunks (h ∷ hs) = render_hunk h ++ render_hunks hs

-- The lines of the side before the change, and of the side after it.
abbrev pub in_old : Edit → Bool
in_old (kept _) = true
in_old (removed _) = true
in_old (added _) = false
in_old no_newline = false

abbrev pub in_new : Edit → Bool
in_new (kept _) = true
in_new (removed _) = false
in_new (added _) = true
in_new no_newline = false

abbrev pub is_removed : Edit → Bool
is_removed (removed _) = true
is_removed (kept _) = false
is_removed (added _) = false
is_removed no_newline = false

abbrev pub is_added : Edit → Bool
is_added (removed _) = false
is_added (kept _) = false
is_added (added _) = true
is_added no_newline = false

-- A line of some hunk passes the test `hits`, and its number is `n`: the first line's number of that
-- side, and one more for each line of the side in front of it.
module _ (hits on_side : Edit → Bool) where
  unfoldable pub HitsIn : List Edit → ℕ → ℕ → Type 0
  HitsIn es first n =
      (front : List Edit) × (e : Edit) × (back : List Edit) × (es ≡ front ++ e ∷ back)
      × (hits e ≡ true)
      × (n ≡ first + count_p on_side front)

  unfoldable pub Hits : (Hunk → ℕ) → List Hunk → ℕ → Type 0
  unfolding HitsIn
  Hits first hs n =
      (before : List Hunk) × (h : Hunk) × (after : List Hunk) × (hs ≡ before ++ h ∷ after)
      × HitsIn (h.edits) (first h) n

-- Line `n` before the change is one that some hunk removes.
unfoldable pub Removes : List Hunk → ℕ → Type 0
unfolding Hits
Removes = Hits is_removed in_old (λ h. h.old_side.start)

-- Line `n` after the change is one that some hunk adds.
unfoldable pub Adds : List Hunk → ℕ → Type 0
unfolding Hits
Adds = Hits is_added in_new (λ h. h.new_side.start)

-- `\d+`.
abbrev pub all_digits : Text → Bool
all_digits [] = true
all_digits (c ∷ t) = is_digit c && all_digits t

abbrev pub is_number : Text → Bool
is_number [] = false
is_number (c ∷ t) = all_digits (c ∷ t)

abbrev pub edit_text : Edit → Text
edit_text (kept t) = t
edit_text (removed t) = t
edit_text (added t) = t
edit_text no_newline = []

abbrev pub CountIsNumber : Option Text → Type 0
CountIsNumber none = Unit
CountIsNumber (some ds) = is_number ds ≡ true

abbrev pub OneLine : Text → Type 0
OneLine t = has_byte b'\n' t ≡ false

-- The numbers of a hunk are written in digits, and each of its texts is one line.
module _ (atoi : Text → Option ℕ) where
  unfoldable pub SideIsValid : Side → Type 0
  SideIsValid s =
      (is_number (s.start_digits) ≡ true)
      × (atoi (s.start_digits) ≡ some (s.start))
      × CountIsNumber (s.count_digits)

  unfoldable pub HunkIsValid : Hunk → Type 0
  unfolding SideIsValid
  HunkIsValid h =
      SideIsValid (h.old_side)
      × SideIsValid (h.new_side)
      × OneLine (h.heading)
      × All (λ e. OneLine (edit_text e)) (h.edits)
