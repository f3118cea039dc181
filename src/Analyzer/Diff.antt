-- ===== src/Analyzer/Diff.antt =====
-- The reader of unified diffs, `ParseChangedLines` (backend/internal/analyzer/diff_parser.go).
-- A text is its list of bytes; `strconv.Atoi` and the test for a blank text are parameters.
-- A Go set of line numbers is a list that is read by membership only.
use ai_test_assistant.Prelude.{
  ℕ, suc, Bool, true, false, not, ◌&&◌, ◌||◌, Option, none, some, List, [], ◌∷◌, Text, codes,
  has_prefix, split, ◌==◌, leb, if◌then◌else◌, Result, ok, err, ◌>>=◌, or_err,
}
pub mod Render
pub mod Reading
pub mod Collect
pub mod RoundTrip

-- `ChangedLines`: the two sets of line numbers.
pub record ChangedLines : Type 0 where
  pub old : List ℕ
  pub new : List ℕ

-- The errors of `ParseChangedLines`.
pub data DiffError : Type 0 where
  invalid_header : DiffError
  bad_old_line : DiffError
  bad_new_line : DiffError

-- What the loop keeps from line to line.
pub record Scan : Type 0 where
  pub old_line : ℕ
  pub new_line : ℕ
  pub in_hunk : Bool
  pub changed : ChangedLines

-- `\d`.
abbrev pub is_digit : ℕ → Bool
is_digit c = leb b'0' c && leb c b'9'

-- `\d*`, as far as it goes, and the text after it.
unfoldable pub digits : Text → Text × Text
digits [] = ([], [])
digits (c ∷ t) = let rest = digits t in if is_digit c then (c ∷ rest.0, rest.1) else ([], c ∷ t)

-- `\d+`, as far as it goes.
unfoldable pub number : Text → Option (Text × Text)
unfolding digits
number t = elim ((digits t).0) [ [] ↦ none | c ∷ ds ↦ some (digits t) ]

-- The text after a literal.
unfoldable pub literal : Text → Text → Option Text
literal [] t = some t
literal (c ∷ cs) [] = none
literal (c ∷ cs) (d ∷ t) = if c == d then literal cs t else none

-- `(?:,\d+)?`.
unfoldable pub skip_count : Text → Text
unfolding number literal
skip_count t = elim (literal (codes ",") t) [
  | none ↦ t
  | some rest ↦ elim (number rest) [ none ↦ t | some found ↦ found.1 ]
]

-- `hunkHeaderPattern.FindStringSubmatch(line)`: the two groups, both line numbers.
unfoldable pub match_header : Text → Option (Text × Text)
unfolding literal number skip_count
match_header line = elim (literal (codes "@@ -") line) [
  | none ↦ none
  | some rest ↦ elim (number rest) [
    | none ↦ none
    | some first ↦ elim (literal (codes " +") (skip_count (first.1))) [
      | none ↦ none
      | some rest' ↦ elim (number rest') [
        | none ↦ none
        | some second ↦ elim (literal (codes " @@") (skip_count (second.1))) [
          | none ↦ none
          | some _ ↦ some (first.0, second.0)
        ]
      ]
    ]
  ]
]

-- A scan before the first line: `oldLine, newLine := 0, 0`.
abbrev pub start_scan : Scan
start_scan = record {
  old_line = 0;
  new_line = 0;
  in_hunk = false;
  changed = record { old = []; new = [] };
}

-- `result.New[newLine] = struct{}{}; newLine++`.
unfoldable pub add_new : Scan → Scan
add_new s = record s {
  changed = record (s.changed) { new = s.new_line ∷ s.changed.new };
  new_line = suc (s.new_line);
}

-- `result.Old[oldLine] = struct{}{}; oldLine++`.
unfoldable pub add_old : Scan → Scan
add_old s = record s {
  changed = record (s.changed) { old = s.old_line ∷ s.changed.old };
  old_line = suc (s.old_line);
}

-- The `default` case: a line both sides have.
unfoldable pub keep : Scan → Scan
keep s = record s { old_line = suc (s.old_line); new_line = suc (s.new_line) }

-- The `switch` on the first byte.
unfoldable pub edit_line : Scan → Text → Scan
unfolding add_new add_old keep
edit_line s line =
    if has_prefix (codes "+") line
    then add_new s
    else (if has_prefix (codes "-") line then add_old s else keep s)

-- `strings.HasPrefix(line, "\\ No newline at end of file")`.
abbrev pub no_newline_mark : Text
no_newline_mark = codes "\\ No newline at end of file"

module _ (atoi : Text → Option ℕ) where
  -- The branch of a line that begins with `@@`.
  unfoldable pub open_hunk : Scan → Text → Result DiffError Scan
  unfolding match_header
  open_hunk s line = or_err (match_header line) invalid_header >>= λ groups.
      or_err (atoi (groups.0)) bad_old_line >>= λ old.
      or_err (atoi (groups.1)) bad_new_line >>= λ new.
      ok (record s { old_line = old; new_line = new; in_hunk = true })

  -- The body of the loop.
  unfoldable pub scan_line : Scan → Text → Result DiffError Scan
  unfolding open_hunk edit_line
  scan_line s line =
      if has_prefix (codes "@@") line
      then open_hunk s line
      else (if not (s.in_hunk) || has_prefix no_newline_mark line
          then ok s
          else ok (edit_line s line))

  -- `for _, line := range …`.
  unfoldable pub scan_lines : Scan → List Text → Result DiffError Scan
  unfolding scan_line
  scan_lines s [] = ok s
  scan_lines s (line ∷ lines) = scan_line s line >>= λ s'. scan_lines s' lines

  -- `ParseChangedLines`; `blank` is `strings.TrimSpace(diff) == ""`.
  unfoldable pub parse_changed_lines : (Text → Bool) → Text → Result DiffError ChangedLines
  unfolding scan_lines
  parse_changed_lines blank diff =
      if blank diff
      then ok (record { old = []; new = [] })
      else (scan_lines start_scan (split b'\n' diff) >>= λ s. ok (s.changed))
