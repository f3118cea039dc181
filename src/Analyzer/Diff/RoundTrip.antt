-- ===== src/Analyzer/Diff/RoundTrip.antt =====
-- The reader of backend/internal/analyzer/diff_parser.go applied to diffs as they are written.
use ai_test_assistant.Prelude.{
  ℕ, suc, ◌≡◌, refl, sym, ap, subst, ◌∙◌, ◌↔◌, inl, inr, Bool, true, false, Option, none, some,
  List, [], ◌∷◌, ◌++◌, map, arith, Text, codes, split, join, split-join, false≢true, All,
  All-append, ◌==◌, if◌then◌else◌, Bool-cases, ok, and_left, and_right,
}
use ai_test_assistant.Analyzer.Diff.{
  ChangedLines, Scan, is_digit, start_scan, add_new, add_old, keep, edit_line, open_hunk, scan_line,
  scan_lines, parse_changed_lines,
}
use ai_test_assistant.Analyzer.Diff.Render.{
  Edit, kept, removed, added, no_newline, Side, Hunk, render_edit, render_count, render_side,
  render_header, render_hunk, render_hunks, in_old, in_new, is_removed, is_added, Removes, Adds,
  all_digits, is_number, edit_text, CountIsNumber, OneLine, SideIsValid, HunkIsValid,
}
use ai_test_assistant.Analyzer.Diff.Reading.{match_header-render_header}
use ai_test_assistant.Analyzer.Diff.Collect.{member, collect, collect_hunks, collect_hunks_lem}

module _ (atoi : Text → Option ℕ) where
  -- What the edits of a hunk do to the scan.
  abbrev after_edits : List Edit → Scan → Scan
  after_edits [] s = s
  after_edits (e ∷ es) s = after_edits es (record s {
    old_line = if in_old e then suc (s.old_line) else s.old_line;
    new_line = if in_new e then suc (s.new_line) else s.new_line;
    changed = record {
      old = if is_removed e then s.old_line ∷ s.changed.old else s.changed.old;
      new = if is_added e then s.new_line ∷ s.changed.new else s.changed.new;
    };
  })

  after_edits-changed :
      (es : List Edit) (s : Scan)
      → (after_edits es s).changed ≡ record {
        old = collect is_removed in_old es (s.old_line) (s.changed.old);
        new = collect is_added in_new es (s.new_line) (s.changed.new);
      }
  after_edits-changed [] s = refl
  after_edits-changed (e ∷ es) s = after_edits-changed es _

  scan_edits :
      (es : List Edit) (s : Scan) (rest : List Text)
      → s.in_hunk ≡ true
      → scan_lines atoi s (map render_edit es ++ rest) ≡ scan_lines atoi (after_edits es s) rest
  unfolding scan_lines scan_line edit_line add_new add_old keep
  scan_edits [] s rest h = refl
  scan_edits (kept t ∷ es) s rest h = rw h (scan_edits es _ rest refl)
  scan_edits (removed t ∷ es) s rest h = rw h (scan_edits es _ rest refl)
  scan_edits (added t ∷ es) s rest h = rw h (scan_edits es _ rest refl)
  scan_edits (no_newline ∷ es) s rest h = rw h (scan_edits es _ rest refl)

  -- The scan after a header.
  abbrev at_hunk : Hunk → Scan → Scan
  at_hunk h s = record s {
    old_line = h.old_side.start;
    new_line = h.new_side.start;
    in_hunk = true;
  }

  scan_header :
      (h : Hunk) (s : Scan) (rest : List Text)
      → HunkIsValid atoi h
      → scan_lines atoi s (render_header h ∷ rest) ≡ scan_lines atoi (at_hunk h s) rest
  unfolding scan_lines scan_line open_hunk render_header HunkIsValid SideIsValid
  scan_header h s rest v =
      let groups = match_header-render_header atoi h (v.0) (v.1) in rw (groups, v.0.1, v.1.1) refl

  abbrev after_hunks : List Hunk → Scan → Scan
  after_hunks [] s = s
  after_hunks (h ∷ hs) s = after_hunks hs (after_edits (h.edits) (at_hunk h s))

  scan_hunks :
      (hs : List Hunk) (s : Scan)
      → All (HunkIsValid atoi) hs
      → scan_lines atoi s (render_hunks hs) ≡ ok (after_hunks hs s)
  unfolding scan_lines render_hunk
  scan_hunks [] s v = refl
  scan_hunks (h ∷ hs) s v =
      scan_header h s (map render_edit (h.edits) ++ render_hunks hs) (v.0)
      ∙ scan_edits (h.edits) (at_hunk h s) (render_hunks hs) refl
      ∙ scan_hunks hs (after_edits (h.edits) (at_hunk h s)) (v.1)

  after_hunks-changed :
      (hs : List Hunk) (s : Scan)
      → (after_hunks hs s).changed ≡ record {
        old = collect_hunks is_removed in_old (λ h. h.old_side.start) hs (s.changed.old);
        new = collect_hunks is_added in_new (λ h. h.new_side.start) hs (s.changed.new);
      }
  after_hunks-changed [] s = refl
  after_hunks-changed (h ∷ hs) s =
      after_hunks-changed hs (after_edits (h.edits) (at_hunk h s))
      ∙ ap
          (λ c. record {
            old = collect_hunks is_removed in_old (λ h. h.old_side.start) hs (c.old);
            new = collect_hunks is_added in_new (λ h. h.new_side.start) hs (c.new);
          })
          (after_edits-changed (h.edits) (at_hunk h s))

OneLine-append : (t u : Text) → OneLine t → OneLine u → OneLine (t ++ u)
OneLine-append [] u h k = k
OneLine-append (c ∷ t) u h k = elim (Bool-cases (c == b'\n')) [
  | inl e ↦ absurd (false≢true (ground (arith, h, e)))
  | inr e ↦ rw e (OneLine-append t u (ground (arith, h, e)) k)
]

all_digits-OneLine : (t : Text) → all_digits t ≡ true → OneLine t
all_digits-OneLine [] h = refl
all_digits-OneLine (c ∷ t) h =
    let rest = all_digits-OneLine t (and_right (is_digit c) (all_digits t) h) in
    ground (arith, rest, and_left (is_digit c) (all_digits t) h)

render_count-OneLine : (count : Option Text) → CountIsNumber count → OneLine (render_count count)
render_count-OneLine none h = refl
render_count-OneLine (some (c ∷ ds)) h = all_digits-OneLine (c ∷ ds) h
render_count-OneLine (some []) h = refl

is_number-OneLine : (t : Text) → is_number t ≡ true → OneLine t
is_number-OneLine [] h = refl
is_number-OneLine (c ∷ t) h = all_digits-OneLine (c ∷ t) h

render_edit-OneLine : (e : Edit) → OneLine (edit_text e) → OneLine (render_edit e)
render_edit-OneLine (kept t) h = h
render_edit-OneLine (removed t) h = h
render_edit-OneLine (added t) h = h
render_edit-OneLine no_newline h = refl

render_edits-OneLine :
    (es : List Edit) → All (λ e. OneLine (edit_text e)) es → All OneLine (map render_edit es)
render_edits-OneLine [] h = tt
render_edits-OneLine (e ∷ es) h = (render_edit-OneLine e (h.0), render_edits-OneLine es (h.1))

module _ (atoi : Text → Option ℕ) where
  render_side-OneLine :
      (s : Side) (rest : Text) → SideIsValid atoi s → OneLine rest → OneLine (render_side s rest)
  unfolding SideIsValid
  render_side-OneLine s rest v h =
      OneLine-append (s.start_digits) (render_count (s.count_digits) ++ rest)
        (is_number-OneLine (s.start_digits) (v.0))
        (OneLine-append (render_count (s.count_digits)) rest
          (render_count-OneLine (s.count_digits) (v.2)) h)

  render_header-OneLine : (h : Hunk) → HunkIsValid atoi h → OneLine (render_header h)
  unfolding render_header HunkIsValid
  render_header-OneLine h v =
      render_side-OneLine (h.old_side) _ (v.0)
        (render_side-OneLine (h.new_side) (codes " @@" ++ h.heading) (v.1) (v.2))

  render_hunks-OneLine :
      (hs : List Hunk) → All (HunkIsValid atoi) hs → All OneLine (render_hunks hs)
  unfolding render_hunk HunkIsValid
  render_hunks-OneLine [] v = tt
  render_hunks-OneLine (h ∷ hs) v =
      All-append OneLine (render_hunk h) (render_hunks hs)
        (render_header-OneLine h (v.0), render_edits-OneLine (h.edits) (v.0.3))
        (render_hunks-OneLine hs (v.1))

  scan_rendered :
      (hs : List Hunk)
      → All (HunkIsValid atoi) hs
      → scan_lines atoi start_scan (split b'\n' (join b'\n' (render_hunks hs)))
        ≡ ok (after_hunks atoi hs start_scan)
  unfolding scan_lines render_hunk
  scan_rendered [] v = refl
  scan_rendered (h ∷ hs) v =
      let lines = render_hunks-OneLine (h ∷ hs) v in
      let rest = map render_edit (h.edits) ++ render_hunks hs in
      ap (scan_lines atoi start_scan) (split-join b'\n' (render_header h) rest (lines.0) (lines.1))
      ∙ scan_hunks atoi (h ∷ hs) start_scan v

  parse_rendered :
      (blank : Text → Bool)
      → ((t : Text) → blank (b'@' ∷ t) ≡ false)
      → (hs : List Hunk) → All (HunkIsValid atoi) hs
      → parse_changed_lines atoi blank (join b'\n' (render_hunks hs))
        ≡ ok ((after_hunks atoi hs start_scan).changed)
  unfolding parse_changed_lines render_hunk render_header
  parse_rendered blank visible [] v = elim (Bool-cases (blank [])) [
    | inl e ↦ rw e refl
    | inr e ↦ rw e refl
  ]
  parse_rendered blank visible (h ∷ hs) v = rw (visible _, scan_rendered (h ∷ hs) v) refl

  -- A diff is written as hunks, their line numbers as digits that `strconv.Atoi` reads as these
  -- numbers, each with a count or without one, each text on one line, any heading after the header,
  -- and with remarks on a missing newline in any place. `strings.TrimSpace` leaves something of a
  -- text that begins with `@`. Then the reader succeeds, and the two sets of line numbers that it
  -- returns are exact: a number is in the old set just if a hunk removes the line with that number
  -- of the old file, and in the new set just if a hunk adds the line with that number of the new one.
  pub diff_round_trip :
      (blank : Text → Bool)
      → ((t : Text) → blank (b'@' ∷ t) ≡ false)
      → (hs : List Hunk) → All (HunkIsValid atoi) hs
      → (r : ChangedLines) × (parse_changed_lines atoi blank (join b'\n' (render_hunks hs)) ≡ ok r)
        × ((n : ℕ) → (member n (r.old) ≡ true) ↔ Removes hs n)
        × ((n : ℕ) → (member n (r.new) ≡ true) ↔ Adds hs n)
  unfolding Removes Adds
  diff_round_trip blank visible hs v =
      let changed = after_hunks-changed atoi hs start_scan in
      (
        (after_hunks atoi hs start_scan).changed,
        parse_rendered blank visible hs v,
        λ n.
            subst (λ c. (member n (c.old) ≡ true) ↔ Removes hs n) (sym changed)
              (collect_hunks_lem is_removed in_old (λ h. h.old_side.start) hs n),
        λ n.
            subst (λ c. (member n (c.new) ≡ true) ↔ Adds hs n) (sym changed)
              (collect_hunks_lem is_added in_new (λ h. h.new_side.start) hs n),
      )
