-- ===== src/Analyzer/Diff/Reading.antt =====
-- `hunkHeaderPattern` reads the headers that a diff is written with
-- (backend/internal/analyzer/diff_parser.go).
use ai_test_assistant.Prelude.{
  ℕ, ◌≡◌, refl, true, false, Option, none, some, [], ◌∷◌, ◌++◌, arith, Text, codes, ==_refl,
  and_left, and_right,
}
use ai_test_assistant.Analyzer.Diff.{is_digit, digits, number, literal, skip_count, match_header}
use ai_test_assistant.Analyzer.Diff.Render.{
  Hunk, all_digits, is_number, CountIsNumber, render_count, render_side, render_header, SideIsValid,
}

-- The digits end where a byte that is no digit begins.
digits-all_digits :
    (ds : Text) (c : ℕ) (t : Text)
    → all_digits ds ≡ true
    → is_digit c ≡ false
    → digits (ds ++ c ∷ t) ≡ (ds, c ∷ t)
unfolding digits
digits-all_digits [] c t h k = rw k refl
digits-all_digits (d ∷ ds) c t h k =
    let rest = digits-all_digits ds c t (and_right (is_digit d) (all_digits ds) h) k in
    rw (and_left (is_digit d) (all_digits ds) h) (cc rest)

number-is_number :
    (ds : Text) (c : ℕ) (t : Text)
    → is_number ds ≡ true
    → is_digit c ≡ false
    → number (ds ++ c ∷ t) ≡ some (ds, c ∷ t)
unfolding number
number-is_number (d ∷ ds) c t h k = ground (arith, digits-all_digits (d ∷ ds) c t h k)
number-is_number [] c t h k = ground (arith, h)

literal_self : (p t : Text) → literal p (p ++ t) ≡ some t
unfolding literal
literal_self [] t = refl
literal_self (c ∷ p) t = rw (==_refl c) (literal_self p t)

-- A written count is skipped, and a space ends it.
skip_count-render_count :
    (count : Option Text) (t : Text)
    → CountIsNumber count
    → skip_count (render_count count ++ b' ' ∷ t) ≡ b' ' ∷ t
unfolding skip_count literal
skip_count-render_count none t h = refl
skip_count-render_count (some ds) t h = rw (number-is_number ds b' ' t h refl, skip_count) refl

-- A number in front of a written count, or of no count.
number-render_count :
    (ds : Text) (count : Option Text) (t : Text)
    → is_number ds ≡ true
    → number (ds ++ (render_count count ++ b' ' ∷ t)) ≡ some (ds, render_count count ++ b' ' ∷ t)
number-render_count ds none t h = number-is_number ds b' ' t h refl
number-render_count ds (some cs) t h = number-is_number ds b',' (cs ++ b' ' ∷ t) h refl

module _ (atoi : Text → Option ℕ) where
  -- Both line numbers are read off a header that is written well.
  pub match_header-render_header :
      (h : Hunk)
      → SideIsValid atoi (h.old_side)
      → SideIsValid atoi (h.new_side)
      → match_header (render_header h) ≡ some (h.old_side.start_digits, h.new_side.start_digits)
  unfolding match_header render_header SideIsValid literal
  match_header-render_header h p q =
      let end = codes "@@" ++ h.heading in
      let s = h.old_side in
      let s' = h.new_side in
      let rest = b'+' ∷ render_side s' (b' ' ∷ end) in
      let old = number-render_count (s.start_digits) (s.count_digits) rest (p.0) in
      let skip = skip_count-render_count (s.count_digits) rest (p.2) in
      let new = number-render_count (s'.start_digits) (s'.count_digits) end (q.0) in
      let skip' = skip_count-render_count (s'.count_digits) end (q.2) in
      ground (arith, old, skip, new, skip')
