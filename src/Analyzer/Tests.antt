-- ===== src/Analyzer/Tests.antt =====
-- The analyzer's theorems at a small change: a hunk that removes line 4 of a file and adds two changed_lines,
-- in a file where one function is changed and one is new.
use ai_test_assistant.Prelude.{
  ℕ, ◌+◌, ◌*◌, ◌-◌, ◌≡◌, refl, ◌↔◌, Bool, true, false, ◌||◌, Option, none, some, [], ◌∷◌, Text,
  codes, join, All, any_of, ◌==◌, ok,
}
use ai_test_assistant.Analyzer.Diff.{
  ChangedLines, add_new, add_old, keep, edit_line, open_hunk, scan_line, scan_lines,
  parse_changed_lines,
}
use ai_test_assistant.Analyzer.Diff.Render.{
  kept, removed, added, no_newline, Hunk, render_header, render_hunk, render_hunks, Removes, Adds,
  SideIsValid, HunkIsValid,
}
use ai_test_assistant.Analyzer.Diff.Collect.{member}
use ai_test_assistant.Analyzer.Diff.RoundTrip.{diff_round_trip}
use ai_test_assistant.Analyzer.Mapper.{Symbol, ParsedFile, symbol_key, map_changed_symbols}
use ai_test_assistant.Analyzer.Mapper.Tables.{has_key, touches}
use ai_test_assistant.Analyzer.Mapper.Changes.{
  ChangeIsRight, changes_are_touched, change_types_are_right,
}

-- Decimal digits, with no bound.
abbrev decimal_from : ℕ → Text → ℕ
decimal_from n [] = n
decimal_from n (c ∷ t) = decimal_from (n * 10 + (c - b'0')) t

abbrev decimal : Text → Option ℕ
decimal t = some (decimal_from 0 t)

abbrev is_white : Text → Bool
is_white [] = true
is_white (c ∷ t) = elim (c == b' ' || c == b'\n') [ true ↦ is_white t | false ↦ false ]

abbrev hunk : Hunk
hunk = record {
  old_side = record { start_digits = codes "3"; start = 3; count_digits = some (codes "2") };
  new_side = record { start_digits = codes "3"; start = 3; count_digits = none };
  heading = codes " func Add";
  edits =
      kept (codes "{")
      ∷ removed (codes "return a")
      ∷ added (codes "a++")
      ∷ added (codes "return a")
      ∷ no_newline
      ∷ [];
}

abbrev sample : Text
sample =
    codes "@@ -3,2 +3 @@ func Add\n {\n-return a\n+a++\n+return a\n\\ No newline at end of file"

rendered : join b'\n' (render_hunks (hunk ∷ [])) ≡ sample
unfolding render_hunk render_header
rendered = refl

parsed :
    parse_changed_lines decimal is_white sample ≡ ok (record { old = 4 ∷ []; new = 5 ∷ 4 ∷ [] })
unfolding parse_changed_lines scan_lines scan_line open_hunk edit_line add_new add_old keep
parsed = refl

hunk_valid : HunkIsValid decimal hunk
unfolding HunkIsValid SideIsValid
hunk_valid =
    ((refl, refl, refl), (refl, refl, tt), refl, (refl, (refl, (refl, (refl, (refl, tt))))))

diff_round_trip_example :
    (r : ChangedLines) × (parse_changed_lines decimal is_white
        (join b'\n' (render_hunks (hunk ∷ [])))
      ≡ ok r)
    × ((n : ℕ) → (member n (r.old) ≡ true) ↔ Removes (hunk ∷ []) n)
    × ((n : ℕ) → (member n (r.new) ≡ true) ↔ Adds (hunk ∷ []) n)
diff_round_trip_example = diff_round_trip decimal is_white (λ t. refl) (hunk ∷ []) (hunk_valid, tt)

abbrev add_before : Symbol
add_before = record {
  name = "Add";
  kind = "function";
  receiver = "";
  package_name = "calc";
  start_line = 2;
  end_line = 4;
}

abbrev add_after : Symbol
add_after = record {
  name = "Add";
  kind = "function";
  receiver = "";
  package_name = "calc";
  start_line = 2;
  end_line = 4;
}

abbrev sub_after : Symbol
sub_after = record {
  name = "Sub";
  kind = "function";
  receiver = "";
  package_name = "calc";
  start_line = 5;
  end_line = 9;
}

abbrev old_file : Option ParsedFile
old_file = some (record { package_name = "calc"; symbols = add_before ∷ [] })

abbrev new_file : Option ParsedFile
new_file = some (record { package_name = "calc"; symbols = add_after ∷ sub_after ∷ [] })

abbrev changed_lines : ChangedLines
changed_lines = record { old = 4 ∷ []; new = 5 ∷ 4 ∷ [] }

changes_are_touched_example :
    any_of
      (λ c. has_key "function\0\0Sub" (c.symbol))
      (map_changed_symbols old_file new_file changed_lines)
    ≡ (touches new_file (5 ∷ 4 ∷ []) "function\0\0Sub"
        || touches old_file (4 ∷ []) "function\0\0Sub")
changes_are_touched_example = changes_are_touched old_file new_file changed_lines "function\0\0Sub"

sub_is_touched : touches new_file (5 ∷ 4 ∷ []) "function\0\0Sub" ≡ true
unfolding touches has_key symbol_key
sub_is_touched = refl

change_types_are_right_example :
    All
      (λ c. ChangeIsRight old_file new_file (symbol_key (c.symbol)) c)
      (map_changed_symbols old_file new_file changed_lines)
change_types_are_right_example = change_types_are_right old_file new_file changed_lines
