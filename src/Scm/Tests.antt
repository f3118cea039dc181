-- ===== src/Scm/Tests.antt =====
-- The path rules at small paths.
use ai_test_assistant.Prelude.{
  ◌≡◌, refl, false, Option, none, some, [], ◌∷◌, map, Text, codes, has_byte, split, ok, err,
}
use ai_test_assistant.Scm.Paths.{invalid_path, validate_repository_path, escape_path, valid_slug}
use ai_test_assistant.Scm.Resolution.{resolve, below, valid_path_stays_below}
use ai_test_assistant.Scm.Escaping.{escape_path_round_trip}

sample_is_valid : validate_repository_path (codes "internal/a.go") ≡ ok tt
unfolding validate_repository_path
sample_is_valid = refl

parent_refused : validate_repository_path (codes "a/../../b") ≡ err invalid_path
unfolding validate_repository_path
parent_refused = refl

slug_refused : valid_slug (codes "..") ≡ false
unfolding valid_slug
slug_refused = refl

valid_path_stays_below_example :
    resolve (split b'/' (codes "internal/a.go")) (codes "repo" ∷ [])
    ≡ below (split b'/' (codes "internal/a.go")) (codes "repo" ∷ [])
valid_path_stays_below_example =
    valid_path_stays_below (codes "internal/a.go") (codes "repo" ∷ []) sample_is_valid

-- A mark in front of the text.
abbrev mark : Text → Text
mark t = b'%' ∷ t

abbrev unmark : Text → Option Text
unmark [] = none
unmark (c ∷ t) = some t

mark_plain : (t : Text) → has_byte b'/' t ≡ false → has_byte b'/' (mark t) ≡ false
mark_plain t h = h

escape_path_round_trip_example :
    (u : Text) × (escape_path mark (codes "internal/a.go") ≡ ok u)
    × (map unmark (split b'/' u) ≡ map some (split b'/' (codes "internal/a.go")))
escape_path_round_trip_example =
    escape_path_round_trip mark unmark (λ t. refl) mark_plain (codes "internal/a.go")
      sample_is_valid
