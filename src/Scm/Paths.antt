-- ===== src/Scm/Paths.antt =====
-- `ValidateRepositoryPath`, `EscapePath` and `validSlug` of backend/internal/scm/scm.go. A path is a list of
-- bytes; url.PathEscape is a parameter.
use ai_test_assistant.Prelude.{
  Bool, not, ◌||◌, List, [], ◌∷◌, map, Text, codes, same_text, has_prefix, has_byte, split, join,
  Result, ok, err, ◌>>◌, require, if◌then◌else◌,
}

-- The error of `ValidateRepositoryPath`.
pub data PathError : Type 0 where
  invalid_path : PathError

-- `segment == "" || segment == "." || segment == ".."`.
abbrev pub is_special : Text → Bool
is_special s = same_text s [] || (same_text s (codes ".") || same_text s (codes ".."))

-- The loop over the segments.
unfoldable pub check_segments : List Text → Result PathError (Unit {0})
check_segments [] = ok tt
check_segments (s ∷ ss) =
    let rest = check_segments ss in if is_special s then err invalid_path else rest

-- `ValidateRepositoryPath`.
unfoldable pub validate_repository_path : Text → Result PathError (Unit {0})
unfolding check_segments
validate_repository_path path =
    require (not (same_text path [] || (has_prefix (codes "/") path || has_byte 0 path)))
      invalid_path
    >> check_segments (split b'/' path)

-- `EscapePath`.
unfoldable pub escape_path : (Text → Text) → Text → Result PathError Text
unfolding validate_repository_path
escape_path escape path =
    validate_repository_path path >> ok (join b'/' (map escape (split b'/' path)))

-- `validSlug`.
unfoldable pub valid_slug : Text → Bool
valid_slug value =
    not (is_special value || (has_byte b'/' value || (has_byte b'\\' value || has_byte 0 value)))
