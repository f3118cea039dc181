-- ===== src/Scm/Resolution.antt =====
-- Where a path of a repository leads below a directory (backend/internal/scm/scm.go).
use ai_test_assistant.Prelude.{
  ◌≡◌, refl, ap, subst, ◌∙◌, inl, inr, false, ◌||◌, List, [], ◌∷◌, arith, All, Text, codes,
  same_text, has_prefix, has_byte, split, Result, ok, err, if◌then◌else◌, Bool-cases,
}
use ai_test_assistant.Scm.Paths.{
  PathError, is_special, check_segments, validate_repository_path, invalid_path,
}

abbrev parent : List Text → List Text
parent [] = []
parent (d ∷ ds) = ds

-- One segment of a path, as a file system looks it up; a directory is its names, the innermost first.
unfoldable pub enter : Text → List Text → List Text
enter s at =
    if same_text s [] || same_text s (codes ".")
    then at
    else if same_text s (codes "..")
    then parent at
    else s ∷ at

unfoldable pub resolve : List Text → List Text → List Text
unfolding enter
resolve [] at = at
resolve (s ∷ ss) at = resolve ss (enter s at)

-- The names of a path, put on a directory.
unfoldable pub below : List Text → List Text → List Text
below [] at = at
below (s ∷ ss) at = below ss (s ∷ at)

err-ne-ok : {A : Type 0} → ◌≡◌ {A = Result PathError (Unit {0})} (err invalid_path) (ok tt) → A
err-ne-ok e = absurd (subst (λ r. elim r [ ok _ ↦ ⊥ | err _ ↦ Unit {0} ]) e tt)

check_segments-plain :
    (ss : List Text) → check_segments ss ≡ ok tt → All (λ s. is_special s ≡ false) ss
unfolding check_segments
check_segments-plain [] h = tt
check_segments-plain (s ∷ ss) h = elim (Bool-cases (is_special s)) [
  | inl e ↦ err-ne-ok (rw e at h)
  | inr e ↦ (e, check_segments-plain ss (rw e at h))
]

resolve-below :
    (ss at : List Text) → All (λ s. is_special s ≡ false) ss → resolve ss at ≡ below ss at
unfolding resolve enter below
resolve-below [] at h = refl
resolve-below (s ∷ ss) at h =
    let entered : enter s at ≡ s ∷ at = ground (arith, h.0) in
    ap (resolve ss) entered ∙ resolve-below ss (s ∷ at) (h.1)

-- A path that passed has only plain segments.
pub validate_repository_path-plain :
    (path : Text)
    → validate_repository_path path ≡ ok tt
    → All (λ s. is_special s ≡ false) (split b'/' path)
unfolding validate_repository_path
validate_repository_path-plain path h =
    elim (Bool-cases (same_text path [] || (has_prefix (codes "/") path || has_byte 0 path))) [
      | inl e ↦ err-ne-ok (rw e at h)
      | inr e ↦ check_segments-plain (split b'/' path) (rw e at h)
    ]

-- A path that `ValidateRepositoryPath` accepts, looked up from any directory as a file system does, leads to
-- that directory's descendant whose names below it are the path's segments.
pub valid_path_stays_below :
    (path : Text) (at : List Text)
    → validate_repository_path path ≡ ok tt
    → resolve (split b'/' path) at ≡ below (split b'/' path) at
valid_path_stays_below path at h =
    resolve-below (split b'/' path) at (validate_repository_path-plain path h)
