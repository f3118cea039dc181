-- ===== src/Workflow/Snapshot.antt =====
-- backend/internal/workflow/repository.go: `BuildIndexSnapshot` and `buildGenerateSnapshot`, from the
-- rows that their queries return; and service.go: `sameIdempotentCommand`.
use Prim.Native.String.{String}
use ai_test_assistant.Prelude.{
  ℕ, Bool, true, false, not, ◌&&◌, ◌||◌, ◌==◌, Option, none, some, List, [], ◌∷◌, map, length,
  keep_if, any_of, if◌then◌else◌, Result, ok, err, ◌>>=◌, ◌>>◌, require, or_err,
}
use ai_test_assistant.Workflow.Model.{
  Operation, index_documents, generate_testcases, extract_requirements,
}
use ai_test_assistant.Workflow.Rows.{same_operation}
use ai_test_assistant.Guide.Selection.{generation_selection, sort_ids}

-- `indexVersionSnapshot`: the latest version of a document; `parsed` is `ParseStatus == "PARSED"`.
pub record Version : Type 0 where
  pub document_id : ℕ
  pub document_name : String
  pub version_id : ℕ
  pub version_number : ℕ
  pub sha256 : String
  pub parsed : Bool
  pub approval_status : String
  pub included : Bool

-- `indexInputSnapshot`.
pub record IndexSnapshot : Type 0 where
  pub source_revision : ℕ
  pub excluded_version_ids : List ℕ
  pub versions : List Version

-- The row of the document set; `active` is `status == "ACTIVE"`.
pub record SetFacts : Type 0 where
  pub source_revision : ℕ
  pub active : Bool

-- The errors of the builders, of which `BlockedError` comes with its code.
pub data BuildError : Type 0 where
  bad_input set_not_found set_inactive selection_blocked no_approved_requirements : BuildError
  source_blocked : List Version → BuildError

unfoldable pub excludes : List ℕ → ℕ → Bool
excludes ids id = any_of (λ x. x == id) ids

-- The ids of the map `excludedSet`, each once.
unfoldable pub distinct_ids : List ℕ → List ℕ
unfolding excludes
distinct_ids [] = []
distinct_ids (x ∷ xs) = let rest = distinct_ids xs in if excludes rest x then rest else x ∷ rest

unfoldable pub mark_included : List ℕ → Version → Version
unfolding excludes
mark_included excluded v = record v { included = not (excludes excluded v.version_id) }

-- The included versions that are not parsed: `blockedVersions`.
unfoldable pub unparsed : List Version → List Version
unparsed versions = keep_if (λ v. v.included && not v.parsed) versions

-- Every excluded id is one of the versions: `known`.
unfoldable pub all_known : List ℕ → List Version → Bool
all_known [] versions = true
all_known (x ∷ xs) versions = any_of (λ v. v.version_id == x) versions && all_known xs versions

unfoldable pub nothing_included : List Version → Bool
nothing_included versions = not (any_of (λ v. v.included) versions)

unfoldable pub has_rows {ℓ} : {A : Type ℓ} → List A → Bool
has_rows [] = false
has_rows (_ ∷ _) = true

-- `BuildIndexSnapshot`, before `hashJSON`; `rows` are the latest versions by document.
unfoldable pub build_index_snapshot :
    ℕ → List ℕ → Option SetFacts → List Version → Result BuildError IndexSnapshot
unfolding distinct_ids excludes mark_included unparsed all_known nothing_included has_rows
build_index_snapshot set_id excluded found rows = do
  require (not (set_id == 0)) bad_input
  facts ← or_err found set_not_found
  require facts.active set_inactive
  require (not (excludes excluded 0)) bad_input
  let ids = distinct_ids excluded
  let versions = map (mark_included ids) rows
  require (all_known ids versions) bad_input
  require (not (nothing_included versions || has_rows (unparsed versions)))
      (source_blocked (unparsed versions))
  ok (record {
    source_revision = facts.source_revision;
    excluded_version_ids = sort_ids ids;
    versions = versions;
  })

-- `generateRequirementSnapshot`.
pub record RequirementPin : Type 0 where
  pub id : ℕ
  pub version_number : ℕ
  pub source_snapshot_id : Option ℕ
  pub source_fingerprint : String
  pub updated_at : String

-- The fields of `generateInputSnapshot` that the builder sets.
pub record GenerateSnapshot : Type 0 where
  pub source_revision : ℕ
  pub requirements : List RequirementPin
  pub selected_requirement_ids : List ℕ

-- `generationSelection`, whose error is ErrInvalidInput.
unfoldable pub selection_of : List ℕ → Result BuildError (List ℕ)
selection_of ids = elim (generation_selection ids) [ ok s ↦ ok s | err _ ↦ err bad_input ]

-- `buildGenerateSnapshot`, before `hashJSON`; `query` gives the approved, current and unblocked
-- requirements of the set, by id, of those selected if any are.
unfoldable pub build_generate_snapshot :
    ℕ
    → List ℕ
    → Bool
    → Option SetFacts
    → (List ℕ → List RequirementPin)
    → Result BuildError GenerateSnapshot
unfolding selection_of has_rows
build_generate_snapshot set_id ids allow_empty found query = do
  require (not (set_id == 0)) bad_input
  selected ← selection_of ids
  facts ← or_err found set_not_found
  require facts.active set_inactive
  let rows = query selected
  require (not (has_rows selected && not (length rows == length selected))) selection_blocked
  require (has_rows rows || allow_empty) no_approved_requirements
  ok (record {
    source_revision = facts.source_revision;
    requirements = rows;
    selected_requirement_ids = selected;
  })

-- The part of `OperationInput` that decides whether a command is a repetition; `Generate` is what the
-- snapshot of a generation holds of it.
pub record Generate : Type 0 where
  pub review_proposals : Bool
  pub requested_scope : String
  pub selected_ids : List ℕ

pub record Command : Type 0 where
  pub operation : Operation
  pub generate : Generate
  pub excluded_version_ids : List ℕ

unfoldable pub same_ids : List ℕ → List ℕ → Bool
same_ids [] [] = true
same_ids (x ∷ xs) (y ∷ ys) = x == y && same_ids xs ys
same_ids _ _ = false

unfoldable pub compact_from : ℕ → List ℕ → List ℕ
compact_from p [] = []
compact_from p (x ∷ xs) = if p == x then compact_from p xs else x ∷ compact_from x xs

-- `slices.Compact`: neighbours that are equal become one.
unfoldable pub compact : List ℕ → List ℕ
unfolding compact_from
compact [] = []
compact (x ∷ xs) = x ∷ compact_from x xs

unfoldable pub same_selection : List ℕ → List ℕ → Bool
unfolding same_ids
same_selection wanted stored = elim (generation_selection wanted) [
  | err _ ↦ false
  | ok xs ↦ elim (generation_selection stored) [ err _ ↦ false | ok ys ↦ same_ids xs ys ]
]

module _ (same_scope : String → String → Bool) (decode_generate : String → Option Generate)
    (decode_index : String → Option (List ℕ)) where
  -- `sameIdempotentCommand`, for the operation and the snapshot of the existing job; the decoders are
  -- `json.Unmarshal`.
  unfoldable pub same_idempotent_command : Operation → String → Command → Bool
  unfolding same_selection same_ids compact
  same_idempotent_command op snapshot input =
      if not (same_operation op input.operation) then false else elim input.operation [
        | extract_requirements ↦ true
        | generate_testcases ↦ elim (decode_generate snapshot) [
          | none ↦ false
          | some g ↦
              if (g.review_proposals && not input.generate.review_proposals)
                || (not g.review_proposals && input.generate.review_proposals)
              then false
              else same_scope g.requested_scope input.generate.requested_scope
                && same_selection input.generate.selected_ids g.selected_ids
        ]
        | index_documents ↦ elim (decode_index snapshot) [
          | none ↦ false
          | some stored ↦
              same_ids (compact (sort_ids input.excluded_version_ids)) (compact (sort_ids stored))
        ]
      ]
