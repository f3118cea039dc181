-- ===== src/Workflow/Sources.antt =====
-- The versions of an index snapshot (backend/internal/workflow/repository.go).

use ai_test_assistant.Prelude.{
  ℕ, ◌≡◌, ◌∙◌, refl, true, false, not, ◌==◌, Option, List, [], ◌∷◌, map, any_of, All, ok, arith,
  Option-cases, Bool-cases, subst, ==_iff, inl, inr,
}
use ai_test_assistant.Workflow.Snapshot.{
  Version, IndexSnapshot, SetFacts, build_index_snapshot, excludes, distinct_ids, mark_included,
  unparsed, has_rows,
}

abbrev pub IsReadyVersion : List ℕ → Version → Type 0
IsReadyVersion excluded v =
    (v.included ≡ not (excludes excluded v.version_id)) × (v.included ≡ true → v.parsed ≡ true)

distinct_same : (id : ℕ) (ids : List ℕ) → excludes (distinct_ids ids) id ≡ excludes ids id
unfolding distinct_ids excludes
distinct_same id [] = refl
distinct_same id (x ∷ xs) = elim (Bool-cases (excludes (distinct_ids xs) x)) [
  | inr e ↦ rw e (ground (arith, distinct_same id xs))
  | inl e ↦ rw e (elim (Bool-cases (x == id)) [
    | inl t ↦
        ground (arith, t, subst (λ y. excludes (distinct_ids xs) y ≡ true) ((==_iff x id).0 t) e)
    | inr f ↦ ground (arith, f, distinct_same id xs)
  ])
]

marks_same :
    (ids excluded : List ℕ) (rows : List Version)
    → ((id : ℕ) → excludes ids id ≡ excludes excluded id)
    → map (mark_included ids) rows ≡ map (mark_included excluded) rows
unfolding mark_included
marks_same ids excluded [] same = refl
marks_same ids excluded (v ∷ vs) same = rw (same v.version_id, marks_same ids excluded vs same) refl

ready_versions :
    (excluded ids : List ℕ) (rows : List Version)
    → ((id : ℕ) → excludes ids id ≡ excludes excluded id)
    → has_rows (unparsed (map (mark_included ids) rows)) ≡ false
    → All (IsReadyVersion excluded) (map (mark_included ids) rows)
unfolding unparsed has_rows mark_included
ready_versions excluded ids [] same h = tt
ready_versions excluded ids (v ∷ vs) same h = (
  (ground (arith, same v.version_id), λ t. ground arith),
  ready_versions excluded ids vs same (ground arith),
)

built :
    (set_id : ℕ) (excluded : List ℕ) (found : Option SetFacts) (rows : List Version)
    (snap : IndexSnapshot)
    → build_index_snapshot set_id excluded found rows ≡ ok snap
    → (snap.versions ≡ map (mark_included (distinct_ids excluded)) rows)
      × (has_rows (unparsed snap.versions) ≡ false)
      × (any_of (λ v. v.included) snap.versions ≡ true)
unfolding build_index_snapshot
built set_id excluded found rows snap e = elim (Option-cases found) [
  | inl f ↦ absurd (ground arith)
  | inr (d, f) ↦ ground arith
]

-- A snapshot that `BuildIndexSnapshot` returns holds every latest version that the query returned, in the
-- query's order, with `included` set exactly if its id was not excluded; each one that it includes is
-- parsed, and it includes one at least.
pub index_snapshot_ready :
    (set_id : ℕ) (excluded : List ℕ) (found : Option SetFacts) (rows : List Version)
    (snap : IndexSnapshot)
    → build_index_snapshot set_id excluded found rows ≡ ok snap
    → (snap.versions ≡ map (mark_included excluded) rows)
      × All (IsReadyVersion excluded) snap.versions
      × (any_of (λ v. v.included) snap.versions ≡ true)
index_snapshot_ready set_id excluded found rows snap e =
    let b = built set_id excluded found rows snap e in
    (
      b.0 ∙ marks_same (distinct_ids excluded) excluded rows (λ id. distinct_same id excluded),
      rw b.0 (
          ready_versions excluded (distinct_ids excluded) rows (λ id. distinct_same id excluded)
            (rw b.0 at b.1)),
      b.2,
    )
