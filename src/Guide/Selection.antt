-- ===== src/Guide/Selection.antt =====
-- backend/internal/workflow/service.go: `generationSelection`, which normalizes the requirement ids
-- that a user selects.
use ai_test_assistant.Prelude.{
  ℕ, ◌+◌, ◌≤◌, ◌<◌, ◌≡◌, refl, Bool, false, not, ◌||◌, ◌==◌, leb, Option, none, some, List, [], ◌∷◌,
  length, count, arith, if◌then◌else◌, Result, ok, ◌>>◌, require, Bool-cases, inl, inr,
}
use ai_test_assistant.Workflow.Model.{Error, invalid_input}

unfoldable pub insert_id : ℕ → List ℕ → List ℕ
insert_id a [] = a ∷ []
insert_id a (b ∷ bs) = let rest = insert_id a bs in if leb a b then a ∷ b ∷ bs else b ∷ rest

-- `slices.Sort`.
unfoldable pub sort_ids : List ℕ → List ℕ
unfolding insert_id
sort_ids [] = []
sort_ids (a ∷ xs) = insert_id a (sort_ids xs)

-- The loop: `true` where an id is 0 or less, or repeats the one before it.
unfoldable pub has_bad_id : Option ℕ → List ℕ → Bool
has_bad_id previous [] = false
has_bad_id none (a ∷ xs) = a == 0 || has_bad_id (some a) xs
has_bad_id (some p) (a ∷ xs) = a == 0 || (p == a || has_bad_id (some a) xs)

-- `generationSelection`; an id that is 0 stands for one that is not positive.
unfoldable pub generation_selection : List ℕ → Result Error (List ℕ)
unfolding sort_ids has_bad_id
generation_selection ids = do
  require (leb (length ids) 100) invalid_input
  require (not (has_bad_id none (sort_ids ids))) invalid_input
  ok (sort_ids ids)

insert-length : (a : ℕ) (bs : List ℕ) → length (insert_id a bs) ≡ 1 + length bs
unfolding insert_id
insert-length a [] = omega arith
insert-length a (b ∷ bs) = ground (arith, insert-length a bs)

sort-length : (xs : List ℕ) → length (sort_ids xs) ≡ length xs
unfolding sort_ids
sort-length [] = refl
sort-length (a ∷ xs) = omega (arith, insert-length a (sort_ids xs), sort-length xs)

insert-count : (n a : ℕ) (bs : List ℕ) → count n (insert_id a bs) ≡ count n (a ∷ bs)
unfolding insert_id
insert-count n a [] = refl
insert-count n a (b ∷ bs) = ground (arith, insert-count n a bs)

sort-count : (n : ℕ) (xs : List ℕ) → count n (sort_ids xs) ≡ count n xs
unfolding sort_ids
sort-count n [] = refl
sort-count n (a ∷ xs) = ground (arith, insert-count n a (sort_ids xs), sort-count n xs)

-- Each id is above the bound and below the ids after it.
abbrev pub IsIncreasing : ℕ → List ℕ → Type 0
IsIncreasing low [] = Unit
IsIncreasing low (a ∷ xs) = (low < a) × IsIncreasing a xs

abbrev IsSorted : ℕ → List ℕ → Type 0
IsSorted low [] = Unit
IsSorted low (a ∷ xs) = (low ≤ a) × IsSorted a xs

insert-IsSorted :
    (low a : ℕ) (bs : List ℕ) → low ≤ a → IsSorted low bs → IsSorted low (insert_id a bs)
unfolding insert_id
insert-IsSorted low a [] l h = (l, tt)
insert-IsSorted low a (b ∷ bs) l h = elim (Bool-cases (leb a b)) [
  | inl e ↦ rw e (l, (ground arith, h.1))
  | inr e ↦ rw e (h.0, insert-IsSorted b a bs (ground arith) h.1)
]

sort-IsSorted : (xs : List ℕ) → IsSorted 0 (sort_ids xs)
unfolding sort_ids
sort-IsSorted [] = tt
sort-IsSorted (a ∷ xs) = insert-IsSorted 0 a (sort_ids xs) (omega arith) (sort-IsSorted xs)

-- What passes the loop rises.
good_after :
    (p : ℕ) (xs : List ℕ) → IsSorted p xs → has_bad_id (some p) xs ≡ false → IsIncreasing p xs
unfolding has_bad_id
good_after p [] s h = tt
good_after p (a ∷ xs) s h = (ground (arith, s.0), good_after a xs s.1 (ground arith))

good_ids : (xs : List ℕ) → IsSorted 0 xs → has_bad_id none xs ≡ false → IsIncreasing 0 xs
unfolding has_bad_id
good_ids [] s h = tt
good_ids (a ∷ xs) s h = (ground arith, good_after a xs s.1 (ground arith))

accepted :
    (ids selected : List ℕ)
    → generation_selection ids ≡ ok selected
    → (length ids ≤ 100) × (has_bad_id none (sort_ids ids) ≡ false) × (selected ≡ sort_ids ids)
unfolding generation_selection
accepted ids selected e = ground arith

-- A selection that is accepted holds exactly the ids given, each once, positive and in rising order,
-- and at most 100 of them.
pub selection_normal_form :
    (ids selected : List ℕ)
    → generation_selection ids ≡ ok selected
    → (length selected ≤ 100) × IsIncreasing 0 selected × ((n : ℕ) → count n selected ≡ count n ids)
selection_normal_form ids selected e =
    let a = accepted ids selected e in
    rw a.2 (
      omega (arith, a.0, sort-length ids),
      good_ids (sort_ids ids) (sort-IsSorted ids) a.1,
      λ n. sort-count n ids,
    )
