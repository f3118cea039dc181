-- ===== src/Requirement/Conservation.antt =====
-- `compareRequirements` on the side of the earlier snapshot.
use Prim.Native.String.{String}
use ai_test_assistant.Prelude.{
  ℕ, ◌+◌, ◌≡◌, refl, ◌∙◌, Bool, true, false, not, ◌&&◌, ◌==◌, List, [], ◌∷◌, ◌++◌, map, keep_if,
  count_p, count_p-append, count, All, arith, if◌then◌else◌, Bool-cases, inl, inr,
}
use ai_test_assistant.Requirement.Comparison.{
  Requirement, SourceChange, Classification, group, keys_of, change, is_paired, pair_up, leftover,
  is_unknown, compare_group, compare_keys, compare_requirements,
}
use ai_test_assistant.Requirement.Grouping.{key_count, keys-exact}

abbrev pub ids_of : List Requirement → List ℕ
ids_of rows = map (λ r. r.id) rows

-- The ids that the items name on the side of the earlier rows, and of the later ones.
abbrev pub befores : List SourceChange → List ℕ
befores [] = []
befores (c ∷ cs) = c.before_ids ++ befores cs

abbrev pub afters : List SourceChange → List ℕ
afters [] = []
afters (c ∷ cs) = c.after_ids ++ afters cs

-- How often an id stands among the rows that pass a test.
abbrev pub tally : ℕ → (Requirement → Bool) → List Requirement → ℕ
tally n p rows = count_p (λ r. p r && r.id == n) rows

count-ids :
    (n : ℕ) (rows : List Requirement) → count n (ids_of rows) ≡ count_p (λ r. r.id == n) rows
count-ids n [] = refl
count-ids n (r ∷ rs) = ground (arith, count-ids n rs)

pub count-kept :
    (n : ℕ) (p : Requirement → Bool) (rows : List Requirement)
    → count n (ids_of (keep_if p rows)) ≡ tally n p rows
count-kept n p [] = refl
count-kept n p (r ∷ rs) = ground (arith, count-kept n p rs)

-- A test parts the rows.
pub parted :
    (n : ℕ) (p : Requirement → Bool) (rows : List Requirement)
    → tally n p rows + tally n (λ r. not (p r)) rows ≡ count n (ids_of rows)
parted n p [] = omega arith
parted n p (r ∷ rs) = ground (arith, parted n p rs)

befores-append :
    (n : ℕ) (xs ys : List SourceChange)
    → count n (befores (xs ++ ys)) ≡ count n (befores xs) + count n (befores ys)
befores-append n [] ys = omega arith
befores-append n (c ∷ cs) ys = ground (
  arith,
  count_p-append (λ x. x == n) c.before_ids (befores (cs ++ ys)),
  count_p-append (λ x. x == n) c.before_ids (befores cs),
  befores-append n cs ys,
)

pair_up-befores :
    (n : ℕ) (old new lefts : List Requirement)
    → count n (befores (pair_up old new lefts)) ≡ tally n (is_paired old new) lefts
unfolding pair_up change
pair_up-befores n old new [] = refl
pair_up-befores n old new (left ∷ lefts) = elim (Bool-cases (is_paired old new left)) [
  | inl e ↦ rw e (ground (arith, pair_up-befores n old new lefts))
  | inr e ↦ rw e (pair_up-befores n old new lefts)
]

singles-befores :
    (n : ℕ) (kind : Classification) (reason : String) (rows : List Requirement)
    → count n (befores (map (λ r. change kind reason (r ∷ []) []) rows)) ≡ count n (ids_of rows)
unfolding change
singles-befores n kind reason [] = refl
singles-befores n kind reason (r ∷ rs) = ground (arith, singles-befores n kind reason rs)

empties-befores :
    (n : ℕ) (kind : Classification) (reason : String) (rows : List Requirement)
    → count n (befores (map (λ r. change kind reason [] (r ∷ [])) rows)) ≡ 0
unfolding change
empties-befores n kind reason [] = refl
empties-befores n kind reason (r ∷ rs) = empties-befores n kind reason rs

leftover-befores :
    (n : ℕ) (vs ws : List Requirement) → count n (befores (leftover vs ws)) ≡ count n (ids_of vs)
unfolding leftover
leftover-befores n [] [] = refl
leftover-befores n [] (w ∷ ws) = empties-befores n _ _ (w ∷ ws)
leftover-befores n (v ∷ vs) [] = singles-befores n _ _ (v ∷ vs)
leftover-befores n (v ∷ []) (w ∷ []) = refl
leftover-befores n (v ∷ []) (w ∷ x ∷ ws) = refl
leftover-befores n (v ∷ u ∷ vs) (w ∷ ws) =
    ground (arith, count_p-append (λ x. x == n) (ids_of (v ∷ u ∷ vs)) [])

group-befores :
    (n : ℕ) (had : Bool) (key : String) (old new : List Requirement)
    → count n (befores (compare_group had key old new)) ≡ count n (ids_of old)
unfolding compare_group
group-befores n had key old new = elim (Bool-cases (had && is_unknown key)) [
  | inl e ↦ rw e (unfold change in ground (arith, count_p-append (λ x. x == n) (ids_of old) []))
  | inr e ↦ rw e (
      ground (
        arith,
        befores-append n (pair_up old new old) (
            leftover (keep_if (λ r. not (is_paired old new r)) old)
              (keep_if (λ r. not (is_paired old new r)) new)),
        pair_up-befores n old new old,
        leftover-befores n (keep_if (λ r. not (is_paired old new r)) old)
            (keep_if (λ r. not (is_paired old new r)) new),
        count-kept n (λ r. not (is_paired old new r)) old,
        parted n (is_paired old new) old,
      ))
]

-- An id's count over the groups of the keys.
abbrev pub spread : ℕ → List String → List Requirement → ℕ
spread n [] rows = 0
spread n (k ∷ ks) rows = count n (ids_of (group k rows)) + spread n ks rows

keys-befores :
    (n : ℕ) (had : Bool) (before after : List Requirement) (keys : List String)
    → count n (befores (compare_keys had before after keys)) ≡ spread n keys before
unfolding compare_keys
keys-befores n had before after [] = refl
keys-befores n had before after (k ∷ ks) = omega (
  arith,
  befores-append n (compare_group had k (group k before) (group k after))
      (compare_keys had before after ks),
  group-befores n had k (group k before) (group k after),
  keys-befores n had before after ks,
)

spread_row :
    (n : ℕ) (keys : List String) (r : Requirement) (rows : List Requirement)
    → spread n keys (r ∷ rows)
      ≡ (if r.id == n then key_count r.identity keys else 0) + spread n keys rows
unfolding group
spread_row n [] r rows = ground arith
spread_row n (k ∷ ks) r rows = ground (arith, spread_row n ks r rows)

spread_none : (n : ℕ) (keys : List String) → spread n keys [] ≡ 0
unfolding group
spread_none n [] = refl
spread_none n (k ∷ ks) = ground (arith, spread_none n ks)

pub spread-All :
    (n : ℕ) (keys : List String) (rows : List Requirement)
    → All (λ r. key_count r.identity keys ≡ 1) rows
    → spread n keys rows ≡ count n (ids_of rows)
spread-All n keys [] h = spread_none n keys
spread-All n keys (r ∷ rs) h = ground (arith, h.0, spread_row n keys r rs, spread-All n keys rs h.1)

module _ {ℓ} (P : Requirement → Type ℓ) where
  All-left : (xs ys : List Requirement) → All P (xs ++ ys) → All P xs
  All-left [] ys h = tt
  All-left (x ∷ xs) ys h = (h.0, All-left xs ys h.1)

  pub All-right : (xs ys : List Requirement) → All P (xs ++ ys) → All P ys
  All-right [] ys h = h
  All-right (x ∷ xs) ys h = All-right xs ys h.1

-- Every earlier requirement is named in the comparison, on the side of the earlier snapshot, as often
-- as it was given.
pub comparison_keeps_before :
    (before after : List Requirement) (n : ℕ)
    → count n (befores (compare_requirements before after)) ≡ count n (ids_of before)
unfolding compare_requirements
comparison_keeps_before before after n =
    keys-befores n (elim before [ [] ↦ false | _ ∷ _ ↦ true ]) before after
      (keys_of (before ++ after))
    ∙ spread-All n (keys_of (before ++ after)) before (
        All-left (λ r. key_count r.identity (keys_of (before ++ after)) ≡ 1) before after
          (keys-exact (before ++ after)))
