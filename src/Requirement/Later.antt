-- ===== src/Requirement/Later.antt =====
-- `compareRequirements` on the side of the later snapshot.
use Prim.Native.String.{String}
use text.Mathlib.TextEquality.{eq_iff}
use ai_test_assistant.Prelude.{
  ℕ, ◌+◌, ◌≡◌, refl, sym, ap, ◌∙◌, Bool, true, false, not, ◌&&◌, ◌==◌, ◌=s◌, List, [], ◌∷◌, ◌++◌,
  map, keep_if, count_p, count_p-append, count, arith, if◌then◌else◌, Bool-cases, inl, inr,
}
use ai_test_assistant.Requirement.Comparison.{
  Requirement, SourceChange, Classification, group, keys_of, change, has_content, is_paired,
  pair_up, leftover, is_unknown, compare_group, compare_keys, compare_requirements,
}
use ai_test_assistant.Requirement.Grouping.{key_count, keys-exact}
use ai_test_assistant.Requirement.Conservation.{
  ids_of, afters, tally, spread, spread-All, count-kept, parted, All-right,
}

=s_sym : (a b : String) → (a =s b) ≡ (b =s a)
=s_sym a b = elim (Bool-cases (a =s b)) [
  | inl e ↦ e ∙ sym ((eq_iff b a).1 (sym ((eq_iff a b).0 e)))
  | inr e ↦ elim (Bool-cases (b =s a)) [
    | inl f ↦ absurd (cc (e, (eq_iff a b).1 (sym ((eq_iff b a).0 f))))
    | inr f ↦ e ∙ sym f
  ]
]

afters-append :
    (n : ℕ) (xs ys : List SourceChange)
    → count n (afters (xs ++ ys)) ≡ count n (afters xs) + count n (afters ys)
afters-append n [] ys = omega arith
afters-append n (c ∷ cs) ys = ground (
  arith,
  count_p-append (λ x. x == n) c.after_ids (afters (cs ++ ys)),
  count_p-append (λ x. x == n) c.after_ids (afters cs),
  afters-append n cs ys,
)

-- How many paired rows of a list have the content of a row.
abbrev partners : List Requirement → List Requirement → List Requirement → Requirement → ℕ
partners old new lefts w =
    count_p (λ left. is_paired old new left && has_content left.content w) lefts

abbrev weigh : ℕ → List Requirement → List Requirement → List Requirement → List Requirement → ℕ
weigh n old new lefts [] = 0
weigh n old new lefts (w ∷ ws) =
    (if w.id == n then partners old new lefts w else 0) + weigh n old new lefts ws

weigh_step :
    (n : ℕ) (old new : List Requirement) (left : Requirement) (lefts ws : List Requirement)
    → weigh n old new (left ∷ lefts) ws
      ≡ (if is_paired old new left then tally n (has_content left.content) ws else 0)
        + weigh n old new lefts ws
weigh_step n old new left lefts [] = ground arith
weigh_step n old new left lefts (w ∷ ws) = ground (arith, weigh_step n old new left lefts ws)

weigh_none : (n : ℕ) (old new ws : List Requirement) → weigh n old new [] ws ≡ 0
weigh_none n old new [] = refl
weigh_none n old new (w ∷ ws) = ground (arith, weigh_none n old new ws)

pair_up-afters :
    (n : ℕ) (old new lefts : List Requirement)
    → count n (afters (pair_up old new lefts)) ≡ weigh n old new lefts new
unfolding pair_up change
pair_up-afters n old new [] = sym (weigh_none n old new new)
pair_up-afters n old new (left ∷ lefts) = elim (Bool-cases (is_paired old new left)) [
  | inl e ↦ rw e (
      ground (
        arith,
        e,
        count_p-append (λ x. x == n) (ids_of (keep_if (has_content left.content) new))
            (afters (pair_up old new lefts)),
        count-kept n (has_content left.content) new,
        pair_up-afters n old new lefts,
        weigh_step n old new left lefts new,
      ))
  | inr e ↦
      rw e (ground (arith, e, pair_up-afters n old new lefts, weigh_step n old new left lefts new))
]

-- Rows of one content are paired together.
paired_alike :
    (old new : List Requirement) (left w : Requirement)
    → (is_paired old new left && has_content left.content w)
      ≡ (is_paired old new w && has_content w.content left)
unfolding is_paired has_content
paired_alike old new left w = elim (Bool-cases (left.content =s w.content)) [
  | inl e ↦
      rw (=s_sym w.content left.content, e)
        (ap (λ c. (count_p (has_content c) old == 1 && count_p (has_content c) new == 1) && true)
          ((eq_iff left.content w.content).0 e))
  | inr e ↦ rw (=s_sym w.content left.content, e) (ground arith)
]

partners_fixed :
    (old new lefts : List Requirement) (w : Requirement)
    → partners old new lefts w
      ≡ (if is_paired old new w then count_p (has_content w.content) lefts else 0)
partners_fixed old new [] w = ground arith
partners_fixed old new (left ∷ lefts) w =
    ground (arith, paired_alike old new left w, partners_fixed old new lefts w)

one_partner :
    (old new : List Requirement) (w : Requirement)
    → partners old new old w ≡ (if is_paired old new w then 1 else 0)
unfolding is_paired
one_partner old new w = ground (arith, partners_fixed old new old w)

weigh_paired :
    (n : ℕ) (old new ws : List Requirement)
    → weigh n old new old ws ≡ tally n (is_paired old new) ws
weigh_paired n old new [] = refl
weigh_paired n old new (w ∷ ws) = ground (arith, one_partner old new w, weigh_paired n old new ws)

singles-afters :
    (n : ℕ) (kind : Classification) (reason : String) (rows : List Requirement)
    → count n (afters (map (λ r. change kind reason [] (r ∷ [])) rows)) ≡ count n (ids_of rows)
unfolding change
singles-afters n kind reason [] = refl
singles-afters n kind reason (r ∷ rs) = ground (arith, singles-afters n kind reason rs)

empties-afters :
    (n : ℕ) (kind : Classification) (reason : String) (rows : List Requirement)
    → count n (afters (map (λ r. change kind reason (r ∷ []) []) rows)) ≡ 0
unfolding change
empties-afters n kind reason [] = refl
empties-afters n kind reason (r ∷ rs) = empties-afters n kind reason rs

leftover-afters :
    (n : ℕ) (vs ws : List Requirement) → count n (afters (leftover vs ws)) ≡ count n (ids_of ws)
unfolding leftover
leftover-afters n [] [] = refl
leftover-afters n [] (w ∷ ws) = singles-afters n _ _ (w ∷ ws)
leftover-afters n (v ∷ vs) [] = empties-afters n _ _ (v ∷ vs)
leftover-afters n (v ∷ []) (w ∷ []) = refl
leftover-afters n (v ∷ []) (w ∷ x ∷ ws) =
    ground (arith, count_p-append (λ x. x == n) (ids_of (w ∷ x ∷ ws)) [])
leftover-afters n (v ∷ u ∷ vs) (w ∷ ws) =
    ground (arith, count_p-append (λ x. x == n) (ids_of (w ∷ ws)) [])

group-afters :
    (n : ℕ) (had : Bool) (key : String) (old new : List Requirement)
    → count n (afters (compare_group had key old new)) ≡ count n (ids_of new)
unfolding compare_group
group-afters n had key old new = elim (Bool-cases (had && is_unknown key)) [
  | inl e ↦ rw e (unfold change in ground (arith, count_p-append (λ x. x == n) (ids_of new) []))
  | inr e ↦ rw e (
      ground (
        arith,
        afters-append n (pair_up old new old) (
            leftover (keep_if (λ r. not (is_paired old new r)) old)
              (keep_if (λ r. not (is_paired old new r)) new)),
        pair_up-afters n old new old,
        weigh_paired n old new new,
        leftover-afters n (keep_if (λ r. not (is_paired old new r)) old)
            (keep_if (λ r. not (is_paired old new r)) new),
        count-kept n (λ r. not (is_paired old new r)) new,
        parted n (is_paired old new) new,
      ))
]

keys-afters :
    (n : ℕ) (had : Bool) (before after : List Requirement) (keys : List String)
    → count n (afters (compare_keys had before after keys)) ≡ spread n keys after
unfolding compare_keys
keys-afters n had before after [] = refl
keys-afters n had before after (k ∷ ks) = omega (
  arith,
  afters-append n (compare_group had k (group k before) (group k after))
      (compare_keys had before after ks),
  group-afters n had k (group k before) (group k after),
  keys-afters n had before after ks,
)

-- Every later requirement is named in the comparison, on the side of the later snapshot, as often as
-- it was given, paired or not.
pub comparison_keeps_after :
    (before after : List Requirement) (n : ℕ)
    → count n (afters (compare_requirements before after)) ≡ count n (ids_of after)
unfolding compare_requirements
comparison_keeps_after before after n =
    keys-afters n (elim before [ [] ↦ false | _ ∷ _ ↦ true ]) before after
      (keys_of (before ++ after))
    ∙ spread-All n (keys_of (before ++ after)) after (
        All-right (λ r. key_count r.identity (keys_of (before ++ after)) ≡ 1) before after
          (keys-exact (before ++ after)))
