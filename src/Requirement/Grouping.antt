-- ===== src/Requirement/Grouping.antt =====
-- The keys of `compareRequirements` part the rows: each row is in the group of exactly one key.
use Prim.Native.String.{String}
use text.Mathlib.TextEquality.{eq_iff}
use text.Mathlib.TextPositions.{eq_refl}
use ai_test_assistant.Prelude.{
  ℕ, ◌≤◌, ◌≡◌, refl, sym, subst, true, false, ◌=s◌, List, [], ◌∷◌, any_of, count_p, All, All-mono,
  arith, Bool-cases, inl, inr,
}
use ai_test_assistant.Requirement.Comparison.{Requirement, insert_key, add_key, keys_of}

-- How often a key stands in a list.
abbrev pub key_count : String → List String → ℕ
key_count k = count_p (λ x. k =s x)

insert_key-count :
    (k a : String) (xs : List String) → key_count k (insert_key a xs) ≡ key_count k (a ∷ xs)
unfolding insert_key
insert_key-count k a [] = refl
insert_key-count k a (x ∷ xs) = ground (arith, insert_key-count k a xs)

no_key : (k : String) (xs : List String) → any_of (λ x. k =s x) xs ≡ false → key_count k xs ≡ 0
no_key k [] h = refl
no_key k (x ∷ xs) h = ground (arith, no_key k xs)

some_key : (k : String) (xs : List String) → any_of (λ x. k =s x) xs ≡ true → 1 ≤ key_count k xs
some_key k [] h = absurd (ground arith)
some_key k (x ∷ xs) h = ground (arith, some_key k xs)

-- Adding a key keeps the keys distinct.
add_key-once :
    (k a : String) (xs : List String) → key_count k xs ≤ 1 → key_count k (add_key a xs) ≤ 1
unfolding add_key
add_key-once k a xs h = elim (Bool-cases (any_of (λ x. a =s x) xs)) [
  | inl e ↦ rw e h
  | inr e ↦ rw e (elim (Bool-cases (k =s a)) [
    | inl same ↦
        (let none_left =
            subst (λ b. key_count b xs ≡ 0) (sym ((eq_iff k a).0 same)) (no_key a xs e) in
          ground (arith, insert_key-count k a xs, none_left))
    | inr other ↦ ground (arith, insert_key-count k a xs, h)
  ])
]

add_key-keeps :
    (k a : String) (xs : List String) → 1 ≤ key_count k xs → 1 ≤ key_count k (add_key a xs)
unfolding add_key
add_key-keeps k a xs h = elim (Bool-cases (any_of (λ x. a =s x) xs)) [
  | inl e ↦ rw e h
  | inr e ↦ rw e (ground (arith, insert_key-count k a xs))
]

add_key_self : (a : String) (xs : List String) → 1 ≤ key_count a (add_key a xs)
unfolding add_key
add_key_self a xs = elim (Bool-cases (any_of (λ x. a =s x) xs)) [
  | inl e ↦ rw e (some_key a xs e)
  | inr e ↦ rw e (ground (arith, insert_key-count a a xs, eq_refl a))
]

keys-once : (k : String) (rows : List Requirement) → key_count k (keys_of rows) ≤ 1
unfolding keys_of
keys-once k [] = omega arith
keys-once k (r ∷ rs) = add_key-once k r.identity (keys_of rs) (keys-once k rs)

keys-cover : (rows : List Requirement) → All (λ r. 1 ≤ key_count r.identity (keys_of rows)) rows
unfolding keys_of
keys-cover [] = tt
keys-cover (r ∷ rs) = (
  add_key_self r.identity (keys_of rs),
  All-mono _ _ rs (λ x h. add_key-keeps x.identity r.identity (keys_of rs) h) (keys-cover rs),
)

-- Each row's identity is exactly one of the keys.
pub keys-exact : (rows : List Requirement) → All (λ r. key_count r.identity (keys_of rows) ≡ 1) rows
keys-exact rows =
    All-mono _ _ rows (λ r h. omega (arith, h, keys-once r.identity rows)) (keys-cover rows)
