-- ===== src/Prelude/Texts.antt =====
-- Go strings as lists of bytes: prefixes, and `strings.Split` and `strings.Join` at one byte.
use Prim.Native.Nat.{ℕ}
use Prim.Native.Char.{code}
use Prim.Native.String.{String}
use mathlib.Core.Path.{◌≡◌, refl}
use mathlib.Core.Logic.{inl, inr}
use mathlib.Core.Bool.{Bool, true, false, ◌&&◌}
use mathlib.Core.List.{List, [], ◌∷◌, ◌++◌}
use native.Mathlib.Omega.{arith}
use ai_test_assistant.Prelude.Tests.{◌==◌, ==_iff, if◌then◌else◌, Bool-cases}
use ai_test_assistant.Prelude.Lists.{All, any_of}

abbrev pub Text : Type 0
Text = List ℕ

-- The bytes of an ASCII literal.
abbrev pub codes : String → Text
codes String.[] = []
codes (String.◌∷◌ c s) = code c ∷ codes s

abbrev pub same_text : Text → Text → Bool
same_text [] [] = true
same_text [] (y ∷ ys) = false
same_text (x ∷ xs) [] = false
same_text (x ∷ xs) (y ∷ ys) = (x == y) && same_text xs ys

-- `strings.HasPrefix(text, prefix)`, the prefix first.
abbrev pub has_prefix : Text → Text → Bool
has_prefix [] ys = true
has_prefix (x ∷ xs) [] = false
has_prefix (x ∷ xs) (y ∷ ys) = (x == y) && has_prefix xs ys

abbrev pub has_byte : ℕ → Text → Bool
has_byte c = any_of (λ x. x == c)

-- One byte in front of the first part.
abbrev pub extend : ℕ → List Text → List Text
extend x [] = (x ∷ []) ∷ []
extend x (t ∷ ts) = (x ∷ t) ∷ ts

-- `strings.Split` at one byte.
abbrev pub split : ℕ → Text → List Text
split c [] = [] ∷ []
split c (x ∷ xs) = let rest = split c xs in if x == c then [] ∷ rest else extend x rest

-- A separator and the parts after the first.
abbrev pub join_rest : ℕ → List Text → Text
join_rest c [] = []
join_rest c (t ∷ ts) = c ∷ (t ++ join_rest c ts)

-- `strings.Join` with one byte.
abbrev pub join : ℕ → List Text → Text
join c [] = []
join c (t ∷ ts) = t ++ join_rest c ts

append_nil {ℓ} : {A : Type ℓ} (xs : List A) → xs ++ [] ≡ xs
append_nil [] = refl
append_nil (x ∷ xs) = cc (append_nil xs)

-- A part with no separator, in front of text whose parts are known.
pub split-extend :
    (c : ℕ) (t u p : Text) (ps : List Text)
    → has_byte c t ≡ false
    → split c u ≡ p ∷ ps
    → split c (t ++ u) ≡ (t ++ p) ∷ ps
split-extend c [] u p ps h k = k
split-extend c (x ∷ t) u p ps h k = elim (Bool-cases (has_byte c t)) [
  | inl e ↦ ground (arith, e)
  | inr e ↦ ground (arith, split-extend c t u p ps e k)
]

pub split-join_rest :
    (c : ℕ) (ts : List Text)
    → All (λ t. has_byte c t ≡ false) ts
    → split c (join_rest c ts) ≡ [] ∷ ts
split-join_rest c [] h = refl
split-join_rest c (t ∷ ts) h =
    let parts = split-extend c t (join_rest c ts) [] ts h.0 (split-join_rest c ts h.1) in
    ground (arith, parts, append_nil t)

pub split-join :
    (c : ℕ) (t : Text) (ts : List Text)
    → has_byte c t ≡ false
    → All (λ u. has_byte c u ≡ false) ts
    → split c (join c (t ∷ ts)) ≡ t ∷ ts
split-join c t ts h hs =
    let parts = split-extend c t (join_rest c ts) [] ts h (split-join_rest c ts hs) in
    ground (arith, parts, append_nil t)

-- There is always a first part.
pub split-parts : (c : ℕ) (t : Text) → (p : Text) × (ps : List Text) × (split c t ≡ p ∷ ps)
split-parts c [] = ([], [], refl)
split-parts c (x ∷ t) =
    let rest = split-parts c t in
    elim (Bool-cases (x == c)) [
      | inl e ↦ ([], split c t, ground (arith, e))
      | inr e ↦ (x ∷ rest.0, rest.1, ground (arith, e, rest.2))
    ]

pub join-split : (c : ℕ) (t : Text) → join c (split c t) ≡ t
join-split c [] = refl
join-split c (x ∷ t) =
    let rest = split-parts c t in
    let same = join-split c t in
    elim (Bool-cases (x == c)) [
      | inl e ↦ ground (arith, e, rest.2, same, ==_iff x c)
      | inr e ↦ ground (arith, e, rest.2, same)
    ]
