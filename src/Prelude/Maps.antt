-- ===== src/Prelude/Maps.antt =====
-- Go maps with string keys as association lists with one entry per key.
use Prim.Native.Nat.{suc}
use Prim.Native.String.{String}
use text.Mathlib.TextEquality.{eq_iff}
use text.Mathlib.TextPositions.{eq_refl}
use mathlib.Core.Path.{◌≡◌, refl, ap, subst, ◌∙◌}
use mathlib.Core.Logic.{inl, inr}
use mathlib.Core.Bool.{true, false}
use mathlib.Core.Option.{Option, none, some, none-ne-some, some-injective}
use mathlib.Core.List.{List, [], ◌∷◌}
use native.Mathlib.Omega.{arith}
use ai_test_assistant.Prelude.Tests.{◌=s◌, if◌then◌else◌, is_some, Bool-cases}
use ai_test_assistant.Prelude.Lists.{All, length}

module _ {ℓ} {V : Type ℓ} where
  -- `m[key] = value`.
  unfoldable pub put_entry : String → V → List (String × V) → List (String × V)
  put_entry k v [] = (k, v) ∷ []
  put_entry k v ((j, w) ∷ m) =
      let rest = put_entry k v m in if j =s k then (k, v) ∷ m else (j, w) ∷ rest

  -- `value, ok := m[key]`.
  unfoldable pub entry : String → List (String × V) → Option V
  entry k [] = none
  entry k ((j, w) ∷ m) = let rest = entry k m in if j =s k then some w else rest

  pub entry-put_entry :
      (k : String) (v : V) (m : List (String × V)) → entry k (put_entry k v m) ≡ some v
  unfolding entry put_entry
  entry-put_entry k v [] = rw (eq_refl k) refl
  entry-put_entry k v ((j, w) ∷ m) = elim (Bool-cases (j =s k)) [
    | inl e ↦ rw (e, eq_refl k) refl
    | inr e ↦ rw (e, e) (entry-put_entry k v m)
  ]

  pub entry-put_entry_other :
      (k i : String) (v : V) (m : List (String × V))
      → (k =s i) ≡ false
      → entry i (put_entry k v m) ≡ entry i m
  unfolding entry put_entry
  entry-put_entry_other k i v [] h = rw h refl
  entry-put_entry_other k i v ((j, w) ∷ m) h = elim (Bool-cases (j =s k)) [
    | inl e ↦ rw e (rw (h, ap (λ x. x =s i) ((eq_iff j k).0 e) ∙ h) refl)
    | inr e ↦ rw e (ground (arith, entry-put_entry_other k i v m h))
  ]

  -- A map grows by a new key only, and by one.
  pub length-put_entry :
      (k : String) (v : V) (m : List (String × V))
      → length (put_entry k v m) ≡ (if is_some (entry k m) then length m else suc (length m))
  unfolding entry put_entry
  length-put_entry k v [] = refl
  length-put_entry k v ((j, w) ∷ m) = ground (arith, length-put_entry k v m)

  pub put_entry-All {κ} :
      (P : V → Type κ) (k : String) (v : V) (m : List (String × V))
      → P v
      → All (λ e. P (e.1)) m
      → All (λ e. P (e.1)) (put_entry k v m)
  unfolding put_entry
  put_entry-All P k v [] p h = (p, tt)
  put_entry-All P k v ((j, w) ∷ m) p h = elim (Bool-cases (j =s k)) [
    | inl e ↦ rw e (p, h.1)
    | inr e ↦ rw e (h.0, put_entry-All P k v m p (h.1))
  ]

  pub entry-All {κ} :
      (P : V → Type κ) (k : String) (v : V) (m : List (String × V))
      → All (λ e. P (e.1)) m
      → entry k m ≡ some v
      → P v
  unfolding entry
  entry-All P k v [] h e = absurd (none-ne-some v e)
  entry-All P k v ((j, w) ∷ m) h e = elim (Bool-cases (j =s k)) [
    | inl f ↦ subst P (some-injective w v (rw f at e)) (h.0)
    | inr f ↦ entry-All P k v m (h.1) (rw f at e)
  ]

  pub put_entry-All_pairs {κ} :
      (P : String × V → Type κ) (k : String) (v : V) (m : List (String × V))
      → P (k, v)
      → All P m
      → All P (put_entry k v m)
  unfolding put_entry
  put_entry-All_pairs P k v [] p h = (p, tt)
  put_entry-All_pairs P k v ((j, w) ∷ m) p h = elim (Bool-cases (j =s k)) [
    | inl e ↦ rw e (p, h.1)
    | inr e ↦ rw e (h.0, put_entry-All_pairs P k v m p (h.1))
  ]

  pub entry-All_pairs {κ} :
      (P : String × V → Type κ) (k : String) (v : V) (m : List (String × V))
      → All P m
      → entry k m ≡ some v
      → P (k, v)
  unfolding entry
  entry-All_pairs P k v [] h e = absurd (none-ne-some v e)
  entry-All_pairs P k v ((j, w) ∷ m) h e = elim (Bool-cases (j =s k)) [
    | inl f ↦
        subst (λ x. P (x, v)) ((eq_iff j k).0 f)
          (subst (λ x. P (j, x)) (some-injective w v (rw f at e)) (h.0))
    | inr f ↦ entry-All_pairs P k v m (h.1) (rw f at e)
  ]

  -- A key that is there stays there.
  pub entry-put_entry_keeps :
      (k i : String) (v : V) (m : List (String × V))
      → is_some (entry i m) ≡ true
      → is_some (entry i (put_entry k v m)) ≡ true
  entry-put_entry_keeps k i v m h = elim (Bool-cases (k =s i)) [
    | inl e ↦
        subst (λ x. is_some (entry x (put_entry k v m)) ≡ true) ((eq_iff k i).0 e)
          (ap is_some (entry-put_entry k v m))
    | inr e ↦ ap is_some (entry-put_entry_other k i v m e) ∙ h
  ]
