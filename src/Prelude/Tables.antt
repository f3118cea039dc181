-- ===== src/Prelude/Tables.antt =====
-- Rows of a database table as a list: what the SQL statements of the repositories do to them.
use Prim.Native.Nat.{◌≤◌, ◌<◌}
use mathlib.Core.Path.{◌≡◌, refl, subst, sym, ◌∙◌}
use mathlib.Core.Logic.{inl, inr}
use mathlib.Core.Bool.{Bool, true, ◌&&◌, false≢true}
use mathlib.Core.Option.{Option, none, some, none-ne-some, some-injective}
use mathlib.Core.Option
use mathlib.Core.List.{List, [], ◌∷◌}
use native.Mathlib.Omega.{arith}
use ai_test_assistant.Prelude.Tests.{if◌then◌else◌, Bool-cases}
use ai_test_assistant.Prelude.Lists.{All, count_p, any_of}

module _ {ℓ} {A : Type ℓ} where
  abbrev pub apply_if : (A → Bool) → (A → A) → A → A
  apply_if p f x = if p x then f x else x

  -- `UPDATE … SET f WHERE p`; the rows affected are `count_p p`.
  unfoldable pub update : (A → Bool) → (A → A) → List A → List A
  update p f [] = []
  update p f (x ∷ xs) = apply_if p f x ∷ update p f xs

  -- `SELECT … WHERE p LIMIT 1`.
  unfoldable pub find : (A → Bool) → List A → Option A
  find p [] = none
  find p (x ∷ xs) = if p x then some x else find p xs

  -- An update that leaves the searched columns alone acts on the row that is found.
  pub find-update :
      (q p : A → Bool) (f : A → A) (xs : List A)
      → ((x : A) → q (apply_if p f x) ≡ q x)
      → find q (update p f xs) ≡ Option.map (apply_if p f) (find q xs)
  unfolding find update
  find-update q p f [] h = refl
  find-update q p f (x ∷ xs) h = ground (arith, h x, find-update q p f xs h)

  -- A row that is found passes the search's test.
  pub find_sound : (q : A → Bool) (xs : List A) (x : A) → find q xs ≡ some x → q x ≡ true
  unfolding find
  find_sound q [] x h = cc
  find_sound q (y ∷ xs) x h = ground (arith, find_sound q xs x)

  -- What every row has keeps under an update that keeps it.
  pub All-update {κ} :
      (P : A → Type κ) (p : A → Bool) (f : A → A) (xs : List A)
      → ((x : A) → P x → P (apply_if p f x))
      → All P xs
      → All P (update p f xs)
  unfolding update
  All-update P p f [] h a = tt
  All-update P p f (x ∷ xs) h a = (h x a.0, All-update P p f xs h a.1)

  -- What every row has, a row that is found has.
  pub All-find {κ} :
      (P : A → Type κ) (q : A → Bool) (xs : List A) (x : A) → All P xs → find q xs ≡ some x → P x
  unfolding find
  All-find P q [] x a h = absurd (none-ne-some x h)
  All-find P q (y ∷ xs) x a h = elim (Bool-cases (q y)) [
    | inl e ↦ subst P (some-injective y x (rw e at h)) a.0
    | inr e ↦ All-find P q xs x a.1 (rw e at h)
  ]

module _ {ℓ} {A : Type ℓ} where
  -- An update that leaves the tested columns alone leaves the count alone.
  pub count_p-update :
      (q p : A → Bool) (f : A → A) (xs : List A)
      → ((x : A) → q (apply_if p f x) ≡ q x)
      → count_p q (update p f xs) ≡ count_p q xs
  unfolding update
  count_p-update q p f [] h = refl
  count_p-update q p f (x ∷ xs) h = rw (h x, count_p-update q p f xs h)

  count_p-and_zero :
      (q r : A → Bool) (xs : List A) → count_p q xs ≡ 0 → count_p (λ x. q x && r x) xs ≡ 0
  count_p-and_zero q r [] h = refl
  count_p-and_zero q r (x ∷ xs) h = ground (arith, count_p-and_zero q r xs)

  -- Of the one row that passes a test, a second test decides the count.
  pub count_p-and_find :
      (q r : A → Bool) (xs : List A) (x : A)
      → count_p q xs ≤ 1
      → find q xs ≡ some x
      → count_p (λ y. q y && r y) xs ≡ (if r x then 1 else 0)
  unfolding find
  count_p-and_find q r [] x h e = absurd (none-ne-some x e)
  count_p-and_find q r (y ∷ xs) x h e =
      ground (arith, count_p-and_zero q r xs, count_p-and_find q r xs x)

  find-and_none :
      (q r : A → Bool) (xs : List A) → count_p q xs ≡ 0 → find (λ y. q y && r y) xs ≡ none
  unfolding find
  find-and_none q r [] h = refl
  find-and_none q r (y ∷ xs) h = ground (arith, find-and_none q r xs)

  -- A row that passes both tests is the one row that passes the first.
  pub find-and :
      (q r : A → Bool) (xs : List A) (x : A)
      → count_p q xs ≤ 1
      → find (λ y. q y && r y) xs ≡ some x
      → find q xs ≡ some x
  unfolding find
  find-and q r [] x h e = e
  find-and q r (y ∷ xs) x h e = ground (arith, find-and_none q r xs, find-and q r xs x)

  -- A test that some row passes finds a row.
  pub find_of_count_p :
      (q : A → Bool) (xs : List A) → 0 < count_p q xs → (x : A) × (find q xs ≡ some x)
  unfolding find
  find_of_count_p q [] h = absurd (omega arith)
  find_of_count_p q (y ∷ xs) h = elim (Bool-cases (q y)) [
    | inl e ↦ (y, rw e)
    | inr e ↦ rw e (find_of_count_p q xs (ground arith))
  ]

  zero_rows :
      (q : A → Bool) (P : A → Type ℓ) (xs : List A)
      → count_p q xs ≡ 0
      → All (λ x. q x ≡ true → P x) xs
  zero_rows q P [] h = tt
  zero_rows q P (x ∷ xs) h = elim (Bool-cases (q x)) [
    | inl e ↦ absurd (ground arith)
    | inr e ↦ (λ t. absurd (false≢true (sym e ∙ t)), zero_rows q P xs (ground arith))
  ]

  -- Where one row at most passes a test, each row that passes it is the row that is found.
  pub one_row :
      (q r : A → Bool) (xs : List A) (y : A)
      → count_p q xs ≤ 1
      → find (λ x. q x && r x) xs ≡ some y
      → All (λ x. q x ≡ true → x ≡ y) xs
  unfolding find
  one_row q r [] y h e = tt
  one_row q r (x ∷ xs) y h e = elim (Bool-cases (q x)) [
    | inl t ↦ elim (Bool-cases (r x)) [
      | inl u ↦
          (λ _. some-injective x y (rw (t, u) at e), zero_rows q (λ z. z ≡ y) xs (ground arith))
      | inr u ↦
          absurd (none-ne-some y (sym (find-and_none q r xs (ground arith)) ∙ (rw (t, u) at e)))
    ]
    | inr f ↦ (λ t. absurd (false≢true (sym f ∙ t)), one_row q r xs y (ground arith) (rw f at e))
  ]

  -- An update keeps what every row has, from what else is known of each row.
  pub All-update_when {κ μ} :
      (P : A → Type κ) (H : A → Type μ) (p : A → Bool) (f : A → A) (xs : List A)
      → ((x : A) → P x → H x → P (apply_if p f x))
      → All P xs
      → All H xs
      → All P (update p f xs)
  unfolding update
  All-update_when P H p f [] k a h = tt
  All-update_when P H p f (x ∷ xs) k a h = (k x a.0 h.0, All-update_when P H p f xs k a.1 h.1)

  -- Where an update reaches only rows that pass the test, it is enough to follow the row that is found.
  pub All-update_one {κ} :
      (P : A → Type κ) (q r p : A → Bool) (f : A → A) (xs : List A) (y : A)
      → count_p q xs ≤ 1
      → find (λ x. q x && r x) xs ≡ some y
      → ((x : A) → p x ≡ true → q x ≡ true)
      → (P y → P (f y))
      → All P xs
      → All P (update p f xs)
  All-update_one P q r p f xs y one found sub keep a =
      All-update_when P (λ x. q x ≡ true → x ≡ y) p f xs
        (λ x px hx. elim (Bool-cases (p x)) [
          | inl e ↦
              (let same = hx (sub x e) in
                rw e (subst (λ z. P (f z)) (sym same) (keep (subst P same px))))
          | inr e ↦ rw e px
        ])
        a (one_row q r xs y one found)

  -- A row that passes both tests counts among those that pass the first.
  pub find-and_pos :
      (q r : A → Bool) (xs : List A) (x : A) → find (λ y. q y && r y) xs ≡ some x → 0 < count_p q xs
  unfolding find
  find-and_pos q r [] x e = absurd (none-ne-some x e)
  find-and_pos q r (y ∷ xs) x e = ground (arith, find-and_pos q r xs x)

  -- A test that some row passes, finds a row.
  pub find_of_any :
      (q : A → Bool) (xs : List A) → any_of q xs ≡ true → (x : A) × (find q xs ≡ some x)
  unfolding find
  find_of_any q [] h = absurd (false≢true h)
  find_of_any q (y ∷ xs) h = elim (Bool-cases (q y)) [
    | inl e ↦ (y, rw e)
    | inr e ↦ rw e (find_of_any q xs (rw e at h))
  ]

  -- What an update makes of each row.
  pub All-update_map {κ μ} :
      (H : A → Type μ) (P : A → Type κ) (p : A → Bool) (f : A → A) (xs : List A)
      → ((x : A) → H x → P (apply_if p f x))
      → All H xs
      → All P (update p f xs)
  unfolding update
  All-update_map H P p f [] k h = tt
  All-update_map H P p f (x ∷ xs) k h = (k x h.0, All-update_map H P p f xs k h.1)

  -- Where one row at most passes a test, the row that is found is the only one.
  pub only_row :
      (q : A → Bool) (xs : List A) (y : A)
      → count_p q xs ≤ 1
      → find q xs ≡ some y
      → All (λ x. q x ≡ true → x ≡ y) xs
  unfolding find
  only_row q [] y h e = tt
  only_row q (x ∷ xs) y h e = elim (Bool-cases (q x)) [
    | inl t ↦ (λ _. some-injective x y (rw t at e), zero_rows q (λ z. z ≡ y) xs (ground arith))
    | inr f ↦ (λ t. absurd (false≢true (sym f ∙ t)), only_row q xs y (ground arith) (rw f at e))
  ]

  -- An update that no row passes changes nothing.
  pub update_none : (p : A → Bool) (f : A → A) (xs : List A) → count_p p xs ≡ 0 → update p f xs ≡ xs
  unfolding update
  update_none p f [] h = refl
  update_none p f (x ∷ xs) h = elim (Bool-cases (p x)) [
    | inl e ↦ absurd (ground arith)
    | inr e ↦ rw (e, update_none p f xs (ground arith)) refl
  ]
