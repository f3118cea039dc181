-- ===== src/Analyzer/Diff/Collect.antt =====
-- The line numbers that the loop of backend/internal/analyzer/diff_parser.go collects on one side
-- are those of the lines that the hunks change there.
use mathlib.Core.List.{head-eq_of_cons-eq, tail-eq_of_cons-eq, nil≢cons}
use ai_test_assistant.Prelude.{
  sym, subst, ◌∙◌, false≢true, ℕ, suc, ◌≡◌, refl, ap, ◌↔◌, ◌⊎◌, inl, inr, Bool, true, false, List,
  [], ◌∷◌, ◌++◌, arith, any_of, ◌==◌, ==_iff, if◌then◌else◌, Bool-cases,
}
use ai_test_assistant.Analyzer.Diff.Render.{Edit, Hunk, HitsIn, Hits}

-- A number is in a set.
abbrev pub member : ℕ → List ℕ → Bool
member n = any_of (λ m. m == n)

member_cases :
    (b : Bool) (n m : ℕ) (known : List ℕ)
    → member m (if b then n ∷ known else known) ≡ true
    → ((b ≡ true) × (m ≡ n)) ⊎ (member m known ≡ true)
member_cases true n m known h = elim (Bool-cases (n == m)) [
  | inl e ↦ inl (refl, sym ((==_iff n m).0 e))
  | inr e ↦ inr (ground (arith, h, e))
]
member_cases false n m known h = inr h

nil_append : (front : List Edit) (d : Edit) (back : List Edit) → ¬ ([] ≡ front ++ d ∷ back)
nil_append [] d back p = nil≢cons p
nil_append (f ∷ front) d back p = nil≢cons p

module _ (hits on_side : Edit → Bool) where
  -- The numbers of the lines that pass the test, the last in front, before those already known.
  abbrev pub collect : List Edit → ℕ → List ℕ → List ℕ
  collect [] n known = known
  collect (e ∷ es) n known =
      collect es (if on_side e then suc n else n) (if hits e then n ∷ known else known)

  abbrev pub collect_hunks : (Hunk → ℕ) → List Hunk → List ℕ → List ℕ
  collect_hunks first [] known = known
  collect_hunks first (h ∷ hs) known = collect_hunks first hs (collect (h.edits) (first h) known)

  HitsIn-here :
      (e : Edit) (es : List Edit) (n : ℕ) → hits e ≡ true → HitsIn hits on_side (e ∷ es) n n
  unfolding HitsIn
  HitsIn-here e es n h = ([], e, es, refl, h, omega arith)

  HitsIn-later :
      (e : Edit) (es : List Edit) (n m : ℕ)
      → HitsIn hits on_side es (if on_side e then suc n else n) m
      → HitsIn hits on_side (e ∷ es) n m
  unfolding HitsIn
  HitsIn-later e es n m (front, d, back, p, h, q) =
      (e ∷ front, d, back, ap (λ l. e ∷ l) p, h, ground (arith, q))

  HitsIn-cases :
      (e : Edit) (es : List Edit) (n m : ℕ)
      → HitsIn hits on_side (e ∷ es) n m
      → ((hits e ≡ true) × (m ≡ n)) ⊎ HitsIn hits on_side es (if on_side e then suc n else n) m
  unfolding HitsIn
  HitsIn-cases e es n m ([], d, back, p, h, q) =
      inl (ap hits (head-eq_of_cons-eq p) ∙ h, omega (arith, q))
  HitsIn-cases e es n m (f ∷ front, d, back, p, h, q) =
      let same = ap on_side (head-eq_of_cons-eq p) in
      inr (front, d, back, tail-eq_of_cons-eq p, h, ground (arith, q, same))

  pub collect_sound :
      (es : List Edit) (n m : ℕ) (known : List ℕ)
      → member m (collect es n known) ≡ true
      → HitsIn hits on_side es n m ⊎ (member m known ≡ true)
  collect_sound [] n m known h = inr h
  collect_sound (e ∷ es) n m known h =
      elim (collect_sound es (if on_side e then suc n else n) m
        (if hits e then n ∷ known else known) h) [
          | inl k ↦ inl (HitsIn-later e es n m k)
          | inr k ↦ elim (member_cases (hits e) n m known k) [
            | inl (p, q) ↦
                inl (subst (λ x. HitsIn hits on_side (e ∷ es) n x) (sym q) (HitsIn-here e es n p))
            | inr q ↦ inr q
          ]
        ]

  pub collect_complete :
      (es : List Edit) (n m : ℕ) (known : List ℕ)
      → HitsIn hits on_side es n m ⊎ (member m known ≡ true)
      → member m (collect es n known) ≡ true
  unfolding HitsIn
  collect_complete [] n m known h = elim h [
    | inl (front, d, back, p, _, _) ↦ absurd (nil_append front d back p)
    | inr k ↦ k
  ]
  collect_complete (e ∷ es) n m known h =
      let next = if on_side e then suc n else n in
      let known' = if hits e then n ∷ known else known in
      collect_complete es next m known' (elim h [
        | inl k ↦ elim (HitsIn-cases e es n m k) [
          | inl (p, q) ↦ inr (ground (arith, p, q, ==_iff n m))
          | inr k' ↦ inl k'
        ]
        | inr k ↦ inr (ground (arith, k))
      ])

no_hunk : (front : List Hunk) (h : Hunk) (back : List Hunk) → ¬ ([] ≡ front ++ h ∷ back)
no_hunk [] h back p = nil≢cons p
no_hunk (f ∷ front) h back p = nil≢cons p

module _ (hits on_side : Edit → Bool) (first : Hunk → ℕ) where
  Hits-cases :
      (h : Hunk) (hs : List Hunk) (m : ℕ)
      → Hits hits on_side first (h ∷ hs) m
      → HitsIn hits on_side (h.edits) (first h) m ⊎ Hits hits on_side first hs m
  unfolding Hits
  Hits-cases h hs m ([], k, after, p, q) =
      inl (subst (λ x. HitsIn hits on_side (x.edits) (first x) m) (sym (head-eq_of_cons-eq p)) q)
  Hits-cases h hs m (f ∷ before, k, after, p, q) = inr (before, k, after, tail-eq_of_cons-eq p, q)

  Hits-later :
      (h : Hunk) (hs : List Hunk) (m : ℕ)
      → Hits hits on_side first hs m
      → Hits hits on_side first (h ∷ hs) m
  unfolding Hits
  Hits-later h hs m (before, k, after, p, q) = (h ∷ before, k, after, ap (λ l. h ∷ l) p, q)

  Hits-here :
      (h : Hunk) (hs : List Hunk) (m : ℕ)
      → HitsIn hits on_side (h.edits) (first h) m
      → Hits hits on_side first (h ∷ hs) m
  unfolding Hits
  Hits-here h hs m q = ([], h, hs, refl, q)

  collect_hunks_sound :
      (hs : List Hunk) (m : ℕ) (known : List ℕ)
      → member m (collect_hunks hits on_side first hs known) ≡ true
      → Hits hits on_side first hs m ⊎ (member m known ≡ true)
  collect_hunks_sound [] m known h = inr h
  collect_hunks_sound (k ∷ hs) m known h =
      elim (collect_hunks_sound hs m (collect hits on_side (k.edits) (first k) known) h) [
        | inl q ↦ inl (Hits-later k hs m q)
        | inr q ↦ elim (collect_sound hits on_side (k.edits) (first k) m known q) [
          | inl r ↦ inl (Hits-here k hs m r)
          | inr r ↦ inr r
        ]
      ]

  collect_hunks_complete :
      (hs : List Hunk) (m : ℕ) (known : List ℕ)
      → Hits hits on_side first hs m ⊎ (member m known ≡ true)
      → member m (collect_hunks hits on_side first hs known) ≡ true
  unfolding Hits
  collect_hunks_complete [] m known h = elim h [
    | inl (before, k, after, p, _) ↦ absurd (no_hunk before k after p)
    | inr q ↦ q
  ]
  collect_hunks_complete (k ∷ hs) m known h =
      let rest = collect hits on_side (k.edits) (first k) known in
      let here = collect_complete hits on_side (k.edits) (first k) m known in
      collect_hunks_complete hs m rest (elim h [
        | inl q ↦ elim (Hits-cases k hs m q) [ inl r ↦ inr (here (inl r)) | inr r ↦ inl r ]
        | inr q ↦ inr (here (inr q))
      ])

  -- With nothing known before, the collected numbers are those of the lines that pass the test.
  pub collect_hunks_lem :
      (hs : List Hunk) (m : ℕ)
      → (member m (collect_hunks hits on_side first hs []) ≡ true) ↔ Hits hits on_side first hs m
  collect_hunks_lem hs m = (
    λ h. elim (collect_hunks_sound hs m [] h) [ inl q ↦ q | inr q ↦ absurd (false≢true q) ],
    λ q. collect_hunks_complete hs m [] (inl q),
  )
