-- ===== src/Analyzer/Mapper/Hits.antt =====
-- The search for a changed line among the sorted lines finds one just if there is one in the
-- symbol's range (backend/internal/analyzer/mapper.go).
use ai_test_assistant.Prelude.{
  inl, inr, ℕ, ◌≡◌, refl, Bool, false, ◌&&◌, List, [], ◌∷◌, arith, any_of, ltb, leb, leb→le, All,
  All-mono, Bool-cases, ◌≤◌, ◌∙◌,
}
use ai_test_assistant.Analyzer.Mapper.{Symbol, insert_int, sort_ints, search_ints, is_hit}

-- A number is in the range of a symbol.
abbrev pub in_range : Symbol → ℕ → Bool
in_range s n = leb (s.start_line) n && leb n (s.end_line)

-- Some changed line is in the range of a symbol.
abbrev pub touched : List ℕ → Symbol → Bool
touched lines s = any_of (in_range s) lines

abbrev Sorted : List ℕ → Type 0
Sorted [] = Unit
Sorted (n ∷ ns) = All (λ m. n ≤ m) ns × Sorted ns

insert_int-All : (P : ℕ → Type 0) (n : ℕ) (ns : List ℕ) → P n → All P ns → All P (insert_int n ns)
unfolding insert_int
insert_int-All P n [] p ps = (p, tt)
insert_int-All P n (m ∷ ms) p ps = elim (Bool-cases (leb n m)) [
  | inl e ↦ rw e (p, ps)
  | inr e ↦ rw e (ps.0, insert_int-All P n ms p (ps.1))
]

insert_int-Sorted : (n : ℕ) (ns : List ℕ) → Sorted ns → Sorted (insert_int n ns)
unfolding insert_int
insert_int-Sorted n [] h = (tt, tt)
insert_int-Sorted n (m ∷ ms) h = elim (Bool-cases (leb n m)) [
  | inl e ↦ rw e (
    (
      leb→le n m e,
      All-mono (λ k. m ≤ k) (λ k. n ≤ k) ms (λ k q. omega (arith, leb→le n m e, q)) (h.0),
    ),
    h,
  )
  | inr e ↦
      rw e
        (insert_int-All (λ k. m ≤ k) n ms (ground (arith, e)) (h.0), insert_int-Sorted n ms (h.1))
]

sort_ints-Sorted : (ns : List ℕ) → Sorted (sort_ints ns)
unfolding sort_ints
sort_ints-Sorted [] = tt
sort_ints-Sorted (n ∷ ns) = insert_int-Sorted n (sort_ints ns) (sort_ints-Sorted ns)

any_of-insert_int :
    (p : ℕ → Bool) (n : ℕ) (ns : List ℕ) → any_of p (insert_int n ns) ≡ any_of p (n ∷ ns)
unfolding insert_int
any_of-insert_int p n [] = refl
any_of-insert_int p n (m ∷ ms) = ground (arith, any_of-insert_int p n ms)

any_of-sort_ints : (p : ℕ → Bool) (ns : List ℕ) → any_of p (sort_ints ns) ≡ any_of p ns
unfolding sort_ints
any_of-sort_ints p [] = refl
any_of-sort_ints p (n ∷ ns) =
    any_of-insert_int p n (sort_ints ns) ∙ ground (arith, any_of-sort_ints p ns)

-- Past a line beyond the range, every line is beyond it.
beyond :
    (s : Symbol) (m : ℕ) (ns : List ℕ)
    → All (λ n. m ≤ n) ns
    → leb m (s.end_line) ≡ false
    → touched ns s ≡ false
beyond s m [] h e = refl
beyond s m (n ∷ ns) h e = ground (arith, h.0, e, beyond s m ns (h.1) e)

is_hit-Sorted : (lines : List ℕ) (s : Symbol) → Sorted lines → is_hit lines s ≡ touched lines s
unfolding is_hit search_ints
is_hit-Sorted [] s h = refl
is_hit-Sorted (n ∷ ns) s h = elim (Bool-cases (ltb n (s.start_line))) [
  | inl e ↦ ground (arith, e, is_hit-Sorted ns s (h.1))
  | inr e ↦ elim (Bool-cases (leb n (s.end_line))) [
    | inl f ↦ ground (arith, e, f)
    | inr f ↦ ground (arith, e, f, beyond s n ns (h.0) f)
  ]
]

-- A symbol is a hit just if some changed line lies between its first line and its last.
pub is_hit-sort_ints : (lines : List ℕ) (s : Symbol) → is_hit (sort_ints lines) s ≡ touched lines s
is_hit-sort_ints lines s =
    is_hit-Sorted (sort_ints lines) s (sort_ints-Sorted lines) ∙ any_of-sort_ints (in_range s) lines
