-- ===== src/Analyzer/Impact/Ending.antt =====
-- How much fuel the search takes (backend/internal/analyzer/impact_engine.go).
use Prim.Native.String.{String}
use ai_test_assistant.Prelude.{
  ℕ, zero, suc, ◌+◌, ◌*◌, ◌≤◌, ◌≡◌, ap, inl, inr, Bool, some, List, [], ◌∷◌, arith, All, length,
  Option-cases, List-cases, put_entry, entry, put_entry-All, entry-All,
}
use ai_test_assistant.Analyzer.Graph.{
  sort_direct, ImpactOptions, Reason, Node, DirectSymbol, GraphData,
}
use ai_test_assistant.Analyzer.Impact.{
  Search, visit_queue, select_all, empty_search, expand, search_loop, start_search, select_impact,
}
use ai_test_assistant.Analyzer.Impact.Bounds.{
  IsBounded, search_loop-IsBounded, start_search-IsBounded,
}
use ai_test_assistant.Analyzer.Impact.Measure.{rank, weight, measure, measure-expand}

module _ {S : Type 0} (one : S) (impact_score : Reason → ℕ → S) (higher : S → S → Bool)
    (options : ImpactOptions) where
  search_loop_ends :
      (fuel : ℕ) (g : GraphData S) (s : Search S)
      → measure one impact_score higher options g s ≤ fuel
      → (t : Search S) × (search_loop one impact_score higher options fuel g s ≡ some t)
  unfolding search_loop
  search_loop_ends zero g s l = elim (List-cases (s.queue)) [
    | inl f ↦ (s, simp (search_loop, f))
    | inr (x, q, f) ↦
        let size : length (s.queue) ≡ suc (length q) = ap length f in
        absurd (omega (arith, l, size))
  ]
  search_loop_ends (suc fuel) g s l = elim (List-cases (s.queue)) [
    | inl f ↦ (s, simp (search_loop, f))
    | inr (x, q, f) ↦
        let size : length (s.queue) ≡ suc (length q) = ap length f in
        let smaller =
          measure-expand one impact_score higher options g (x.0) (x.1) (record s { queue = q }) in
        let (t, e) =
          search_loop_ends fuel g
            (expand one impact_score higher options g (x.0) (x.1) (record s { queue = q }))
            (omega (arith, l, size, smaller)) in
        (t, rw (search_loop, f) e)
  ]

  visit_queue-All :
      (q m : List (String × ℕ))
      → All (λ e. e.1 ≤ suc (options.max_depth)) m
      → All (λ e. e.1 ≤ suc (options.max_depth)) (visit_queue one impact_score higher options q m)
  unfolding visit_queue
  visit_queue-All [] m h = h
  visit_queue-All ((k, d) ∷ q) m h =
      visit_queue-All q (put_entry k 0 m)
        (put_entry-All (λ v. v ≤ suc (options.max_depth)) k 0 m (omega arith) h)

  rank_limit :
      (k : String) (m : List (String × ℕ))
      → All (λ e. e.1 ≤ suc (options.max_depth)) m
      → rank one impact_score higher options (entry k m) ≤ suc (options.max_depth)
  rank_limit k m h = elim (Option-cases (entry k m)) [
    | inl e ↦ rw e (omega arith)
    | inr (d, e) ↦ rw e (entry-All (λ v. v ≤ suc (options.max_depth)) k d m h e)
  ]

  weight_limit :
      (ns : List (String × Node S)) (m : List (String × ℕ))
      → All (λ e. e.1 ≤ suc (options.max_depth)) m
      → weight one impact_score higher options ns m ≤ length ns * suc (options.max_depth)
  weight_limit [] m h = omega arith
  weight_limit ((k, n) ∷ ns) m h =
      let here = rank_limit k m h in let others = weight_limit ns m h in grind (arith, here, others)

  weight-start_search :
      (g : GraphData S) (direct : List DirectSymbol)
      → weight one impact_score higher options
          ((start_search one impact_score higher options g direct).0.nodes)
          ((start_search one impact_score higher options g direct).1.visited_depth)
        ≤ length ((start_search one impact_score higher options g direct).0.nodes)
          * suc (options.max_depth)
  unfolding start_search
  weight-start_search g direct = weight_limit _ _ (
      visit_queue-All
        ((select_all one impact_score higher options (sort_direct direct) g
          (empty_search one impact_score higher options)).1.queue)
        [] tt)

  -- Whatever the graph and the changed symbols: with fuel for the queued symbols and for each node of the
  -- graph once per depth, `selectImpact` empties its queue, so its loop ends, and what it selected then is at
  -- most `MaxNodes` nodes, none deeper than `MaxDepth`.
  pub search_ends_within_limits :
      (fuel : ℕ) (g : GraphData S) (direct : List DirectSymbol)
      → length ((start_search one impact_score higher options g direct).1.queue)
          + length ((start_search one impact_score higher options g direct).0.nodes)
            * suc (options.max_depth)
        ≤ fuel
      → (t : Search S) × (select_impact one impact_score higher options fuel g direct ≡ some t)
        × IsBounded one impact_score higher options t
  unfolding select_impact
  search_ends_within_limits fuel g direct l =
      let begun = start_search one impact_score higher options g direct in
      let small : weight one impact_score higher options (begun.0.nodes) (begun.1.visited_depth)
          ≤ length (begun.0.nodes) * suc (options.max_depth) =
        weight-start_search g direct in
      let (t, e) = search_loop_ends fuel (begun.0) (begun.1) (omega (arith, l, small)) in
      (
        t,
        e,
        search_loop-IsBounded one impact_score higher options fuel (begun.0) (begun.1) t
            (start_search-IsBounded one impact_score higher options g direct) e,
      )
