-- ===== src/Analyzer/Impact/Bounds.antt =====
-- The limits of the search, step by step (backend/internal/analyzer/impact_engine.go).
use Prim.Native.String.{String}
use ai_test_assistant.Prelude.{
  ℕ, zero, suc, ◌≤◌, ◌<◌, ◌≡◌, refl, subst, inl, inr, Bool, true, false, ◌&&◌, some, List, [], ◌∷◌,
  arith, All, length, leb, is_none, is_some, Bool-cases, Option-cases, List-cases, put_entry, entry,
  length-put_entry, put_entry-All, entry-All, none-ne-some, some-injective,
}
use ai_test_assistant.Analyzer.Graph.{
  ImpactOptions, Reason, Node, DirectSymbol, RawEdge, GraphData, sort_direct, reason_for_edge,
  matching_nodes, direct_node, add_node, outgoing, incoming,
}
use ai_test_assistant.Analyzer.Impact.{
  Search, mark_direct, select_direct, select_all, is_closer, reach, reach_again, keep_edge, test_of,
  walk, walk_outgoing, walk_incoming, expand, search_loop, start_search,
}

module _ {S : Type 0} (one : S) (impact_score : Reason → ℕ → S) (higher : S → S → Bool)
    (options : ImpactOptions) where
  -- At most `MaxNodes` nodes are selected, none of them deeper than `MaxDepth`.
  unfoldable pub IsBounded : Search S → Type 0
  IsBounded s =
      (length (s.selected) ≤ options.max_nodes)
      × All (λ e. e.1.depth ≤ options.max_depth) (s.selected)

  -- A selection that is not full, or that has the key already, takes the node.
  take_node :
      (k : String) (n : Node S) (m : List (String × Node S))
      → length m ≤ options.max_nodes
      → (is_none (entry k m) && leb (options.max_nodes) (length m)) ≡ false
      → length (put_entry k n m) ≤ options.max_nodes
  take_node k n m h f = ground (arith, length-put_entry k n m, f, h)

  is_none-full : (a b : Bool) → b ≡ false → (a && b) ≡ false
  is_none-full a b h = ground arith

  select_direct-IsBounded :
      (g : GraphData S) (ks : List String) (s : Search S)
      → IsBounded s
      → IsBounded (select_direct one impact_score higher options g ks s)
  unfolding select_direct IsBounded mark_direct
  select_direct-IsBounded g [] s h = h
  select_direct-IsBounded g (k ∷ ks) s h =
      elim (Bool-cases (leb (options.max_nodes) (length (s.selected)))) [
        | inl e ↦ rw (select_direct, e) h
        | inr e ↦ elim (Option-cases (entry k (g.nodes))) [
          | inl f ↦ rw (select_direct, e, f) h
          | inr (n, f) ↦
              rw (select_direct, e, f)
                (select_direct-IsBounded g ks _ (
                  take_node k _ (s.selected) (h.0) (is_none-full _ _ e),
                  put_entry-All (λ m. m.depth ≤ options.max_depth) k _ (s.selected) (omega arith)
                      (h.1),
                ))
        ]
      ]

  select_all-IsBounded :
      (ds : List DirectSymbol) (g : GraphData S) (s : Search S)
      → IsBounded s
      → IsBounded ((select_all one impact_score higher options ds g s).1)
  unfolding select_all
  select_all-IsBounded [] g s h = h
  select_all-IsBounded (d ∷ ds) g s h = elim (List-cases (matching_nodes d (g.nodes))) [
    | inl e ↦
        rw (select_all, e)
          (select_all-IsBounded ds _ _ (
            select_direct-IsBounded (add_node (direct_node one d) g) ((direct_node one d).key ∷ [])
              s h))
    | inr (k, ks, e) ↦
        rw (select_all, e) (select_all-IsBounded ds g _ (select_direct-IsBounded g (k ∷ ks) s h))
  ]

  -- What the search makes of a step that keeps the limits.
  reach-IsBounded :
      (g : GraphData S) (k : String) (reason : Reason) (depth : ℕ) (s t : Search S)
      → depth ≤ options.max_depth
      → IsBounded s
      → reach one impact_score higher options g k reason depth s ≡ some t
      → IsBounded t
  unfolding reach IsBounded
  reach-IsBounded g k reason depth s t d h e =
      elim (Bool-cases
        (is_none (entry k (s.selected)) && leb (options.max_nodes) (length (s.selected)))) [
          | inl f ↦ absurd (none-ne-some t (rw (reach, f) at e))
          | inr f ↦ elim (Option-cases (entry k (g.nodes))) [
            | inl u ↦ absurd (none-ne-some t (rw (reach, f, u) at e))
            | inr (n, u) ↦ subst IsBounded (some-injective _ t (rw (reach, f, u) at e)) (
              take_node k _ (s.selected) (h.0) f,
              put_entry-All (λ m. m.depth ≤ options.max_depth) k _ (s.selected) d (h.1),
            )
          ]
        ]

  reach_again-IsBounded :
      (k : String) (reason : Reason) (depth : ℕ) (s : Search S)
      → IsBounded s
      → IsBounded (reach_again one impact_score higher options k reason depth s)
  unfolding reach_again IsBounded
  reach_again-IsBounded k reason depth s h = elim (Option-cases (entry k (s.selected))) [
    | inl e ↦ rw (reach_again, e) h
    | inr (n, e) ↦
        rw (reach_again, e)
          (
            take_node k _ (s.selected) (h.0) (rw e refl),
            put_entry-All (λ m. m.depth ≤ options.max_depth) k _ (s.selected)
                (entry-All (λ m. m.depth ≤ options.max_depth) k n (s.selected) (h.1) e) (h.1),
          )
  ]

  keep_edge-IsBounded :
      (raw : RawEdge) (reason : Reason) (depth : ℕ) (s : Search S)
      → IsBounded s
      → IsBounded (keep_edge one impact_score higher options raw reason depth s)
  unfolding keep_edge IsBounded
  keep_edge-IsBounded raw reason depth s h =
      elim (Bool-cases
        (is_some (entry (raw.source) (s.selected)) && is_some (entry (raw.target) (s.selected)))) [
          | inl e ↦ rw (keep_edge, e) h
          | inr e ↦ rw (keep_edge, e) h
        ]

  walk-IsBounded :
      (g : GraphData S) (current : ℕ) (raw : RawEdge) (k : String) (b : Bool) (s : Search S)
      → current < options.max_depth
      → IsBounded s
      → IsBounded (walk one impact_score higher options g current raw k b s)
  unfolding walk
  walk-IsBounded g current raw k b s l h =
      let reason =
        reason_for_edge (raw.relation) (test_of one impact_score higher options (entry k (g.nodes)))
          b in
      elim (Bool-cases
        (is_closer one impact_score higher options (entry k (s.visited_depth)) (suc current))) [
          | inl e ↦
              elim (Option-cases
                (reach one impact_score higher options g k reason (suc current) s)) [
                  | inl f ↦ rw (walk, e, f) h
                  | inr (t, f) ↦
                      rw (walk, e, f)
                        (keep_edge-IsBounded raw reason (suc current) t
                          (reach-IsBounded g k reason (suc current) s t l h f))
                ]
          | inr e ↦
              rw (walk, e)
                (keep_edge-IsBounded raw reason (suc current) _
                  (reach_again-IsBounded k reason (suc current) s h))
        ]

  walk_outgoing-IsBounded :
      (g : GraphData S) (current : ℕ) (es : List RawEdge) (s : Search S)
      → current < options.max_depth
      → IsBounded s
      → IsBounded (walk_outgoing one impact_score higher options g current es s)
  unfolding walk_outgoing
  walk_outgoing-IsBounded g current [] s l h = h
  walk_outgoing-IsBounded g current (e ∷ es) s l h =
      walk_outgoing-IsBounded g current es _ l (walk-IsBounded g current e (e.target) false s l h)

  walk_incoming-IsBounded :
      (g : GraphData S) (current : ℕ) (es : List RawEdge) (s : Search S)
      → current < options.max_depth
      → IsBounded s
      → IsBounded (walk_incoming one impact_score higher options g current es s)
  unfolding walk_incoming
  walk_incoming-IsBounded g current [] s l h = h
  walk_incoming-IsBounded g current (e ∷ es) s l h =
      walk_incoming-IsBounded g current es _ l (walk-IsBounded g current e (e.source) true s l h)

  expand-IsBounded :
      (g : GraphData S) (k : String) (current : ℕ) (s : Search S)
      → IsBounded s
      → IsBounded (expand one impact_score higher options g k current s)
  unfolding expand
  expand-IsBounded g k current s h = elim (Bool-cases (leb (options.max_depth) current)) [
    | inl e ↦ rw (expand, e) h
    | inr e ↦
        let l : current < options.max_depth = ground (arith, e) in
        rw (expand, e)
          (walk_incoming-IsBounded g current (incoming k (g.raw_edges)) _ l
            (walk_outgoing-IsBounded g current (outgoing k (g.raw_edges)) s l h))
  ]

  pub search_loop-IsBounded :
      (fuel : ℕ) (g : GraphData S) (s t : Search S)
      → IsBounded s
      → search_loop one impact_score higher options fuel g s ≡ some t
      → IsBounded t
  unfolding search_loop IsBounded
  search_loop-IsBounded zero g s t h e = elim (List-cases (s.queue)) [
    | inl f ↦ subst IsBounded (some-injective s t (rw (search_loop, f) at e)) h
    | inr (x, q, f) ↦ absurd (none-ne-some t (rw (search_loop, f) at e))
  ]
  search_loop-IsBounded (suc fuel) g s t h e = elim (List-cases (s.queue)) [
    | inl f ↦ subst IsBounded (some-injective s t (rw (search_loop, f) at e)) h
    | inr (x, q, f) ↦
        search_loop-IsBounded fuel g
          (expand one impact_score higher options g (x.0) (x.1) (record s { queue = q })) t
          (expand-IsBounded g (x.0) (x.1) (record s { queue = q }) h) (rw (search_loop, f) at e)
  ]

  pub start_search-IsBounded :
      (g : GraphData S) (ds : List DirectSymbol)
      → IsBounded ((start_search one impact_score higher options g ds).1)
  unfolding start_search IsBounded
  start_search-IsBounded g ds = select_all-IsBounded (sort_direct ds) g _ (omega arith, tt)
