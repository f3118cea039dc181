-- ===== src/Analyzer/Impact/Connected.antt =====
-- The search and the connections of the graph (backend/internal/analyzer/impact_engine.go).
use ai_test_assistant.Analyzer.Impact.{select_impact, empty_search}
use ai_test_assistant.Analyzer.Impact.Ending.{search_ends_within_limits}
use ai_test_assistant.Analyzer.Connection.{
  IsConnected, begins, forward, backward, outgoing-linked, incoming-linked,
}
use Prim.Native.String.{String}
use ai_test_assistant.Prelude.{
  ℕ, zero, suc, ◌≤◌, ◌≡◌, refl, subst, inl, inr, Bool, true, false, ◌&&◌, some, List, [], ◌∷◌, All,
  length, leb, is_none, is_some, Bool-cases, Option-cases, List-cases, put_entry, sym, ap, ◌+◌,
  All-append, All-mono, put_entry-All_pairs, entry-All_pairs, entry-put_entry_keeps,
  entry-put_entry, ◌*◌, suc, zero, entry, none-ne-some, some-injective,
}
use ai_test_assistant.Analyzer.Graph.{
  ImpactOptions, Reason, Node, DirectSymbol, RawEdge, GraphData, sort_direct, reason_for_edge,
  matching_nodes, direct_node, add_node, outgoing, incoming,
}
use ai_test_assistant.Analyzer.Impact.{
  Search, mark_direct, select_direct, select_all, is_closer, reach, reach_again, keep_edge, test_of,
  walk, walk_outgoing, walk_incoming, expand, search_loop, start_search,
}

module _ {S : Type 0} (one : S) (impact_score : Reason → ℕ → S) (higher : S → S → Bool)
    (options : ImpactOptions) where
  -- Each selected key and each queued key is in the relation with its depth.
  unfoldable pub AreAt : (String → ℕ → Type 0) → Search S → Type 0
  AreAt R s = All (λ e. R (e.0) (e.1.depth)) (s.selected) × All (λ e. R (e.0) (e.1)) (s.queue)

  reach-AreAt :
      (R : String → ℕ → Type 0) (g : GraphData S) (k : String) (reason : Reason) (depth : ℕ)
      (s t : Search S)
      → R k depth
      → AreAt R s
      → reach one impact_score higher options g k reason depth s ≡ some t
      → AreAt R t
  unfolding reach AreAt
  reach-AreAt R g k reason depth s t r h e =
      elim (Bool-cases
        (is_none (entry k (s.selected)) && leb (options.max_nodes) (length (s.selected)))) [
          | inl f ↦ absurd (none-ne-some t (rw (reach, f) at e))
          | inr f ↦ elim (Option-cases (entry k (g.nodes))) [
            | inl u ↦ absurd (none-ne-some t (rw (reach, f, u) at e))
            | inr (n, u) ↦ subst (AreAt R) (some-injective _ t (rw (reach, f, u) at e)) (
              put_entry-All_pairs (λ x. R (x.0) (x.1.depth)) k _ (s.selected) r (h.0),
              All-append (λ x. R (x.0) (x.1)) (s.queue) ((k, depth) ∷ []) (h.1) (r, tt),
            )
          ]
        ]

  reach_again-AreAt :
      (R : String → ℕ → Type 0) (k : String) (reason : Reason) (depth : ℕ) (s : Search S)
      → AreAt R s
      → AreAt R (reach_again one impact_score higher options k reason depth s)
  unfolding reach_again AreAt
  reach_again-AreAt R k reason depth s h = elim (Option-cases (entry k (s.selected))) [
    | inl e ↦ rw (reach_again, e) h
    | inr (n, e) ↦
        rw (reach_again, e)
          (
            put_entry-All_pairs (λ x. R (x.0) (x.1.depth)) k _ (s.selected)
                (entry-All_pairs (λ x. R (x.0) (x.1.depth)) k n (s.selected) (h.0) e) (h.0),
            h.1,
          )
  ]

  keep_edge-AreAt :
      (R : String → ℕ → Type 0) (raw : RawEdge) (reason : Reason) (depth : ℕ) (s : Search S)
      → AreAt R s
      → AreAt R (keep_edge one impact_score higher options raw reason depth s)
  unfolding keep_edge AreAt
  keep_edge-AreAt R raw reason depth s h =
      elim (Bool-cases
        (is_some (entry (raw.source) (s.selected)) && is_some (entry (raw.target) (s.selected)))) [
          | inl e ↦ rw (keep_edge, e) h
          | inr e ↦ rw (keep_edge, e) h
        ]

  walk-AreAt :
      (R : String → ℕ → Type 0) (g : GraphData S) (current : ℕ) (raw : RawEdge) (k : String)
      (b : Bool) (s : Search S)
      → R k (suc current)
      → AreAt R s
      → AreAt R (walk one impact_score higher options g current raw k b s)
  unfolding walk
  walk-AreAt R g current raw k b s r h =
      let reason =
        reason_for_edge (raw.relation) (test_of one impact_score higher options (entry k (g.nodes)))
          b in
      elim (Bool-cases
        (is_closer one impact_score higher options (entry k (s.visited_depth)) (suc current))) [
          | inl e ↦
              elim (Option-cases
                (reach one impact_score higher options g k reason (suc current) s)) [
                  | inl f ↦ rw (walk, e, f) h
                  | inr (t, f) ↦
                      rw (walk, e, f)
                        (keep_edge-AreAt R raw reason (suc current) t
                          (reach-AreAt R g k reason (suc current) s t r h f))
                ]
          | inr e ↦
              rw (walk, e)
                (keep_edge-AreAt R raw reason (suc current) _
                  (reach_again-AreAt R k reason (suc current) s h))
        ]

  walk_outgoing-AreAt :
      (R : String → ℕ → Type 0) (g : GraphData S) (current : ℕ) (es : List RawEdge) (s : Search S)
      → All (λ e. R (e.target) (suc current)) es
      → AreAt R s
      → AreAt R (walk_outgoing one impact_score higher options g current es s)
  unfolding walk_outgoing
  walk_outgoing-AreAt R g current [] s r h = h
  walk_outgoing-AreAt R g current (e ∷ es) s r h =
      walk_outgoing-AreAt R g current es _ (r.1)
        (walk-AreAt R g current e (e.target) false s (r.0) h)

  walk_incoming-AreAt :
      (R : String → ℕ → Type 0) (g : GraphData S) (current : ℕ) (es : List RawEdge) (s : Search S)
      → All (λ e. R (e.source) (suc current)) es
      → AreAt R s
      → AreAt R (walk_incoming one impact_score higher options g current es s)
  unfolding walk_incoming
  walk_incoming-AreAt R g current [] s r h = h
  walk_incoming-AreAt R g current (e ∷ es) s r h =
      walk_incoming-AreAt R g current es _ (r.1)
        (walk-AreAt R g current e (e.source) true s (r.0) h)

  expand-AreAt :
      (starts : String → Bool) (g : GraphData S) (k : String) (current : ℕ) (s : Search S)
      → IsConnected starts (g.raw_edges) k current
      → AreAt (IsConnected starts (g.raw_edges)) s
      → AreAt
          (IsConnected starts (g.raw_edges))
          (expand one impact_score higher options g k current s)
  unfolding expand
  expand-AreAt starts g k current s r h =
      let R = IsConnected starts (g.raw_edges) in
      let ahead : All (λ e. R (e.target) (suc current)) (outgoing k (g.raw_edges)) =
        All-mono _ (λ e. R (e.target) (suc current)) (outgoing k (g.raw_edges))
          (λ e l.
            forward (e.source) (e.target) current (l.1) (subst (λ x. R x current) (sym (l.0)) r))
          (outgoing-linked k (g.raw_edges)) in
      let back : All (λ e. R (e.source) (suc current)) (incoming k (g.raw_edges)) =
        All-mono _ (λ e. R (e.source) (suc current)) (incoming k (g.raw_edges))
          (λ e l.
            backward (e.source) (e.target) current (l.1) (subst (λ x. R x current) (sym (l.0)) r))
          (incoming-linked k (g.raw_edges)) in
      elim (Bool-cases (leb (options.max_depth) current)) [
        | inl e ↦ rw (expand, e) h
        | inr e ↦
            rw (expand, e)
              (walk_incoming-AreAt R g current (incoming k (g.raw_edges)) _ back
                (walk_outgoing-AreAt R g current (outgoing k (g.raw_edges)) s ahead h))
      ]

  search_loop-AreAt :
      (starts : String → Bool) (fuel : ℕ) (g : GraphData S) (s t : Search S)
      → AreAt (IsConnected starts (g.raw_edges)) s
      → search_loop one impact_score higher options fuel g s ≡ some t
      → AreAt (IsConnected starts (g.raw_edges)) t
  unfolding search_loop AreAt
  search_loop-AreAt starts zero g s t h e = elim (List-cases (s.queue)) [
    | inl f ↦
        subst (AreAt (IsConnected starts (g.raw_edges)))
          (some-injective s t (rw (search_loop, f) at e)) h
    | inr (x, q, f) ↦ absurd (none-ne-some t (rw (search_loop, f) at e))
  ]
  search_loop-AreAt starts (suc fuel) g s t h e =
      let R = IsConnected starts (g.raw_edges) in
      elim (List-cases (s.queue)) [
        | inl f ↦ subst (AreAt R) (some-injective s t (rw (search_loop, f) at e)) h
        | inr (x, q, f) ↦
            let queued : All (λ i. R (i.0) (i.1)) (x ∷ q) =
              subst (All (λ i. R (i.0) (i.1))) f (h.1) in
            search_loop-AreAt starts fuel g
              (expand one impact_score higher options g (x.0) (x.1) (record s { queue = q })) t
              (expand-AreAt starts g (x.0) (x.1) (record s { queue = q }) (queued.0)
                (h.0, queued.1))
              (rw (search_loop, f) at e)
      ]

  -- The depth 0 of a key that is selected.
  abbrev IsDirect : List (String × Node S) → String → ℕ → Type 0
  IsDirect m k d = (d ≡ 0) × (is_some (entry k m) ≡ true)

  select_direct-AreAt :
      (g : GraphData S) (ks : List String) (s : Search S)
      → AreAt (IsDirect (s.selected)) s
      → AreAt
          (IsDirect ((select_direct one impact_score higher options g ks s).selected))
          (select_direct one impact_score higher options g ks s)
  unfolding select_direct AreAt mark_direct
  select_direct-AreAt g [] s h = h
  select_direct-AreAt g (k ∷ ks) s h =
      elim (Bool-cases (leb (options.max_nodes) (length (s.selected)))) [
        | inl e ↦ rw (select_direct, e) h
        | inr e ↦ elim (Option-cases (entry k (g.nodes))) [
          | inl f ↦ rw (select_direct, e, f) h
          | inr (n, f) ↦
              let m = put_entry k (mark_direct one impact_score higher options n) (s.selected) in
              let new : IsDirect m k 0 = (
                refl,
                ap is_some (
                    entry-put_entry k (mark_direct one impact_score higher options n) (s.selected)),
              ) in
              let kept =
                All-mono (λ x. IsDirect (s.selected) (x.0) (x.1.depth))
                  (λ x. IsDirect m (x.0) (x.1.depth)) (s.selected)
                  (λ x l. (l.0, entry-put_entry_keeps k (x.0) _ (s.selected) (l.1))) (h.0) in
              let queued =
                All-mono (λ x. IsDirect (s.selected) (x.0) (x.1)) (λ x. IsDirect m (x.0) (x.1))
                  (s.queue) (λ x l. (l.0, entry-put_entry_keeps k (x.0) _ (s.selected) (l.1)))
                  (h.1) in
              rw (select_direct, e, f)
                (select_direct-AreAt g ks _ (
                  put_entry-All_pairs (λ x. IsDirect m (x.0) (x.1.depth)) k _ (s.selected) new kept,
                  All-append (λ x. IsDirect m (x.0) (x.1)) (s.queue) ((k, 0) ∷ []) queued (new, tt),
                ))
        ]
      ]

  select_all-AreAt :
      (ds : List DirectSymbol) (g : GraphData S) (s : Search S)
      → AreAt (IsDirect (s.selected)) s
      → AreAt
          (IsDirect ((select_all one impact_score higher options ds g s).1.selected))
          ((select_all one impact_score higher options ds g s).1)
  unfolding select_all
  select_all-AreAt [] g s h = h
  select_all-AreAt (d ∷ ds) g s h = elim (List-cases (matching_nodes d (g.nodes))) [
    | inl e ↦
        rw (select_all, e)
          (select_all-AreAt ds _ _ (
            select_direct-AreAt (add_node (direct_node one d) g) ((direct_node one d).key ∷ []) s
              h))
    | inr (k, ks, e) ↦
        rw (select_all, e) (select_all-AreAt ds g _ (select_direct-AreAt g (k ∷ ks) s h))
  ]

  -- The key is selected before the loop begins.
  unfoldable pub is_start : GraphData S → List DirectSymbol → String → Bool
  unfolding start_search
  is_start g direct k =
      is_some (entry k ((start_search one impact_score higher options g direct).1.selected))

  start_search-AreAt :
      (g : GraphData S) (direct : List DirectSymbol)
      → AreAt
          (IsConnected
            (is_start g direct)
            ((start_search one impact_score higher options g direct).0.raw_edges))
          ((start_search one impact_score higher options g direct).1)
  unfolding start_search AreAt is_start
  start_search-AreAt g direct =
      let begun =
        select_all one impact_score higher options (sort_direct direct) g
          (empty_search one impact_score higher options) in
      let R = IsConnected (is_start g direct) (begun.0.raw_edges) in
      let h =
        select_all-AreAt (sort_direct direct) g (empty_search one impact_score higher options)
          (tt, tt) in
      (
        All-mono (λ x. IsDirect (begun.1.selected) (x.0) (x.1.depth)) (λ x. R (x.0) (x.1.depth))
            (begun.1.selected) (λ x l. subst (R (x.0)) (sym (l.0)) (begins (x.0) (l.1))) (h.0),
        All-mono (λ x. IsDirect (begun.1.selected) (x.0) (x.1)) (λ x. R (x.0) (x.1)) (begun.1.queue)
            (λ x l. subst (R (x.0)) (sym (l.0)) (begins (x.0) (l.1))) (h.1),
      )

  raw_edges-select_all :
      (ds : List DirectSymbol) (g : GraphData S) (s : Search S)
      → (select_all one impact_score higher options ds g s).0.raw_edges ≡ g.raw_edges
  unfolding select_all add_node
  raw_edges-select_all [] g s = refl
  raw_edges-select_all (d ∷ ds) g s = elim (List-cases (matching_nodes d (g.nodes))) [
    | inl e ↦ rw (select_all, e) (raw_edges-select_all ds (add_node (direct_node one d) g) _)
    | inr (k, ks, e) ↦ rw (select_all, e) (raw_edges-select_all ds g _)
  ]

  raw_edges-start_search :
      (g : GraphData S) (direct : List DirectSymbol)
      → (start_search one impact_score higher options g direct).0.raw_edges ≡ g.raw_edges
  unfolding start_search
  raw_edges-start_search g direct = raw_edges-select_all (sort_direct direct) g _

  -- With fuel for the queued symbols and for each node of the graph once per depth, `selectImpact` returns,
  -- and every symbol it selected is as many edges of the graph away from a symbol that was selected as
  -- directly changed as its depth says, whichever way the edges go.
  pub selected_symbols_have_a_way :
      (fuel : ℕ) (g : GraphData S) (direct : List DirectSymbol)
      → length ((start_search one impact_score higher options g direct).1.queue)
          + length ((start_search one impact_score higher options g direct).0.nodes)
            * suc (options.max_depth)
        ≤ fuel
      → (t : Search S) × (select_impact one impact_score higher options fuel g direct ≡ some t)
        × All (λ e. IsConnected (is_start g direct) (g.raw_edges) (e.0) (e.1.depth)) (t.selected)
  unfolding select_impact AreAt
  selected_symbols_have_a_way fuel g direct l =
      let (t, e, _) = search_ends_within_limits one impact_score higher options fuel g direct l in
      let begun = start_search one impact_score higher options g direct in
      let found =
        search_loop-AreAt (is_start g direct) fuel (begun.0) (begun.1) t
          (start_search-AreAt g direct) e in
      (
        t,
        e,
        subst (λ es. All (λ x. IsConnected (is_start g direct) es (x.0) (x.1.depth)) (t.selected))
            (raw_edges-start_search g direct) (found.0),
      )
