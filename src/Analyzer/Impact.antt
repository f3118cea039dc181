-- ===== src/Analyzer/Impact.antt =====
-- The bounded search for symbols that a change may affect, `selectImpact` of
-- backend/internal/analyzer/impact_engine.go. The floating-point scores are a parameter.
use Prim.Native.String.{String, ◌++◌ as join_text, compare as compare_text}
use text.Mathlib.Text.{is_lt}
use ai_test_assistant.Prelude.{
  ℕ, zero, suc, ◌+◌, Bool, true, false, not, ◌&&◌, ◌||◌, Option, none, some, List, [], ◌∷◌, ◌++◌,
  map, length, keep_if, any_of, ◌==◌, ◌=s◌, ltb, leb, if◌then◌else◌, is_none, is_some, put_entry,
  entry,
}
use ai_test_assistant.Analyzer.Graph.{
  ImpactOptions, Relation, Reason, Node, Edge, DirectSymbol, RawEdge, GraphData, direct_change,
  add_node, outgoing, incoming, reason_text, add_reason, reason_for_edge, matching_nodes,
  sort_direct, direct_node,
}
pub mod Bounds
pub mod Measure
pub mod Ending
pub mod Connected
mod Tests

-- What `selectImpact` keeps while it searches.
pub record Search (S : Type 0) : Type 0 where
  pub selected : List (String × Node S)
  pub visited_depth : List (String × ℕ)
  pub queue : List (String × ℕ)
  pub edges : List (String × Edge S)

-- `one` is the score 1, `impact_score` the function of that name, `higher` the test `>` on scores.
module _ {S : Type 0} (one : S) (impact_score : Reason → ℕ → S) (higher : S → S → Bool)
    (options : ImpactOptions) where
  -- A directly changed node, as it is selected.
  unfoldable pub mark_direct : Node S → Node S
  unfolding add_reason
  mark_direct n = record n {
    is_direct = true;
    depth = 0;
    score = one;
    reason_codes = add_reason (n.reason_codes) direct_change;
  }

  -- `len(selected) >= e.options.MaxNodes`.
  abbrev pub is_full : Search S → Bool
  is_full s = leb (options.max_nodes) (length (s.selected))

  -- The inner loop over the matching keys; each is a key of the graph.
  unfoldable pub select_direct : GraphData S → List String → Search S → Search S
  unfolding mark_direct
  select_direct g [] s = s
  select_direct g (k ∷ ks) s = if is_full s then s else elim (entry k (g.nodes)) [
    | none ↦ s
    | some n ↦ select_direct g ks (record s {
      selected = put_entry k (mark_direct n) (s.selected);
      queue = s.queue ++ ((k, 0) ∷ []);
    })
  ]

  -- The loop over the changed symbols.
  unfoldable pub select_all : List DirectSymbol → GraphData S → Search S → GraphData S × Search S
  unfolding select_direct matching_nodes add_node direct_node
  select_all [] g s = (g, s)
  select_all (d ∷ ds) g s = elim (matching_nodes d (g.nodes)) [
    | [] ↦
        let n = direct_node one d in
        let g' = add_node n g in select_all ds g' (select_direct g' (n.key ∷ []) s)
    | k ∷ ks ↦ select_all ds g (select_direct g (k ∷ ks) s)
  ]

  -- `visitedDepth[item.key] = 0`.
  unfoldable pub visit_queue : List (String × ℕ) → List (String × ℕ) → List (String × ℕ)
  visit_queue [] m = m
  visit_queue ((k, _) ∷ q) m = visit_queue q (put_entry k 0 m)

  -- `!ok || depth < existingDepth`.
  abbrev pub is_closer : Option ℕ → ℕ → Bool
  is_closer none depth = true
  is_closer (some old) depth = ltb depth old

  -- The neighbour is reached for the first time, or on a shorter way; nothing is an early return.
  unfoldable pub reach : GraphData S → String → Reason → ℕ → Search S → Option (Search S)
  unfolding add_reason
  reach g k reason depth s =
      if is_none (entry k (s.selected)) && is_full s then none else elim (entry k (g.nodes)) [
        | none ↦ none
        | some n ↦ some (record s {
          selected =
              put_entry k
                (record n {
                  depth = depth;
                  score = impact_score reason depth;
                  reason_codes = add_reason (n.reason_codes) reason;
                })
                (s.selected);
          visited_depth = put_entry k depth (s.visited_depth);
          queue = s.queue ++ ((k, depth) ∷ []);
        })
      ]

  -- The neighbour was reached before.
  unfoldable pub reach_again : String → Reason → ℕ → Search S → Search S
  unfolding add_reason
  reach_again k reason depth s = elim (entry k (s.selected)) [
    | none ↦ s
    | some n ↦ record s {
      selected =
          put_entry k
            (record n {
              score =
                  if higher (impact_score reason depth) (n.score)
                  then impact_score reason depth
                  else n.score;
              reason_codes = add_reason (n.reason_codes) reason;
            })
            (s.selected);
    }
  ]

  -- The edge is kept if both of its ends are selected.
  unfoldable pub keep_edge : RawEdge → Reason → ℕ → Search S → Search S
  unfolding reason_text
  keep_edge raw reason depth s =
      if is_some (entry (raw.source) (s.selected)) && is_some (entry (raw.target) (s.selected))
      then record s {
        edges =
            put_entry
              (join_text (raw.source)
                (join_text "\0" (join_text (raw.target) (join_text "\0" (reason_text reason)))))
              (record {
                from_key = raw.source;
                to_key = raw.target;
                relation = raw.relation;
                reason_code = reason;
                depth = depth;
                score = impact_score reason depth;
              })
              (s.edges);
      }
      else s

  abbrev pub test_of : Option (Node S) → Bool
  test_of none = false
  test_of (some n) = n.is_test

  abbrev pub or_same : Search S → Option (Search S) → (Search S → Search S) → Search S
  or_same s none f = s
  or_same s (some t) f = f t

  -- `walk`, from a node at a depth.
  unfoldable pub walk : GraphData S → ℕ → RawEdge → String → Bool → Search S → Search S
  unfolding reason_for_edge reach reach_again keep_edge
  walk g current raw k is_incoming s =
      let reason = reason_for_edge (raw.relation) (test_of (entry k (g.nodes))) is_incoming in
      let depth = suc current in
      if is_closer (entry k (s.visited_depth)) depth
      then or_same s (reach g k reason depth s) (keep_edge raw reason depth)
      else keep_edge raw reason depth (reach_again k reason depth s)

  unfoldable pub walk_outgoing : GraphData S → ℕ → List RawEdge → Search S → Search S
  unfolding walk
  walk_outgoing g current [] s = s
  walk_outgoing g current (e ∷ es) s =
      walk_outgoing g current es (walk g current e (e.target) false s)

  unfoldable pub walk_incoming : GraphData S → ℕ → List RawEdge → Search S → Search S
  unfolding walk
  walk_incoming g current [] s = s
  walk_incoming g current (e ∷ es) s =
      walk_incoming g current es (walk g current e (e.source) true s)

  -- The body of the loop for the item that was taken off the queue.
  unfoldable pub expand : GraphData S → String → ℕ → Search S → Search S
  unfolding walk_outgoing walk_incoming
  expand g k current s =
      if leb (options.max_depth) current
      then s
      else walk_incoming g current (incoming k (g.raw_edges))
          (walk_outgoing g current (outgoing k (g.raw_edges)) s)

  -- `for len(queue) > 0`, for at most as many items as the fuel says.
  unfoldable pub search_loop : ℕ → GraphData S → Search S → Option (Search S)
  unfolding expand
  search_loop zero g s = elim (s.queue) [ [] ↦ some s | item ∷ rest ↦ none ]
  search_loop (suc fuel) g s = elim (s.queue) [
    | [] ↦ some s
    | item ∷ rest ↦ search_loop fuel g (expand g (item.0) (item.1) (record s { queue = rest }))
  ]

  abbrev pub empty_search : Search S
  empty_search = record { selected = []; visited_depth = []; queue = []; edges = [] }

  -- The graph and the state in which the loop begins.
  unfoldable pub start_search : GraphData S → List DirectSymbol → GraphData S × Search S
  unfolding select_all sort_direct visit_queue
  start_search g direct =
      let begun = select_all (sort_direct direct) g empty_search in
      (begun.0, record (begun.1) { visited_depth = visit_queue (begun.1.queue) [] })

  -- `selectImpact` up to the sorting of its result.
  unfoldable pub select_impact : ℕ → GraphData S → List DirectSymbol → Option (Search S)
  unfolding start_search search_loop
  select_impact fuel g direct =
      let begun = start_search g direct in search_loop fuel (begun.0) (begun.1)
