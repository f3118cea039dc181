-- ===== src/Analyzer/Impact/Tests.antt =====
-- The search for affected symbols in a small package: `Add` was changed, `Sub` calls it, and a test calls `Sub`.
use Prim.Native.String.{String}
use ai_test_assistant.Prelude.{
  ℕ, ◌+◌, ◌*◌, ◌-◌, ◌≤◌, ◌≡◌, refl, Bool, true, false, Option, none, some, List, [], ◌∷◌, map,
  arith, length, ltb, entry, put_entry, All,
}
use ai_test_assistant.Analyzer.Graph.{
  ImpactOptions, Reason, calls, Node, DirectSymbol, GraphData, code, add_node, add_edge,
  new_impact_engine,
}
use ai_test_assistant.Analyzer.Impact.{Search, start_search, select_impact}
use ai_test_assistant.Analyzer.Impact.Bounds.{IsBounded}
use ai_test_assistant.Analyzer.Connection.{IsConnected}
use ai_test_assistant.Analyzer.Impact.Connected.{is_start, selected_symbols_have_a_way}
use ai_test_assistant.Analyzer.Impact.Ending.{search_ends_within_limits}

abbrev limits : ImpactOptions
limits = record {
  max_depth = 1;
  max_nodes = 250;
  max_files = 2000;
  max_file_bytes = 1048576;
  max_total_bytes = 67108864;
  timeout = 120000;
}

limits_are_valid : new_impact_engine limits ≡ some limits
unfolding new_impact_engine
limits_are_valid = refl

-- A score in hundredths.
abbrev sample_score : Reason → ℕ → ℕ
sample_score r d = 94 + code r - d * 12

abbrev sample_node : String → Bool → Node ℕ
sample_node name t = record {
  key = name;
  package_path = "example/calc";
  package_name = "calc";
  symbol_name = name;
  receiver_name = "";
  symbol_kind = "function";
  file_path = "calc.go";
  start_line = 1;
  end_line = 3;
  is_direct = false;
  is_test = t;
  depth = 0;
  score = 0;
  reason_codes = [];
}

abbrev calc_graph : GraphData ℕ
calc_graph = add_edge "Sub" "Add" calls (
    add_edge "TestSub" "Sub" calls (
      add_node (sample_node "TestSub" true) (
        add_node (sample_node "Sub" false)
          (add_node (sample_node "Add" false) (record { nodes = []; raw_edges = [] })))))

abbrev changed_add : DirectSymbol
changed_add = record {
  file_path = "calc.go";
  symbol_name = "Add";
  symbol_kind = "function";
  receiver_name = "";
  package_name = "calc";
  start_line = 1;
  end_line = 3;
}

abbrev keys_of : Option (Search ℕ) → List String
keys_of none = []
keys_of (some t) = map (λ e. e.0) (t.selected)

-- With a depth of one, the caller is found and its test is not.
found :
    keys_of (select_impact 100 sample_score ltb limits 5 calc_graph (changed_add ∷ []))
    ≡ ("Add" ∷ "Sub" ∷ [])
unfolding add_node add_edge select_impact entry put_entry
found = refl

fuel_is_enough :
    length ((start_search 100 sample_score ltb limits calc_graph (changed_add ∷ [])).1.queue)
      + length ((start_search 100 sample_score ltb limits calc_graph (changed_add ∷ [])).0.nodes)
        * 2
    ≤ 7
unfolding add_node add_edge start_search entry put_entry
fuel_is_enough = omega arith

search_ends_within_limits_example :
    (t : Search ℕ) × (select_impact 100 sample_score ltb limits 7 calc_graph (changed_add ∷ [])
      ≡ some t)
    × IsBounded 100 sample_score ltb limits t
search_ends_within_limits_example =
    search_ends_within_limits 100 sample_score ltb limits 7 calc_graph (changed_add ∷ [])
      fuel_is_enough

selected_symbols_have_a_way_example :
    (t : Search ℕ) × (select_impact 100 sample_score ltb limits 7 calc_graph (changed_add ∷ [])
      ≡ some t)
    × All
        (λ e.
          IsConnected
            (is_start 100 sample_score ltb limits calc_graph (changed_add ∷ []))
            (calc_graph.raw_edges)
            (e.0)
            (e.1.depth))
        (t.selected)
selected_symbols_have_a_way_example =
    selected_symbols_have_a_way 100 sample_score ltb limits 7 calc_graph (changed_add ∷ [])
      fuel_is_enough
