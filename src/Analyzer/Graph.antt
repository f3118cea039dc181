-- ===== src/Analyzer/Graph.antt =====
-- The graph of the symbols of a repository, backend/internal/analyzer/impact_engine.go, on the records of
-- backend/internal/impact/model.go. Go maps are association lists; the two maps from a key to its edges are
-- one list of edges, read at the key. filepath.ToSlash is the identity on the server's system.
use Prim.Native.String.{String, ◌++◌ as join_text, compare as compare_text}
use text.Mathlib.Text.{is_lt}
use ai_test_assistant.Prelude.{
  ℕ, Bool, true, false, not, ◌&&◌, ◌||◌, Option, none, some, List, [], ◌∷◌, ◌++◌, keep_if, any_of,
  ◌==◌, ◌=s◌, ltb, if◌then◌else◌, put_entry, entry,
}

-- `ImpactOptions`; the timeout in milliseconds.
pub record ImpactOptions : Type 0 where
  pub max_depth : ℕ
  pub max_nodes : ℕ
  pub max_files : ℕ
  pub max_file_bytes : ℕ
  pub max_total_bytes : ℕ
  pub timeout : ℕ

-- `NewImpactEngine`: the options, if they are within the limits.
unfoldable pub new_impact_engine : ImpactOptions → Option ImpactOptions
new_impact_engine o =
    if ltb (o.max_depth) 1
      || (ltb 20 (o.max_depth)
          || (ltb (o.max_nodes) 1
              || (ltb 10000 (o.max_nodes)
                  || (ltb (o.max_files) 1
                      || (ltb (o.max_file_bytes) 1
                          || (ltb (o.max_total_bytes) (o.max_file_bytes)
                              || (ltb (o.timeout) 1000 || ltb 1800000 (o.timeout))))))))
    then none
    else some o

-- The `Relation…` constants.
pub data Relation : Type 0 where
  calls : Relation
  implements : Relation
  uses_type : Relation

-- The `Reason…` constants.
pub data Reason : Type 0 where
  direct_change : Reason
  caller : Reason
  callee : Reason
  interface_implementation : Reason
  type_usage : Reason
  existing_test : Reason

-- `Node`, with a type of scores.
pub record Node (S : Type 0) : Type 0 where
  pub key : String
  pub package_path : String
  pub package_name : String
  pub symbol_name : String
  pub receiver_name : String
  pub symbol_kind : String
  pub file_path : String
  pub start_line : ℕ
  pub end_line : ℕ
  pub is_direct : Bool
  pub is_test : Bool
  pub depth : ℕ
  pub score : S
  pub reason_codes : List Reason

-- `Edge`.
pub record Edge (S : Type 0) : Type 0 where
  pub from_key : String
  pub to_key : String
  pub relation : Relation
  pub reason_code : Reason
  pub depth : ℕ
  pub score : S

-- `DirectSymbol`, with the columns of its symbol that are read.
pub record DirectSymbol : Type 0 where
  pub file_path : String
  pub symbol_name : String
  pub symbol_kind : String
  pub receiver_name : String
  pub package_name : String
  pub start_line : ℕ
  pub end_line : ℕ

-- `rawEdge`.
pub record RawEdge : Type 0 where
  pub source : String
  pub target : String
  pub relation : Relation

-- `graphData`.
pub record GraphData (S : Type 0) : Type 0 where
  pub nodes : List (String × Node S)
  pub raw_edges : List RawEdge

-- `addNode`.
unfoldable pub add_node : {S : Type 0} → Node S → GraphData S → GraphData S
add_node n g = record g {
  nodes = elim (entry (n.key) (g.nodes)) [
    | none ↦ put_entry (n.key) n (g.nodes)
    | some old ↦ put_entry (n.key) (record old { is_test = old.is_test || n.is_test }) (g.nodes)
  ];
}

-- `addEdge`.
unfoldable pub add_edge : {S : Type 0} → String → String → Relation → GraphData S → GraphData S
add_edge source target relation g =
    if source =s "" || (target =s "" || source =s target) then g else record g {
      raw_edges =
          g.raw_edges ++ (record { source = source; target = target; relation = relation } ∷ []);
    }

abbrev pub outgoing : String → List RawEdge → List RawEdge
outgoing k = keep_if (λ e. e.source =s k)

abbrev pub incoming : String → List RawEdge → List RawEdge
incoming k = keep_if (λ e. e.target =s k)

abbrev pub code : Reason → ℕ
code direct_change = 0
code caller = 1
code callee = 2
code interface_implementation = 3
code type_usage = 4
code existing_test = 5

-- The text of a reason.
unfoldable pub reason_text : Reason → String
reason_text direct_change = "DIRECT_CHANGE"
reason_text caller = "CALLER"
reason_text callee = "CALLEE"
reason_text interface_implementation = "INTERFACE_IMPLEMENTATION"
reason_text type_usage = "TYPE_USAGE"
reason_text existing_test = "EXISTING_TEST"

-- `addReason`.
unfoldable pub add_reason : List Reason → Reason → List Reason
add_reason reasons r =
    if any_of (λ x. code x == code r) reasons then reasons else reasons ++ (r ∷ [])

-- `reasonForEdge`, from whether the neighbour is a test.
unfoldable pub reason_for_edge : Relation → Bool → Bool → Reason
reason_for_edge implements is_test is_incoming = interface_implementation
reason_for_edge uses_type is_test is_incoming = type_usage
reason_for_edge calls is_test is_incoming =
    if is_test then existing_test else (if is_incoming then caller else callee)

-- `sort.Strings`.
unfoldable pub insert_text : String → List String → List String
insert_text k [] = k ∷ []
insert_text k (j ∷ js) =
    let rest = insert_text k js in if is_lt (compare_text j k) then j ∷ rest else k ∷ j ∷ js

-- The test of the loop of `matchingNodes`.
unfoldable pub matches : {S : Type 0} → DirectSymbol → Node S → Bool
matches d n =
    (n.symbol_name =s d.symbol_name && n.package_name =s d.package_name)
    && ((n.receiver_name =s "" || (d.receiver_name =s "" || n.receiver_name =s d.receiver_name))
        && (d.file_path =s "" || n.file_path =s d.file_path))

-- `matchingNodes`.
unfoldable pub matching_nodes : {S : Type 0} → DirectSymbol → List (String × Node S) → List String
unfolding insert_text matches
matching_nodes d [] = []
matching_nodes d ((k, n) ∷ ns) =
    let rest = matching_nodes d ns in if matches d n then insert_text k rest else rest

-- `directSorted[i]` stands before `directSorted[j]`.
unfoldable pub direct_less : DirectSymbol → DirectSymbol → Bool
direct_less a b =
    if not (a.file_path =s b.file_path)
    then is_lt (compare_text (a.file_path) (b.file_path))
    else is_lt (compare_text (a.symbol_name) (b.symbol_name))

unfoldable pub insert_direct : DirectSymbol → List DirectSymbol → List DirectSymbol
unfolding direct_less
insert_direct d [] = d ∷ []
insert_direct d (e ∷ es) =
    let rest = insert_direct d es in if direct_less e d then e ∷ rest else d ∷ e ∷ es

unfoldable pub sort_direct : List DirectSymbol → List DirectSymbol
unfolding insert_direct
sort_direct [] = []
sort_direct (d ∷ ds) = insert_direct d (sort_direct ds)

-- The node of a changed symbol that the graph does not have; `one` is the score 1.
unfoldable pub direct_node : {S : Type 0} → S → DirectSymbol → Node S
direct_node one d = record {
  key = join_text "direct|" (
      join_text (d.file_path)
        (join_text "|" (join_text (d.receiver_name) (join_text "|" (d.symbol_name)))));
  package_path = "";
  package_name = d.package_name;
  symbol_name = d.symbol_name;
  receiver_name = d.receiver_name;
  symbol_kind = d.symbol_kind;
  file_path = d.file_path;
  start_line = d.start_line;
  end_line = d.end_line;
  is_direct = true;
  is_test = false;
  depth = 0;
  score = one;
  reason_codes = direct_change ∷ [];
}
