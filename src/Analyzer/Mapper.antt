-- ===== src/Analyzer/Mapper.antt =====
-- The symbols that a change touches, `MapChangedSymbols` (backend/internal/analyzer/mapper.go). A Go
-- map is an association list; `sort.Ints` and `sort.Slice` are insertion sorts, `sort.SearchInts` is
-- the first index with a number that is large enough. The text of `Summary` is left out.
use Prim.Native.String.{String, ◌++◌ as join_text, compare as compare_text}
use text.Mathlib.Text.{is_lt}
use ai_test_assistant.Prelude.{
  ℕ, Bool, true, false, not, ◌&&◌, Option, none, some, List, [], ◌∷◌, map, ◌==◌, ◌=s◌, ltb, leb,
  if◌then◌else◌,
}
use ai_test_assistant.Analyzer.Diff.{ChangedLines}
pub mod Hits
pub mod Tables
pub mod Changes

-- `Symbol`.
pub record Symbol : Type 0 where
  pub name : String
  pub kind : String
  pub receiver : String
  pub package_name : String
  pub start_line : ℕ
  pub end_line : ℕ

-- `ParsedFile`.
pub record ParsedFile : Type 0 where
  pub package_name : String
  pub symbols : List Symbol

-- The three values of `ChangeType`.
pub data ChangeType : Type 0 where
  modified : ChangeType
  added : ChangeType
  deleted : ChangeType

-- `SymbolChange`.
pub record SymbolChange : Type 0 where
  pub symbol : Symbol
  pub change_type : ChangeType

-- `symbolKey`.
unfoldable pub symbol_key : Symbol → String
symbol_key s =
    join_text (s.kind) (join_text "\0" (join_text (s.receiver) (join_text "\0" (s.name))))

-- `map[string]Symbol`.
abbrev pub SymbolTable : Type 0
SymbolTable = List (String × Symbol)

-- `table[key] = symbol`.
unfoldable pub put : String → Symbol → SymbolTable → SymbolTable
put k s [] = (k, s) ∷ []
put k s ((j, r) ∷ t) = let rest = put k s t in if j =s k then (k, s) ∷ t else (j, r) ∷ rest

-- `symbol, ok := table[key]`.
unfoldable pub get : String → SymbolTable → Option Symbol
get k [] = none
get k ((j, r) ∷ t) = let rest = get k t in if j =s k then some r else rest

unfoldable pub put_all : List Symbol → SymbolTable → SymbolTable
unfolding put symbol_key
put_all [] t = t
put_all (s ∷ ss) t = put_all ss (put (symbol_key s) s t)

-- `symbolsByKey`; no file is `nil`.
unfoldable pub symbols_by_key : Option ParsedFile → SymbolTable
unfolding put_all
symbols_by_key none = []
symbols_by_key (some file) = put_all (file.symbols) []

-- `sort.Ints`.
unfoldable pub insert_int : ℕ → List ℕ → List ℕ
insert_int n [] = n ∷ []
insert_int n (m ∷ ms) = let rest = insert_int n ms in if leb n m then n ∷ m ∷ ms else m ∷ rest

unfoldable pub sort_ints : List ℕ → List ℕ
unfolding insert_int
sort_ints [] = []
sort_ints (n ∷ ns) = insert_int n (sort_ints ns)

-- `lines[sort.SearchInts(lines, n)]`, or nothing if the index is `len(lines)`.
unfoldable pub search_ints : List ℕ → ℕ → Option ℕ
search_ints [] n = none
search_ints (m ∷ ms) n = let rest = search_ints ms n in if ltb m n then rest else some m

-- The test of the loop of `hitSymbols`: `index < len(lines) && lines[index] <= symbol.EndLine`.
unfoldable pub is_hit : List ℕ → Symbol → Bool
unfolding search_ints
is_hit lines s = elim (search_ints lines (s.start_line)) [
  | none ↦ false
  | some m ↦ leb m (s.end_line)
]

unfoldable pub put_hits : List ℕ → List Symbol → SymbolTable → SymbolTable
unfolding is_hit put symbol_key
put_hits lines [] t = t
put_hits lines (s ∷ ss) t = put_hits lines ss (if is_hit lines s then put (symbol_key s) s t else t)

-- `hitSymbols`.
unfoldable pub hit_symbols : Option ParsedFile → List ℕ → SymbolTable
unfolding put_hits sort_ints
hit_symbols none changed = []
hit_symbols (some file) [] = []
hit_symbols (some file) (n ∷ ns) = put_hits (sort_ints (n ∷ ns)) (file.symbols) []

-- `keys[key] = struct{}{}`.
unfoldable pub add_name : String → List String → List String
add_name k [] = k ∷ []
add_name k (j ∷ js) = let rest = add_name k js in if j =s k then j ∷ js else j ∷ rest

unfoldable pub add_names : SymbolTable → List String → List String
unfolding add_name
add_names [] ks = ks
add_names ((k, _) ∷ t) ks = add_names t (add_name k ks)

-- Go's `Symbol{}`.
abbrev pub no_symbol : Symbol
no_symbol = record {
  name = "";
  kind = "";
  receiver = "";
  package_name = "";
  start_line = 0;
  end_line = 0;
}

-- The `switch`, from what the two tables have under the key.
unfoldable pub change_from : Option Symbol → Option Symbol → SymbolChange
change_from none (some s) = record { symbol = s; change_type = added }
change_from (some s) none = record { symbol = s; change_type = deleted }
change_from (some r) (some s) = record { symbol = s; change_type = modified }
change_from none none = record { symbol = no_symbol; change_type = modified }

-- The body of the loop over the keys.
unfoldable pub change_for : Option ParsedFile → Option ParsedFile → String → SymbolChange
unfolding symbols_by_key change_from get
change_for old_file new_file k =
    change_from (get k (symbols_by_key old_file)) (get k (symbols_by_key new_file))

-- `changes[i]` stands before `changes[j]`.
unfoldable pub change_less : SymbolChange → SymbolChange → Bool
change_less a b =
    if not (a.symbol.start_line == b.symbol.start_line)
    then ltb (a.symbol.start_line) (b.symbol.start_line)
    else is_lt (compare_text (a.symbol.name) (b.symbol.name))

unfoldable pub insert_change : SymbolChange → List SymbolChange → List SymbolChange
unfolding change_less
insert_change c [] = c ∷ []
insert_change c (d ∷ ds) =
    let rest = insert_change c ds in if change_less d c then d ∷ rest else c ∷ d ∷ ds

-- `sortSymbolChanges`.
unfoldable pub sort_symbol_changes : List SymbolChange → List SymbolChange
unfolding insert_change
sort_symbol_changes [] = []
sort_symbol_changes (c ∷ cs) = insert_change c (sort_symbol_changes cs)

-- `MapChangedSymbols`.
unfoldable pub map_changed_symbols :
    Option ParsedFile → Option ParsedFile → ChangedLines → List SymbolChange
unfolding sort_symbol_changes add_names hit_symbols change_for
map_changed_symbols old_file new_file lines =
    let old_hits = hit_symbols old_file (lines.old) in
    let new_hits = hit_symbols new_file (lines.new) in
    let keys = add_names new_hits (add_names old_hits []) in
    sort_symbol_changes (map (change_for old_file new_file) keys)
