-- ===== src/Analyzer/Mapper/Changes.antt =====
-- Which changes `MapChangedSymbols` reports, and as what (backend/internal/analyzer/mapper.go).
use Prim.Native.String.{String}
use text.Mathlib.TextPositions.{eq_refl}
use ai_test_assistant.Prelude.{
  ℕ, ◌≡◌, refl, sym, ap, subst, ◌∙◌, inl, inr, Bool, true, false, false≢true, ◌||◌, Option, none,
  some, List, [], ◌∷◌, map, arith, any_of, ◌=s◌, All, All-mono, Bool-cases, is_some,
}
use ai_test_assistant.Analyzer.Diff.{ChangedLines}
use ai_test_assistant.Analyzer.Mapper.{
  Symbol, ParsedFile, ChangeType, modified, added, deleted, SymbolChange, symbol_key, get,
  symbols_by_key, hit_symbols, add_names, change_from, change_for, change_less, insert_change,
  sort_symbol_changes, map_changed_symbols,
}
use ai_test_assistant.Analyzer.Mapper.Hits.{touched}
use ai_test_assistant.Analyzer.Mapper.Tables.{
  has_key, declares, touches, any_of-and, has_entry-hit_symbols, has_entry-symbols_by_key, has_name,
  has_name-add_names, symbols_by_key-Keyed, is_some-get, get-Keyed,
}

-- What happened to the symbols of a key, from whether they were there and are there.
abbrev pub type_of : Bool → Bool → ChangeType
type_of true true = modified
type_of true false = deleted
type_of false true = added
type_of false false = modified

-- The change under a key that one of the files declares: it has the key, and the right type.
unfoldable pub ChangeIsRight :
    Option ParsedFile → Option ParsedFile → String → SymbolChange → Type 0
ChangeIsRight old new k c =
    (symbol_key (c.symbol) ≡ k) × (c.change_type ≡ type_of (declares old k) (declares new k))

change_from_lem :
    (o n : Option Symbol) (k : String)
    → ((s : Symbol) → o ≡ some s → symbol_key s ≡ k)
    → ((s : Symbol) → n ≡ some s → symbol_key s ≡ k)
    → (is_some o || is_some n) ≡ true
    → (symbol_key ((change_from o n).symbol) ≡ k)
      × ((change_from o n).change_type ≡ type_of (is_some o) (is_some n))
unfolding change_from
change_from_lem none none k p q h = absurd (false≢true h)
change_from_lem none (some s) k p q h = (q s refl, refl)
change_from_lem (some r) none k p q h = (p r refl, refl)
change_from_lem (some r) (some s) k p q h = (q s refl, refl)

is_some-symbols_by_key :
    (file : Option ParsedFile) (k : String)
    → is_some (get k (symbols_by_key file)) ≡ declares file k
is_some-symbols_by_key file k =
    is_some-get k (symbols_by_key file) ∙ has_entry-symbols_by_key file k

change_for-ChangeIsRight :
    (old new : Option ParsedFile) (k : String)
    → (declares old k || declares new k) ≡ true
    → ChangeIsRight old new k (change_for old new k)
unfolding ChangeIsRight change_for
change_for-ChangeIsRight old new k h =
    let p = is_some-symbols_by_key old k in
    let q = is_some-symbols_by_key new k in
    let both =
      change_from_lem (get k (symbols_by_key old)) (get k (symbols_by_key new)) k
        (λ s. get-Keyed k (symbols_by_key old) s (symbols_by_key-Keyed old))
        (λ s. get-Keyed k (symbols_by_key new) s (symbols_by_key-Keyed new))
        (ground (arith, p, q, h)) in
    (
      both.0,
      both.1
          ∙ ap (λ b. type_of b (is_some (get k (symbols_by_key new)))) p
          ∙ ap (type_of (declares old k)) q,
    )

-- A touched symbol is declared.
touches-declares :
    (file : Option ParsedFile) (lines : List ℕ) (k : String)
    → touches file lines k ≡ true
    → declares file k ≡ true
unfolding touches declares
touches-declares none lines k h = h
touches-declares (some file) lines k h = any_of-and (touched lines) (has_key k) (file.symbols) h

-- The keys of the loop.
changed_keys : Option ParsedFile → Option ParsedFile → ChangedLines → List String
changed_keys old new lines =
    add_names (hit_symbols new (lines.new)) (add_names (hit_symbols old (lines.old)) [])

has_name-changed_keys :
    (old new : Option ParsedFile) (lines : ChangedLines) (k : String)
    → has_name k (changed_keys old new lines)
      ≡ (touches new (lines.new) k || touches old (lines.old) k)
unfolding changed_keys
has_name-changed_keys old new lines k =
    let p = has_name-add_names k (hit_symbols old (lines.old)) [] in
    let q =
      has_name-add_names k (hit_symbols new (lines.new))
        (add_names (hit_symbols old (lines.old)) []) in
    ground (
      arith,
      p,
      q,
      has_entry-hit_symbols old (lines.old) k,
      has_entry-hit_symbols new (lines.new) k,
    )

All-names :
    (P : String → Type 0) (ks : List String)
    → ((k : String) → has_name k ks ≡ true → P k)
    → All P ks
All-names P [] h = tt
All-names P (k ∷ ks) h =
    (h k (ground (arith, eq_refl k)), All-names P ks (λ j e. h j (ground (arith, e))))

insert_change-All :
    (P : SymbolChange → Type 0) (c : SymbolChange) (cs : List SymbolChange)
    → P c
    → All P cs
    → All P (insert_change c cs)
unfolding insert_change
insert_change-All P c [] p ps = (p, tt)
insert_change-All P c (d ∷ ds) p ps = elim (Bool-cases (change_less d c)) [
  | inl e ↦ rw e (ps.0, insert_change-All P c ds p (ps.1))
  | inr e ↦ rw e (p, ps)
]

sort_symbol_changes-All :
    (P : SymbolChange → Type 0) (cs : List SymbolChange) → All P cs → All P (sort_symbol_changes cs)
unfolding sort_symbol_changes
sort_symbol_changes-All P [] h = tt
sort_symbol_changes-All P (c ∷ cs) h =
    insert_change-All P c (sort_symbol_changes cs) (h.0) (sort_symbol_changes-All P cs (h.1))

any_of-insert_change :
    (p : SymbolChange → Bool) (c : SymbolChange) (cs : List SymbolChange)
    → any_of p (insert_change c cs) ≡ any_of p (c ∷ cs)
unfolding insert_change
any_of-insert_change p c [] = refl
any_of-insert_change p c (d ∷ ds) = ground (arith, any_of-insert_change p c ds)

any_of-sort_symbol_changes :
    (p : SymbolChange → Bool) (cs : List SymbolChange)
    → any_of p (sort_symbol_changes cs) ≡ any_of p cs
unfolding sort_symbol_changes
any_of-sort_symbol_changes p [] = refl
any_of-sort_symbol_changes p (c ∷ cs) =
    any_of-insert_change p c (sort_symbol_changes cs)
    ∙ ground (arith, any_of-sort_symbol_changes p cs)

module _ (old new : Option ParsedFile) (lines : ChangedLines) where
  keys_are_declared :
      (k : String)
      → has_name k (changed_keys old new lines) ≡ true
      → (declares old k || declares new k) ≡ true
  keys_are_declared k h =
      let some_file = sym (has_name-changed_keys old new lines k) ∙ h in
      elim (Bool-cases (touches new (lines.new) k)) [
        | inl e ↦ ground (arith, touches-declares new (lines.new) k e)
        | inr e ↦ ground (arith, some_file, e, touches-declares old (lines.old) k)
      ]

  any_change :
      (k : String) (ks : List String)
      → All (λ j. symbol_key ((change_for old new j).symbol) ≡ j) ks
      → any_of (λ c. has_key k (c.symbol)) (map (change_for old new) ks) ≡ has_name k ks
  unfolding has_key
  any_change k [] h = refl
  any_change k (j ∷ js) h = rw (h.0) (ap (λ b. (j =s k) || b) (any_change k js (h.1)))

  keys_right :
      All (λ j. ChangeIsRight old new j (change_for old new j)) (changed_keys old new lines)
  keys_right =
      All-names _ (changed_keys old new lines)
        (λ k h. change_for-ChangeIsRight old new k (keys_are_declared k h))

  map_changes :
      (ks : List String)
      → All (λ j. ChangeIsRight old new j (change_for old new j)) ks
      → All (λ c. ChangeIsRight old new (symbol_key (c.symbol)) c) (map (change_for old new) ks)
  unfolding ChangeIsRight
  map_changes [] h = tt
  map_changes (j ∷ js) h = (
    subst (λ k. ChangeIsRight old new k (change_for old new j)) (sym (h.0.0)) (h.0),
    map_changes js (h.1),
  )

  -- The reported changes are those of the touched symbols: for each key, `MapChangedSymbols` reports a
  -- change of a symbol with that key just if the old file declares such a symbol with a removed line in
  -- its range or the new file declares one with an added line in its range.
  pub changes_are_touched :
      (k : String)
      → any_of (λ c. has_key k (c.symbol)) (map_changed_symbols old new lines)
        ≡ (touches new (lines.new) k || touches old (lines.old) k)
  unfolding map_changed_symbols changed_keys ChangeIsRight
  changes_are_touched k =
      any_of-sort_symbol_changes _ (map (change_for old new) (changed_keys old new lines))
      ∙ any_change k (changed_keys old new lines)
          (All-mono _ _ (changed_keys old new lines) (λ j q. q.0) keys_right)
      ∙ has_name-changed_keys old new lines k

  -- Each reported change has the type that the two files give its symbol: added if only the new file
  -- declares a symbol with its key, deleted if only the old one does, and modified if both do.
  pub change_types_are_right :
      All (λ c. ChangeIsRight old new (symbol_key (c.symbol)) c) (map_changed_symbols old new lines)
  unfolding map_changed_symbols changed_keys
  change_types_are_right =
      sort_symbol_changes-All _ (map (change_for old new) (changed_keys old new lines))
        (map_changes (changed_keys old new lines) keys_right)
