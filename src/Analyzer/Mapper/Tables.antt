-- ===== src/Analyzer/Mapper/Tables.antt =====
-- The tables of symbols by key, and the keys that the loop goes through (backend/internal/analyzer/mapper.go).
use Prim.Native.String.{String}
use text.Mathlib.TextEquality.{eq_iff}
use ai_test_assistant.Prelude.{
  ℕ, ◌≡◌, refl, sym, ap, subst, ◌∙◌, inl, inr, Bool, true, false, ◌&&◌, ◌||◌, Option, none, some,
  List, [], ◌∷◌, arith, any_of, ◌=s◌, if◌then◌else◌, All, Bool-cases, is_some, none-ne-some,
  some-injective,
}
use ai_test_assistant.Analyzer.Mapper.{
  Symbol, ParsedFile, SymbolTable, symbol_key, put, get, put_all, symbols_by_key, sort_ints, is_hit,
  put_hits, hit_symbols, add_name, add_names,
}
use ai_test_assistant.Analyzer.Mapper.Hits.{touched, is_hit-sort_ints}

-- A symbol has the key.
unfoldable pub has_key : String → Symbol → Bool
unfolding symbol_key
has_key k s = symbol_key s =s k

-- A file declares a symbol with the key.
unfoldable pub declares : Option ParsedFile → String → Bool
unfolding has_key
declares none k = false
declares (some file) k = any_of (has_key k) (file.symbols)

-- A file declares a symbol with the key, and a changed line lies in its range.
unfoldable pub touches : Option ParsedFile → List ℕ → String → Bool
unfolding has_key
touches none lines k = false
touches (some file) lines k = any_of (λ s. touched lines s && has_key k s) (file.symbols)

-- A table has an entry under the key.
abbrev pub has_entry : String → SymbolTable → Bool
has_entry k = any_of (λ e. e.0 =s k)

pub has_entry-put :
    (k j : String) (s : Symbol) (t : SymbolTable)
    → has_entry k (put j s t) ≡ ((j =s k) || has_entry k t)
unfolding put
has_entry-put k j s [] = refl
has_entry-put k j s ((i, r) ∷ t) = elim (Bool-cases (i =s j)) [
  | inl e ↦ rw (e, (eq_iff i j).0 e) ground arith
  | inr e ↦ rw e (ground (arith, has_entry-put k j s t))
]

pub has_entry-put_hits :
    (lines : List ℕ) (k : String) (ss : List Symbol) (t : SymbolTable)
    → has_entry k (put_hits lines ss t)
      ≡ (any_of (λ s. is_hit lines s && has_key k s) ss || has_entry k t)
unfolding put_hits has_key
has_entry-put_hits lines k [] t = refl
has_entry-put_hits lines k (s ∷ ss) t = elim (Bool-cases (is_hit lines s)) [
  | inl e ↦
      let rest = has_entry-put_hits lines k ss (put (symbol_key s) s t) in
      rw e (ground (arith, rest, has_entry-put k (symbol_key s) s t))
  | inr e ↦ rw e (has_entry-put_hits lines k ss t)
]

pub has_entry-put_all :
    (k : String) (ss : List Symbol) (t : SymbolTable)
    → has_entry k (put_all ss t) ≡ (any_of (has_key k) ss || has_entry k t)
unfolding put_all has_key
has_entry-put_all k [] t = refl
has_entry-put_all k (s ∷ ss) t =
    let rest = has_entry-put_all k ss (put (symbol_key s) s t) in
    ground (arith, rest, has_entry-put k (symbol_key s) s t)

pub any_of-same {ℓ} :
    {A : Type ℓ} (p q : A → Bool) (xs : List A) → ((x : A) → p x ≡ q x) → any_of p xs ≡ any_of q xs
any_of-same p q [] h = refl
any_of-same p q (x ∷ xs) h = ground (arith, h x, any_of-same p q xs h)

pub any_of-never {ℓ} : {A : Type ℓ} (xs : List A) → any_of (λ _. false) xs ≡ false
any_of-never [] = refl
any_of-never (x ∷ xs) = any_of-never xs

pub any_of-and {ℓ} :
    {A : Type ℓ} (p q : A → Bool) (xs : List A)
    → any_of (λ x. p x && q x) xs ≡ true
    → any_of q xs ≡ true
any_of-and p q [] h = h
any_of-and p q (x ∷ xs) h = elim (Bool-cases (any_of (λ y. p y && q y) xs)) [
  | inl e ↦ ground (arith, any_of-and p q xs e)
  | inr e ↦ ground (arith, h, e)
]

pub or_false : (b : Bool) → (b || false) ≡ b
or_false b = ground arith

-- The hit table of a file has just the keys of its touched symbols.
pub has_entry-hit_symbols :
    (file : Option ParsedFile) (lines : List ℕ) (k : String)
    → has_entry k (hit_symbols file lines) ≡ touches file lines k
unfolding hit_symbols touches
has_entry-hit_symbols none lines k = refl
has_entry-hit_symbols (some file) [] k = sym (any_of-never (file.symbols))
has_entry-hit_symbols (some file) (n ∷ ns) k =
    has_entry-put_hits (sort_ints (n ∷ ns)) k (file.symbols) []
    ∙ or_false _
    ∙ any_of-same _ _ (file.symbols) (λ s. ap (λ b. b && has_key k s) (is_hit-sort_ints (n ∷ ns) s))

pub has_entry-symbols_by_key :
    (file : Option ParsedFile) (k : String) → has_entry k (symbols_by_key file) ≡ declares file k
unfolding symbols_by_key declares
has_entry-symbols_by_key none k = refl
has_entry-symbols_by_key (some file) k = has_entry-put_all k (file.symbols) [] ∙ or_false _

abbrev pub has_name : String → List String → Bool
has_name k = any_of (λ j. j =s k)

pub has_name-add_name :
    (k j : String) (js : List String) → has_name k (add_name j js) ≡ ((j =s k) || has_name k js)
unfolding add_name
has_name-add_name k j [] = refl
has_name-add_name k j (i ∷ js) = elim (Bool-cases (i =s j)) [
  | inl e ↦ rw (e, (eq_iff i j).0 e) ground arith
  | inr e ↦ rw e (ground (arith, has_name-add_name k j js))
]

pub has_name-add_names :
    (k : String) (t : SymbolTable) (js : List String)
    → has_name k (add_names t js) ≡ (has_entry k t || has_name k js)
unfolding add_names
has_name-add_names k [] js = refl
has_name-add_names k ((j, s) ∷ t) js =
    ground (arith, has_name-add_names k t (add_name j js), has_name-add_name k j js)

-- Every entry stands under the key of its symbol.
abbrev pub Keyed : SymbolTable → Type 0
Keyed = All (λ e. symbol_key (e.1) ≡ e.0)

pub put-Keyed : (s : Symbol) (t : SymbolTable) → Keyed t → Keyed (put (symbol_key s) s t)
unfolding put
put-Keyed s [] h = (refl, tt)
put-Keyed s ((i, r) ∷ t) h = elim (Bool-cases (i =s symbol_key s)) [
  | inl e ↦ rw e (refl, h.1)
  | inr e ↦ rw e (h.0, put-Keyed s t (h.1))
]

pub put_all-Keyed : (ss : List Symbol) (t : SymbolTable) → Keyed t → Keyed (put_all ss t)
unfolding put_all
put_all-Keyed [] t h = h
put_all-Keyed (s ∷ ss) t h = put_all-Keyed ss (put (symbol_key s) s t) (put-Keyed s t h)

pub symbols_by_key-Keyed : (file : Option ParsedFile) → Keyed (symbols_by_key file)
unfolding symbols_by_key
symbols_by_key-Keyed none = tt
symbols_by_key-Keyed (some file) = put_all-Keyed (file.symbols) [] tt

pub is_some-get : (k : String) (t : SymbolTable) → is_some (get k t) ≡ has_entry k t
unfolding get
is_some-get k [] = refl
is_some-get k ((j, r) ∷ t) = ground (arith, is_some-get k t)

pub get-Keyed :
    (k : String) (t : SymbolTable) (s : Symbol) → Keyed t → get k t ≡ some s → symbol_key s ≡ k
unfolding get
get-Keyed k [] s h e = absurd (none-ne-some s e)
get-Keyed k ((j, r) ∷ t) s h e = elim (Bool-cases (j =s k)) [
  | inl f ↦
      let same = subst (λ b. (if b then some r else get k t) ≡ some s) f e in
      ap symbol_key (sym (some-injective r s same)) ∙ h.0 ∙ (eq_iff j k).0 f
  | inr f ↦ get-Keyed k t s (h.1) (subst (λ b. (if b then some r else get k t) ≡ some s) f e)
]
