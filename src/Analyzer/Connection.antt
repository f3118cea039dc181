-- ===== src/Analyzer/Connection.antt =====
-- Which symbols the edges of the graph connect, and how far apart
-- (backend/internal/analyzer/impact_engine.go).
use text.Mathlib.TextEquality.{eq_iff}
use text.Mathlib.TextPositions.{eq_refl}
use Prim.Native.String.{String}
use ai_test_assistant.Prelude.{
  ℕ, suc, ◌≡◌, refl, inl, inr, Bool, true, ◌&&◌, List, [], ◌∷◌, arith, All, Bool-cases, any_of,
  ◌||◌, ◌=s◌, All-mono, suc,
}
use ai_test_assistant.Analyzer.Graph.{RawEdge, outgoing, incoming}

-- There is an edge from the one key to the other.
unfoldable pub linked : String → String → List RawEdge → Bool
linked a b = any_of (λ e. e.source =s a && e.target =s b)

-- A key that is so many edges from a key where the search starts, with or against their direction.
pub data IsConnected (starts : String → Bool) (es : List RawEdge) : String → ℕ → Type 0 where
  begins : (k : String) → starts k ≡ true → IsConnected starts es k 0
  forward :
      (a b : String) (d : ℕ)
      → linked a b es ≡ true
      → IsConnected starts es a d
      → IsConnected starts es b (suc d)
  backward :
      (a b : String) (d : ℕ)
      → linked a b es ≡ true
      → IsConnected starts es b d
      → IsConnected starts es a (suc d)

or_right : (a b : Bool) → b ≡ true → (a || b) ≡ true
or_right a b h = ground arith

pub outgoing-linked :
    (k : String) (es : List RawEdge)
    → All (λ e. (e.source ≡ k) × (linked (e.source) (e.target) es ≡ true)) (outgoing k es)
unfolding linked
outgoing-linked k [] = tt
outgoing-linked k (e ∷ es) =
    let others =
      All-mono _ (λ x. (x.source ≡ k) × (linked (x.source) (x.target) (e ∷ es) ≡ true))
        (outgoing k es) (λ x h. (h.0, or_right _ _ (h.1))) (outgoing-linked k es) in
    elim (Bool-cases (e.source =s k)) [
      | inl f ↦
          rw f
            (((eq_iff (e.source) k).0 f, rw (eq_refl (e.source), eq_refl (e.target)) refl), others)
      | inr f ↦ rw f others
    ]

pub incoming-linked :
    (k : String) (es : List RawEdge)
    → All (λ e. (e.target ≡ k) × (linked (e.source) (e.target) es ≡ true)) (incoming k es)
unfolding linked
incoming-linked k [] = tt
incoming-linked k (e ∷ es) =
    let others =
      All-mono _ (λ x. (x.target ≡ k) × (linked (x.source) (x.target) (e ∷ es) ≡ true))
        (incoming k es) (λ x h. (h.0, or_right _ _ (h.1))) (incoming-linked k es) in
    elim (Bool-cases (e.target =s k)) [
      | inl f ↦
          rw f
            (((eq_iff (e.target) k).0 f, rw (eq_refl (e.source), eq_refl (e.target)) refl), others)
      | inr f ↦ rw f others
    ]
