-- ===== src/Analyzer/Impact/Measure.antt =====
-- How much of the search is still to come (backend/internal/analyzer/impact_engine.go): each time a key is
-- queued, the depth that is known of it goes down.
use Prim.Native.String.{String}
use text.Mathlib.TextEquality.{eq_iff}
use ai_test_assistant.Prelude.{
  ℕ, suc, ◌+◌, ◌≤◌, ◌<◌, ◌≡◌, refl, sym, subst, ◌∙◌, inl, inr, Bool, true, false, ◌&&◌, Option,
  none, some, List, [], ◌∷◌, arith, length, length-append, ltb→lt, leb, ◌=s◌, is_none, is_some,
  Bool-cases, Option-cases, put_entry, entry, entry-put_entry, entry-put_entry_other, none-ne-some,
  some-injective,
}
use ai_test_assistant.Analyzer.Graph.{
  ImpactOptions, Reason, Node, RawEdge, GraphData, reason_for_edge, outgoing, incoming,
}
use ai_test_assistant.Analyzer.Impact.{
  Search, is_closer, reach, reach_again, keep_edge, test_of, walk, walk_outgoing, walk_incoming,
  expand,
}

module _ {S : Type 0} (one : S) (impact_score : Reason → ℕ → S) (higher : S → S → Bool)
    (options : ImpactOptions) where
  -- How often a key can still be queued.
  abbrev pub rank : Option ℕ → ℕ
  rank none = suc (options.max_depth)
  rank (some d) = d

  abbrev pub weight : List (String × Node S) → List (String × ℕ) → ℕ
  weight [] m = 0
  weight ((k, _) ∷ ns) m = rank (entry k m) + weight ns m

  rank-put_entry :
      (k j : String) (d : ℕ) (m : List (String × ℕ))
      → d < rank (entry k m)
      → rank (entry j (put_entry k d m)) ≤ rank (entry j m)
  rank-put_entry k j d m l = elim (Bool-cases (k =s j)) [
    | inl e ↦
        subst (λ x. rank (entry x (put_entry k d m)) ≤ rank (entry x m)) ((eq_iff k j).0 e)
          (rw (entry-put_entry k d m) (omega (arith, l)))
    | inr e ↦ rw (entry-put_entry_other k j d m e) (omega arith)
  ]

  weight-put_entry :
      (ns : List (String × Node S)) (k : String) (d : ℕ) (m : List (String × ℕ))
      → d < rank (entry k m)
      → weight ns (put_entry k d m) ≤ weight ns m
  weight-put_entry [] k d m l = omega arith
  weight-put_entry ((j, n) ∷ ns) k d m l =
      omega (arith, rank-put_entry k j d m l, weight-put_entry ns k d m l)

  -- A key of the graph that comes closer lowers the weight.
  weight_closer :
      (ns : List (String × Node S)) (k : String) (n : Node S) (d : ℕ) (m : List (String × ℕ))
      → d < rank (entry k m)
      → entry k ns ≡ some n
      → weight ns (put_entry k d m) < weight ns m
  unfolding entry
  weight_closer [] k n d m l e = absurd (none-ne-some n e)
  weight_closer ((j, w) ∷ ns) k n d m l e = elim (Bool-cases (j =s k)) [
    | inl f ↦
        let less : rank (entry j (put_entry k d m)) < rank (entry j m) =
          subst (λ x. rank (entry x (put_entry k d m)) < rank (entry x m)) (sym ((eq_iff j k).0 f))
            (rw (entry-put_entry k d m) l) in
        omega (arith, less, weight-put_entry ns k d m l)
    | inr f ↦ omega (arith, rank-put_entry k j d m l, weight_closer ns k n d m l (rw f at e))
  ]

  -- The items on the queue and those that can still come.
  abbrev pub measure : GraphData S → Search S → ℕ
  measure g s = length (s.queue) + weight (g.nodes) (s.visited_depth)

  is_closer-rank :
      (o : Option ℕ) (d : ℕ)
      → d ≤ options.max_depth
      → is_closer one impact_score higher options o d ≡ true
      → d < rank o
  is_closer-rank none d l h = omega (arith, l)
  is_closer-rank (some old) d l h = ltb→lt d old h

  measure-reach :
      (g : GraphData S) (k : String) (reason : Reason) (depth : ℕ) (s t : Search S)
      → depth < rank (entry k (s.visited_depth))
      → reach one impact_score higher options g k reason depth s ≡ some t
      → measure g t ≤ measure g s
  unfolding reach
  measure-reach g k reason depth s t l e =
      elim (Bool-cases
        (is_none (entry k (s.selected)) && leb (options.max_nodes) (length (s.selected)))) [
          | inl f ↦ absurd (none-ne-some t (rw (reach, f) at e))
          | inr f ↦ elim (Option-cases (entry k (g.nodes))) [
            | inl u ↦ absurd (none-ne-some t (rw (reach, f, u) at e))
            | inr (n, u) ↦
                subst (λ x. measure g x ≤ measure g s) (some-injective _ t (rw (reach, f, u) at e))
                  (omega (
                    arith,
                    length-append (s.queue) ((k, depth) ∷ []),
                    weight_closer (g.nodes) k n depth (s.visited_depth) l u,
                  ))
          ]
        ]

  measure-keep_edge :
      (g : GraphData S) (raw : RawEdge) (reason : Reason) (depth : ℕ) (s : Search S)
      → measure g (keep_edge one impact_score higher options raw reason depth s) ≡ measure g s
  unfolding keep_edge
  measure-keep_edge g raw reason depth s =
      elim (Bool-cases
        (is_some (entry (raw.source) (s.selected)) && is_some (entry (raw.target) (s.selected)))) [
          | inl e ↦ rw (keep_edge, e) refl
          | inr e ↦ rw (keep_edge, e) refl
        ]

  measure-reach_again :
      (g : GraphData S) (k : String) (reason : Reason) (depth : ℕ) (s : Search S)
      → measure g (reach_again one impact_score higher options k reason depth s) ≡ measure g s
  unfolding reach_again
  measure-reach_again g k reason depth s = elim (Option-cases (entry k (s.selected))) [
    | inl e ↦ rw (reach_again, e) refl
    | inr e ↦ rw (reach_again, e.1) refl
  ]

  measure-walk :
      (g : GraphData S) (current : ℕ) (raw : RawEdge) (k : String) (b : Bool) (s : Search S)
      → current < options.max_depth
      → measure g (walk one impact_score higher options g current raw k b s) ≤ measure g s
  unfolding walk
  measure-walk g current raw k b s l =
      let reason =
        reason_for_edge (raw.relation) (test_of one impact_score higher options (entry k (g.nodes)))
          b in
      elim (Bool-cases
        (is_closer one impact_score higher options (entry k (s.visited_depth)) (suc current))) [
          | inl e ↦
              elim (Option-cases
                (reach one impact_score higher options g k reason (suc current) s)) [
                  | inl f ↦ rw (walk, e, f) (omega arith)
                  | inr (t, f) ↦
                      let less =
                        measure-reach g k reason (suc current) s t
                          (is_closer-rank (entry k (s.visited_depth)) (suc current) l e) f in
                      rw (walk, e, f)
                        (subst (λ x. x ≤ measure g s)
                          (sym (measure-keep_edge g raw reason (suc current) t)) less)
                ]
          | inr e ↦
              let same =
                measure-keep_edge g raw reason (suc current)
                  (reach_again one impact_score higher options k reason (suc current) s) in
              let same' = measure-reach_again g k reason (suc current) s in
              rw (walk, e) (subst (λ x. x ≤ measure g s) (sym (same ∙ same')) (omega arith))
        ]

  measure-walk_outgoing :
      (g : GraphData S) (current : ℕ) (es : List RawEdge) (s : Search S)
      → current < options.max_depth
      → measure g (walk_outgoing one impact_score higher options g current es s) ≤ measure g s
  unfolding walk_outgoing
  measure-walk_outgoing g current [] s l = omega arith
  measure-walk_outgoing g current (e ∷ es) s l =
      let first = measure-walk g current e (e.target) false s l in
      let others =
        measure-walk_outgoing g current es
          (walk one impact_score higher options g current e (e.target) false s) l in
      omega (arith, first, others)

  measure-walk_incoming :
      (g : GraphData S) (current : ℕ) (es : List RawEdge) (s : Search S)
      → current < options.max_depth
      → measure g (walk_incoming one impact_score higher options g current es s) ≤ measure g s
  unfolding walk_incoming
  measure-walk_incoming g current [] s l = omega arith
  measure-walk_incoming g current (e ∷ es) s l =
      let first = measure-walk g current e (e.source) true s l in
      let others =
        measure-walk_incoming g current es
          (walk one impact_score higher options g current e (e.source) true s) l in
      omega (arith, first, others)

  pub measure-expand :
      (g : GraphData S) (k : String) (current : ℕ) (s : Search S)
      → measure g (expand one impact_score higher options g k current s) ≤ measure g s
  unfolding expand
  measure-expand g k current s = elim (Bool-cases (leb (options.max_depth) current)) [
    | inl e ↦ rw (expand, e) (omega arith)
    | inr e ↦
        let l : current < options.max_depth = ground (arith, e) in
        let first = measure-walk_outgoing g current (outgoing k (g.raw_edges)) s l in
        let next =
          walk_outgoing one impact_score higher options g current (outgoing k (g.raw_edges)) s in
        let second = measure-walk_incoming g current (incoming k (g.raw_edges)) next l in
        rw (expand, e) (omega (arith, first, second))
  ]
