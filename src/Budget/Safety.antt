-- ===== src/Budget/Safety.antt =====
-- What a granted reservation does to the sums of its set (backend/internal/aibudget/budget.go).
use Prim.Native.String.{String}
use ai_test_assistant.Prelude.{
  ℕ, ◌+◌, ◌^◌, ◌≤◌, ◌<◌, ◌≡◌, true, false, ◌&&◌, ◌==◌, ltb, some, List, [], ◌∷◌, ◌++◌, find, arith,
  ok, Option-cases, inl, inr,
}
use ai_test_assistant.Budget.Model.{Row, is_reserved, is_completed}
use ai_test_assistant.Budget.Manager.{
  SetRow, Ledger, Request, Reservation, WorkflowAttempt, at_least, estimate_input_tokens, wrap,
  above, new_row, used_tokens, held_tokens, used_cost, held_cost, reserve,
}
use ai_test_assistant.Budget.Sums.{sum_rows-append}

-- The tokens that `Reserve` asks for.
abbrev pub asked : Request → ℕ
asked q = estimate_input_tokens q + at_least 1 q.max_output_tokens

-- A row of the set, added at the end.
added_row :
    (id set_id : ℕ) (phase subject : String) (attempt : WorkflowAttempt) (tokens price expires : ℕ)
    (rows : List Row)
    → let t = rows ++ new_row id set_id phase subject attempt tokens price expires ∷ [] in
      (used_tokens set_id t ≡ used_tokens set_id rows)
      × (held_tokens set_id t ≡ held_tokens set_id rows + tokens)
      × (used_cost set_id t ≡ used_cost set_id rows)
      × (held_cost set_id t ≡ held_cost set_id rows + price)
unfolding used_tokens held_tokens used_cost held_cost new_row is_reserved is_completed
added_row id set_id phase subject attempt tokens price expires rows =
    let row = new_row id set_id phase subject attempt tokens price expires in
    (
      ground (
        arith,
        sum_rows-append (λ r. r.set_id == set_id && is_completed r.status)
            (λ r. r.input_tokens + r.output_tokens) rows (row ∷ []),
      ),
      ground (
        arith,
        sum_rows-append (λ r. r.set_id == set_id && is_reserved r.status) (λ r. r.reserved_tokens)
            rows (row ∷ []),
      ),
      ground (
        arith,
        sum_rows-append (λ r. r.set_id == set_id && is_completed r.status) (λ r. r.actual_cost) rows
            (row ∷ []),
      ),
      ground (
        arith,
        sum_rows-append (λ r. r.set_id == set_id && is_reserved r.status) (λ r. r.reserved_cost)
            rows (row ∷ []),
      ),
    )

-- A test on a sum that does not wrap.
pub not_above : (a b : ℕ) → a < 2 ^ 63 → above (wrap a) b ≡ ltb b a
unfolding above wrap
not_above a b h = ground arith

pub wrap_small : (a : ℕ) → a < 2 ^ 63 → wrap a ≡ a
unfolding wrap
wrap_small a h = omega arith

module _ (ttl : ℕ) (cost : ℕ → ℕ → ℕ) where
  abbrev price_of : Request → ℕ
  price_of q = cost (estimate_input_tokens q) (at_least 1 q.max_output_tokens)

  -- The tests that a granted reservation has passed, and what it stored.
  granted :
      (set_id : ℕ) (phase subject : String) (q : Request) (attempt : WorkflowAttempt) (now : ℕ)
      (l m : Ledger) (v : Reservation) (d : SetRow)
      → find (λ x. x.id == set_id) l.sets ≡ some d
      → reserve true ttl cost set_id phase subject q attempt now l ≡ (m, ok v)
      → (d.active ≡ true)
        × (above
              (wrap (used_tokens set_id l.rows + held_tokens set_id l.rows + wrap (asked q)))
              d.token_budget
            ≡ false)
        × ((ltb 0 d.cost_budget
              && above
                  (wrap (used_cost set_id l.rows + held_cost set_id l.rows + price_of q))
                  d.cost_budget)
            ≡ false)
        × (v.reserved_tokens ≡ wrap (asked q))
        × (v.reserved_cost ≡ price_of q)
        × (m.rows
            ≡ l.rows
              ++ new_row l.next_id set_id phase subject attempt
                  (wrap (asked q))
                  (price_of q)
                  (now + ttl)
                ∷ [])
  unfolding reserve
  granted set_id phase subject q attempt now l m v d f e = ground arith

  set_found :
      (set_id : ℕ) (phase subject : String) (q : Request) (attempt : WorkflowAttempt) (now : ℕ)
      (l m : Ledger) (v : Reservation)
      → reserve true ttl cost set_id phase subject q attempt now l ≡ (m, ok v)
      → (d : SetRow) × (find (λ x. x.id == set_id) l.sets ≡ some d)
  unfolding reserve
  set_found set_id phase subject q attempt now l m v e =
      elim (Option-cases (find (λ x. x.id == set_id) l.sets)) [
        | inl f ↦ absurd (ground arith)
        | inr (d, f) ↦ (d, f)
      ]

  -- What a reservation of a set does: the set is there and ACTIVE, its tables and budgets.
  abbrev pub Reserved : ℕ → Request → Ledger → Ledger → Reservation → SetRow → Type 0
  Reserved set_id q l m v d =
      (find (λ x. x.id == set_id) l.sets ≡ some d)
      × (d.active ≡ true)
      × (v.reserved_tokens ≡ asked q)
      × (used_tokens set_id m.rows ≡ used_tokens set_id l.rows)
      × (held_tokens set_id m.rows ≡ held_tokens set_id l.rows + v.reserved_tokens)
      × (used_tokens set_id m.rows + held_tokens set_id m.rows ≤ d.token_budget)
      × (used_cost set_id m.rows ≡ used_cost set_id l.rows)
      × (held_cost set_id m.rows ≡ held_cost set_id l.rows + v.reserved_cost)
      × (0 < d.cost_budget → used_cost set_id m.rows + held_cost set_id m.rows ≤ d.cost_budget)

  -- A reservation that `Reserve` grants holds exactly the tokens asked for, and leaves the tokens used
  -- and held by its ACTIVE set within the token budget, and its cost within a cost budget that is not
  -- zero; the sums compared must stay below 2 ^ 63.
  pub reserve_within_budget :
      (set_id : ℕ) (phase subject : String) (q : Request) (attempt : WorkflowAttempt) (now : ℕ)
      (l m : Ledger) (v : Reservation)
      → used_tokens set_id l.rows + held_tokens set_id l.rows + asked q < 2 ^ 63
      → used_cost set_id l.rows
          + held_cost set_id l.rows
          + cost (estimate_input_tokens q) (at_least 1 q.max_output_tokens)
        < 2 ^ 63
      → reserve true ttl cost set_id phase subject q attempt now l ≡ (m, ok v)
      → (d : SetRow) × Reserved set_id q l m v d
  reserve_within_budget set_id phase subject q attempt now l m v t c e =
      let (d, f) = set_found set_id phase subject q attempt now l m v e in
      let g = granted set_id phase subject q attempt now l m v d f e in
      let tokens = wrap_small (asked q) (omega arith) in
      let rows =
        added_row l.next_id set_id phase subject attempt (wrap (asked q)) (price_of q) (now + ttl)
          l.rows in
      let fit = rw tokens at g.1 in
      (
        d,
        rw g.5 (
            ground (
              arith,
              f,
              g.0,
              g.2,
              g.3,
              g.4,
              tokens,
              rows,
              fit,
              not_above (used_tokens set_id l.rows + held_tokens set_id l.rows + asked q)
                  d.token_budget t,
              not_above (used_cost set_id l.rows + held_cost set_id l.rows + price_of q)
                  d.cost_budget c,
            )),
      )
