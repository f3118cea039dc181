-- ===== src/Budget/Settling.antt =====
-- What the calls after a reservation do to the budget, and what `Status` tells about the next one.
use Prim.Native.String.{String}
use ai_test_assistant.Prelude.{
  ℕ, ◌+◌, ◌^◌, ◌<◌, ◌≡◌, ◌≢◌, Bool, true, false, not, ◌==◌, ltb, leb, some, update, update_none,
  find, count_p, arith, List, [], ◌∷◌, if◌then◌else◌, Bool-cases, inl, inr, refl, Result, ok, err,
}
use ai_test_assistant.Budget.Model.{Row}
use ai_test_assistant.Budget.Manager.{
  SetRow, Ledger, BudgetError, not_active, Request, TokenUsage, Reservation, WorkflowAttempt,
  at_least, estimate_input_tokens, wrap, above, fits, used_tokens, held_tokens, used_cost,
  held_cost, is_open, reserve, finalize, release, uncertain, set_finalized, set_released,
  set_uncertain, remaining, status, BudgetStatus,
}
use ai_test_assistant.Budget.Sums.{
  committed_tokens, one_open, finalized-committed, released-committed, uncertain-committed,
  finalized-closed,
}
use ai_test_assistant.Budget.Safety.{asked, not_above, wrap_small}

-- The tokens that a provider reports.
abbrev pub charged : TokenUsage → ℕ
charged u = at_least 0 u.input_tokens + at_least 0 u.output_tokens

-- What counts for a set of an amount on a row.
abbrev pub of_set : ℕ → Row → ℕ → ℕ
of_set set_id row n = if row.set_id == set_id then n else 0

found_row :
    (id : ℕ) (rows : List Row)
    → count_p (is_open id) rows ≡ 1
    → (row : Row) × (find (is_open id) rows ≡ some row)
unfolding find
found_row id [] h = absurd (omega (arith, h))
found_row id (r ∷ rs) h = elim (Bool-cases (is_open id r)) [
  | inl e ↦ (r, rw e refl)
  | inr e ↦ let (row, f) = found_row id rs (ground (arith, e, h)) in (row, rw e f)
]

module _ (ttl : ℕ) (cost : ℕ → ℕ → ℕ) where
  -- The price of a usage.
  abbrev pub price_of_usage : TokenUsage → ℕ
  price_of_usage u = cost (at_least 0 u.input_tokens) (at_least 0 u.output_tokens)

  -- `Finalize`, `Release` and `Uncertain` of the one open reservation of an id, which is not 0, at a price
  -- that is an int64 not below 0. `Finalize` replaces the tokens that the reservation holds from its set
  -- by those that the provider reports, be they more or fewer; `Release` gives back what it holds; and
  -- `Uncertain` leaves all of it held. No other set's tokens change.
  pub settled_tokens :
      (set_id : ℕ) (v : Reservation) (usage : TokenUsage) (now : ℕ) (l : Ledger)
      → v.id ≢ 0
      → count_p (is_open v.id) l.rows ≡ 1
      → fits (price_of_usage usage) ≡ true
      → (row : Row) × (find (is_open v.id) l.rows ≡ some row)
        × (committed_tokens set_id (finalize true ttl cost v usage now l).0.rows
              + of_set set_id row row.reserved_tokens
            ≡ committed_tokens set_id l.rows + of_set set_id row (charged usage))
        × (committed_tokens set_id (release true ttl cost v now l).rows
              + of_set set_id row row.reserved_tokens
            ≡ committed_tokens set_id l.rows)
        × (committed_tokens set_id (uncertain true ttl cost v now l).rows
            ≡ committed_tokens set_id l.rows)
  unfolding finalize release uncertain
  settled_tokens set_id v usage now l n one p =
      let (row, e) = found_row v.id l.rows one in
      let held = one_open set_id v.id (λ r. r.reserved_tokens) l.rows row one e in
      let used = one_open set_id v.id (λ _. charged usage) l.rows row one e in
      (
        row,
        e,
        ground (
          arith,
          p,
          held,
          used,
          finalized-committed set_id v.id (at_least 0 usage.input_tokens)
              (at_least 0 usage.output_tokens) (price_of_usage usage) now l.rows,
        ),
        ground (arith, held, released-committed set_id v.id now l.rows),
        ground (arith, uncertain-committed set_id v.id now l.rows),
      )

  finalized :
      (v : Reservation) (usage : TokenUsage) (now : ℕ) (l m : Ledger)
      → v.id ≢ 0
      → finalize true ttl cost v usage now l ≡ (m, ok tt)
      → m.rows
        ≡ update
            (is_open v.id)
            (set_finalized
              (at_least 0 usage.input_tokens)
              (at_least 0 usage.output_tokens)
              (price_of_usage usage)
              now)
            l.rows
  unfolding finalize
  finalized v usage now l m n e = ground arith

  -- A reservation whose id is not 0 is settled once: after a `Finalize` that succeeded, a second one,
  -- of a price that is an int64 not below 0, answers an error, and neither it, nor `Release`, nor
  -- `Uncertain` changes a row.
  pub settled_once :
      (v : Reservation) (first second : TokenUsage) (now later : ℕ) (l m : Ledger)
      → v.id ≢ 0
      → finalize true ttl cost v first now l ≡ (m, ok tt)
      → fits (price_of_usage second) ≡ true
      → (finalize true ttl cost v second later m ≡ (m, err not_active))
        × (release true ttl cost v later m ≡ m)
        × (uncertain true ttl cost v later m ≡ m)
  unfolding finalize release uncertain
  settled_once v first second now later l m n e p =
      let rows = finalized v first now l m n e in
      let closed : count_p (is_open v.id) m.rows ≡ 0 = rw rows (
        finalized-closed v.id (at_least 0 first.input_tokens) (at_least 0 first.output_tokens)
          (price_of_usage first) now l.rows) in
      ground (
        arith,
        closed,
        update_none (is_open v.id)
            (set_finalized (at_least 0 second.input_tokens) (at_least 0 second.output_tokens)
              (price_of_usage second) later)
            m.rows closed,
        update_none (is_open v.id) (set_released later) m.rows closed,
        update_none (is_open v.id) (set_uncertain later) m.rows closed,
      )

abbrev pub is_granted : Result BudgetError Reservation → Bool
is_granted (ok _) = true
is_granted (err _) = false

asked_pos : (q : Request) → 0 < asked q
unfolding estimate_input_tokens
asked_pos q = ground arith

-- What `Status` answers about a set's tokens.
status_tokens :
    (set_id now : ℕ) (l : Ledger) (st : BudgetStatus) (d : SetRow)
    → find (λ x. x.id == set_id) l.sets ≡ some d
    → status set_id now l ≡ ok st
    → (st.remaining_tokens
        ≡ remaining d.token_budget (used_tokens set_id l.rows) (held_tokens set_id l.rows))
      × (fits (used_tokens set_id l.rows) ≡ true)
      × (fits (held_tokens set_id l.rows) ≡ true)
      × (fits (used_cost set_id l.rows) ≡ true)
      × (fits (held_cost set_id l.rows) ≡ true)
unfolding status
status_tokens set_id now l st d f e = ground arith

granted_by_tokens :
    (ttl : ℕ) (cost : ℕ → ℕ → ℕ) (set_id : ℕ) (phase subject : String) (q : Request)
    (attempt : WorkflowAttempt) (now : ℕ) (l : Ledger) (d : SetRow)
    → find (λ x. x.id == set_id) l.sets ≡ some d
    → d.active ≡ true
    → d.cost_budget ≡ 0
    → fits (used_tokens set_id l.rows) ≡ true
    → fits (held_tokens set_id l.rows) ≡ true
    → fits (used_cost set_id l.rows) ≡ true
    → fits (held_cost set_id l.rows) ≡ true
    → fits (wrap (asked q)) ≡ true
    → ltb 0 (wrap (asked q)) ≡ true
    → fits (cost (estimate_input_tokens q) (at_least 1 q.max_output_tokens)) ≡ true
    → is_granted (reserve true ttl cost set_id phase subject q attempt now l).1
      ≡ not (
          above
            (wrap (used_tokens set_id l.rows + held_tokens set_id l.rows + wrap (asked q)))
            d.token_budget)
unfolding reserve
granted_by_tokens ttl cost set_id phase subject q attempt now l d f a z u h x y t g p = ground arith

-- The tokens that `Status` reports as remaining decide the next reservation: with an ACTIVE set and no
-- cost budget, `Reserve` grants a request exactly when it asks for no more than they are; the sum
-- compared stays below 2 ^ 63, and the price is an int64 that is not negative.
pub remaining_decides_reserve :
    (ttl : ℕ) (cost : ℕ → ℕ → ℕ) (set_id : ℕ) (phase subject : String) (q : Request)
    (attempt : WorkflowAttempt) (now : ℕ) (l : Ledger) (st : BudgetStatus) (d : SetRow)
    → find (λ x. x.id == set_id) l.sets ≡ some d
    → d.active ≡ true
    → d.cost_budget ≡ 0
    → status set_id now l ≡ ok st
    → committed_tokens set_id l.rows + asked q < 2 ^ 63
    → fits (cost (estimate_input_tokens q) (at_least 1 q.max_output_tokens)) ≡ true
    → is_granted (reserve true ttl cost set_id phase subject q attempt now l).1
      ≡ leb (asked q) st.remaining_tokens
unfolding fits remaining
remaining_decides_reserve ttl cost set_id phase subject q attempt now l st d f a z e t p =
    let small = wrap_small (asked q) (omega arith) in
    let told = status_tokens set_id now l st d f e in
    let b =
      granted_by_tokens ttl cost set_id phase subject q attempt now l d f a z told.1 told.2 told.3
        told.4 (rw small (ground arith)) (rw small (ground (arith, asked_pos q))) p in
    ground (
      arith,
      rw small at b,
      told,
      asked_pos q,
      not_above (committed_tokens set_id l.rows + asked q) d.token_budget t,
    )
