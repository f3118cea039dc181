-- ===== src/Budget/Sums.antt =====
-- What the statements of the `Manager` do to the sums over a set's reservations.

use ai_test_assistant.Prelude.{
  ℕ, ◌+◌, ◌≡◌, refl, Bool, List, [], ◌∷◌, ◌++◌, update, count_p, arith, ◌==◌, ◌&&◌, find, some,
  if◌then◌else◌, Bool-cases, inl, inr, subst,
}
use ai_test_assistant.Budget.Model.{Row, is_reserved, is_completed}
use ai_test_assistant.Budget.Manager.{
  sum_rows, used_tokens, held_tokens, is_open, set_finalized, set_released, set_uncertain,
}

pub sum_rows-append :
    (p : Row → Bool) (f : Row → ℕ) (xs ys : List Row)
    → sum_rows p f (xs ++ ys) ≡ sum_rows p f xs + sum_rows p f ys
unfolding sum_rows
sum_rows-append p f [] ys = omega arith
sum_rows-append p f (x ∷ xs) ys = omega (arith, sum_rows-append p f xs ys)

-- The tokens that a row takes from the budget of its set.
abbrev pub committed_tokens : ℕ → List Row → ℕ
committed_tokens set_id rows = used_tokens set_id rows + held_tokens set_id rows

-- An open reservation of the id, of this set.
unfoldable pub is_open_of : ℕ → ℕ → Row → Bool
is_open_of set_id id r = r.set_id == set_id && is_open id r

-- A set's tokens once the open rows of an id are finalized: what they held goes, what was used comes.
pub finalized-committed :
    (set_id id input output price now : ℕ) (rows : List Row)
    → committed_tokens set_id (update (is_open id) (set_finalized input output price now) rows)
        + sum_rows (is_open_of set_id id) (λ r. r.reserved_tokens) rows
      ≡ committed_tokens set_id rows + sum_rows (is_open_of set_id id) (λ _. input + output) rows
unfolding used_tokens held_tokens update is_open is_open_of set_finalized sum_rows is_reserved
    is_completed
finalized-committed set_id id input output price now [] = omega arith
finalized-committed set_id id input output price now (r ∷ rs) =
    ground (arith, finalized-committed set_id id input output price now rs)

pub released-committed :
    (set_id id now : ℕ) (rows : List Row)
    → committed_tokens set_id (update (is_open id) (set_released now) rows)
        + sum_rows (is_open_of set_id id) (λ r. r.reserved_tokens) rows
      ≡ committed_tokens set_id rows
unfolding used_tokens held_tokens update is_open is_open_of set_released sum_rows is_reserved
    is_completed
released-committed set_id id now [] = omega arith
released-committed set_id id now (r ∷ rs) = ground (arith, released-committed set_id id now rs)

-- The sum over the one open row of an id.
none_open :
    (set_id id : ℕ) (f : Row → ℕ) (rows : List Row)
    → count_p (is_open id) rows ≡ 0
    → sum_rows (is_open_of set_id id) f rows ≡ 0
unfolding sum_rows is_open_of
none_open set_id id f [] h = refl
none_open set_id id f (r ∷ rs) h = ground (arith, none_open set_id id f rs)

pub one_open :
    (set_id id : ℕ) (f : Row → ℕ) (rows : List Row) (row : Row)
    → count_p (is_open id) rows ≡ 1
    → find (is_open id) rows ≡ some row
    → sum_rows (is_open_of set_id id) f rows ≡ (if row.set_id == set_id then f row else 0)
unfolding sum_rows is_open_of find
one_open set_id id f [] row one e = absurd (omega (arith, one))
one_open set_id id f (r ∷ rs) row one e = elim (Bool-cases (is_open id r)) [
  | inl o ↦
      let same : r ≡ row = ground (arith, o, e) in
      let rest = none_open set_id id f rs (ground (arith, o, one)) in
      subst
        (λ x. sum_rows (is_open_of set_id id) f (r ∷ rs) ≡ (if x.set_id == set_id then f x else 0))
        same (ground (arith, o, rest))
  | inr o ↦
      ground (arith, o, one_open set_id id f rs row (ground (arith, o, one)) (ground (arith, o, e)))
]

pub uncertain-committed :
    (set_id id now : ℕ) (rows : List Row)
    → committed_tokens set_id (update (is_open id) (set_uncertain now) rows)
      ≡ committed_tokens set_id rows
unfolding used_tokens held_tokens update is_open set_uncertain
uncertain-committed set_id id now [] = omega arith
uncertain-committed set_id id now (r ∷ rs) = ground (arith, uncertain-committed set_id id now rs)

-- A row that is settled is no longer open.
pub finalized-closed :
    (id input output price now : ℕ) (rows : List Row)
    → count_p (is_open id) (update (is_open id) (set_finalized input output price now) rows) ≡ 0
unfolding update is_open set_finalized is_reserved
finalized-closed id input output price now [] = refl
finalized-closed id input output price now (r ∷ rs) =
    ground (arith, finalized-closed id input output price now rs)
