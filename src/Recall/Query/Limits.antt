-- ===== src/Recall/Query/Limits.antt =====
-- memories/domain/recall_query.rs: the numbers of a query that was let in.
use recuerdos_ai.Prelude.{ℕ, zero, suc, ◌≤◌, ◌<◌, ◌≡◌, arith, not, length, leb, is_empty}
use recuerdos_ai.Text.{Text, trim}
use recuerdos_ai.Shared.Error.{ok, guard, validation, >>=-eq-ok, ok-injective}
use recuerdos_ai.Recall.Query.{ℤ, pos, negsuc, RecallQuery, new, limit_of, candidate_depth}

limit_of_bounds : (limit : ℤ) (n : ℕ) → limit_of limit ≡ ok n → (0 < n) × (n ≤ 50)
unfolding limit_of
limit_of_bounds (negsuc m) n h = cc
limit_of_bounds (pos zero) n h = cc
limit_of_bounds (pos (suc m)) n h = ground (arith, ok-injective h)

-- A query that was let in asks for 1 to 50 results, and each leg looks at 40 candidates at the
-- least, and at no fewer than the results asked for.
pub new_bounds :
    (raw : Text) (limit : ℤ) (query : RecallQuery)
    → new raw limit ≡ ok query
    → (0 < query.limit)
      × (query.limit ≤ 50)
      × (40 ≤ candidate_depth query)
      × (query.limit ≤ candidate_depth query)
unfolding new candidate_depth
new_bounds raw limit query h =
    let (u, e, k) = >>=-eq-ok (guard (not (is_empty (trim raw))) validation) _ h in
    let (v, g, m) = >>=-eq-ok (guard (leb (length (trim raw)) 1000) validation) _ k in
    let (n, l, r) = >>=-eq-ok (limit_of limit) _ m in
    let (b, c) = limit_of_bounds limit n l in ground (arith, ok-injective r, b, c)
