-- ===== src/Dora/Rates/Laws.antt =====
-- Rates are between 0 and 1.
use mathlib.Core.List.{Memᴰ}
use release_engine.Prelude.{
  eq_iff, ap, ℕ, ◌+◌, ◌≤◌, ◌<◌, true, false, ◌≡◌, refl, Option, none, some, List, [], ◌∷◌, Bool,
  Bool-cases, inl, inr, arith, any_of_mem, eq_refl, length, eqb, ◌&&◌, ◌==◌,
}
use release_engine.Dora.Rates.{
  CfrReads, in_window, Window, heuristic_match, query_cfr_stats, deployments_in, explicit_match,
  EventRow, rows_where,
}

mem-rows_where :
    (p : EventRow → Bool) (r : EventRow) (rows : List EventRow)
    → Memᴰ r rows
    → p r ≡ true
    → Memᴰ r (rows_where p rows)
unfolding rows_where
mem-rows_where p r [] m h = elim m [ ]
mem-rows_where p r (x ∷ xs) (Memᴰ.head e) h =
    let here : p x ≡ true = rw (← e) h in rw (here, rows_where) (Memᴰ.head e)
mem-rows_where p r (x ∷ xs) (Memᴰ.tail m) h = elim (Bool-cases (p x)) [
  | inl e ↦ rw (e, rows_where) (Memᴰ.tail (mem-rows_where p r xs m h))
  | inr e ↦ rw (e, rows_where) (mem-rows_where p r xs m h)
]

-- Of two tests that no row passes both, the counts add up to no more than all rows.
length-rows_where_apart :
    (p q : EventRow → Bool) (rows : List EventRow)
    → ((r : EventRow) → Memᴰ r rows → p r ≡ true → q r ≡ false)
    → length (rows_where p rows) + length (rows_where q rows) ≤ length rows
unfolding rows_where
length-rows_where_apart p q [] h = omega arith
length-rows_where_apart p q (x ∷ xs) h =
    let rest = length-rows_where_apart p q xs (λ r m. h r (Memᴰ.tail m)) in
    let here = h x (Memᴰ.head refl) in ground (arith, rest, here)

-- A test that passes fewer rows.
length-rows_where_mono :
    (p q : EventRow → Bool) (rows : List EventRow)
    → ((r : EventRow) → p r ≡ true → q r ≡ true)
    → length (rows_where p rows) ≤ length (rows_where q rows)
unfolding rows_where
length-rows_where_mono p q [] h = omega arith
length-rows_where_mono p q (x ∷ xs) h =
    let rest = length-rows_where_mono p q xs h in let here = h x in ground (arith, rest, here)

-- The two kinds of correlated deployments are apart.
correlated_bounded :
    (rows : List EventRow) (w : Window)
    → length (explicit_match rows w) + length (heuristic_match rows w)
      ≤ length (deployments_in rows w)
unfolding explicit_match heuristic_match
correlated_bounded rows w = length-rows_where_apart _ _ (deployments_in rows w) λ d m is_explicit.
    let by_id =
      any_of_mem (λ (em : EventRow). em.id == d.id) (explicit_match rows w)
        (mem-rows_where _ d (deployments_in rows w) m is_explicit) (eq_refl d.id) in
    rw by_id refl

failed_bounded :
    (rows : List EventRow) (w : Window)
    → length (rows_where (λ r. in_window w r && r.event_type == "deployment.failed") rows)
      ≤ length (deployments_in rows w)
unfolding deployments_in
failed_bounded rows w =
    length-rows_where_mono _ _ rows λ r h. ground (arith, eq_iff r.event_type "deployment.failed")

-- Where the window has no more deployments at the correlating and at the failure count than at the
-- deployment count, a change failure rate is at most 1 and has deployments below it, and the
-- deployments that are correlated explicitly or by time are no more than those counted.
pub query_cfr_stats-IsRate :
    (reads : CfrReads) (w : Window) (failures deployments : ℕ)
    → length (deployments_in reads.at_correlation w)
      ≤ length (deployments_in reads.at_deployments w)
    → length (deployments_in reads.at_failures w) ≤ length (deployments_in reads.at_deployments w)
    → (query_cfr_stats reads w).percent ≡ some (failures, deployments)
    → (failures ≤ deployments)
      × (0 < deployments)
      × ((query_cfr_stats reads w).explicit_correlations
            + (query_cfr_stats reads w).heuristic_correlations
          ≤ (query_cfr_stats reads w).deployment_count)
unfolding query_cfr_stats
query_cfr_stats-IsRate reads w failures deployments fewer fewer_failed given =
    let both_then = correlated_bounded reads.at_correlation w in
    let failed_then = failed_bounded reads.at_failures w in
    let both : length (explicit_match reads.at_correlation w)
          + length (heuristic_match reads.at_correlation w)
        ≤ length (deployments_in reads.at_deployments w) =
      omega (arith, both_then, fewer) in
    let failed : length
          (rows_where (λ r. in_window w r && r.event_type == "deployment.failed") reads.at_failures)
        ≤ length (deployments_in reads.at_deployments w) =
      omega (arith, failed_then, fewer_failed) in
    let opened =
      length
        (rows_where (λ r. in_window w r && r.event_type == "incident.opened") reads.at_incidents) in
    elim (Bool-cases (eqb (length (deployments_in reads.at_deployments w)) 0)) [
      | inl empty ↦ let stuck = rw (empty, query_cfr_stats) at given in absurd cc
      | inr some_there ↦ elim (Bool-cases (eqb opened 0)) [
        | inl by_proxy ↦
            let same = rw (some_there, by_proxy, query_cfr_stats) at given in
            let (n, d) = pair_injective same in
            rw (some_there, ← n, ← d, query_cfr_stats) (failed, ground arith, both)
        | inr by_incidents ↦
            let same = rw (some_there, by_incidents, query_cfr_stats) at given in
            let (n, d) = pair_injective same in
            rw (some_there, ← n, ← d, query_cfr_stats) (both, ground arith, both)
      ]
    ]
  where
    pair_injective :
        {a b c d : ℕ} → Path (Option (ℕ × ℕ)) (some (a, b)) (some (c, d)) → (a ≡ c) × (b ≡ d)
    pair_injective e = (ap (λ o. first o) e, ap (λ o. second o) e)
      where
        first : Option (ℕ × ℕ) → ℕ
        first none = 0
        first (some (x, y)) = x

        second : Option (ℕ × ℕ) → ℕ
        second none = 0
        second (some (x, y)) = y
