-- ===== src/Dora/Rates.antt =====
-- The counts and rates of `GetSummary` (internal/transport/http/dora_handler.go). A rate is the pair of
-- numerator and denominator that the code divides as float64; percentiles are PostgreSQL's and left out.
pub mod Laws
use release_engine.Prelude.{
  ℕ, String, ◌+◌, ◌*◌, Bool, true, false, not, ◌&&◌, ◌||◌, Option, none, some, List, [], ◌∷◌, ◌==◌,
  if◌then◌else◌, any, length, leb, ltb, eqb, is_some,
}
use release_engine.Dora.Events.{is_deployment}
use release_engine.Dora.Store.{EventRow, sql_equal}

-- WHERE
unfoldable pub rows_where : (EventRow → Bool) → List EventRow → List EventRow
rows_where p [] = []
rows_where p (r ∷ rs) = let rest = rows_where p rs in if p r then r ∷ rest else rest

-- The four arguments that the queries share.
pub record Window : Type 0 where
  pub tenant_id : String
  pub service_ref : String
  pub start : ℕ
  pub end_at : ℕ

abbrev pub in_service : Window → EventRow → Bool
in_service w r = r.tenant_id == w.tenant_id && sql_equal r.service_ref (some w.service_ref)

abbrev pub in_window : Window → EventRow → Bool
in_window w r = in_service w r && leb w.start r.event_timestamp && ltb r.event_timestamp w.end_at

pub record CfrStats : Type 0 where
  pub percent : Option (ℕ × ℕ)
  pub deployment_count : ℕ
  pub incident_opened_count : ℕ
  pub correlated_deployments : ℕ
  pub explicit_correlations : ℕ
  pub heuristic_correlations : ℕ
  pub proxy_failure_rate : Option (ℕ × ℕ)

abbrev pub one_hour : ℕ
one_hour = 3_600_000_000_000

-- An incident of the service from the deployment on, before the end of the window.
abbrev pub opened_after : Window → EventRow → EventRow → Bool
opened_after w d i =
    in_service w i
    && i.event_type == "incident.opened"
    && leb d.event_timestamp i.event_timestamp
    && ltb i.event_timestamp w.end_at

module _ (rows : List EventRow) (w : Window) where
  unfoldable pub deployments_in : List EventRow
  deployments_in = rows_where (λ r. in_window w r && is_deployment r.event_type) rows

  -- SELECT DISTINCT of the ids, which are the table's keys.
  unfoldable pub explicit_match : List EventRow
  unfolding deployments_in
  explicit_match =
      rows_where
        (λ d. any (λ i. opened_after w d i && sql_equal i.correlation_key d.correlation_key) rows)
        deployments_in

  unfoldable pub heuristic_match : List EventRow
  unfolding deployments_in explicit_match
  heuristic_match =
      rows_where
        (λ d.
          not (any (λ em. em.id == d.id) explicit_match)
          && any (λ i. opened_after w d i && leb i.event_timestamp (d.event_timestamp + one_hour))
              rows)
        deployments_in

-- The rows of `dora_events` at each SELECT: they run one by one, in no transaction.
pub record CfrReads : Type 0 where
  pub at_deployments : List EventRow
  pub at_incidents : List EventRow
  pub at_correlation : List EventRow
  pub at_failures : List EventRow

-- `queryCFRStats` where no query fails.
unfoldable pub query_cfr_stats : CfrReads → Window → CfrStats
unfolding explicit_match heuristic_match
query_cfr_stats reads w =
    let deployments = length (deployments_in reads.at_deployments w) in
    let opened =
      length
        (rows_where (λ r. in_window w r && r.event_type == "incident.opened") reads.at_incidents) in
    let explicit = length (explicit_match reads.at_correlation w) in
    let heuristic = length (heuristic_match reads.at_correlation w) in
    let failed_count =
      length (
        rows_where (λ r. in_window w r && r.event_type == "deployment.failed") reads.at_failures) in
    if eqb deployments 0
    then record {
      percent = none;
      deployment_count = deployments;
      incident_opened_count = opened;
      correlated_deployments = 0;
      explicit_correlations = 0;
      heuristic_correlations = 0;
      proxy_failure_rate = none;
    }
    else record {
      percent =
          if eqb opened 0
          then some (failed_count, deployments)
          else some (explicit + heuristic, deployments);
      deployment_count = deployments;
      incident_opened_count = opened;
      correlated_deployments = explicit + heuristic;
      explicit_correlations = explicit;
      heuristic_correlations = heuristic;
      proxy_failure_rate = if eqb opened 0 then some (failed_count, deployments) else none;
    }

pub data Quality : Type 0 where
  no_data proxy partial complete : Quality

unfoldable pub cfr_quality : CfrStats → Quality
cfr_quality s =
    if eqb s.deployment_count 0
    then no_data
    else if eqb s.incident_opened_count 0
    then if is_some s.proxy_failure_rate then proxy else no_data
    else if eqb s.correlated_deployments 0
    then partial
    else if ltb 0 s.heuristic_correlations
    then partial
    else if ltb 0 s.explicit_correlations
    then complete
    else partial

-- `p50` is whether there is a median.
pub record MttrStats : Type 0 where
  pub p50 : Bool
  pub opened_count : ℕ
  pub resolved_pair_count : ℕ

unfoldable pub mttr_quality : MttrStats → Quality
mttr_quality s =
    if eqb s.opened_count 0
    then no_data
    else if eqb s.resolved_pair_count 0 || not s.p50
    then partial
    else if ltb s.resolved_pair_count s.opened_count
    then partial
    else complete

-- The quality of the lead time in `GetSummary`: 0.80 of the deployments with commits.
unfoldable pub lead_time_quality : (p50 : Bool) → (successful correlated : ℕ) → Quality
lead_time_quality p50 successful correlated =
    if ltb 0 successful && ltb 0 correlated && p50
    then if leb (4 * successful) (5 * correlated) then complete else partial
    else no_data
