-- ===== src/Dora/Reads.antt =====
-- `GetDeployments`, `ListDeadLetter` and `GetDeadLetter` (internal/transport/http/dora_handler.go). The
-- answers are listed in the order in which they are written, as for a replay.
use release_engine.Prelude.{
  ℕ, String, Bool, true, false, not, ◌&&◌, ◌||◌, Option, none, some, List, [], ◌∷◌, ◌==◌,
  if◌then◌else◌, trim_space, eqb, ltb, leb, sort, take, map,
}
use release_engine.Dora.Events.{is_deployment}
use release_engine.Dora.Store.{EventRow, LetterRow, sql_equal}
use release_engine.Dora.Rates.{rows_where}
use release_engine.Dora.Replay.{find_letter}
use release_engine.Dora.Admission.{DoraCaller, Denial, authorize}

-- A deployment as it is shown; the fields are those that `Scan` reads.
pub record Deployment : Type 0 where
  pub id : String
  pub event_type : String
  pub event_source : String
  pub environment : String
  pub correlation_key : String
  pub event_timestamp : ℕ
  pub payload : String

-- The pool's answers to a handler that reads, and `strconv.Atoi` where it gives a positive number.
pub record Reading : Type 0 where
  pub pool : Bool
  pub acquires : Bool
  pub query_fails : Bool
  pub atoi : String → Option ℕ

-- `limit`, 50 by default and between 1 and 200.
unfoldable pub parse_limit : (String → Option ℕ) → String → Option ℕ
parse_limit atoi text =
    let raw = trim_space text in
    if raw == ""
    then some 50
    else elim (atoi raw) [ none ↦ none | some n ↦ if eqb n 0 || ltb 200 n then none else some n ]

-- `rows.Scan` fails on a NULL.
abbrev pub scan_deployment : EventRow → Option Deployment
scan_deployment r = elim r.environment [
  | none ↦ none
  | some environment ↦ elim r.correlation_key [
    | none ↦ none
    | some correlation_key ↦ some (record {
      id = r.id;
      event_type = r.event_type;
      event_source = r.event_source;
      environment = environment;
      correlation_key = correlation_key;
      event_timestamp = r.event_timestamp;
      payload = r.payload;
    })
  ]
]

unfoldable pub scan_all : List EventRow → Option (List Deployment)
scan_all [] = some []
scan_all (r ∷ rs) = elim (scan_deployment r) [
  | none ↦ none
  | some d ↦ elim (scan_all rs) [ none ↦ none | some ds ↦ some (d ∷ ds) ]
]

abbrev pub newer_first : EventRow → EventRow → Bool
newer_first a b = leb b.event_timestamp a.event_timestamp

abbrev pub is_deployment_of : String → String → EventRow → Bool
is_deployment_of tenant_id service_ref r =
    r.tenant_id == tenant_id
    && sql_equal r.service_ref (some service_ref)
    && is_deployment r.event_type

-- The rows that the query of `GetDeployments` returns.
unfoldable pub deployment_rows :
    (tenant_id service_ref : String) → ℕ → List EventRow → List EventRow
deployment_rows tenant_id service_ref limit rows =
    take limit (sort newer_first (rows_where (is_deployment_of tenant_id service_ref) rows))

-- The answers that a caller gets: a status with its code, or the rows.
pub data ReadAnswer (A : Type 0) : Type 0 where
  refused_read : ℕ → String → ReadAnswer A
  listed : List A → ReadAnswer A

-- The answer that `authorize` wrote, then the rest unless the handler stops.
abbrev pub after_gate :
    {A : Type 0} → (write_fails : Bool) → Option Denial → ReadAnswer A → List (ReadAnswer A)
after_gate write_fails none rest = rest ∷ []
after_gate true (some (status, code)) rest = refused_read status code ∷ []
after_gate false (some (status, code)) rest = refused_read status code ∷ rest ∷ []

unfoldable pub read_deployments :
    Reading → (tenant_id service_ref limit_text : String) → List EventRow → ReadAnswer Deployment
unfolding parse_limit scan_all deployment_rows
read_deployments r tenant_id service_ref limit_text rows = elim (parse_limit r.atoi limit_text) [
  | none ↦ refused_read 400 "INVALID_REQUEST"
  | some limit ↦
      if not r.pool
      then listed []
      else if not r.acquires || r.query_fails
      then refused_read 500 "INTERNAL_ERROR"
      else elim (scan_all (deployment_rows tenant_id service_ref limit rows)) [
        | none ↦ refused_read 500 "INTERNAL_ERROR"
        | some ds ↦ listed ds
      ]
]

unfoldable pub get_deployments :
    (write_fails : Bool)
    → DoraCaller
    → Reading
    → (tenant service limit_text : String) → List EventRow
    → List (ReadAnswer Deployment)
unfolding read_deployments
get_deployments write_fails caller r tenant service limit_text rows =
    let tenant_id = trim_space tenant in
    let service_ref = trim_space service in
    if tenant_id == "" || service_ref == ""
    then refused_read 400 "INVALID_REQUEST" ∷ []
    else after_gate write_fails (authorize caller tenant_id)
        (read_deployments r tenant_id service_ref limit_text rows)

-- A dead letter as `ListDeadLetter` shows it.
pub record LetterItem : Type 0 where
  pub id : String
  pub provider : String
  pub source_event_id : Option String
  pub failure_reason : String × String
  pub created_at : ℕ
  pub replayed_at : Option ℕ

module _ {Stored Body : Type 0} where
  abbrev pub item_of : LetterRow Stored Body → LetterItem
  item_of l = record {
    id = l.id;
    provider = l.provider;
    source_event_id = l.source_event_id;
    failure_reason = l.failure_reason;
    created_at = l.created_at;
    replayed_at = l.replayed_at;
  }

  unfoldable pub letters_where :
      (LetterRow Stored Body → Bool) → List (LetterRow Stored Body) → List (LetterRow Stored Body)
  letters_where p [] = []
  letters_where p (r ∷ rs) = let rest = letters_where p rs in if p r then r ∷ rest else rest

  abbrev pub latest_first : LetterRow Stored Body → LetterRow Stored Body → Bool
  latest_first a b = leb b.created_at a.created_at

  -- The letters of the tenant, of the provider where one is named.
  unfoldable pub read_letters :
      Reading
      → (tenant_id provider limit_text : String) → List (LetterRow Stored Body)
      → ReadAnswer LetterItem
  unfolding parse_limit letters_where
  read_letters r tenant_id provider limit_text rows = elim (parse_limit r.atoi limit_text) [
    | none ↦ refused_read 400 "INVALID_REQUEST"
    | some limit ↦
        if not r.pool
        then listed []
        else if not r.acquires || r.query_fails
        then refused_read 500 "INTERNAL_ERROR"
        else listed (
            map item_of (
              take limit (
                sort latest_first (
                  letters_where
                    (λ l. l.tenant_id == tenant_id && (provider == "" || l.provider == provider))
                    rows))))
  ]

  unfoldable pub list_dead_letter :
      (write_fails : Bool)
      → DoraCaller
      → Reading
      → (tenant provider limit_text : String) → List (LetterRow Stored Body)
      → List (ReadAnswer LetterItem)
  unfolding read_letters
  list_dead_letter write_fails caller r tenant provider limit_text rows =
      let tenant_id = trim_space tenant in
      if tenant_id == ""
      then refused_read 400 "INVALID_REQUEST" ∷ []
      else after_gate write_fails (authorize caller tenant_id)
          (read_letters r tenant_id (trim_space provider) limit_text rows)

  -- The row, of which the answer leaves out the tenant and the job of the replay.
  unfoldable pub read_letter :
      Reading
      → (id tenant_id : String) → List (LetterRow Stored Body)
      → ReadAnswer (LetterRow Stored Body)
  read_letter r id tenant_id rows =
      if not r.pool
      then refused_read 404 "NOT_FOUND"
      else if not r.acquires
      then refused_read 500 "INTERNAL_ERROR"
      else if r.query_fails
      then refused_read 404 "NOT_FOUND"
      else elim (find_letter id tenant_id rows) [
        | none ↦ refused_read 404 "NOT_FOUND"
        | some l ↦ listed (l ∷ [])
      ]

  unfoldable pub get_dead_letter :
      (write_fails : Bool)
      → DoraCaller
      → Reading
      → (id tenant : String) → List (LetterRow Stored Body)
      → List (ReadAnswer (LetterRow Stored Body))
  unfolding read_letter
  get_dead_letter write_fails caller r id tenant rows =
      let letter_id = trim_space id in
      let tenant_id = trim_space tenant in
      if letter_id == "" || tenant_id == ""
      then refused_read 400 "INVALID_REQUEST" ∷ []
      else after_gate write_fails (authorize caller tenant_id)
          (read_letter r letter_id tenant_id rows)
