-- ===== src/Dora/Providers/Commits.antt =====
-- internal/dora/github_normalizer.go and internal/dora/gitlab_normalizer.go. The two read their
-- own payloads and differ in the source they name.
pub mod Laws
use release_engine.Prelude.{
  ℕ, suc, String, ◌<>◌, Bool, not, ◌||◌, none, some, List, [], ◌∷◌, ◌==◌, if◌then◌else◌, Dict,
  lookup, trim_space, Result, ok, err,
}
use release_engine.Dora.Events.{DoraEvent, FoldLibrary, Normalizer}

pub record Commit : Type 0 where
  pub id : String
  pub timestamp : String
  pub message : String

pub record PushPayload : Type 0 where
  pub ref : String
  pub commits : List Commit

pub record PullRequestPayload : Type 0 where
  pub action : String
  pub merged : Bool
  pub merged_at : String
  pub merge_commit_sha : String
  pub head_sha : String

pub record MergeRequestPayload : Type 0 where
  pub state : String
  pub merged_at : String
  pub merge_commit_sha : String
  pub last_commit_id : String

-- The library's: `json.Unmarshal` into each payload, `time.Parse(time.RFC3339, …)` and the `%d` of
-- `fmt`. An error is its text.
pub record CommitLibrary (Body : Type 0) : Type 0 where
  pub folds : FoldLibrary
  pub github_push : Body → Result String PushPayload
  pub github_pull_request : Body → Result String PullRequestPayload
  pub gitlab_push : Body → Result String PushPayload
  pub gitlab_merge_request : Body → Result String MergeRequestPayload
  pub parse_time : String → Result String ℕ
  pub digits : ℕ → String

-- `strings.TrimSpace(headers[name])`
abbrev pub header : String → Dict String → String
header name headers = elim (lookup name headers) [ none ↦ "" | some v ↦ trim_space v ]

module _ {Body : Type 0} (lib : CommitLibrary Body) where
  -- The timestamp of a commit or merge request, or the clock's reading where the payload has none.
  time_or : String → ℕ → String → Result String ℕ
  time_or reading now raw =
      if trim_space raw == ""
      then ok now
      else elim (lib.parse_time raw) [ ok t ↦ ok t | err e ↦ err (reading <> (": " <> e)) ]

  -- The event of the commit number `i`.
  pushed :
      (source tenant_id service_ref delivery_id ref : String)
      → ℕ
      → Commit
      → (sha : String) → ℕ
      → DoraEvent
  pushed source tenant_id service_ref delivery_id ref i c sha ts = record {
    tenant_id = tenant_id;
    event_type = "commit.pushed";
    event_source = source;
    service_ref = service_ref;
    environment = "";
    correlation_key = sha;
    source_event_id =
        let id = trim_space delivery_id in
        if id == "" then "" else id <> (":commit.pushed:" <> (sha <> (":" <> lib.digits i)));
    event_timestamp = ts;
    payload = some (("sha", sha) ∷ ("ref", ref) ∷ ("message", c.message) ∷ []);
  }

  -- The loop over the commits, from the commit number `i` on.
  push_loop :
      (ℕ → ℕ)
      → (source tenant_id service_ref delivery_id ref : String) → ℕ
      → List Commit
      → Result String (List DoraEvent)
  unfolding time_or pushed
  push_loop clock source tenant_id service_ref delivery_id ref i [] = ok []
  push_loop clock source tenant_id service_ref delivery_id ref i (c ∷ cs) =
      let sha = trim_space c.id in
      let rest = push_loop clock source tenant_id service_ref delivery_id ref (suc i) cs in
      if sha == ""
      then rest
      else elim (time_or ("parse " <> (source <> " push commit timestamp")) (clock i) c.timestamp) [
        | err e ↦ err e
        | ok ts ↦ elim rest [
          | err e ↦ err e
          | ok events ↦ ok (pushed source tenant_id service_ref delivery_id ref i c sha ts ∷ events)
        ]
      ]

  merged_event : (source tenant_id service_ref delivery_id sha : String) → ℕ → DoraEvent
  merged_event source tenant_id service_ref delivery_id sha ts = record {
    tenant_id = tenant_id;
    event_type = "commit.merged";
    event_source = source;
    service_ref = service_ref;
    environment = "";
    correlation_key = sha;
    source_event_id =
        let id = trim_space delivery_id in
        if id == "" then "" else id <> (":commit.merged:" <> sha);
    event_timestamp = ts;
    payload = some (("sha", sha) ∷ []);
  }

  -- The event of a merge, from the two places that may name its commit on.
  merge_event :
      ℕ
      → (source what tenant_id service_ref delivery_id first second merged_at : String)
      → Result String (List DoraEvent)
  unfolding time_or merged_event
  merge_event now source what tenant_id service_ref delivery_id first second merged_at =
      let trimmed = trim_space first in
      let sha = if trimmed == "" then trim_space second else trimmed in
      if sha == ""
      then err (source <> (" " <> (what <> " merged event missing commit sha")))
      else elim (time_or ("parse " <> (source <> (" " <> (what <> " merged_at")))) now merged_at) [
        | err e ↦ err e
        | ok ts ↦ ok (merged_event source tenant_id service_ref delivery_id sha ts ∷ [])
      ]

  unfoldable pub normalize_github_push :
      (ℕ → ℕ) → (tenant_id service_ref delivery_id : String) → Body → Result String (List DoraEvent)
  unfolding push_loop
  normalize_github_push clock tenant_id service_ref delivery_id body = elim (lib.github_push body) [
    | err e ↦ err ("parse github push payload: " <> e)
    | ok p ↦ push_loop clock "github" tenant_id service_ref delivery_id p.ref 0 p.commits
  ]

  unfoldable pub normalize_github_pull_request :
      (ℕ → ℕ) → (tenant_id service_ref delivery_id : String) → Body → Result String (List DoraEvent)
  unfolding merge_event
  normalize_github_pull_request clock tenant_id service_ref delivery_id body =
      elim (lib.github_pull_request body) [
        | err e ↦ err ("parse github pull_request payload: " <> e)
        | ok p ↦
            if not (lib.folds.equal_fold p.action "closed") || not p.merged
            then ok []
            else merge_event (clock 0) "github" "pull_request" tenant_id service_ref delivery_id
                p.merge_commit_sha p.head_sha p.merged_at
      ]

  unfoldable pub normalize_gitlab_push :
      (ℕ → ℕ) → (tenant_id service_ref delivery_id : String) → Body → Result String (List DoraEvent)
  unfolding push_loop
  normalize_gitlab_push clock tenant_id service_ref delivery_id body = elim (lib.gitlab_push body) [
    | err e ↦ err ("parse gitlab push payload: " <> e)
    | ok p ↦ push_loop clock "gitlab" tenant_id service_ref delivery_id p.ref 0 p.commits
  ]

  unfoldable pub normalize_gitlab_merge_request :
      (ℕ → ℕ) → (tenant_id service_ref delivery_id : String) → Body → Result String (List DoraEvent)
  unfolding merge_event
  normalize_gitlab_merge_request clock tenant_id service_ref delivery_id body =
      elim (lib.gitlab_merge_request body) [
        | err e ↦ err ("parse gitlab merge request payload: " <> e)
        | ok p ↦
            if not (lib.folds.equal_fold p.state "merged")
            then ok []
            else merge_event (clock 0) "gitlab" "merge request" tenant_id service_ref delivery_id
                p.merge_commit_sha p.last_commit_id p.merged_at
      ]

  -- The switch on the kind of the event.
  github_switch :
      (ℕ → ℕ)
      → (tenant_id service_ref event_type delivery_id : String) → Body
      → Result String (List DoraEvent)
  unfolding normalize_github_push normalize_github_pull_request
  github_switch clock tenant_id service_ref event_type delivery_id body =
      if event_type == "push"
      then normalize_github_push clock tenant_id service_ref delivery_id body
      else if event_type == "pull_request"
      then normalize_github_pull_request clock tenant_id service_ref delivery_id body
      else ok []

  unfoldable pub github_events :
      (ℕ → ℕ)
      → (tenant_id service_ref : String) → Dict String
      → Body
      → Result String (List DoraEvent)
  unfolding github_switch
  github_events clock tenant_id service_ref headers body =
      github_switch clock tenant_id service_ref (header "x-github-event" headers)
        (header "x-github-delivery" headers) body

  -- The switch on the kind of the event.
  gitlab_switch :
      (ℕ → ℕ)
      → (tenant_id service_ref event_type delivery_id : String) → Body
      → Result String (List DoraEvent)
  unfolding normalize_gitlab_push normalize_gitlab_merge_request
  gitlab_switch clock tenant_id service_ref event_type delivery_id body =
      if lib.folds.equal_fold event_type "Push Hook"
      then normalize_gitlab_push clock tenant_id service_ref delivery_id body
      else if lib.folds.equal_fold event_type "Merge Request Hook"
      then normalize_gitlab_merge_request clock tenant_id service_ref delivery_id body
      else ok []

  unfoldable pub gitlab_events :
      (ℕ → ℕ)
      → (tenant_id service_ref : String) → Dict String
      → Body
      → Result String (List DoraEvent)
  unfolding gitlab_switch
  gitlab_events clock tenant_id service_ref headers body =
      gitlab_switch clock tenant_id service_ref (header "x-gitlab-event" headers)
        (header "x-gitlab-delivery" headers) body

  abbrev pub github_normalizer : Normalizer Body
  github_normalizer = record { provider = "github"; normalize = github_events }

  abbrev pub gitlab_normalizer : Normalizer Body
  gitlab_normalizer = record { provider = "gitlab"; normalize = gitlab_events }
