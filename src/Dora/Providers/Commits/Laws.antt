-- ===== src/Dora/Providers/Commits/Laws.antt =====
-- The GitHub and GitLab normalizers are faithful.
use release_engine.Prelude.{
  sym, ap, ◌∙◌, ◌⊎◌, Result, err, ◌≡◌, not, if◌then◌else◌, ℕ, suc, String, List, [], ◌∷◌, refl, inl,
  inr, Bool-cases, Result-cases, ◌<>◌, ◌==◌, trim_space, ◌||◌, not,
}
use release_engine.Dora.Events.{DoraEvent, is_event_type}
use release_engine.Dora.Providers.Faithful.{
  key_of, keys_of-if, keys_of, Key, AllOk-if, IsFrom, AllOk, IsFaithful, header-Alike,
}
use release_engine.Dora.Providers.Commits.{
  ok, pushed, merged_event, header, normalize_gitlab_merge_request, normalize_github_pull_request,
  gitlab_normalizer, normalize_gitlab_push, normalize_github_push, gitlab_events, gitlab_switch,
  github_switch, github_normalizer, github_events, time_or, Commit, merge_event, push_loop,
  CommitLibrary,
}

module _ {Body : Type 0} (lib : CommitLibrary Body) where
  push_loop-AllOk :
      (clock : ℕ → ℕ) (source t s d ref : String) (i : ℕ) (cs : List Commit)
      → AllOk (IsFrom source t s) (push_loop lib clock source t s d ref i cs)
  unfolding push_loop is_event_type
  push_loop-AllOk clock source t s d ref i [] = tt
  push_loop-AllOk clock source t s d ref i (c ∷ cs) =
      let later = push_loop-AllOk clock source t s d ref (suc i) cs in
      elim (Bool-cases (trim_space c.id == "")) [
        | inl blank ↦ rw blank later
        | inr named ↦
            let what = "parse " <> (source <> " push commit timestamp") in
            elim (Result-cases (time_or lib what (clock i) c.timestamp)) [
              | inr (e, bad) ↦ rw (named, bad) tt
              | inl (ts, good) ↦
                  elim (Result-cases (push_loop lib clock source t s d ref (suc i) cs)) [
                    | inr (e, stop) ↦ rw (named, good, stop) tt
                    | inl (es, rest) ↦
                        rw (named, good, rest)
                          (
                            record {
                              tenant = refl;
                              service = refl;
                              from = refl;
                              kind = refl;
                              other = refl;
                            },
                            rw rest at later,
                          )
                  ]
            ]
      ]

  merge_event-AllOk :
      (now : ℕ) (source what t s d first second at : String)
      → AllOk (IsFrom source t s) (merge_event lib now source what t s d first second at)
  unfolding merge_event is_event_type
  merge_event-AllOk now source what t s d first second at =
      let sha = if trim_space first == "" then trim_space second else trim_space first in
      let reading = "parse " <> (source <> (" " <> (what <> " merged_at"))) in
      elim (Bool-cases (sha == "")) [
        | inl blank ↦ rw blank tt
        | inr named ↦ elim (Result-cases (time_or lib reading now at)) [
          | inr (e, bad) ↦ rw (named, bad) tt
          | inl (ts, good) ↦
              rw (named, good)
                (
                  record { tenant = refl; service = refl; from = refl; kind = refl; other = refl },
                  tt,
                )
        ]
      ]

  github_switch-AllOk :
      (clock : ℕ → ℕ) (t s event_type delivery_id : String) (body : Body)
      → AllOk (IsFrom "github" t s) (github_switch lib clock t s event_type delivery_id body)
  unfolding github_switch normalize_github_push normalize_github_pull_request
  github_switch-AllOk clock t s event_type d body =
      AllOk-if (IsFrom "github" t s) (event_type == "push") _ _ pushes
        (AllOk-if (IsFrom "github" t s) (event_type == "pull_request") _ _ merges tt)
    where
      pushes : AllOk (IsFrom "github" t s) (normalize_github_push lib clock t s d body)
      pushes = elim (Result-cases (lib.github_push body)) [
        | inr (e, bad) ↦ rw (bad, normalize_github_push) tt
        | inl (p, good) ↦
            rw (good, normalize_github_push)
              (push_loop-AllOk clock "github" t s d p.ref 0 p.commits)
      ]

      merges : AllOk (IsFrom "github" t s) (normalize_github_pull_request lib clock t s d body)
      merges = elim (Result-cases (lib.github_pull_request body)) [
        | inr (e, bad) ↦ rw (bad, normalize_github_pull_request) tt
        | inl (p, good) ↦
            rw (good, normalize_github_pull_request)
              (AllOk-if (IsFrom "github" t s)
                (not (lib.folds.equal_fold p.action "closed") || not p.merged) _ _ tt
                (merge_event-AllOk (clock 0) "github" "pull_request" t s d p.merge_commit_sha
                  p.head_sha p.merged_at))
      ]

  gitlab_switch-AllOk :
      (clock : ℕ → ℕ) (t s event_type delivery_id : String) (body : Body)
      → AllOk (IsFrom "gitlab" t s) (gitlab_switch lib clock t s event_type delivery_id body)
  unfolding gitlab_switch normalize_gitlab_push normalize_gitlab_merge_request
  gitlab_switch-AllOk clock t s event_type d body =
      AllOk-if (IsFrom "gitlab" t s) (lib.folds.equal_fold event_type "Push Hook") _ _ pushes (
        AllOk-if (IsFrom "gitlab" t s) (lib.folds.equal_fold event_type "Merge Request Hook") _ _
          merges tt)
    where
      pushes : AllOk (IsFrom "gitlab" t s) (normalize_gitlab_push lib clock t s d body)
      pushes = elim (Result-cases (lib.gitlab_push body)) [
        | inr (e, bad) ↦ rw (bad, normalize_gitlab_push) tt
        | inl (p, good) ↦
            rw (good, normalize_gitlab_push)
              (push_loop-AllOk clock "gitlab" t s d p.ref 0 p.commits)
      ]

      merges : AllOk (IsFrom "gitlab" t s) (normalize_gitlab_merge_request lib clock t s d body)
      merges = elim (Result-cases (lib.gitlab_merge_request body)) [
        | inr (e, bad) ↦ rw (bad, normalize_gitlab_merge_request) tt
        | inl (p, good) ↦
            rw (good, normalize_gitlab_merge_request)
              (AllOk-if (IsFrom "gitlab" t s) (not (lib.folds.equal_fold p.state "merged")) _ _ tt (
                merge_event-AllOk (clock 0) "gitlab" "merge request" t s d p.merge_commit_sha
                  p.last_commit_id p.merged_at))
      ]

  -- Whether a timestamp can be parsed does not depend on the clock.
  time_or-cases :
      (what raw : String)
      → ((why : String) × ((now : ℕ) → time_or lib what now raw ≡ err why))
        ⊎ ((now : ℕ) → (ts : ℕ) × (time_or lib what now raw ≡ ok ts))
  unfolding time_or
  time_or-cases what raw = elim (Bool-cases (trim_space raw == "")) [
    | inl blank ↦ inr (λ now. (now, rw (blank, time_or) refl))
    | inr given ↦ elim (Result-cases (lib.parse_time raw)) [
      | inl (ts, good) ↦ inr (λ now. (ts, rw (given, good, time_or) refl))
      | inr (why, bad) ↦ inl (what <> (": " <> why), λ now. rw (given, bad, time_or) refl)
    ]
  ]

  prepend : Key → Result String (List Key) → Result String (List Key)
  prepend k (ok ks) = ok (k ∷ ks)
  prepend k (err why) = err why

  keys_of-prepend :
      (e : DoraEvent) (r : Result String (List DoraEvent))
      → keys_of (elim r [ err why ↦ err why | ok es ↦ ok (e ∷ es) ])
        ≡ prepend (key_of e) (keys_of r)
  unfolding prepend
  keys_of-prepend e (ok es) = refl
  keys_of-prepend e (err why) = refl

  keys_of-push_loop :
      (c k : ℕ → ℕ) (source t s d ref : String) (i : ℕ) (cs : List Commit)
      → keys_of (push_loop lib c source t s d ref i cs)
        ≡ keys_of (push_loop lib k source t s d ref i cs)
  unfolding push_loop
  keys_of-push_loop c k source t s d ref i [] = refl
  keys_of-push_loop c k source t s d ref i (x ∷ xs) =
      let later = keys_of-push_loop c k source t s d ref (suc i) xs in
      let sha = trim_space x.id in
      let event = λ (ts : ℕ). pushed lib source t s d ref i x sha ts in
      elim (Bool-cases (sha == "")) [
        | inl blank ↦ rw (blank, push_loop) later
        | inr named ↦
            elim (time_or-cases ("parse " <> (source <> " push commit timestamp")) x.timestamp) [
              | inl (why, bad) ↦ rw (named, bad (c i), bad (k i), push_loop) refl
              | inr good ↦
                  let (tc, ec) = good (c i) in
                  let (tk, ek) = good (k i) in
                  rw (named, ec, ek, push_loop)
                    (keys_of-prepend (event tc) (push_loop lib c source t s d ref (suc i) xs)
                      ∙ ap (prepend (key_of (event tc))) later
                      ∙ sym (
                          keys_of-prepend (event tk) (push_loop lib k source t s d ref (suc i) xs)))
            ]
      ]

  keys_of-merge_event :
      (n m : ℕ) (source what t s d first second at : String)
      → keys_of (merge_event lib n source what t s d first second at)
        ≡ keys_of (merge_event lib m source what t s d first second at)
  unfolding merge_event merged_event
  keys_of-merge_event n m source what t s d first second at =
      let sha = if trim_space first == "" then trim_space second else trim_space first in
      elim (Bool-cases (sha == "")) [
        | inl blank ↦ rw (blank, merge_event) refl
        | inr named ↦
            elim (time_or-cases ("parse " <> (source <> (" " <> (what <> " merged_at")))) at) [
              | inl (why, bad) ↦ rw (named, bad n, bad m, merge_event) refl
              | inr good ↦
                  let (tn, en) = good n in
                  let (tm, em) = good m in rw (named, en, em, merge_event) refl
            ]
      ]

  keys_of-github_switch :
      (c k : ℕ → ℕ) (t s event_type d : String) (body : Body)
      → keys_of (github_switch lib c t s event_type d body)
        ≡ keys_of (github_switch lib k t s event_type d body)
  unfolding github_switch normalize_github_push normalize_github_pull_request
  keys_of-github_switch c k t s event_type d body =
      keys_of-if (event_type == "push") _ _ _ _ pushes
        (keys_of-if (event_type == "pull_request") _ _ _ _ merges refl)
    where
      pushes :
          keys_of (normalize_github_push lib c t s d body)
          ≡ keys_of (normalize_github_push lib k t s d body)
      pushes = elim (Result-cases (lib.github_push body)) [
        | inr (e, bad) ↦ rw (bad, normalize_github_push) refl
        | inl (p, good) ↦
            rw (good, normalize_github_push)
              (keys_of-push_loop c k "github" t s d p.ref 0 p.commits)
      ]

      merges :
          keys_of (normalize_github_pull_request lib c t s d body)
          ≡ keys_of (normalize_github_pull_request lib k t s d body)
      merges = elim (Result-cases (lib.github_pull_request body)) [
        | inr (e, bad) ↦ rw (bad, normalize_github_pull_request) refl
        | inl (p, good) ↦
            rw (good, normalize_github_pull_request)
              (keys_of-if (not (lib.folds.equal_fold p.action "closed") || not p.merged) _ _ _ _
                refl
                (keys_of-merge_event (c 0) (k 0) "github" "pull_request" t s d p.merge_commit_sha
                  p.head_sha p.merged_at))
      ]

  keys_of-gitlab_switch :
      (c k : ℕ → ℕ) (t s event_type d : String) (body : Body)
      → keys_of (gitlab_switch lib c t s event_type d body)
        ≡ keys_of (gitlab_switch lib k t s event_type d body)
  unfolding gitlab_switch normalize_gitlab_push normalize_gitlab_merge_request
  keys_of-gitlab_switch c k t s event_type d body =
      keys_of-if (lib.folds.equal_fold event_type "Push Hook") _ _ _ _ pushes
        (keys_of-if (lib.folds.equal_fold event_type "Merge Request Hook") _ _ _ _ merges refl)
    where
      pushes :
          keys_of (normalize_gitlab_push lib c t s d body)
          ≡ keys_of (normalize_gitlab_push lib k t s d body)
      pushes = elim (Result-cases (lib.gitlab_push body)) [
        | inr (e, bad) ↦ rw (bad, normalize_gitlab_push) refl
        | inl (p, good) ↦
            rw (good, normalize_gitlab_push)
              (keys_of-push_loop c k "gitlab" t s d p.ref 0 p.commits)
      ]

      merges :
          keys_of (normalize_gitlab_merge_request lib c t s d body)
          ≡ keys_of (normalize_gitlab_merge_request lib k t s d body)
      merges = elim (Result-cases (lib.gitlab_merge_request body)) [
        | inr (e, bad) ↦ rw (bad, normalize_gitlab_merge_request) refl
        | inl (p, good) ↦
            rw (good, normalize_gitlab_merge_request)
              (keys_of-if (not (lib.folds.equal_fold p.state "merged")) _ _ _ _ refl (
                keys_of-merge_event (c 0) (k 0) "gitlab" "merge request" t s d p.merge_commit_sha
                  p.last_commit_id p.merged_at))
      ]

  pub github-IsFaithful : IsFaithful (github_normalizer lib)
  unfolding github_events
  github-IsFaithful = record {
    stable = λ c d t s h body.
        keys_of-github_switch c d t s (header "x-github-event" h) (header "x-github-delivery" h)
          body;
    from = λ clock t s h body.
        github_switch-AllOk clock t s (header "x-github-event" h) (header "x-github-delivery" h)
          body;
    reads = λ clock t s h k body same.
        rw (header-Alike "x-github-event" h k same, header-Alike "x-github-delivery" h k same) refl;
  }

  pub gitlab-IsFaithful : IsFaithful (gitlab_normalizer lib)
  unfolding gitlab_events
  gitlab-IsFaithful = record {
    stable = λ c d t s h body.
        keys_of-gitlab_switch c d t s (header "x-gitlab-event" h) (header "x-gitlab-delivery" h)
          body;
    from = λ clock t s h body.
        gitlab_switch-AllOk clock t s (header "x-gitlab-event" h) (header "x-gitlab-delivery" h)
          body;
    reads = λ clock t s h k body same.
        rw (header-Alike "x-gitlab-event" h k same, header-Alike "x-gitlab-delivery" h k same) refl;
  }
