-- ===== src/Dora/Webhook/Registry.antt =====
-- The registry that `NewDoraHandler` builds.
use release_engine.Prelude.{
  insert, ◌≡◌, some, [], Dict, AllEntries, AllEntries-insert, Bool-cases, Option-cases, inl, inr,
  is_some, lookup,
}
use release_engine.Dora.Events.{FoldLibrary, Normalizer, register_normalizer, provider_key}
use release_engine.Dora.Providers.Commits.{CommitLibrary, github_normalizer, gitlab_normalizer}
use release_engine.Dora.Providers.Commits.Laws.{github-IsFaithful, gitlab-IsFaithful}
use release_engine.Dora.Providers.Incidents.{
  IncidentLibrary, opsgenie_normalizer, datadog_normalizer,
}
use release_engine.Dora.Providers.Incidents.Laws.{opsgenie-IsFaithful, datadog-IsFaithful}
use release_engine.Dora.Providers.Faithful.{IsFaithful}
use release_engine.Dora.Webhook.{new_dora_registry}

register_normalizer-AllEntries {κ} :
    (folds : FoldLibrary) {Body : Type 0} (P : Normalizer Body → Type κ) (n : Normalizer Body)
    (r r' : Dict (Normalizer Body))
    → P n
    → AllEntries (λ name m. P m) r
    → register_normalizer folds n r ≡ some r'
    → AllEntries (λ name m. P m) r'
unfolding register_normalizer
register_normalizer-AllEntries folds P n r r' new all done =
    elim (Bool-cases (is_some (lookup (provider_key folds n.provider) r))) [
      | inl taken ↦ let stuck = rw (taken, register_normalizer) at done in absurd cc
      | inr free ↦
          let same = rw (free, register_normalizer) at done in
          let one : insert (provider_key folds n.provider) n r ≡ r' = cc in
          rw (← one) (AllEntries-insert (λ name m. P m) (provider_key folds n.provider) n r all new)
    ]

register_normalizer-AllFaithful :
    (folds : FoldLibrary) {Body : Type 0} (n : Normalizer Body) (r r' : Dict (Normalizer Body))
    → IsFaithful n
    → AllEntries (λ name m. IsFaithful m) r
    → register_normalizer folds n r ≡ some r'
    → AllEntries (λ name m. IsFaithful m) r'
register_normalizer-AllFaithful folds n r r' =
    register_normalizer-AllEntries folds IsFaithful n r r'

-- The registry of the handler holds faithful normalizers only.
pub new_dora_registry-AllFaithful :
    {Body : Type 0} (folds : FoldLibrary) (commits : CommitLibrary Body)
    (incidents : IncidentLibrary Body) (r : Dict (Normalizer Body))
    → new_dora_registry folds commits incidents ≡ some r
    → AllEntries (λ name n. IsFaithful n) r
unfolding new_dora_registry
new_dora_registry-AllFaithful folds commits incidents r done =
    elim (Option-cases (register_normalizer folds (github_normalizer commits) [])) [
      | inl e ↦ let stuck = rw (e, new_dora_registry) at done in absurd cc
      | inr (r1, e1) ↦
          elim (Option-cases (register_normalizer folds (gitlab_normalizer commits) r1)) [
            | inl e ↦ let stuck = rw (e1, e, new_dora_registry) at done in absurd cc
            | inr (r2, e2) ↦
                elim (Option-cases (register_normalizer folds (opsgenie_normalizer incidents) r2)) [
                  | inl e ↦ let stuck = rw (e1, e2, e, new_dora_registry) at done in absurd cc
                  | inr (r3, e3) ↦
                      register_normalizer-AllFaithful folds (datadog_normalizer incidents) r3 r
                        (datadog-IsFaithful incidents)
                        (register_normalizer-AllFaithful folds (opsgenie_normalizer incidents) r2 r3
                          (opsgenie-IsFaithful incidents)
                          (register_normalizer-AllFaithful folds (gitlab_normalizer commits) r1 r2
                            (gitlab-IsFaithful commits)
                            (register_normalizer-AllFaithful folds (github_normalizer commits) [] r1
                              (github-IsFaithful commits) tt e1)
                            e2)
                          e3)
                        (rw (e1, e2, e3, new_dora_registry) at done)
                ]
          ]
    ]
