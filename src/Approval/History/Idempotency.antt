-- ===== src/Approval/History/Idempotency.antt =====
-- An idempotency key, once used, is answered from the record for ever after.
use text.Mathlib.TextLemmas.{append_assoc}
use release_engine.Prelude.{
  sym, ℕ, String, ◌<>◌, ◌≡◌, refl, ap, ◌∙◌, ◌≢◌, inl, inr, true, some, List, [], ◌∷◌, ◌==◌, eq_iff,
  eq_refl, arith, Bool-cases, Option-cases, lookup, lookup-insert, lookup-insert_present,
  lookup-insert_new, ok, err, join, if◌then◌else◌,
}
use release_engine.Approval.State.{
  Runtime, Step, DecisionInput, DecisionOutput, IdempotencyRecord, Service, waiting_approval,
}
use release_engine.Approval.Service.{
  step_map_key, seed_step, drain_events, ensure_terminal, with_defaults,
}
use release_engine.Approval.Submit.{
  idempotency_conflict, payload_hash, decision_output, decide, accept, submit_decision,
}
use release_engine.Approval.Submit.Cases.{refused, replayed, accepted, submit_cases, key_of}
use release_engine.Approval.Tick.{ticked, tick_approvals}
use release_engine.Approval.Tick.Laws.{lookup-tick_steps}
use release_engine.Approval.History.{
  attaches, Call, seeds, submits, ticks, drains, ensures, step, run,
}

-- The answer on record for a key.
abbrev pub replay_of : DecisionOutput → DecisionOutput
replay_of out = record out { idempotent_replay = true }

abbrev Known : String → IdempotencyRecord → Service → Type 0
Known k old s = lookup k s.idem ≡ some old

abbrev pub HasStep : String → Service → Type 0
HasStep k s = (st : Step) × (lookup k s.steps ≡ some st)

module _ (rt : Runtime) where
  submit-Known :
      (now : ℕ) (input : DecisionInput) (s : Service) (old : IdempotencyRecord)
      → HasStep (key_of input) s
      → Known input.idempotency_key old s
      → submit_decision rt now input s ≡ (
          if old.payload_hash == payload_hash input
          then (s, ok (replay_of old.output))
          else (s, err idempotency_conflict))
  unfolding submit_decision
  submit-Known now input s old (st, found) known = rw (found, known, submit_decision) (ground arith)

  Known-replays :
      (now : ℕ) (input : DecisionInput) (s : Service) (old : IdempotencyRecord)
      → HasStep (key_of input) s
      → Known input.idempotency_key old s
      → old.payload_hash ≡ payload_hash input
      → submit_decision rt now input s ≡ (s, ok (replay_of old.output))
  Known-replays now input s old has known hash =
      submit-Known now input s old has known ∙ simp (hash, eq_refl)

  Known-conflicts :
      (now : ℕ) (input : DecisionInput) (s : Service) (old : IdempotencyRecord)
      → HasStep (key_of input) s
      → Known input.idempotency_key old s
      → old.payload_hash ≢ payload_hash input
      → submit_decision rt now input s ≡ (s, err idempotency_conflict)
  Known-conflicts now input s old has known differs =
      submit-Known now input s old has known
      ∙ ground (arith, differs, eq_iff old.payload_hash (payload_hash input))

  ensure_keeps :
      (k job_id step_id : String) (s : Service)
      → HasStep k s
      → HasStep k (ensure_terminal job_id step_id s).0
        × ((ensure_terminal job_id step_id s).0.idem ≡ s.idem)
  unfolding ensure_terminal
  ensure_keeps k job_id step_id s (st, has) =
      elim (Option-cases (lookup (step_map_key job_id step_id) s.steps)) [
        | inl e ↦ rw (e, ensure_terminal) ((st, has), refl)
        | inr (st1, e) ↦ elim (Bool-cases (st1.status == waiting_approval)) [
          | inr w ↦ rw (e, w, ensure_terminal) ((st, has), refl)
          | inl w ↦
              rw (e, w, ensure_terminal)
                (lookup-insert_present k (step_map_key job_id step_id) _ st s.steps has, refl)
        ]
      ]

  submit_keeps :
      (k key : String) (old : IdempotencyRecord) (now : ℕ) (input : DecisionInput) (s : Service)
      → HasStep k s
      → Known key old s
      → let s' = (submit_decision rt now input s).0 in HasStep k s' × Known key old s'
  unfolding accept
  submit_keeps k key old now input s (st, has) known = elim (submit_cases rt now input s) [
    | refused e same ↦ rw same ((st, has), known)
    | replayed st' old' found known' hash same ↦ rw same ((st, has), known)
    | accepted st' found new w first leave same ↦ rw same (
      lookup-insert_present k (key_of input) (decide now input st') st s.steps has,
      lookup-insert_new key input.idempotency_key _ old s.idem new known,
    )
  ]

  step_keeps :
      (k key : String) (old : IdempotencyRecord) (s : Service) (c : Call)
      → HasStep k s
      → Known key old s
      → HasStep k (step rt s c) × Known key old (step rt s c)
  unfolding step tick_approvals drain_events seed_step
  step_keeps k key old s (seeds now st0) (st, has) known =
      let st1 = with_defaults now s.default_ttl st0 in
      let (st', has') =
        lookup-insert_present k (step_map_key st1.job_id st1.step_id) st1 st s.steps has in
      elim (Bool-cases (st1.status == waiting_approval)) [
        | inl w ↦ rw w ((st', has'), known)
        | inr w ↦ rw w ((st', has'), known)
      ]
  step_keeps k key old s (submits now input) has known =
      submit_keeps k key old now input s has known
  step_keeps k key old s (ticks now) (st, has) known =
      ((ticked rt now s.default_ttl st, rw (lookup-tick_steps, has)), known)
  step_keeps k key old s drains has known = (has, known)
  step_keeps k key old s (attaches recorder) has known = (has, known)
  step_keeps k key old s (ensures job_id step_id) has known =
      let (has', same) = ensure_keeps k job_id step_id s has in (has', rw same known)

  run_keeps :
      (k key : String) (old : IdempotencyRecord) (s : Service) (cs : List Call)
      → HasStep k s
      → Known key old s
      → HasStep k (run rt s cs) × Known key old (run rt s cs)
  unfolding run
  run_keeps k key old s [] has known = (has, known)
  run_keeps k key old s (c ∷ cs) has known =
      let (has', known') = step_keeps k key old s c has known in
      run_keeps k key old (step rt s c) cs has' known'

  -- What a submission that succeeded leaves behind.
  submit_recorded :
      (now : ℕ) (input : DecisionInput) (s : Service) (out : DecisionOutput)
      → (submit_decision rt now input s).1 ≡ ok out
      → let s' = (submit_decision rt now input s).0 in
        HasStep (key_of input) s'
        × ((old : IdempotencyRecord) × Known input.idempotency_key old s'
            × (old.payload_hash ≡ payload_hash input)
            × (replay_of old.output ≡ replay_of out))
  unfolding accept
  submit_recorded now input s out done = elim (submit_cases rt now input s) [
    | refused e same ↦ cc
    | replayed st old found known hash same ↦
        let said : replay_of old.output ≡ out = cc in
        rw same ((st, found), (old, known, hash, ap replay_of said))
    | accepted st found new w first leave same ↦
        let said : decision_output now input (decide now input st) ≡ out = cc in
        rw same (
          (decide now input st, simp (lookup-insert, eq_refl)),
          (
            record {
              payload_hash = payload_hash input;
              output = decision_output now input (decide now input st);
            },
            simp (lookup-insert, eq_refl),
            refl,
            ap replay_of said,
          ),
        )
  ]

  -- After a submission that succeeded, and any further calls on the service, the same submission
  -- sent again changes nothing and returns the first output, marked as a replay.
  pub submit_replay :
      (now later : ℕ) (input : DecisionInput) (s : Service) (out : DecisionOutput) (cs : List Call)
      → (submit_decision rt now input s).1 ≡ ok out
      → let t = run rt (submit_decision rt now input s).0 cs in
        submit_decision rt later input t ≡ (t, ok (replay_of out))
  submit_replay now later input s out cs done =
      let (has, (old, known, hash, said)) = submit_recorded now input s out done in
      let (has', known') = run_keeps (key_of input) input.idempotency_key old _ cs has known in
      Known-replays later input _ old has' known' hash
      ∙ ap (λ o. (run rt (submit_decision rt now input s).0 cs, ok o)) said

  -- A decision that reuses the key of an earlier success, on any step of the service, and whose
  -- fields join to another text is refused as a conflict and changes nothing.
  pub submit_conflict :
      (now later : ℕ) (input other : DecisionInput) (s : Service) (out : DecisionOutput)
      (cs : List Call)
      → (submit_decision rt now input s).1 ≡ ok out
      → other.idempotency_key ≡ input.idempotency_key
      → payload_hash input ≢ payload_hash other
      → let t = run rt (submit_decision rt now input s).0 cs in
        HasStep (key_of other) t → submit_decision rt later other t ≡ (t, err idempotency_conflict)
  submit_conflict now later input other s out cs done key differs has_other =
      let (has, (old, known, hash, said)) = submit_recorded now input s out done in
      let (has', known') = run_keeps (key_of input) input.idempotency_key old _ cs has known in
      Known-conflicts later other _ old has_other (rw key known') (rw hash differs)

  -- The joined fields do not tell the fields apart: a text of the justification can move into the
  -- approver's name.
  payload_hash_shift :
      (input : DecisionInput) (a b c : String)
      → payload_hash (record input { justification = a <> ("|" <> b); approver = c })
        ≡ payload_hash (record input { justification = a; approver = b <> ("|" <> c) })
  unfolding join
  payload_hash_shift input a b c = simp append_assoc

  -- A submission that succeeded also answers, later and after any further calls, the submission
  -- under the same key of another approver `c` with another justification, where the first
  -- approver's name is `b|c` and the second justification is the first one followed by `|b`: it
  -- changes nothing and returns the first output, marked as a replay.
  pub submit_replay_shift :
      (now later : ℕ) (input : DecisionInput) (a b c : String) (s : Service) (out : DecisionOutput)
      (cs : List Call)
      → let first = record input { justification = a; approver = b <> ("|" <> c) } in
        let other = record input { justification = a <> ("|" <> b); approver = c } in
        (submit_decision rt now first s).1 ≡ ok out
        → let t = run rt (submit_decision rt now first s).0 cs in
          submit_decision rt later other t ≡ (t, ok (replay_of out))
  submit_replay_shift now later input a b c s out cs done =
      let first = record input { justification = a; approver = b <> ("|" <> c) } in
      let other = record input { justification = a <> ("|" <> b); approver = c } in
      let (has, (old, known, hash, said)) = submit_recorded now first s out done in
      let (has', known') = run_keeps (key_of first) first.idempotency_key old _ cs has known in
      Known-replays later other _ old has' known' (hash ∙ sym (payload_hash_shift input a b c))
      ∙ ap (λ o. (run rt (submit_decision rt now first s).0 cs, ok o)) said
