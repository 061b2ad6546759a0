-- ===== src/Gateway/Companion.antt =====
-- src/material_agent/gateway/companion.py: OfflineInspirationCompanionAdapter. The preparer, the runner and
-- the projector that it is given are parameters. Of a contract of src/material_agent/inspiration/models.py the
-- fields that this code reads are here; the others are one text, `content`.
pub mod Outcomes
pub mod Settling
pub mod Freezing
pub mod Approvals
use Prim.Native.String.{◌++◌ as append}
use materials_screening_agen.Prelude.{
  member, distinct, ℕ, String, ◌≡◌, Bool, true, false, Option, none, some, List, [], ◌∷◌, ◌==◌,
  ◌&&◌, ◌||◌, not, any, all, map, ltb, string_eq, bool_eq, if◌then◌else◌, Result, Check, ok, err,
  ◌>>=◌, ◌>>◌, raise_if, length, is_blank,
}
use materials_screening_agen.Gateway.Model.{
  Hashing, RunRequest, RunState, interaction_required, succeeded, partial, cancelled, Interaction,
  interaction_id, approval, retry_interaction, resume_interaction, requirement_freeze, Action,
  action_interaction_id, answer, approve, reject, resume, retry, cancel, ResultRecord, Transition,
  gateway_result_sha256, inspiration_request_sha256, inspiration_run_id, inspiration_report_uri,
  short_id,
}
use materials_screening_agen.Gateway.Service.{
  Outcome, returned, contract_error, other_error, Companion, size,
}

pub data SearchMode : Type 0 where
  offline_fixture public_metadata_api : SearchMode

pub record ComponentSnapshot : Type 0 where
  pub component_id : String
  pub version : String
  pub implementation_sha256 : String

pub record ArtifactPointer : Type 0 where
  pub uri : String
  pub sha256 : String

pub record InspirationInput : Type 0 where
  pub project_id : String
  pub request_id : String
  pub run_id : String
  pub search_adapter : ComponentSnapshot
  pub content : String

pub record Policy : Type 0 where
  pub search_mode : SearchMode
  pub fetch_max_requests : ℕ
  pub llm_max_calls : ℕ
  pub content : String

pub record TagGraph : Type 0 where
  pub tag_ids : List String
  pub content : String

-- PreparedInspirationRun
pub record Prepared : Type 0 where
  pub inspiration_input : InspirationInput
  pub policy : Policy
  pub tag_graph : TagGraph
  pub target_tag_ids : List String

pub record StageResult : Type 0 where
  pub project_id : String
  pub request_id : String
  pub run_id : String
  pub outcome_succeeded : Bool
  pub report_artifact : ArtifactPointer

pub record Bundle : Type 0 where
  pub request_id : String
  pub run_id : String
  pub outcome_succeeded : Bool
  pub selected_candidate_ids : List String

pub record RunnerResult : Type 0 where
  pub stage_result : StageResult
  pub stage_result_artifact : ArtifactPointer
  pub bundle : Bundle

-- ProjectedInspirationResult: its status is `PARTIAL` or `SUCCEEDED`.
pub record Projection : Type 0 where
  pub result : ResultRecord
  pub partial_status : Bool
  pub warnings : List String

-- CompanionAdapterError, or another exception.
pub data CompanionError : Type 0 where
  contract other : CompanionError

-- `canonical_json_bytes` at the two dictionaries, and what Python does with texts and numbers.
pub record Canonical : Type 0 where
  pub manifest_json : List ComponentSnapshot → String → Prepared → String
  pub interaction_id_json : String → String → String → String
  pub decimal : ℕ → String

-- What the adapter is given.
pub record Adapter : Type 0 where
  pub execution_components : List ComponentSnapshot
  pub run : Prepared → Result CompanionError RunnerResult
  pub prepare : String → RunRequest → Result CompanionError Prepared
  pub project : String → RunRequest → Prepared → RunnerResult → Result CompanionError Projection

abbrev pub same_ids : List String → List String → Bool
same_ids [] [] = true
same_ids (x ∷ xs) (y ∷ ys) = x == y && same_ids xs ys
same_ids _ _ = false

abbrev pub is_empty {ℓ} : {A : Type ℓ} → List A → Bool
is_empty [] = true
is_empty (_ ∷ _) = false

-- PreparedInspirationRun.__post_init__
unfoldable pub check_prepared : Prepared → Check CompanionError
check_prepared p = do
  raise_if (is_empty p.target_tag_ids) other
  raise_if (not (distinct p.target_tag_ids)) other
  raise_if (not (all p.target_tag_ids (λ k. member k p.tag_graph.tag_ids))) other

-- What a course of `act` comes to: a state without the runner, or a run of it, with the manifest
-- that was approved.
pub data Course : Type 0 where
  closed : Transition → Course
  execution : Option String → Course

abbrev pub closing : String → Course
closing reason = closed (record { state = cancelled reason; result = none })

unfoldable pub decide : Interaction → Action → Result CompanionError Course
decide _ (cancel _) = ok (closing "inspiration run cancelled by user")
decide (approval _ _ _ input_sha256) (approve _) = ok (execution (some input_sha256))
decide (approval _ _ _ _) (reject _ _) =
    ok (closing "inspiration requirement freeze rejected by user")
decide (resume_interaction _ _) (resume _) = ok (execution none)
decide (retry_interaction _ _) (retry _) = ok (execution none)
decide _ _ = err contract

abbrev pub outcome : Result CompanionError Transition → Outcome
outcome (ok t) = returned t
outcome (err contract) = contract_error
outcome (err other) = other_error

module _ (h : Hashing) (j : Canonical) where
  -- ProjectedInspirationResult.__post_init__
  unfoldable pub check_projection : Projection → Check CompanionError
  check_projection p = do
    raise_if (not p.partial_status && not (is_empty p.warnings)) other
    raise_if (p.partial_status && is_empty p.warnings) other
    raise_if (ltb 32 (length p.warnings)) other
    raise_if (any p.warnings (λ w. is_blank w || ltb 512 (size w))) other

  abbrev pub prepared_execution_manifest_sha256 :
      RunRequest → Prepared → List ComponentSnapshot → String
  prepared_execution_manifest_sha256 request p components =
      h.sha256 (j.manifest_json components (inspiration_request_sha256 h request) p)

  abbrev pub execution_scope : Prepared → String
  execution_scope p = elim p.policy.search_mode [
    | offline_fixture ↦ "offline fixture execution with no public-network access"
    | public_metadata_api ↦
        let adapter_id = p.inspiration_input.search_adapter.component_id in
        append "bounded public " (
          append
            (if adapter_id == "crossref-public-adapter"
              then "Crossref"
              else append "the approved " (append adapter_id " adapter"))
            " metadata/abstract network access")
  ]

  abbrev pub body_scope : Prepared → String
  body_scope p = elim p.policy.search_mode [
    | offline_fixture ↦
        append "offline body-fixture request budget=" (j.decimal p.policy.fetch_max_requests)
    | public_metadata_api ↦
        append "article-body fetch requests=" (j.decimal p.policy.fetch_max_requests)
  ]

  abbrev pub requirement_freeze_prompt : RunRequest → Prepared → String
  requirement_freeze_prompt request p =
      append "Freeze this bounded inspiration request before execution? Approval permits " (
        append (execution_scope p) (
          append " with at most " (
            append (j.decimal request.constraints.budget.max_search_requests) (
              append " physical search attempts; " (
                append (body_scope p) (
                  append ", full-PDF reads=0, and internal model calls="
                    (append (j.decimal p.policy.llm_max_calls) ".")))))))

  abbrev pub companion_interaction_id : String → String → String
  companion_interaction_id run_id request_sha256 =
      short_id h "interaction-" (j.interaction_id_json run_id request_sha256 "requirement-freeze")

  abbrev pub validate_run_identity : String → RunRequest → Check CompanionError
  validate_run_identity run_id request =
      raise_if (not (run_id == inspiration_run_id h request.submission_id)) contract

  module _ (c : Adapter) where
    unfoldable pub prepared_input : String → RunRequest → Result CompanionError Prepared
    prepared_input run_id request = do
      p ← c.prepare run_id request
      check_prepared p
      raise_if (not (p.inspiration_input.run_id == run_id)) contract
      ok p

    unfoldable pub execution_manifest_sha256 : RunRequest → Prepared → Result CompanionError String
    execution_manifest_sha256 request p = do
      raise_if (is_empty c.execution_components) contract
      ok (prepared_execution_manifest_sha256 request p c.execution_components)

    unfoldable pub start : String → RunRequest → Result CompanionError Transition
    start run_id request = do
      validate_run_identity run_id request
      p ← prepared_input run_id request
      manifest ← execution_manifest_sha256 request p
      ok (record {
        state = interaction_required (
            approval (companion_interaction_id run_id manifest) requirement_freeze
              (requirement_freeze_prompt request p) manifest);
        result = none;
      })

    unfoldable pub check_manifest : RunRequest → Prepared → Option String → Check CompanionError
    check_manifest request p none = ok tt
    check_manifest request p (some expected) = do
      manifest ← execution_manifest_sha256 request p
      raise_if (not (manifest == expected)) contract

    -- _execute up to the runner's call: the input of that call.
    unfoldable pub frozen : String → RunRequest → Option String → Result CompanionError Prepared
    frozen run_id request expected = do
      p ← prepared_input run_id request
      check_manifest request p expected
      ok p

    unfoldable pub check_runner_result : String → Prepared → RunnerResult → Check CompanionError
    check_runner_result run_id p r = do
      raise_if (not (r.stage_result.run_id == run_id) || not (r.bundle.run_id == run_id)) contract
      raise_if (not (r.stage_result.project_id == p.inspiration_input.project_id)) contract
      raise_if
          (not (r.stage_result.request_id == p.inspiration_input.request_id)
            || not (r.bundle.request_id == p.inspiration_input.request_id))
          contract
      raise_if (not (r.stage_result.outcome_succeeded == r.bundle.outcome_succeeded)) contract
      raise_if
          (not (
            r.stage_result_artifact.uri
            == append "artifact://stages/inspiration/" (append run_id "/stage_result.json")))
          contract

    unfoldable pub check_projected : String → RunnerResult → ResultRecord → Check CompanionError
    check_projected run_id r x = do
      raise_if (not (x.run_id == run_id)) contract
      raise_if (not (x.bundle.outcome_succeeded == r.bundle.outcome_succeeded)) contract
      raise_if
          (not (
            same_ids (map (λ s. s.candidate_id) x.bundle.selected_candidates)
              r.bundle.selected_candidate_ids))
          contract
      raise_if (not (x.report_uri == inspiration_report_uri run_id)) contract
      raise_if (not (r.stage_result.report_artifact.uri == x.report_uri)) contract
      raise_if (not (r.stage_result.report_artifact.sha256 == x.authoritative_sha256)) contract

    abbrev pub projected_state : Projection → RunState
    projected_state p =
        if p.partial_status
        then partial p.result.report_uri p.result.authoritative_sha256
            (gateway_result_sha256 h p.result) p.warnings
        else succeeded p.result.report_uri p.result.authoritative_sha256
            (gateway_result_sha256 h p.result)

    -- _execute from the runner's call on.
    unfoldable pub finished : String → RunRequest → Prepared → Result CompanionError Transition
    finished run_id request p = do
      r ← c.run p
      check_runner_result run_id p r
      x ← c.project run_id request p r
      check_projection x
      check_projected run_id r x.result
      ok (record { state = projected_state x; result = some x.result })

    unfoldable pub execute : String → RunRequest → Option String → Result CompanionError Transition
    execute run_id request expected = do
      p ← frozen run_id request expected
      finished run_id request p

    -- `act` up to `_execute`.
    unfoldable pub course : String → RunRequest → RunState → Action → Result CompanionError Course
    course run_id request (interaction_required i) a = do
      validate_run_identity run_id request
      raise_if (not (action_interaction_id a == interaction_id i)) contract
      decide i a
    course run_id request _ a = do validate_run_identity run_id request; err contract

    abbrev pub completed : String → RunRequest → Course → Result CompanionError Transition
    completed run_id request (closed t) = ok t
    completed run_id request (execution expected) = execute run_id request expected

    unfoldable pub act : String → RunRequest → RunState → Action → Result CompanionError Transition
    act run_id request state a = do x ← course run_id request state a; completed run_id request x

    abbrev pub frozen_by : Result CompanionError Prepared → Option Prepared
    frozen_by (ok p) = some p
    frozen_by (err e) = none

    -- The input with which a course calls the runner, where it does.
    abbrev pub input_of : String → RunRequest → Result CompanionError Course → Option Prepared
    input_of run_id request (ok (execution expected)) = frozen_by (frozen run_id request expected)
    input_of run_id request _ = none

    unfoldable pub runner_input : String → RunRequest → RunState → Action → Option Prepared
    runner_input run_id request state a = input_of run_id request (course run_id request state a)

  abbrev pub offline : Adapter → Companion
  offline c = record {
    start = λ id request. outcome (start c id request);
    act = λ id request state a. outcome (act c id request state a);
  }
