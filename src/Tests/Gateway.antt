-- ===== src/Tests/Gateway.antt =====
-- The grants of src/material_agent/gateway on concrete inputs.
use materials_screening_agen.Prelude.{
  String, ◌+◌, ◌≡◌, refl, List, [], ◌∷◌, find?, update, select, count_where,
}
use Prim.Native.String.{◌++◌ as append}
use materials_screening_agen.Gateway.Model.{
  Hashing, Interaction, Action, approval, approve, cancel, requirement_freeze, action_kind,
}
use materials_screening_agen.Gateway.Grants.{
  Call, binding, empty_store, matches, issue_grant, recover_consumed_grant, authorize_and_consume,
  validate_binding,
}
use materials_screening_agen.Gateway.Grants.Texts.{is_sha256, is_valid_confirmation_reference}
use materials_screening_agen.Gateway.Credit.{
  GrantOp, issue, recover, authorize, credit, step, spent, run, authorizations, recoveries,
  run-credit, same_binding,
}
use materials_screening_agen.Gateway.Credit.Unissued.{unissued-authorizations}

-- A hash that tells the payloads of these tests apart.
abbrev pub hashing : Hashing
hashing = record {
  sha256 = λ s. s;
  request_json = λ r. r.submission_id;
  result_json = λ r. r.run_id;
  interaction_json = λ i. "interaction";
  action_json = action_kind;
  grant_json = λ a b c d e f. append a b;
  recovery_json = λ a b c. append a b;
}

abbrev pub zeros : String
zeros = "0000000000000000000000000000000000000000000000000000000000000000"

abbrev pub pending_approval : Interaction
pending_approval = approval "i" requirement_freeze "freeze?" zeros

abbrev call : Action → Call
call a = record { run_id = "r"; interaction = pending_approval; request_sha256 = zeros; action = a }

abbrev approving : Call
approving = call (approve "i")

abbrev cancelling : Call
cancelling = call (cancel "i")

abbrev ops : List GrantOp
ops =
    issue approving "ticket/1"
    ∷ authorize approving
    ∷ authorize approving
    ∷ recover approving "ticket/2"
    ∷ authorize approving
    ∷ authorize cancelling
    ∷ []

run-credit_example :
    authorizations hashing (binding hashing approving) ops empty_store
      + credit (binding hashing approving) (run hashing ops empty_store)
    ≡ credit (binding hashing approving) empty_store
      + recoveries hashing (binding hashing approving) ops empty_store
run-credit_example = run-credit hashing (binding hashing approving) ops empty_store

-- Two of the four attempts are authorized.
authorized_twice : authorizations hashing (binding hashing approving) ops empty_store ≡ 2
unfolding authorizations spent step issue_grant recover_consumed_grant authorize_and_consume matches
    same_binding find? update select count_where validate_binding is_sha256
    is_valid_confirmation_reference
authorized_twice = refl

unissued-authorizations_example :
    authorizations hashing (binding hashing cancelling) ops empty_store ≡ 0
unfolding same_binding count_where
unissued-authorizations_example =
    unissued-authorizations hashing (binding hashing cancelling) ops empty_store refl refl
