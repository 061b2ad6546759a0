-- ===== src/Gateway/Grants/Issuer.antt =====
-- RequirementFreezeGrantIssuer of src/material_agent/gateway/authorization.py.
use materials_screening_agen.Prelude.{
  String, Bool, true, false, ◌==◌, not, string_eq, nat_eq, if◌then◌else◌, Result, ok, err, ◌>>=◌,
  ◌>>◌, raise_if,
}
use materials_screening_agen.Gateway.Model.{
  Hashing, Interaction, RunRecord, RunState, interaction_required, approval, requirement_freeze,
  expensive_computation, ApprovalKind, approve,
}
use materials_screening_agen.Gateway.Grants.{
  Call, GrantStore, GrantError, Receipt, operator_approval, issue_grant, recover_consumed_grant,
}

-- RequirementFreezeGrantIssuer.grant_record, on the record that the repository has
abbrev is_freeze : ApprovalKind → Bool
is_freeze requirement_freeze = true
is_freeze expensive_computation = false

abbrev grant_call : RunRecord → Interaction → String → Call
grant_call run i id = record {
  run_id = run.run_id;
  interaction = i;
  request_sha256 = run.request_sha256;
  action = approve id;
}

freeze_call : RunRecord → String → RunState → Result GrantError Call
freeze_call run expected (interaction_required (approval id kind prompt input_sha256)) = do
  raise_if (not (is_freeze kind)) operator_approval
  raise_if (not (input_sha256 == expected)) operator_approval
  ok (grant_call run (approval id kind prompt input_sha256) id)
freeze_call run expected _ = err operator_approval

unfoldable pub grant_record :
    Hashing
    → RunRecord
    → String
    → String
    → Bool
    → GrantStore
    → Result GrantError (Receipt × GrantStore)
unfolding freeze_call
grant_record h run reference expected recover_consumed s = do
  c ← freeze_call run expected run.state
  if recover_consumed then recover_consumed_grant h c reference s else issue_grant h c reference s
