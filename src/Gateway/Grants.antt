-- ===== src/Gateway/Grants.antt =====
-- src/material_agent/gateway/authorization.py: the store of one-time grants. Paths, connections and the
-- schema set-up are SQLite's and the file system's; a transaction that raises is rolled back.
pub mod Texts
pub mod Issuer
use materials_screening_agen.Prelude.{
  ℕ, String, Bool, true, false, none, some, List, [], ◌∷◌, ◌++◌, ◌==◌, ◌&&◌, ◌||◌, not, all, any,
  ltb, leb, string_eq, nat_eq, if◌then◌else◌, Result, Check, ok, err, ◌>>=◌, ◌>>◌, raise_if,
  require, find?, select, update, length,
}
use materials_screening_agen.Gateway.Model.{
  Hashing, Interaction, Action, interaction_id, action_interaction_id, short_id, RunRecord,
  RunState, interaction_required, approval, requirement_freeze, expensive_computation, ApprovalKind,
  approve,
}
use materials_screening_agen.Gateway.Grants.Texts.{
  is_bounded, is_sha256, is_valid_confirmation_reference,
}

-- A row of one_time_action_grants.
pub record Grant : Type 0 where
  pub grant_id : String
  pub run_id : String
  pub interaction_id : String
  pub interaction_sha256 : String
  pub request_sha256 : String
  pub action_sha256 : String
  pub action_json : String
  pub confirmation_reference : String
  pub consumed : Bool

-- A row of one_time_action_grant_recoveries.
pub record Recovery : Type 0 where
  pub recovery_id : String
  pub grant_id : String
  pub previous_confirmation_reference : String
  pub recovery_confirmation_reference : String

pub record GrantStore : Type 0 where
  pub grants : List Grant
  pub recoveries : List Recovery

abbrev pub empty_store : GrantStore
empty_store = record { grants = []; recoveries = [] }

pub record Receipt : Type 0 where
  pub grant_id : String
  pub run_id : String
  pub interaction_id : String
  pub interaction_sha256 : String
  pub request_sha256 : String
  pub action_sha256 : String
  pub confirmation_reference : String

-- `ValueError`, `OperatorApprovalError`, `ActionAuthorizationError`, `ActionGrantStoreError`.
pub data GrantError : Type 0 where
  value_error operator_approval action_authorization store_failure : GrantError

abbrev as_authorization : {A : Type 0} → Result GrantError A → Result GrantError A
as_authorization (ok a) = ok a
as_authorization (err e) = err action_authorization

-- _validate_binding
unfoldable pub validate_binding : String → String → String → Check GrantError
validate_binding run_id interaction request_sha256 = do
  raise_if (not (is_bounded run_id)) value_error
  raise_if (not (is_bounded interaction)) value_error
  raise_if (not (is_sha256 request_sha256)) value_error

-- The arguments that the three operations share.
pub record Call : Type 0 where
  pub run_id : String
  pub interaction : Interaction
  pub request_sha256 : String
  pub action : Action

-- The columns that identify a pending action.
pub record Binding : Type 0 where
  pub run_id : String
  pub interaction_id : String
  pub interaction_sha256 : String
  pub request_sha256 : String
  pub action_sha256 : String
  pub action_json : String

unfoldable pub matches : Binding → Grant → Bool
matches b g =
    g.run_id == b.run_id
    && g.interaction_id == b.interaction_id
    && g.interaction_sha256 == b.interaction_sha256
    && g.request_sha256 == b.request_sha256
    && g.action_sha256 == b.action_sha256
    && g.action_json == b.action_json

-- … AND consumed = 0
abbrev pub unspent : Binding → Grant → Bool
unspent b g = matches b g && not g.consumed

abbrev pub with_id : String → Grant → Bool
with_id id g = g.grant_id == id

abbrev id_taken : String → GrantStore → Bool
id_taken id s = elim (find? (with_id id) s.grants) [ some g ↦ true | none ↦ false ]

module _ (h : Hashing) where
  -- _canonical_action and _interaction_sha256
  abbrev pub binding : Call → Binding
  binding c = record {
    run_id = c.run_id;
    interaction_id = interaction_id c.interaction;
    interaction_sha256 = h.sha256 (h.interaction_json c.interaction);
    request_sha256 = c.request_sha256;
    action_sha256 = h.sha256 (h.action_json c.action);
    action_json = h.action_json c.action;
  }

  abbrev pub grant_id : Binding → String → String
  grant_id b reference = short_id h "grant-" (
      h.grant_json b.action_sha256 reference b.interaction_id b.interaction_sha256 b.request_sha256
        b.run_id)

  abbrev pub receipt : Binding → String → String → Receipt
  receipt b id reference = record {
    grant_id = id;
    run_id = b.run_id;
    interaction_id = b.interaction_id;
    interaction_sha256 = b.interaction_sha256;
    request_sha256 = b.request_sha256;
    action_sha256 = b.action_sha256;
    confirmation_reference = reference;
  }

  abbrev pub new_grant : Binding → String → Grant
  new_grant b reference = record {
    grant_id = grant_id b reference;
    run_id = b.run_id;
    interaction_id = b.interaction_id;
    interaction_sha256 = b.interaction_sha256;
    request_sha256 = b.request_sha256;
    action_sha256 = b.action_sha256;
    action_json = b.action_json;
    confirmation_reference = reference;
    consumed = false;
  }

  -- issue_grant: the second part is what the transaction leaves.
  unfoldable pub issue_grant : Call → String → GrantStore → Result GrantError (Receipt × GrantStore)
  issue_grant c reference s = do
    validate_binding c.run_id (interaction_id c.interaction) c.request_sha256
    raise_if (not (is_valid_confirmation_reference reference)) operator_approval
    let b = binding c
    let id = grant_id b reference
    elim (find? (matches b) s.grants) [
      | some existing ↦
          if existing.grant_id == id
            && existing.confirmation_reference == reference
            && not existing.consumed
          then ok (receipt b id reference, s)
          else err operator_approval
      | none ↦
          if id_taken id s
          then err store_failure
          else ok
              (receipt b id reference, record s { grants = s.grants ++ new_grant b reference ∷ [] })
    ]

  abbrev recovery_taken : String → String → String → GrantStore → Bool
  recovery_taken id grant reference s = any s.recoveries (λ r.
      r.recovery_id == id
      || (r.grant_id == grant && r.recovery_confirmation_reference == reference))

  abbrev pub stranded : String → Grant → Bool
  stranded id g = g.grant_id == id && g.consumed

  abbrev pub rearm : String → Grant → Grant
  rearm reference g = record g { confirmation_reference = reference; consumed = false }

  -- recover_consumed_grant
  unfoldable pub recover_consumed_grant :
      Call → String → GrantStore → Result GrantError (Receipt × GrantStore)
  recover_consumed_grant c reference s = do
    validate_binding c.run_id (interaction_id c.interaction) c.request_sha256
    raise_if (not (is_valid_confirmation_reference reference)) operator_approval
    raise_if (not (action_interaction_id c.action == interaction_id c.interaction))
        operator_approval
    let b = binding c
    existing ← require (find? (matches b) s.grants) operator_approval
    raise_if (not existing.consumed) operator_approval
    raise_if (reference == existing.confirmation_reference) operator_approval
    let id =
        short_id h "recovery-"
          (h.recovery_json reference existing.grant_id existing.confirmation_reference)
    raise_if (recovery_taken id existing.grant_id reference s) operator_approval
    raise_if (not (length (select (stranded existing.grant_id) s.grants) == 1)) operator_approval
    ok (
      receipt b existing.grant_id reference,
      record {
        grants = update (stranded existing.grant_id) (rearm reference) s.grants;
        recoveries =
            s.recoveries
            ++ (record {
              recovery_id = id;
              grant_id = existing.grant_id;
              previous_confirmation_reference = existing.confirmation_reference;
              recovery_confirmation_reference = reference;
            })
              ∷ [];
      },
    )

  abbrev pub armed : String → Grant → Bool
  armed id g = g.grant_id == id && not g.consumed

  abbrev pub consume : Grant → Grant
  consume g = record g { consumed = true }

  -- authorize_and_consume: whatever is raised inside, the caller sees `ActionAuthorizationError`.
  unfoldable pub authorize_and_consume : Call → GrantStore → Result GrantError GrantStore
  authorize_and_consume c s = as_authorization (do
    validate_binding c.run_id (interaction_id c.interaction) c.request_sha256
    raise_if (not (action_interaction_id c.action == interaction_id c.interaction)) value_error
    row ← require (find? (unspent (binding c)) s.grants) action_authorization
    raise_if (not (length (select (armed row.grant_id) s.grants) == 1)) action_authorization
    ok (record s { grants = update (armed row.grant_id) consume s.grants }))
