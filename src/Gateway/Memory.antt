-- ===== src/Gateway/Memory.antt =====
-- src/material_agent/gateway/memory.py: InMemoryGatewayRepository. A dictionary is a list of its values in
-- the order of insertion, found by their key; the lock makes each call one step.
use materials_screening_agen.Prelude.{
  ℕ, String, ◌+◌, Bool, true, false, Option, none, some, List, [], ◌∷◌, ◌++◌, ◌==◌, ◌&&◌, ◌||◌, not,
  string_eq, nat_eq, option_eq, bool_eq, if◌then◌else◌, Result, Check, ok, err, ◌>>=◌, ◌>>◌,
  raise_if, require, find?, update,
}
use materials_screening_agen.Gateway.Model.{
  Hashing, RunRecord, ResultRecord, terminal_reference, gateway_result_sha256,
}
use materials_screening_agen.Gateway.Equality.{request_eq, result_eq}

-- The errors of src/material_agent/gateway/errors.py, `KeyError`, `GatewayPersistenceError`, and the
-- `OverflowError` of SQLite's driver.
pub data GatewayError : Type 0 where
  submission_conflict run_not_found concurrent_update stale_interaction illegal_action :
      GatewayError
  action_authorization_required adapter_contract adapter_execution : GatewayError
  result_unavailable result_integrity missing_key persistence overflow : GatewayError

pub record Memory : Type 0 where
  pub runs : List RunRecord
  pub submission_index : List (String × String)
  pub results : List ResultRecord

abbrev pub empty_memory : Memory
empty_memory = record { runs = []; submission_index = []; results = [] }

abbrev pub run_key : String → RunRecord → Bool
run_key id r = r.run_id == id

abbrev pub result_key : String → ResultRecord → Bool
result_key id r = r.run_id == id

abbrev pub indexed_run : String → List (String × String) → Option String
indexed_run submission [] = none
indexed_run submission ((s, id) ∷ rest) =
    let later = indexed_run submission rest in if s == submission then some id else later

-- create_or_get: the record, whether it is new, and what is stored.
unfoldable pub create_or_get :
    RunRecord → Memory → Result GatewayError ((RunRecord × Bool) × Memory)
create_or_get new m = elim (indexed_run new.request.submission_id m.submission_index) [
  | some id ↦ (do
    existing ← require (find? (run_key id) m.runs) missing_key
    ok ((existing, false), m))
  | none ↦ elim (find? (run_key new.run_id) m.runs) [
    | some existing ↦ ok ((existing, false), m)
    | none ↦ ok (
      (new, true),
      record m {
        runs = m.runs ++ new ∷ [];
        submission_index = m.submission_index ++ (new.request.submission_id, new.run_id) ∷ [];
      },
    )
  ]
]

unfoldable pub get_run : String → Memory → Option RunRecord
get_run id m = find? (run_key id) m.runs

abbrev pub is_none : {A : Type 0} → Option A → Bool
is_none none = true
is_none (some _) = false

-- What a terminal state has to say of its result.
abbrev pub reference_to : Hashing → ResultRecord → String × String × String
reference_to h r = (r.report_uri, r.authoritative_sha256, gateway_result_sha256 h r)

abbrev pub same_reference : Option (String × String × String) → String × String × String → Bool
same_reference none b = false
same_reference (some a) b = a.0 == b.0 && a.1 == b.1 && a.2 == b.2

module _ (h : Hashing) where
  abbrev pub other_run : RunRecord → Option ResultRecord → Bool
  other_run new none = false
  other_run new (some r) = not (r.run_id == new.run_id)

  abbrev pub unbound : RunRecord → Option ResultRecord → Bool
  unbound new none = false
  unbound new (some r) = not (same_reference (terminal_reference new.state) (reference_to h r))

  abbrev pub store_result : Option ResultRecord → List ResultRecord → List ResultRecord
  store_result none results = results
  store_result (some r) results = elim (find? (result_key r.run_id) results) [
    | some existing ↦ update (result_key r.run_id) (λ _. r) results
    | none ↦ results ++ r ∷ []
  ]

  -- The checks of `replace_run`, in their order.
  unfoldable pub check_replacement :
      RunRecord → ℕ → Option ResultRecord → RunRecord → Option ResultRecord → Check GatewayError
  check_replacement new expected result current existing = do
    raise_if (not (current.revision == expected)) concurrent_update
    raise_if (not (new.revision == expected + 1)) concurrent_update
    raise_if
        (not (current.request == new.request) || not (current.request_sha256 == new.request_sha256))
        concurrent_update
    raise_if (other_run new result) concurrent_update
    raise_if (not (is_none result == is_none (terminal_reference new.state))) concurrent_update
    raise_if (unbound new result) concurrent_update
    raise_if (not (is_none existing) && not (result == existing)) concurrent_update

  unfoldable pub replace_run :
      RunRecord → ℕ → Option ResultRecord → Memory → Result GatewayError Memory
  replace_run new expected result m = do
    current ← require (find? (run_key new.run_id) m.runs) concurrent_update
    check_replacement new expected result current (find? (result_key new.run_id) m.results)
    ok (record m {
      runs = update (run_key new.run_id) (λ _. new) m.runs;
      results = store_result result m.results;
    })

  abbrev pub found_reference : Option RunRecord → Option (String × String × String)
  found_reference none = none
  found_reference (some r) = terminal_reference r.state

  unfoldable pub get_result : String → Memory → Result GatewayError (Option ResultRecord)
  get_result id m = elim (find? (result_key id) m.results) [
    | none ↦ ok none
    | some r ↦
        if same_reference (found_reference (find? (run_key id) m.runs)) (reference_to h r)
        then ok (some r)
        else err result_integrity
  ]
