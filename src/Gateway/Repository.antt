-- ===== src/Gateway/Repository.antt =====
-- What any sequence of calls leaves in InMemoryGatewayRepository (src/material_agent/gateway/memory.py).
use materials_screening_agen.Prelude.{
  ℕ, String, ◌+◌, ◌≡◌, subst, true, Option, none, some, List, [], ◌∷◌, ◌==◌, string_eq, nat_eq,
  option_eq, bool_eq, if◌then◌else◌, inl, inr, Option-cases, Bool-cases, change, Result, ok, err,
  find?, update, find?-append, find?-one, find?-update, find?-sound, arith, eq_iff,
}
use materials_screening_agen.Gateway.Model.{Hashing, RunRecord, ResultRecord, terminal_reference}
use materials_screening_agen.Gateway.Equality.{request_eq, result_eq}
use materials_screening_agen.Gateway.Memory.{
  Memory, run_key, result_key, reference_to, same_reference, store_result, check_replacement,
}

pub data MemoryOp : Type 0 where
  create : RunRecord → MemoryOp
  replace : RunRecord → ℕ → Option ResultRecord → MemoryOp

abbrev pub stored : {E A : Type 0} → Result E (A × Memory) → Result E Memory
stored (ok (_, m)) = ok m
stored (err e) = err e

-- What `replace_run` has checked where it stores.
pub record Checked (h : Hashing) (new : RunRecord) (expected : ℕ) (result : Option ResultRecord)
    (current : RunRecord) : Type 0 where
  pub expected_revision : current.revision ≡ expected
  pub next_revision : new.revision ≡ expected + 1
  pub request : new.request ≡ current.request
  pub request_sha256 : new.request_sha256 ≡ current.request_sha256

abbrev pub Bound : Hashing → RunRecord → Option ResultRecord → Type 0
Bound h new none = terminal_reference new.state ≡ none
Bound h new (some r) =
    (r.run_id ≡ new.run_id) × (terminal_reference new.state ≡ some (reference_to h r))

abbrev pub Kept : Option ResultRecord → Option ResultRecord → Type 0
Kept result none = Unit {0}
Kept result (some x) = result ≡ some x

pub check_replacement-Checked :
    (h : Hashing) (new : RunRecord) (e : ℕ) (result : Option ResultRecord) (current : RunRecord)
    (existing : Option ResultRecord)
    → check_replacement h new e result current existing ≡ ok tt
    → Checked h new e result current
unfolding check_replacement
check_replacement-Checked h new e result current existing c = record {
  expected_revision = ground arith;
  next_revision = ground arith;
  request = ground (arith, request_eq.equal_iff current.request new.request);
  request_sha256 = ground (arith, eq_iff current.request_sha256 new.request_sha256);
}

pub same_reference-eq :
    (a : Option (String × String × String)) (b : String × String × String)
    → same_reference a b ≡ true
    → a ≡ some b
same_reference-eq none b h = ground arith
same_reference-eq (some a) b h = ground (arith, eq_iff a.0 b.0, eq_iff a.1 b.1, eq_iff a.2 b.2)

pub check_replacement-Bound :
    (h : Hashing) (new : RunRecord) (e : ℕ) (result : Option ResultRecord) (current : RunRecord)
    (existing : Option ResultRecord)
    → check_replacement h new e result current existing ≡ ok tt
    → Bound h new result
unfolding check_replacement
check_replacement-Bound h new e none current existing c = ground arith
check_replacement-Bound h new e (some r) current existing c = (
  ground (arith, eq_iff r.run_id new.run_id),
  ground (arith, same_reference-eq (terminal_reference new.state) (reference_to h r)),
)

pub check_replacement-Kept :
    (h : Hashing) (new : RunRecord) (e : ℕ) (result : Option ResultRecord) (current : RunRecord)
    (existing : Option ResultRecord)
    → check_replacement h new e result current existing ≡ ok tt
    → Kept result existing
unfolding check_replacement
check_replacement-Kept h new e result current none c = tt
check_replacement-Kept h new e none current (some x) c = ground arith
check_replacement-Kept h new e (some r) current (some x) c = ground (arith, result_eq.equal_iff r x)

result_key-store :
    (id : String) (r x : ResultRecord)
    → result_key id (change (result_key r.run_id) (λ _. r) x) ≡ result_key id x
result_key-store id r x = ground (arith, eq_iff x.run_id r.run_id)

pub run_key-store :
    (id : String) (new x : RunRecord)
    → run_key id (change (run_key new.run_id) (λ _. new) x) ≡ run_key id x
run_key-store id new x = ground (arith, eq_iff x.run_id new.run_id)

-- `_results[run_id] = r`
pub find?-store_result :
    (h : Hashing) (id : String) (r : ResultRecord) (results : List ResultRecord)
    → find? (result_key id) (store_result h (some r) results)
      ≡ (if r.run_id == id then some r else find? (result_key id) results)
find?-store_result h id r results = elim (Option-cases (find? (result_key r.run_id) results)) [
  | inl missing ↦ elim (Bool-cases (r.run_id == id)) [
    | inl here ↦
        let missing' =
          subst (λ k. find? (result_key k) results ≡ none) ((eq_iff r.run_id id).0 here) missing in
        ground (arith, find?-append (result_key id) results (r ∷ []), find?-one (result_key id) r)
    | inr there ↦
        ground (arith, find?-append (result_key id) results (r ∷ []), find?-one (result_key id) r)
  ]
  | inr (x, found) ↦ elim (Bool-cases (r.run_id == id)) [
    | inl here ↦
        let found' =
          subst (λ k. find? (result_key k) results ≡ some x) ((eq_iff r.run_id id).0 here) found in
        ground (
          arith,
          find?-sound (result_key r.run_id) results found,
          find?-update (result_key id) (result_key r.run_id) (λ _. r) results
              (result_key-store id r),
        )
    | inr there ↦ elim (Option-cases (find? (result_key id) results)) [
      | inl none_there ↦ ground (
        arith,
        find?-update (result_key id) (result_key r.run_id) (λ _. r) results (result_key-store id r),
      )
      | inr (y, other) ↦ ground (
        arith,
        eq_iff y.run_id id,
        eq_iff y.run_id r.run_id,
        eq_iff r.run_id id,
        find?-sound (result_key id) results other,
        find?-update (result_key id) (result_key r.run_id) (λ _. r) results (result_key-store id r),
      )
    ]
  ]
]

-- `_runs[run_id] = new`, where the run is there
pub find?-store_run :
    (id : String) (new current : RunRecord) (runs : List RunRecord)
    → find? (run_key new.run_id) runs ≡ some current
    → find? (run_key id) (update (run_key new.run_id) (λ _. new) runs)
      ≡ (if new.run_id == id then some new else find? (run_key id) runs)
find?-store_run id new current runs found =
    let stored_row =
      find?-update (run_key id) (run_key new.run_id) (λ _. new) runs (run_key-store id new) in
    elim (Bool-cases (new.run_id == id)) [
      | inl here ↦
          let found' =
            subst (λ k. find? (run_key k) runs ≡ some current) ((eq_iff new.run_id id).0 here)
              found in
          ground (arith, find?-sound (run_key new.run_id) runs found, stored_row)
      | inr there ↦ elim (Option-cases (find? (run_key id) runs)) [
        | inl none_there ↦ ground (arith, stored_row)
        | inr (y, other) ↦ ground (
          arith,
          eq_iff y.run_id id,
          eq_iff y.run_id new.run_id,
          eq_iff new.run_id id,
          find?-sound (run_key id) runs other,
          stored_row,
        )
      ]
    ]
