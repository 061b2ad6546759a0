-- ===== src/Gateway/Database/Rows.antt =====
-- The rows that SqliteGatewayRepository (src/material_agent/gateway/persistence.py) has for the records of
-- the in-memory repository.
use mathlib.Core.Option
use materials_screening_agen.Prelude.{
  ℕ, String, ◌≡◌, refl, subst, ap, ◌∙◌, Option, none, some, List, [], ◌∷◌, ◌++◌, map, ◌==◌,
  string_eq, nat_eq, inl, inr, Bool-cases, find?, select, update, length, find?-append,
  find?-update, arith, eq_iff, All,
}
use materials_screening_agen.Gateway.Model.{
  Hashing, RunRecord, RunRequest, ResultRecord, inspiration_run_id,
}
use materials_screening_agen.Gateway.Memory.{run_key, result_key}
use materials_screening_agen.Gateway.Repository.{run_key-store}
use materials_screening_agen.Gateway.Database.{
  Codec, RunRow, run_row, result_row, run_row_key, result_row_key, identity_key, revision_key,
  assign,
}

-- Run IDs are a primary key.
abbrev pub Unique : List RunRecord → Type 0
Unique [] = Unit {0}
Unique (x ∷ xs) = (find? (run_key x.run_id) xs ≡ none) × Unique xs

abbrev pub listed_option {ℓ} : {A : Type ℓ} → Option A → List A
listed_option none = []
listed_option (some a) = a ∷ []

pub Unique-append :
    (xs : List RunRecord) (new : RunRecord)
    → Unique xs
    → find? (run_key new.run_id) xs ≡ none
    → Unique (xs ++ new ∷ [])
unfolding find?
Unique-append [] new u absent = (refl, tt)
Unique-append (x ∷ xs) new u absent = (
  ground (
    arith,
    find?-append (run_key x.run_id) xs (new ∷ []),
    u.0,
    absent,
    eq_iff x.run_id new.run_id,
    eq_iff new.run_id x.run_id,
  ),
  Unique-append xs new u.1 (ground (arith, absent)),
)

pub Unique-update :
    (xs : List RunRecord) (new : RunRecord)
    → Unique xs
    → Unique (update (run_key new.run_id) (λ _. new) xs)
unfolding update
Unique-update [] new u = tt
Unique-update (x ∷ xs) new u = (
  ground (
    arith,
    find?-update (run_key x.run_id) (run_key new.run_id) (λ _. new) xs (run_key-store x.run_id new),
    u.0,
    eq_iff x.run_id new.run_id,
  ),
  Unique-update xs new u.1,
)

module _ (c : Codec) where
  pub find?-run_row :
      (id : String) (xs : List RunRecord)
      → find? (run_row_key id) (map (run_row c) xs) ≡ Option.map (run_row c) (find? (run_key id) xs)
  unfolding find?
  find?-run_row id [] = refl
  find?-run_row id (x ∷ xs) = ground (arith, find?-run_row id xs)

  pub find?-result_row :
      (id : String) (xs : List ResultRecord)
      → find? (result_row_key id) (map (result_row c) xs)
        ≡ Option.map (result_row c) (find? (result_key id) xs)
  unfolding find?
  find?-result_row id [] = refl
  find?-result_row id (x ∷ xs) = ground (arith, find?-result_row id xs)

  -- The run ID of a record is that of its submission.
  abbrev pub Identified : Hashing → RunRecord → Type 0
  Identified h r = r.run_id ≡ inspiration_run_id h r.request.submission_id

  -- SELECT * FROM gateway_runs WHERE run_id = ? OR submission_id = ?
  pub select-identity_key :
      (h : Hashing) (submission : String) (xs : List RunRecord)
      → All (Identified h) xs
      → Unique xs
      → select (identity_key (inspiration_run_id h submission) submission) (map (run_row c) xs)
        ≡ listed_option
            (Option.map (run_row c) (find? (run_key (inspiration_run_id h submission)) xs))
  unfolding select find?
  select-identity_key h submission [] i u = refl
  select-identity_key h submission (x ∷ xs) i u =
      let id = inspiration_run_id h submission in
      let rest = select-identity_key h submission xs i.1 u.1 in
      elim (Bool-cases (x.run_id == id)) [
        | inl here ↦
            let absent =
              subst (λ k. find? (run_key k) xs ≡ none) ((eq_iff x.run_id id).0 here) u.0 in
            ground (arith, here, rest, absent)
        | inr there ↦ elim (Bool-cases (x.request.submission_id == submission)) [
          | inl same ↦
              let named =
                i.0
                ∙ ap (inspiration_run_id h) ((eq_iff x.request.submission_id submission).0 same) in
              absurd (ground (arith, there, (eq_iff x.run_id id).1 named))
          | inr other ↦ ground (arith, there, other, rest)
        ]
      ]

  -- The UPDATE of a run that is not there.
  update-absent :
      (id : String) (e : ℕ) (f : RunRow → RunRow) (xs : List RunRecord)
      → find? (run_key id) xs ≡ none
      → (update (revision_key id e) f (map (run_row c) xs) ≡ map (run_row c) xs)
        × (select (revision_key id e) (map (run_row c) xs) ≡ [])
  unfolding update select find?
  update-absent id e f [] absent = (refl, refl)
  update-absent id e f (x ∷ xs) absent =
      let (same, nothing) = update-absent id e f xs (ground (arith, absent)) in
      (ground (arith, absent, same), ground (arith, absent, nothing))

  store-absent :
      (id : String) (new : RunRecord) (xs : List RunRecord)
      → find? (run_key id) xs ≡ none
      → update (run_key id) (λ _. new) xs ≡ xs
  unfolding update find?
  store-absent id new [] absent = refl
  store-absent id new (x ∷ xs) absent = ground (arith, absent, store-absent id new xs)

  module _ (new current : RunRecord) (same_request : new.request ≡ current.request)
      (same_sha256 : new.request_sha256 ≡ current.request_sha256) where
    -- The UPDATE of the one run with an ID writes the row of its replacement.
    pub update-run_row :
        (xs : List RunRecord)
        → Unique xs
        → find? (run_key new.run_id) xs ≡ some current
        → (update (revision_key new.run_id current.revision) (assign c new) (map (run_row c) xs)
            ≡ map (run_row c) (update (run_key new.run_id) (λ _. new) xs))
          × (length (select (revision_key new.run_id current.revision) (map (run_row c) xs)) ≡ 1)
    unfolding update select find?
    update-run_row [] u found = absurd (ground arith)
    update-run_row (x ∷ xs) u found = elim (Bool-cases (x.run_id == new.run_id)) [
      | inr there ↦
          let (rows, one) = update-run_row xs u.1 (ground (arith, there, found)) in
          (ground (arith, there, rows), ground (arith, there, one))
      | inl here ↦
          let names : x.run_id ≡ new.run_id = (eq_iff x.run_id new.run_id).0 here in
          let itself : x ≡ current = ground (arith, here, found) in
          let absent = subst (λ k. find? (run_key k) xs ≡ none) names u.0 in
          let (same, nothing) =
            update-absent new.run_id current.revision (assign c new) xs absent in
          let kept = store-absent new.run_id new xs absent in
          let revision = ap (λ (r : RunRecord). r.revision) itself in
          let revised : assign c new (run_row c x) ≡ run_row c new = ground (
            arith,
            names,
            ap (λ (r : RunRecord). r.request.submission_id) itself,
            ap (λ (r : RunRecord). r.request_sha256) itself,
            ap (λ (r : RunRequest). r.submission_id) same_request,
          ) in
          (
            ground (arith, here, revision, revised, same, kept),
            ground (arith, here, revision, nothing),
          )
    ]
