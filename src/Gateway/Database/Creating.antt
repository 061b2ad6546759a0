-- ===== src/Gateway/Database/Creating.antt =====
-- create_or_get of the two repositories (src/material_agent/gateway/persistence.py, memory.py).
use mathlib.Core.List.{map-append}
use materials_screening_agen.Prelude.{
  String, ◌≡◌, refl, sym, subst, ap, ◌∙◌, true, false, none, some, List, [], ◌∷◌, ◌++◌, ◌==◌,
  string_eq, nat_eq, bool_eq, option_eq, ◌⊎◌, inl, inr, Bool-cases, Option-cases, ok, find?,
  find?-append, find?-one, arith, eq_iff, All-append, All-find?,
}
use materials_screening_agen.Gateway.Model.{Hashing, RunRecord, inspiration_run_id}
use materials_screening_agen.Gateway.Equality.{request_eq, result_eq}
use materials_screening_agen.Gateway.Memory.{Memory, run_key, indexed_run}
use materials_screening_agen.Gateway.Repository.{create}
use materials_screening_agen.Gateway.Database as Database
use materials_screening_agen.Gateway.Database.{
  Codec, Database, RunRow, ResultRow, run_row, result_row, run_row_key, result_row_key, decode_row,
  check_current, keep_result, create_or_get_rows, revision_key, identity_key, assign,
}
use materials_screening_agen.Gateway.Database.Rows.{Unique-append}
use materials_screening_agen.Gateway.Database.Same.{
  Reply, memory_call, database_call, Sound, Same, decode_row-run_row, memory_create-found,
  memory_create-missing, database_create-rows,
}

module _ (c : Codec) (h : Hashing) where
  -- One call of both answers the same and keeps them the same.
  pub record Agree (a : Reply × Memory) (b : Reply × Database) : Type 0 where
    pub reply : b.0 ≡ a.0
    pub same : Same c h a.1 b.1

  database_create-found :
      (new x : RunRecord) (m : Memory) (d : Database)
      → Same c h m d
      → Sound c h new
      → find? (run_key new.run_id) m.runs ≡ some x
      → Database.create_or_get c new d ≡ ok ((x, false), d)
  unfolding Database.create_or_get create_or_get_rows
  database_create-found new x m d same s found =
      let decoded = (All-find? (Sound c h) (run_key new.run_id) m.runs same.sound found).decoded in
      rw (database_create-rows c h new m d same s, found, decode_row-run_row c h x decoded) refl

  database_create-missing :
      (new : RunRecord) (m : Memory) (d : Database)
      → Same c h m d
      → Sound c h new
      → find? (run_key new.run_id) m.runs ≡ none
      → Database.create_or_get c new d
        ≡ ok ((new, true), record d { runs = d.runs ++ run_row c new ∷ [] })
  unfolding Database.create_or_get create_or_get_rows
  database_create-missing new m d same s missing =
      rw (database_create-rows c h new m d same s, missing, s.bounded) refl

  -- The submission index after an insertion.
  indexed_run-insert :
      (new : RunRecord) (index : List (String × String)) (s id : String)
      → indexed_run s (index ++ (new.request.submission_id, new.run_id) ∷ []) ≡ some id
      → (indexed_run s index ≡ some id) ⊎ ((new.request.submission_id ≡ s) × (new.run_id ≡ id))
  indexed_run-insert new [] s id e = elim (Bool-cases (new.request.submission_id == s)) [
    | inl here ↦ inr ((eq_iff new.request.submission_id s).0 here, ground (arith, here, e))
    | inr there ↦ absurd (ground (arith, there, e))
  ]
  indexed_run-insert new ((t, j) ∷ index) s id e = elim (Bool-cases (t == s)) [
    | inl here ↦ inl (ground (arith, here, e))
    | inr there ↦ elim (indexed_run-insert new index s id (ground (arith, there, e))) [
      | inl old ↦ inl (ground (arith, there, old))
      | inr now ↦ inr now
    ]
  ]

  Same-insert :
      (new : RunRecord) (m : Memory) (d : Database)
      → Same c h m d
      → Sound c h new
      → find? (run_key new.run_id) m.runs ≡ none
      → Same c h
          (record m {
            runs = m.runs ++ new ∷ [];
            submission_index = m.submission_index ++ (new.request.submission_id, new.run_id) ∷ [];
          })
          (record d { runs = d.runs ++ run_row c new ∷ [] })
  Same-insert new m d same s missing = record {
    runs = rw same.runs (sym (map-append (run_row c) m.runs (new ∷ [])));
    results = same.results;
    unique = Unique-append m.runs new same.unique missing;
    sound = All-append (Sound c h) m.runs (new ∷ []) same.sound (s, tt);
    sound_results = same.sound_results;
    index = λ t id e. elim (indexed_run-insert new m.submission_index t id e) [
      | inl old ↦
          let (names, r, there) = same.index t id old in
          (names, r, rw (find?-append (run_key id) m.runs (new ∷ []), there) refl)
      | inr (submitted, own) ↦
          (sym own ∙ s.identified ∙ ap (inspiration_run_id h) submitted, new, inserted id own)
    ];
  }
    where
      inserted :
          (id : String) → new.run_id ≡ id → find? (run_key id) (m.runs ++ new ∷ []) ≡ some new
      inserted id own =
          let absent = subst (λ k. find? (run_key k) m.runs ≡ none) own missing in
          ground (
            arith,
            absent,
            find?-append (run_key id) m.runs (new ∷ []),
            find?-one (run_key id) new,
            (eq_iff new.run_id id).1 own,
          )

  pub create-Agree :
      (new : RunRecord) (m : Memory) (d : Database)
      → Same c h m d
      → Sound c h new
      → Agree (memory_call h (create new) m) (database_call h c (create new) d)
  unfolding memory_call database_call
  create-Agree new m d same s = elim (Option-cases (find? (run_key new.run_id) m.runs)) [
    | inr (x, found) ↦
        rw
          (
            memory_create-found c h new x m d same s found,
            database_create-found new x m d same s found,
          )
          (record { reply = refl; same = same })
    | inl missing ↦
        rw
          (
            memory_create-missing c h new m d same s missing,
            database_create-missing new m d same s missing,
          )
          (record { reply = refl; same = Same-insert new m d same s missing })
  ]
