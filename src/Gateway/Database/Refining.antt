-- ===== src/Gateway/Database/Refining.antt =====
-- The SQLite repository of the Gateway (src/material_agent/gateway/persistence.py) refines the in-memory one
-- (src/material_agent/gateway/memory.py).
use mathlib.Core.Option
use materials_screening_agen.Prelude.{
  String, ◌≡◌, refl, sym, subst, ap, ◌∙◌, Bool, true, some, List, [], ◌∷◌, string_eq, nat_eq,
  bool_eq, option_eq, inl, inr, Option-cases, Result, ok, err, find?, find?-sound, arith, All,
  All-find?, attempt, all,
}
use materials_screening_agen.Gateway.Model.{Hashing, RunRecord, terminal_reference}
use materials_screening_agen.Gateway.Equality.{request_eq, result_eq}
use materials_screening_agen.Gateway.Memory as Memory
use materials_screening_agen.Gateway.Memory.{
  GatewayError, concurrent_update, persistence, Memory, run_key, result_key, indexed_run, is_none,
  store_result, check_replacement,
}
use materials_screening_agen.Gateway.Repository.{MemoryOp, create, replace, stored}
use materials_screening_agen.Gateway.Results.{step}
use materials_screening_agen.Gateway.Database as Database
use materials_screening_agen.Gateway.Database.{
  Codec, Database, RunRow, ResultRow, run_row, result_row, run_row_key, result_row_key, decode_row,
  check_current, keep_result, create_or_get_rows, revision_key, identity_key, assign,
}
use materials_screening_agen.Gateway.Database.Rows.{find?-run_row}
use mathlib.Core.Path.{ap₂}
use materials_screening_agen.Gateway.Memory.{empty_memory, same_reference, reference_to}
use materials_screening_agen.Gateway.Database.{empty_database, decode_joined}
use materials_screening_agen.Gateway.Results.{
  run, run-get_result, run-CoherentAt, CoherentAt, creates_open, same_reference_refl,
}
use materials_screening_agen.Gateway.Database.Same.{
  Reply, answered, replaced, memory_call, database_call, Sound, SoundOp, Same, decode_row-run_row,
}
use materials_screening_agen.Gateway.Database.Creating.{Agree, create-Agree}
use materials_screening_agen.Gateway.Database.Replacing.{replace-Agree}

-- Calls one after the other, with their replies.
unfoldable pub calls {ℓ} :
    {S : Type ℓ} → (MemoryOp → S → Reply × S) → List MemoryOp → S → List Reply × S
calls call [] s = ([], s)
calls call (o ∷ ops) s =
    let (reply, s') = call o s in let (replies, end) = calls call ops s' in (reply ∷ replies, end)

memory_call-step : (h : Hashing) (o : MemoryOp) (m : Memory) → (memory_call h o m).1 ≡ step h o m
unfolding memory_call step
memory_call-step h (create new) m = stored_state (Memory.create_or_get new m)
  where
    stored_state :
        (a : Result GatewayError ((RunRecord × Bool) × Memory))
        → (answered m a).1 ≡ attempt m (stored a)
    stored_state (ok (x, m')) = refl
    stored_state (err e) = refl
memory_call-step h (replace new e result) m = stored_state (Memory.replace_run h new e result m)
  where
    stored_state : (a : Result GatewayError Memory) → (replaced new m a).1 ≡ attempt m a
    stored_state (ok m') = refl
    stored_state (err e') = refl

calls-run :
    (h : Hashing) (ops : List MemoryOp) (m : Memory) → (calls (memory_call h) ops m).1 ≡ run h ops m
unfolding calls run
calls-run h [] m = refl
calls-run h (o ∷ ops) m =
    calls-run h ops (memory_call h o m).1 ∙ ap (run h ops) (memory_call-step h o m)

module _ (c : Codec) (h : Hashing) where
  call-Agree :
      (o : MemoryOp) (m : Memory) (d : Database)
      → Same c h m d
      → SoundOp c h o
      → Agree c h (memory_call h o m) (database_call h c o d)
  call-Agree (create new) m d same s = create-Agree c h new m d same s
  call-Agree (replace new e result) m d same s = replace-Agree c h new e result m d same s.0 s.1

  calls-Same :
      (ops : List MemoryOp) (m : Memory) (d : Database)
      → Same c h m d
      → All (SoundOp c h) ops
      → ((calls (database_call h c) ops d).0 ≡ (calls (memory_call h) ops m).0)
        × Same c h (calls (memory_call h) ops m).1 (calls (database_call h c) ops d).1
  unfolding calls
  calls-Same [] m d same s = (refl, same)
  calls-Same (o ∷ ops) m d same s =
      let one = call-Agree o m d same s.0 in
      let (replies, end) =
        calls-Same ops (memory_call h o m).1 (database_call h c o d).1 one.same s.1 in
      (ap₂ ◌∷◌ one.reply replies, end)

  empty-Same : Same c h empty_memory empty_database
  unfolding find?
  empty-Same = record {
    runs = refl;
    results = λ id. refl;
    unique = tt;
    sound = tt;
    sound_results = λ id. tt;
    index = λ s id e. absurd (ground (arith, e));
  }

  rows_found :
      (id : String) (m : Memory) (d : Database)
      → Same c h m d
      → find? (run_row_key id) d.runs ≡ Option.map (run_row c) (find? (run_key id) m.runs)
  rows_found id m d same = rw same.runs (find?-run_row c id m.runs)

  row_decoded :
      (id : String) (m : Memory) (d : Database) (r : RunRecord)
      → Same c h m d
      → find? (run_key id) m.runs ≡ some r
      → decode_row c (run_row c r) ≡ ok r
  row_decoded id m d r same found =
      decode_row-run_row c h r (All-find? (Sound c h) (run_key id) m.runs same.sound found).decoded

  Same-get_run :
      (id : String) (m : Memory) (d : Database)
      → Same c h m d
      → Database.get_run c id d ≡ ok (Memory.get_run id m)
  unfolding Database.get_run Memory.get_run
  Same-get_run id m d same = elim (Option-cases (find? (run_key id) m.runs)) [
    | inl missing ↦ ground (arith, rows_found id m d same, missing)
    | inr (r, found) ↦
        ground (arith, rows_found id m d same, found, row_decoded id m d r same found)
  ]

  Same-get_result :
      (id : String) (m : Memory) (d : Database)
      → Same c h m d
      → CoherentAt h id m
      → Database.get_result c h id d ≡ ok (find? (result_key id) m.results)
  unfolding Database.get_result decode_joined
  Same-get_result id m d same coherent = elim (Option-cases (find? (result_key id) m.results)) [
    | inl missing ↦ ground (arith, same.results id, missing)
    | inr (r, found) ↦ elim (Option-cases (find? (run_key id) m.runs)) [
      | inl gone ↦ absurd (rw (gone, found) at coherent)
      | inr (row, there) ↦
          let bound : terminal_reference row.state ≡ some (reference_to h r) =
            rw (there, found) at coherent in
          let result_decoded : c.decode_result (c.encode_result r) ≡ some r =
            rw found at (same.sound_results id) in
          ground (
            arith,
            same.results id,
            found,
            rows_found id m d same,
            there,
            result_decoded,
            find?-sound (result_key id) m.results found,
            row_decoded id m d row same there,
            same_reference_refl h (terminal_reference row.state) (reference_to h r) bound,
          )
    ]
  ]

  -- The two repositories cannot be told apart: given the same calls, from empty ones, the SQLite
  -- repository gives the same replies as the in-memory one, errors included, and afterwards
  -- every run and every result reads the same from both. The conditions are on the records given to the
  -- calls: their JSON is decoded to what it encodes, their run IDs are those of their
  -- submissions, their revisions fit the database's column (they are below 2 ^ 63), and no record is
  -- created in a terminal state.
  pub database_calls-memory_calls :
      (ops : List MemoryOp) (id : String)
      → All (SoundOp c h) ops
      → all ops (creates_open h) ≡ true
      → let m = calls (memory_call h) ops empty_memory in
        let d = calls (database_call h c) ops empty_database in
        (d.0 ≡ m.0)
        × (Database.get_run c id d.1 ≡ ok (Memory.get_run id m.1))
        × (Database.get_result c h id d.1 ≡ Memory.get_result h id m.1)
  database_calls-memory_calls ops id s opened =
      let (replies, same) = calls-Same ops empty_memory empty_database empty-Same s in
      let m = (calls (memory_call h) ops empty_memory).1 in
      let d = (calls (database_call h c) ops empty_database).1 in
      let coherent =
        subst (CoherentAt h id) (sym (calls-run h ops empty_memory))
          (run-CoherentAt h id ops empty_memory opened (unfold find? in tt)) in
      let read : Memory.get_result h id m ≡ ok (find? (result_key id) m.results) =
        rw (calls-run h ops empty_memory) (run-get_result h ops id opened).0 in
      (replies, Same-get_run id m d same, Same-get_result id m d same coherent ∙ sym read)
