-- ===== src/Gateway/Database/Same.antt =====
-- SqliteGatewayRepository (src/material_agent/gateway/persistence.py) and InMemoryGatewayRepository
-- (src/material_agent/gateway/memory.py) side by side.
use mathlib.Core.Option
use materials_screening_agen.Prelude.{
  fits_integer, String, ◌≡◌, sym, subst, ◌∙◌, Bool, true, false, Option, none, some, List, [], ◌∷◌,
  ◌++◌, map, string_eq, nat_eq, bool_eq, option_eq, inl, inr, Option-cases, Result, ok, err, find?,
  select, arith, str_refl, All,
}
use materials_screening_agen.Gateway.Model.{Hashing, RunRecord, ResultRecord, inspiration_run_id}
use materials_screening_agen.Gateway.Equality.{request_eq, result_eq}
use materials_screening_agen.Gateway.Memory as Memory
use materials_screening_agen.Gateway.Memory.{
  GatewayError, concurrent_update, persistence, Memory, run_key, result_key, indexed_run, is_none,
  store_result, check_replacement,
}
use materials_screening_agen.Gateway.Repository.{MemoryOp, create, replace}
use materials_screening_agen.Gateway.Database as Database
use materials_screening_agen.Gateway.Database.{
  Codec, Database, RunRow, ResultRow, run_row, result_row, run_row_key, result_row_key, decode_row,
  check_current, keep_result, create_or_get_rows, revision_key, identity_key, assign,
}
use materials_screening_agen.Gateway.Database.Rows.{
  Unique, listed_option, Identified, select-identity_key,
}

-- What a call answers: the record, and whether it is new.
abbrev pub Reply : Type 0
Reply = Result GatewayError (RunRecord × Bool)

abbrev pub answered {ℓ} :
    {S : Type ℓ} → S → Result GatewayError ((RunRecord × Bool) × S) → Reply × S
answered s (ok (a, s')) = (ok a, s')
answered s (err e) = (err e, s)

abbrev pub replaced {ℓ} : {S : Type ℓ} → RunRecord → S → Result GatewayError S → Reply × S
replaced new s (ok s') = (ok (new, true), s')
replaced new s (err e) = (err e, s)

module _ (h : Hashing) where
  unfoldable pub memory_call : MemoryOp → Memory → Reply × Memory
  memory_call (create new) m = answered m (Memory.create_or_get new m)
  memory_call (replace new e result) m = replaced new m (Memory.replace_run h new e result m)

  unfoldable pub database_call : Codec → MemoryOp → Database → Reply × Database
  database_call c (create new) d = answered d (Database.create_or_get c new d)
  database_call c (replace new e result) d =
      replaced new d (Database.replace_run c h new e result d)

module _ (c : Codec) (h : Hashing) where
  -- A record that its JSON keeps, with the run ID of its submission and a revision that its column holds.
  pub record Sound (r : RunRecord) : Type 0 where
    pub identified : Identified c h r
    pub decoded : c.decode_record (c.encode_record r) ≡ some r
    pub bounded : fits_integer r.revision ≡ true

  abbrev pub SoundResult : Option ResultRecord → Type 0
  SoundResult none = Unit {0}
  SoundResult (some r) = c.decode_result (c.encode_result r) ≡ some r

  abbrev pub SoundOp : MemoryOp → Type 0
  SoundOp (create new) = Sound new
  SoundOp (replace new e result) = Sound new × SoundResult result

  -- The database holds the rows of the memory's records.
  pub record Same (m : Memory) (d : Database) : Type 0 where
    pub runs : d.runs ≡ map (run_row c) m.runs
    pub results :
        (id : String)
        → find? (result_row_key id) d.results
          ≡ Option.map (result_row c) (find? (result_key id) m.results)
    pub unique : Unique m.runs
    pub sound : All Sound m.runs
    pub sound_results : (id : String) → SoundResult (find? (result_key id) m.results)
    pub index :
        (s id : String)
        → indexed_run s m.submission_index ≡ some id
        → (id ≡ inspiration_run_id h s) × (r : RunRecord) × (find? (run_key id) m.runs ≡ some r)

  pub decode_row-run_row :
      (r : RunRecord)
      → c.decode_record (c.encode_record r) ≡ some r
      → decode_row c (run_row c r) ≡ ok r
  unfolding decode_row
  decode_row-run_row r e =
      ground
        (arith, e, str_refl r.run_id, str_refl r.request.submission_id, str_refl r.request_sha256)

  identified : (xs : List RunRecord) → All Sound xs → All (Identified c h) xs
  identified [] s = tt
  identified (x ∷ xs) s = (s.0.identified, identified xs s.1)

  -- create_or_get on a record whose run is there, and where it is not.
  pub memory_create-found :
      (new x : RunRecord) (m : Memory) (d : Database)
      → Same m d
      → Sound new
      → find? (run_key new.run_id) m.runs ≡ some x
      → Memory.create_or_get new m ≡ ok ((x, false), m)
  unfolding Memory.create_or_get
  memory_create-found new x m d same s found =
      elim (Option-cases (indexed_run new.request.submission_id m.submission_index)) [
        | inl unknown ↦ ground (arith, unknown, found)
        | inr (id, known) ↦
            let (names, r, there) = same.index new.request.submission_id id known in
            let own : id ≡ new.run_id = names ∙ sym s.identified in
            let here = subst (λ k. find? (run_key k) m.runs ≡ some x) (sym own) found in
            ground (arith, known, here)
      ]

  pub memory_create-missing :
      (new : RunRecord) (m : Memory) (d : Database)
      → Same m d
      → Sound new
      → find? (run_key new.run_id) m.runs ≡ none
      → Memory.create_or_get new m
        ≡ ok (
          (new, true),
          record m {
            runs = m.runs ++ new ∷ [];
            submission_index = m.submission_index ++ (new.request.submission_id, new.run_id) ∷ [];
          },
        )
  unfolding Memory.create_or_get
  memory_create-missing new m d same s missing =
      elim (Option-cases (indexed_run new.request.submission_id m.submission_index)) [
        | inl unknown ↦ ground (arith, unknown, missing)
        | inr (id, known) ↦
            let (names, r, there) = same.index new.request.submission_id id known in
            let own : id ≡ new.run_id = names ∙ sym s.identified in
            let here = subst (λ k. find? (run_key k) m.runs ≡ some r) own there in
            absurd (ground (arith, here, missing))
      ]

  pub database_create-rows :
      (new : RunRecord) (m : Memory) (d : Database)
      → Same m d
      → Sound new
      → select (identity_key new.run_id new.request.submission_id) d.runs
        ≡ listed_option (Option.map (run_row c) (find? (run_key new.run_id) m.runs))
  database_create-rows new m d same s =
      rw (same.runs, s.identified)
        (select-identity_key c h new.request.submission_id m.runs (identified m.runs same.sound)
          same.unique)
