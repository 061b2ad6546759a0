-- ===== src/Tests/Database.antt =====
-- The SQLite repository of src/material_agent/gateway on concrete inputs.
use materials_screening_agen.Prelude.{
  [], ◌∷◌, select, ◌≡◌, refl, some, none, ◌==◌, nat_eq, string_eq, if◌then◌else◌, ok, err, true,
}
use materials_screening_agen.Gateway.Memory as Memory
use materials_screening_agen.Gateway.Memory.{empty_memory, concurrent_update}
use materials_screening_agen.Gateway.Database as Database
use materials_screening_agen.Gateway.Database.{
  Codec, empty_database, decode_row, create_or_get_rows, check_current, keep_result,
}
use materials_screening_agen.Gateway.Database.Same.{memory_call, database_call, Sound}
use materials_screening_agen.Gateway.Database.Refining.{calls, database_calls-memory_calls}
use materials_screening_agen.Tests.Gateway.{hashing}
use materials_screening_agen.Tests.Service.{id, result, first_record, done_record, done_ops}

-- The texts of the records of these tests.
abbrev codec : Codec
codec = record {
  encode_record = λ r. if r.revision == 0 then "first" else "done";
  decode_record = λ s.
      if s == "first" then some first_record else if s == "done" then some done_record else none;
  encode_result = λ r. r.run_id;
  decode_result = λ s. if s == id then some result else none;
}

first_record-Sound : Sound codec hashing first_record
first_record-Sound = record { identified = refl; decoded = refl; bounded = refl }

done_record-Sound : Sound codec hashing done_record
done_record-Sound = record { identified = refl; decoded = refl; bounded = refl }

database_calls-memory_calls_example :
    let m = calls (memory_call hashing) done_ops empty_memory in
    let d = calls (database_call hashing codec) done_ops empty_database in
    (d.0 ≡ m.0)
    × (Database.get_run codec id d.1 ≡ ok (Memory.get_run id m.1))
    × (Database.get_result codec hashing id d.1 ≡ Memory.get_result hashing id m.1)
database_calls-memory_calls_example =
    database_calls-memory_calls codec hashing done_ops id
      (first_record-Sound, ((done_record-Sound, refl), tt)) refl

-- A row whose columns disagree with its JSON is refused.
tampered_row :
    decode_row codec (record (Database.run_row codec first_record) { revision = 5 })
    ≡ err Memory.persistence
unfolding decode_row
tampered_row = refl

-- The first revision that the column does not hold, and the last that it does.
revision_overflow :
    Database.create_or_get codec
      (record first_record { revision = 9223372036854775808 })
      empty_database
    ≡ err Memory.overflow
unfolding Database.create_or_get create_or_get_rows select
revision_overflow = refl

revision_last :
    let last = record first_record { revision = 9223372036854775807 } in
    Database.create_or_get codec last empty_database
    ≡ ok ((last, true), record empty_database { runs = Database.run_row codec last ∷ [] })
unfolding Database.create_or_get create_or_get_rows select
revision_last = refl
