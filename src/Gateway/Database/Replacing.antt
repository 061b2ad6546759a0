-- ===== src/Gateway/Database/Replacing.antt =====
-- replace_run of the two repositories (src/material_agent/gateway/persistence.py, memory.py).
use mathlib.Core.Option
use materials_screening_agen.Prelude.{
  fits_integer, ℕ, String, ◌≡◌, refl, sym, subst, ap, ◌∙◌, Bool, true, false, Option, none, some,
  List, [], ◌∷◌, ◌++◌, ◌==◌, ◌&&◌, not, string_eq, nat_eq, bool_eq, option_eq, if◌then◌else◌, inl,
  inr, Bool-cases, Option-cases, Check-cases, ok, err, ◌>>◌, raise_if, find?, select, update,
  length, find?-append, find?-one, or_else, arith, eq_iff, All-find?, All-update,
}
use materials_screening_agen.Gateway.Model.{Hashing, RunRecord, ResultRecord, terminal_reference}
use materials_screening_agen.Gateway.Equality.{request_eq, result_eq}
use materials_screening_agen.Gateway.Memory as Memory
use materials_screening_agen.Gateway.Memory.{
  GatewayError, concurrent_update, persistence, Memory, run_key, result_key, indexed_run, is_none,
  store_result, check_replacement,
}
use materials_screening_agen.Gateway.Repository.{
  replace, Checked, check_replacement-Checked, find?-store_run, find?-store_result,
}
use materials_screening_agen.Gateway.Database as Database
use materials_screening_agen.Gateway.Database.{
  Codec, Database, RunRow, ResultRow, run_row, result_row, run_row_key, result_row_key, decode_row,
  check_current, keep_result, create_or_get_rows, revision_key, identity_key, assign,
}
use materials_screening_agen.Gateway.Database.Rows.{Unique-update, find?-run_row, update-run_row}
use materials_screening_agen.Gateway.Database.Same.{
  memory_call, database_call, Sound, SoundResult, Same, decode_row-run_row,
}
use materials_screening_agen.Gateway.Database.Creating.{Agree}
use materials_screening_agen.Gateway.Repository.{Bound, check_replacement-Bound}

-- The stored result may not change.
abbrev differs : Option ResultRecord → Option ResultRecord → Bool
differs result existing = not (is_none existing) && not (result == existing)

check_replacement-check_current :
    (h : Hashing) (new : RunRecord) (e : ℕ) (result : Option ResultRecord) (current : RunRecord)
    (existing : Option ResultRecord)
    → check_replacement h new e result current existing ≡ (
        check_current h new e result current
        >> raise_if (differs result existing) concurrent_update)
unfolding check_replacement check_current
check_replacement-check_current h new e result current existing = ground arith

Bound-terminal :
    (h : Hashing) (new : RunRecord) (result : Option ResultRecord)
    → Bound h new result
    → is_none result ≡ is_none (terminal_reference new.state)
Bound-terminal h new none b = rw b refl
Bound-terminal h new (some r) b = rw b.1 refl

module _ (c : Codec) (h : Hashing) where
  abbrev rows_after :
      RunRecord → Option ResultRecord → Option ResultRecord → List ResultRow → List ResultRow
  rows_after new none existing rows = rows
  rows_after new (some r) none rows =
      rows ++ (record { run_id = new.run_id; result_json = c.encode_result r }) ∷ []
  rows_after new (some r) (some x) rows = rows

  encode-eq :
      (r x : ResultRecord)
      → c.decode_result (c.encode_result r) ≡ some r
      → c.decode_result (c.encode_result x) ≡ some x
      → c.encode_result x ≡ c.encode_result r
      → r ≡ x
  encode-eq r x p q e =
      let same : some r ≡ some x = sym p ∙ ap c.decode_result (sym e) ∙ q in ground (arith, same)

  keep_result-differs :
      (new : RunRecord) (result existing : Option ResultRecord) (rows : List ResultRow)
      → SoundResult c h result
      → SoundResult c h existing
      → differs result existing ≡ true
      → keep_result c new result (Option.map (result_row c) existing) rows ≡ err concurrent_update
  unfolding keep_result
  keep_result-differs new result none rows p q d = absurd (ground arith)
  keep_result-differs new none (some x) rows p q d = refl
  keep_result-differs new (some r) (some x) rows p q d =
      elim (Bool-cases (c.encode_result x == c.encode_result r)) [
        | inl same ↦
            let equal =
              encode-eq r x p q ((eq_iff (c.encode_result x) (c.encode_result r)).0 same) in
            absurd (ground (arith, d, (result_eq.equal_iff r x).1 equal))
        | inr other ↦ rw other refl
      ]

  keep_result-same :
      (new : RunRecord) (result existing : Option ResultRecord) (rows : List ResultRow)
      → is_none result ≡ is_none (terminal_reference new.state)
      → differs result existing ≡ false
      → keep_result c new result (Option.map (result_row c) existing) rows
        ≡ ok (rows_after new result existing rows)
  unfolding keep_result
  keep_result-same new none none rows t d = refl
  keep_result-same new none (some x) rows t d = absurd (ground (arith, d))
  keep_result-same new (some r) none rows t d = refl
  keep_result-same new (some r) (some x) rows t d =
      let equal = (result_eq.equal_iff r x).0 (ground (arith, d)) in
      let texts = ap c.encode_result (sym equal) in
      rw ((eq_iff (c.encode_result x) (c.encode_result r)).1 texts) refl

  -- The rows of the results after a replacement.
  find?-rows_after :
      (new : RunRecord) (result : Option ResultRecord) (m : Memory) (d : Database) (id : String)
      → Same c h m d
      → Bound h new result
      → differs result (find? (result_key new.run_id) m.results) ≡ false
      → find?
          (result_row_key id)
          (rows_after new result (find? (result_key new.run_id) m.results) d.results)
        ≡ Option.map (result_row c) (find? (result_key id) (store_result h result m.results))
  find?-rows_after new none m d id same bound equal = same.results id
  find?-rows_after new (some r) m d id same bound equal =
      let row : ResultRow = record { run_id = new.run_id; result_json = c.encode_result r } in
      let own : (r.run_id == id) ≡ (new.run_id == id) = ap (λ k. k == id) bound.0 in
      let written : row ≡ result_row c r = ground (arith, bound.0) in
      let after = find?-store_result h id r m.results in
      elim (Option-cases (find? (result_key new.run_id) m.results)) [
        | inl missing ↦
            rw
              (
                missing,
                after,
                own,
                find?-append (result_row_key id) d.results (row ∷ []),
                find?-one (result_row_key id) row,
                same.results id,
              )
              (inserted row written missing)
        | inr (x, found) ↦
            let kept = (result_eq.equal_iff r x).0 (ground (arith, found, equal)) in
            rw (found, after, own, same.results id) (unchanged x found kept)
      ]
    where
      inserted :
          (row : ResultRow)
          → row ≡ result_row c r
          → find? (result_key new.run_id) m.results ≡ none
          → or_else
              (Option.map (result_row c) (find? (result_key id) m.results))
              (if new.run_id == id then some row else none)
            ≡ Option.map
                (result_row c)
                (if new.run_id == id then some r else find? (result_key id) m.results)
      inserted row written missing = elim (Bool-cases (new.run_id == id)) [
        | inl here ↦
            let absent =
              subst (λ k. find? (result_key k) m.results ≡ none) ((eq_iff new.run_id id).0 here)
                missing in
            rw (here, absent, written) refl
        | inr there ↦ ground (arith, there)
      ]

      unchanged :
          (x : ResultRecord)
          → find? (result_key new.run_id) m.results ≡ some x
          → r ≡ x
          → Option.map (result_row c) (find? (result_key id) m.results)
            ≡ Option.map
                (result_row c)
                (if new.run_id == id then some r else find? (result_key id) m.results)
      unchanged x found kept = elim (Bool-cases (new.run_id == id)) [
        | inl here ↦
            let there =
              subst (λ k. find? (result_key k) m.results ≡ some x) ((eq_iff new.run_id id).0 here)
                found in
            rw (here, there, kept) refl
        | inr there ↦ rw there refl
      ]

  SoundResult-store_result :
      (result : Option ResultRecord) (m : Memory) (d : Database) (id : String)
      → Same c h m d
      → SoundResult c h result
      → SoundResult c h (find? (result_key id) (store_result h result m.results))
  SoundResult-store_result none m d id same s = same.sound_results id
  SoundResult-store_result (some r) m d id same s =
      rw (find?-store_result h id r m.results) (elim (Bool-cases (r.run_id == id)) [
        | inl here ↦ rw here s
        | inr there ↦ rw there (same.sound_results id)
      ])

  module _ (new current : RunRecord) (result : Option ResultRecord) (m : Memory) (d : Database)
      (same : Same c h m d) (s : Sound c h new)
      (found : find? (run_key new.run_id) m.runs ≡ some current) where
    kept_run :
        (id : String) (r : RunRecord)
        → find? (run_key id) m.runs ≡ some r
        → (x : RunRecord) × (find? (run_key id) (update (run_key new.run_id) (λ _. new) m.runs)
            ≡ some x)
    kept_run id r there =
        let after = find?-store_run id new current m.runs found in
        elim (Bool-cases (new.run_id == id)) [
          | inl here ↦ (new, rw (after, here) refl)
          | inr other ↦ (r, rw (after, other) there)
        ]

    pub Same-store :
        (e : ℕ)
        → Checked h new e result current
        → Bound h new result
        → differs result (find? (result_key new.run_id) m.results) ≡ false
        → SoundResult c h result
        → Same c h
            (record m {
              runs = update (run_key new.run_id) (λ _. new) m.runs;
              results = store_result h result m.results;
            })
            (record {
              runs = update (revision_key new.run_id e) (assign c new) d.runs;
              results = rows_after new result (find? (result_key new.run_id) m.results) d.results;
            })
    Same-store e checked bound kept sr = record {
      runs =
          rw (same.runs, sym checked.expected_revision)
            (update-run_row c new current checked.request checked.request_sha256 m.runs same.unique
              found).0;
      results = λ id. find?-rows_after new result m d id same bound kept;
      unique = Unique-update m.runs new same.unique;
      sound = All-update (Sound c h) (run_key new.run_id) (λ _. new) m.runs same.sound (λ _. s);
      sound_results = λ id. SoundResult-store_result result m d id same sr;
      index = λ t id known.
          let (names, r, there) = same.index t id known in
          let (x, after) = kept_run id r there in (names, x, after);
    }

    row_found : find? (run_row_key new.run_id) d.runs ≡ some (run_row c current)
    row_found = rw (same.runs, find?-run_row c new.run_id m.runs, found) refl

    row_decoded : decode_row c (run_row c current) ≡ ok current
    row_decoded =
        decode_row-run_row c h current
          (All-find? (Sound c h) (run_key new.run_id) m.runs same.sound found).decoded

    one_row :
        (e : ℕ)
        → Checked h new e result current
        → length (select (revision_key new.run_id e) d.runs) ≡ 1
    one_row e checked =
        rw (same.runs, sym checked.expected_revision)
          (update-run_row c new current checked.request checked.request_sha256 m.runs same.unique
            found).1

    -- The revision that is replaced is below that of the replacement.
    bounded_before : (e : ℕ) → Checked h new e result current → fits_integer e ≡ true
    bounded_before e checked = ground (arith, s.bounded, checked.next_revision)

    refused-Agree :
        (e : ℕ) (error : GatewayError)
        → check_current h new e result current ≡ err error
        → Agree c h
            (memory_call h (replace new e result) m)
            (database_call h c (replace new e result) d)
    unfolding memory_call database_call Memory.replace_run Database.replace_run
    refused-Agree e error refused =
        rw
          (
            found,
            check_replacement-check_current h new e result current
                (find? (result_key new.run_id) m.results),
            row_found,
            row_decoded,
            refused,
          )
          (record { reply = refl; same = same })

    passed-Agree :
        (e : ℕ)
        → check_current h new e result current ≡ ok tt
        → SoundResult c h result
        → Agree c h
            (memory_call h (replace new e result) m)
            (database_call h c (replace new e result) d)
    unfolding memory_call database_call Memory.replace_run Database.replace_run
    passed-Agree e passed sr =
        let existing = find? (result_key new.run_id) m.results in
        let whole : check_replacement h new e result current none ≡ ok tt =
          check_replacement-check_current h new e result current none ∙ (rw passed refl) in
        let checked = check_replacement-Checked h new e result current none whole in
        let bound = check_replacement-Bound h new e result current none whole in
        elim (Bool-cases (differs result existing)) [
          | inl changed ↦
              rw
                (
                  found,
                  check_replacement-check_current h new e result current existing,
                  row_found,
                  row_decoded,
                  passed,
                  s.bounded,
                  bounded_before e checked,
                  one_row e checked,
                  changed,
                  same.results new.run_id,
                  keep_result-differs new result existing d.results sr
                      (same.sound_results new.run_id) changed,
                )
                (record { reply = refl; same = same })
          | inr kept ↦
              rw
                (
                  found,
                  check_replacement-check_current h new e result current existing,
                  row_found,
                  row_decoded,
                  passed,
                  s.bounded,
                  bounded_before e checked,
                  one_row e checked,
                  kept,
                  same.results new.run_id,
                  keep_result-same new result existing d.results (Bound-terminal h new result bound)
                      kept,
                )
                (record { reply = refl; same = Same-store e checked bound kept sr })
        ]

  missing-Agree :
      (new : RunRecord) (e : ℕ) (result : Option ResultRecord) (m : Memory) (d : Database)
      → Same c h m d
      → find? (run_key new.run_id) m.runs ≡ none
      → Agree c h
          (memory_call h (replace new e result) m)
          (database_call h c (replace new e result) d)
  unfolding memory_call database_call Memory.replace_run Database.replace_run
  missing-Agree new e result m d same missing =
      let absent : find? (run_row_key new.run_id) d.runs ≡ none =
        rw (same.runs, find?-run_row c new.run_id m.runs, missing) refl in
      rw (missing, absent) (record { reply = refl; same = same })

  pub replace-Agree :
      (new : RunRecord) (e : ℕ) (result : Option ResultRecord) (m : Memory) (d : Database)
      → Same c h m d
      → Sound c h new
      → SoundResult c h result
      → Agree c h
          (memory_call h (replace new e result) m)
          (database_call h c (replace new e result) d)
  replace-Agree new e result m d same s sr =
      elim (Option-cases (find? (run_key new.run_id) m.runs)) [
        | inl missing ↦ missing-Agree new e result m d same missing
        | inr (current, found) ↦ elim (Check-cases (check_current h new e result current)) [
          | inr (error, refused) ↦ refused-Agree new current result m d same s found e error refused
          | inl passed ↦ passed-Agree new current result m d same s found e passed sr
        ]
      ]
