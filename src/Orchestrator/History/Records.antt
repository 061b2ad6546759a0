-- ===== src/Orchestrator/History/Records.antt =====
-- The tables that are only inserted into (src/material_agent/orchestrator/storage.py): events,
-- interaction responses and requirement revisions.
use mathlib.Core.List.{append-nil, append_assoc, Memᴰ}
use materials_screening_agen.Orchestrator.History.Inserting.{recorded, recorded-serve}
use materials_screening_agen.Prelude.{
  fits_integer, ◌&&◌, true, all, sym, ap, ◌∙◌, ◌++◌, ◌⊎◌, inl, inr, Option-cases, Bool-cases, All,
  All-append, ◌≡◌, refl, List, [], ◌∷◌, arith, attempt, find?, string_eq, nat_eq, option_eq,
}
use materials_screening_agen.Orchestrator.Status.{external_job_enum}
use materials_screening_agen.Orchestrator.Store.{
  Request, requirement, event, response, handle, serve,
}
use materials_screening_agen.Orchestrator.Store.Rows.{Store, run_exists}
use materials_screening_agen.Orchestrator.Store.Runs.{record_requirement, requirement_key}
use materials_screening_agen.Orchestrator.Store.Approvals.{
  event_key, response_key, append_event, record_interaction_response,
}
use materials_screening_agen.Orchestrator.History.Keeping.{
  events-handle, responses-handle, requirements-handle,
}

-- Rows of calls that are made are put after the rows of a table.
abbrev pub Added : {A : Type 0} → (A → Request) → List Request → List A → List A → Type 0
Added {A = A} call rs old new =
    (rows : List A) × (new ≡ old ++ rows) × All (λ x. Memᴰ (call x) rs) rows

module _ {A : Type 0} (call : A → Request) where
  Added-none : (rs : List Request) (old : List A) → Added call rs old old
  Added-none rs old = ([], sym (append-nil old), tt)

  Memᴰ-later :
      (r : Request) (rs : List Request) (rows : List A)
      → All (λ x. Memᴰ (call x) rs) rows
      → All (λ x. Memᴰ (call x) (r ∷ rs)) rows
  Memᴰ-later r rs [] m = tt
  Memᴰ-later r rs (x ∷ rows) m = (Memᴰ.tail m.0, Memᴰ-later r rs rows m.1)

  Added-then :
      (r : Request) (rs : List Request) (a b c : List A)
      → Added call (r ∷ rs) a b
      → Added call rs b c
      → Added call (r ∷ rs) a c
  Added-then r rs a b c (first, same, m) (later, after, n) = (
    first ++ later,
    after ∙ ap (λ xs. xs ++ later) same ∙ append_assoc a first later,
    All-append (λ x. Memᴰ (call x) (r ∷ rs)) first later m (Memᴰ-later r rs later n),
  )

  -- One call puts its row there, or nothing.
  Added-row :
      (row : A) (rs : List Request) (old new : List A)
      → (new ≡ old) ⊎ (new ≡ old ++ row ∷ [])
      → Added call (call row ∷ rs) old new
  Added-row row rs old new (inl same) = rw same (Added-none (call row ∷ rs) old)
  Added-row row rs old new (inr put) = (row ∷ [], put, (Memᴰ.head refl, tt))

event-Added :
    (r : Request) (rs : List Request) (st : Store)
    → Added event (r ∷ rs) st.events (attempt st (handle r st)).events
event-Added (event e) rs st =
    Added-row event e rs st.events (attempt st (handle (event e) st)).events put
  where
    put :
        ((attempt st (handle (event e) st)).events ≡ st.events)
        ⊎ ((attempt st (handle (event e) st)).events ≡ st.events ++ e ∷ [])
    put =
        unfold handle in
        unfold append_event in
        elim (Option-cases (find? (event_key e.event_key) st.events)) [
          | inr (x, found) ↦ inl (ground (arith, found))
          | inl missing ↦ elim (Bool-cases (run_exists e.run_id st)) [
            | inl known ↦ inr (ground (arith, missing, known))
            | inr unknown ↦ inl (ground (arith, missing, unknown))
          ]
        ]
event-Added r rs st = rw (events-handle r st refl) (Added-none event (r ∷ rs) st.events)

response-Added :
    (r : Request) (rs : List Request) (st : Store)
    → Added response (r ∷ rs) st.responses (attempt st (handle r st)).responses
response-Added (response e) rs st =
    Added-row response e rs st.responses (attempt st (handle (response e) st)).responses put
  where
    put :
        ((attempt st (handle (response e) st)).responses ≡ st.responses)
        ⊎ ((attempt st (handle (response e) st)).responses ≡ st.responses ++ e ∷ [])
    put =
        unfold handle in
        unfold record_interaction_response in
        elim (Option-cases (find? (response_key e.interaction_id) st.responses)) [
          | inr (x, found) ↦ inl (ground (arith, found))
          | inl missing ↦ elim (Bool-cases (run_exists e.run_id st)) [
            | inl known ↦ inr (ground (arith, missing, known))
            | inr unknown ↦ inl (ground (arith, missing, unknown))
          ]
        ]
response-Added r rs st = rw (responses-handle r st refl) (Added-none response (r ∷ rs) st.responses)

requirement-Added :
    (r : Request) (rs : List Request) (st : Store)
    → Added requirement (r ∷ rs) st.requirements (attempt st (handle r st)).requirements
requirement-Added (requirement e) rs st =
    Added-row requirement e rs st.requirements (attempt st (handle (requirement e) st)).requirements
      put
  where
    put :
        ((attempt st (handle (requirement e) st)).requirements ≡ st.requirements)
        ⊎ ((attempt st (handle (requirement e) st)).requirements ≡ st.requirements ++ e ∷ [])
    put =
        unfold handle in
        unfold record_requirement in
        elim (Option-cases (find? (requirement_key e.run_id e.revision) st.requirements)) [
          | inr (x, found) ↦ inl (ground (arith, found))
          | inl missing ↦ elim (Bool-cases (run_exists e.run_id st && fits_integer e.revision)) [
            | inl known ↦ inr (ground (arith, missing, known))
            | inr unknown ↦ inl (ground (arith, missing, unknown))
          ]
        ]
requirement-Added r rs st =
    rw (requirements-handle r st refl) (Added-none requirement (r ∷ rs) st.requirements)

Added-serve :
    (rs : List Request) (st : Store)
    → let end = serve st rs in
      Added event rs st.events end.events
      × Added response rs st.responses end.responses
      × Added requirement rs st.requirements end.requirements
unfolding serve
Added-serve [] st = (
  Added-none event [] st.events,
  Added-none response [] st.responses,
  Added-none requirement [] st.requirements,
)
Added-serve (r ∷ rs) st =
    let mid = attempt st (handle r st) in
    let end = serve mid rs in
    let (events, responses, requirements) = Added-serve rs mid in
    (
      Added-then event r rs st.events mid.events end.events (event-Added r rs st) events,
      Added-then response r rs st.responses mid.responses end.responses (response-Added r rs st)
          responses,
      Added-then requirement r rs st.requirements mid.requirements end.requirements
          (requirement-Added r rs st) requirements,
    )

-- The tables of events, responses and requirement revisions are append-only: after any calls, each is the
-- table before them with further rows at its end, and every further row is that of a call that was
-- made to append it. And of the calls that append a row for a run that was there before, with a revision
-- below 2 ^ 63, each has left a row with its key.
pub records-serve :
    (rs : List Request) (st : Store)
    → let end = serve st rs in
      Added event rs st.events end.events
      × Added response rs st.responses end.responses
      × Added requirement rs st.requirements end.requirements
      × (all rs (recorded st end) ≡ true)
records-serve rs st =
    let (events, responses, requirements) = Added-serve rs st in
    (events, responses, requirements, recorded-serve rs st)
