-- ===== src/Orchestrator/History/Inserting.antt =====
-- What the calls that append a row (src/material_agent/orchestrator/storage.py) leave: a row with its key.
use materials_screening_agen.Prelude.{
  fits_integer, ◌&&◌, ◌≡◌, refl, Bool, true, false, not, ◌||◌, Option, none, some, List, [], ◌∷◌,
  inl, inr, arith, attempt, all, find?, find?-append, find?-one, Option-cases, Bool-cases, String,
  str_refl, string_eq, nat_eq,
}
use materials_screening_agen.Orchestrator.Store.{
  Request, requirement, event, response, handle, serve,
}
use materials_screening_agen.Orchestrator.Store.Rows.{
  Store, EventRow, ResponseRow, RequirementRow, run_key, run_exists,
}
use materials_screening_agen.Orchestrator.Store.Runs.{record_requirement, requirement_key, get_run}
use materials_screening_agen.Orchestrator.Store.Approvals.{
  event_key, response_key, append_event, record_interaction_response,
}
use materials_screening_agen.Orchestrator.History.Runs.{step-Follows}
use materials_screening_agen.Orchestrator.History.Keeping.{stored-serve}

abbrev pub is_there : {A : Type 0} → Option A → Bool
is_there none = false
is_there (some _) = true

-- Where a call appends a row for a run that `st` has, with a revision that its column holds, `end` has a
-- row with its key.
abbrev pub recorded : Store → Store → Request → Bool
recorded st end (event e) =
    not (run_exists e.run_id st) || is_there (find? (event_key e.event_key) end.events)
recorded st end (response e) =
    not (run_exists e.run_id st) || is_there (find? (response_key e.interaction_id) end.responses)
recorded st end (requirement e) =
    not (run_exists e.run_id st && fits_integer e.revision)
    || is_there (find? (requirement_key e.run_id e.revision) end.requirements)
recorded st end _ = true

run_exists-handle :
    (r : Request) (id : String) (st : Store)
    → run_exists id st ≡ true
    → run_exists id (attempt st (handle r st)) ≡ true
unfolding get_run
run_exists-handle r id st known = elim (Option-cases (find? (run_key id) st.runs)) [
  | inl missing ↦ absurd (ground (arith, missing, known))
  | inr (row, found) ↦
      let (new, after, _) = step-Follows r id st row found in
      let there : find? (run_key id) (attempt st (handle r st)).runs ≡ some new = after in
      rw (run_exists, there) refl
]

or_known : (a b x : Bool) → (a ≡ true → b ≡ true) → (not b || x) ≡ true → (not a || x) ≡ true
or_known false b x k h = refl
or_known true b x k h = rw (k refl) at h

recorded-later :
    (r q : Request) (st end : Store)
    → recorded (attempt st (handle r st)) end q ≡ true
    → recorded st end q ≡ true
recorded-later r (event e) st end h =
    or_known (run_exists e.run_id st) (run_exists e.run_id (attempt st (handle r st)))
      (is_there (find? (event_key e.event_key) end.events)) (run_exists-handle r e.run_id st) h
recorded-later r (response e) st end h =
    or_known (run_exists e.run_id st) (run_exists e.run_id (attempt st (handle r st)))
      (is_there (find? (response_key e.interaction_id) end.responses))
      (run_exists-handle r e.run_id st) h
recorded-later r (requirement e) st end h =
    let mid = attempt st (handle r st) in
    or_known (run_exists e.run_id st && fits_integer e.revision)
      (run_exists e.run_id mid && fits_integer e.revision)
      (is_there (find? (requirement_key e.run_id e.revision) end.requirements))
      (λ both. ground (arith, both, run_exists-handle r e.run_id st (ground (arith, both)))) h
recorded-later r _ st end h = refl

event-found :
    (e : EventRow) (st : Store)
    → run_exists e.run_id st ≡ true
    → (x : EventRow) × (find? (event_key e.event_key) (attempt st (append_event e st)).events
        ≡ some x)
unfolding append_event
event-found e st known = elim (Option-cases (find? (event_key e.event_key) st.events)) [
  | inr (x, found) ↦ (x, ground (arith, found))
  | inl missing ↦ (
    e,
    ground (
      arith,
      missing,
      known,
      str_refl e.event_key,
      find?-append (event_key e.event_key) st.events (e ∷ []),
      find?-one (event_key e.event_key) e,
    ),
  )
]

response-found :
    (e : ResponseRow) (st : Store)
    → run_exists e.run_id st ≡ true
    → (x : ResponseRow) × (find?
          (response_key e.interaction_id)
          (attempt st (record_interaction_response e st)).responses
        ≡ some x)
unfolding record_interaction_response
response-found e st known =
    elim (Option-cases (find? (response_key e.interaction_id) st.responses)) [
      | inr (x, found) ↦ (x, ground (arith, found))
      | inl missing ↦ (
        e,
        ground (
          arith,
          missing,
          known,
          str_refl e.interaction_id,
          find?-append (response_key e.interaction_id) st.responses (e ∷ []),
          find?-one (response_key e.interaction_id) e,
        ),
      )
    ]

requirement-found :
    (e : RequirementRow) (st : Store)
    → (run_exists e.run_id st && fits_integer e.revision) ≡ true
    → (x : RequirementRow) × (find?
          (requirement_key e.run_id e.revision)
          (attempt st (record_requirement e st)).requirements
        ≡ some x)
unfolding record_requirement
requirement-found e st known =
    elim (Option-cases (find? (requirement_key e.run_id e.revision) st.requirements)) [
      | inr (x, found) ↦ (x, ground (arith, found))
      | inl missing ↦ (
        e,
        ground (
          arith,
          missing,
          known,
          str_refl e.run_id,
          find?-append (requirement_key e.run_id e.revision) st.requirements (e ∷ []),
          find?-one (requirement_key e.run_id e.revision) e,
        ),
      )
    ]

recorded-here :
    (r : Request) (rs : List Request) (st : Store)
    → recorded st (serve (attempt st (handle r st)) rs) r ≡ true
unfolding handle
recorded-here (event e) rs st = elim (Bool-cases (run_exists e.run_id st)) [
  | inr unknown ↦ rw unknown refl
  | inl known ↦
      let (x, now) = event-found e st known in
      let later =
        (stored-serve rs (attempt st (append_event e st))).0 (event_key e.event_key) x now in
      rw (known, later) refl
]
recorded-here (response e) rs st = elim (Bool-cases (run_exists e.run_id st)) [
  | inr unknown ↦ rw unknown refl
  | inl known ↦
      let (x, now) = response-found e st known in
      let later =
        (stored-serve rs (attempt st (record_interaction_response e st))).1
          (response_key e.interaction_id) x now in
      rw (known, later) refl
]
recorded-here (requirement e) rs st =
    elim (Bool-cases (run_exists e.run_id st && fits_integer e.revision)) [
      | inr unknown ↦ rw unknown refl
      | inl known ↦
          let (x, now) = requirement-found e st known in
          let later =
            (stored-serve rs (attempt st (record_requirement e st))).2
              (requirement_key e.run_id e.revision) x now in
          rw (known, later) refl
    ]
recorded-here _ rs st = refl

all-later :
    (r : Request) (st end : Store) (qs : List Request)
    → all qs (recorded (attempt st (handle r st)) end) ≡ true
    → all qs (recorded st end) ≡ true
all-later r st end [] h = refl
all-later r st end (q ∷ qs) h = ground (arith, h, recorded-later r q st end, all-later r st end qs)

pub recorded-serve : (rs : List Request) (st : Store) → all rs (recorded st (serve st rs)) ≡ true
unfolding serve
recorded-serve [] st = refl
recorded-serve (r ∷ rs) st =
    let mid = attempt st (handle r st) in
    let here = recorded-here r rs st in
    let later = all-later r st (serve mid rs) rs (recorded-serve rs mid) in
    ground (arith, here, later)
