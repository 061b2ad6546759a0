-- ===== src/Orchestrator/History/Replays.antt =====
-- Events and interaction responses that are recorded again
-- (src/material_agent/orchestrator/storage.py).
use materials_screening_agen.Prelude.{
  ◌≡◌, refl, some, List, [], ◌∷◌, string_eq, nat_eq, inl, inr, Option-cases, Bool-cases, ok, find?,
  find?-append, find?-one, arith, eq_iff, str_refl,
}
use materials_screening_agen.Orchestrator.Store.Rows.{Store, EventRow, ResponseRow, run_exists}
use materials_screening_agen.Orchestrator.Store.Approvals.{
  append_event, event_key, record_interaction_response, response_key,
}
use materials_screening_agen.Orchestrator.Store.{Request, serve}
use materials_screening_agen.Orchestrator.History.Keeping.{stored-serve}

-- The rows that recording `r` accepts as the same.
record SameEvent (r x : EventRow) : Type 0 where
  run_id : x.run_id ≡ r.run_id
  event_type : x.event_type ≡ r.event_type
  payload_json : x.payload_json ≡ r.payload_json

append_event-found :
    (r : EventRow) (st st' : Store)
    → append_event r st ≡ ok st'
    → (x : EventRow) × (find? (event_key r.event_key) st'.events ≡ some x) × SameEvent r x
unfolding append_event
append_event-found r st st' e = elim (Option-cases (find? (event_key r.event_key) st.events)) [
  | inl missing ↦ elim (Bool-cases (run_exists r.run_id st)) [
    | inl there ↦ (
      r,
      ground (
        arith,
        missing,
        there,
        e,
        str_refl r.event_key,
        find?-append (event_key r.event_key) st.events (r ∷ []),
        find?-one (event_key r.event_key) r,
      ),
      record { run_id = refl; event_type = refl; payload_json = refl },
    )
    | inr gone ↦ absurd (ground (arith, missing, gone, e))
  ]
  | inr (x, found) ↦ (
    x,
    ground (arith, found, e),
    record {
      run_id = ground (arith, found, e, eq_iff x.run_id r.run_id);
      event_type = ground (arith, found, e, eq_iff x.event_type r.event_type);
      payload_json = ground (arith, found, e, eq_iff x.payload_json r.payload_json);
    },
  )
]

append_event-again :
    (r x : EventRow) (st : Store)
    → find? (event_key r.event_key) st.events ≡ some x
    → SameEvent r x
    → append_event r st ≡ ok st
unfolding append_event
append_event-again r x st found same = ground (
  arith,
  found,
  (eq_iff x.run_id r.run_id).1 same.run_id,
  (eq_iff x.event_type r.event_type).1 same.event_type,
  (eq_iff x.payload_json r.payload_json).1 same.payload_json,
)

record SameResponse (r x : ResponseRow) : Type 0 where
  run_id : x.run_id ≡ r.run_id
  response_json : x.response_json ≡ r.response_json

record_interaction_response-found :
    (r : ResponseRow) (st st' : Store)
    → record_interaction_response r st ≡ ok st'
    → (x : ResponseRow) × (find? (response_key r.interaction_id) st'.responses ≡ some x)
      × SameResponse r x
unfolding record_interaction_response
record_interaction_response-found r st st' e =
    elim (Option-cases (find? (response_key r.interaction_id) st.responses)) [
      | inl missing ↦ elim (Bool-cases (run_exists r.run_id st)) [
        | inl there ↦ (
          r,
          ground (
            arith,
            missing,
            there,
            e,
            str_refl r.interaction_id,
            find?-append (response_key r.interaction_id) st.responses (r ∷ []),
            find?-one (response_key r.interaction_id) r,
          ),
          record { run_id = refl; response_json = refl },
        )
        | inr gone ↦ absurd (ground (arith, missing, gone, e))
      ]
      | inr (x, found) ↦ (
        x,
        ground (arith, found, e),
        record {
          run_id = ground (arith, found, e, eq_iff x.run_id r.run_id);
          response_json = ground (arith, found, e, eq_iff x.response_json r.response_json);
        },
      )
    ]

record_interaction_response-again :
    (r x : ResponseRow) (st : Store)
    → find? (response_key r.interaction_id) st.responses ≡ some x
    → SameResponse r x
    → record_interaction_response r st ≡ ok st
unfolding record_interaction_response
record_interaction_response-again r x st found same = ground (
  arith,
  found,
  (eq_iff x.run_id r.run_id).1 same.run_id,
  (eq_iff x.response_json r.response_json).1 same.response_json,
)

-- Recording an event is idempotent: where it was accepted once, it is accepted again after any calls,
-- and changes nothing then.
pub append_event-serve :
    (r : EventRow) (rs : List Request) (st st' : Store)
    → append_event r st ≡ ok st'
    → append_event r (serve st' rs) ≡ ok (serve st' rs)
append_event-serve r rs st st' e =
    let (x, found, same) = append_event-found r st st' e in
    append_event-again r x (serve st' rs) ((stored-serve rs st').0 (event_key r.event_key) x found)
      same

-- Recording an interaction response is idempotent: where it was accepted once, it is accepted again
-- after any calls, and changes nothing then.
pub record_interaction_response-serve :
    (r : ResponseRow) (rs : List Request) (st st' : Store)
    → record_interaction_response r st ≡ ok st'
    → record_interaction_response r (serve st' rs) ≡ ok (serve st' rs)
record_interaction_response-serve r rs st st' e =
    let (x, found, same) = record_interaction_response-found r st st' e in
    record_interaction_response-again r x (serve st' rs)
      ((stored-serve rs st').1 (response_key r.interaction_id) x found) same
