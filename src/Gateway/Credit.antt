-- ===== src/Gateway/Credit.antt =====
-- How often a pending action can be authorized
-- (SqliteOneTimeActionGrantStore of src/material_agent/gateway/authorization.py).
pub mod Unissued
use materials_screening_agen.Prelude.{
  all, count_where-one, count_where-pos, sym, subst, ℕ, String, ◌+◌, ◌≤◌, ◌≡◌, refl, Bool, true,
  false, some, List, [], ◌∷◌, ◌++◌, Result, ok, err, inl, inr, arith, attempt, find?, change,
  update, bit, count_where, count_where-append, update-one, count_where-update, find?-none,
  length-select, find?-sound, Option-cases, Bool-cases, eq_iff, str_refl, string_eq, nat_eq, ◌==◌,
  ◌&&◌, not, if◌then◌else◌,
}
use materials_screening_agen.Gateway.Model.{Hashing}
use materials_screening_agen.Gateway.Grants.{
  Grant, GrantStore, Call, Binding, Receipt, unspent, binding, matches, new_grant, issue_grant,
  recover_consumed_grant, authorize_and_consume, stranded, rearm, armed, consume,
}

unfoldable pub same_binding : Binding → Binding → Bool
same_binding b c =
    c.run_id == b.run_id
    && c.interaction_id == b.interaction_id
    && c.interaction_sha256 == b.interaction_sha256
    && c.request_sha256 == b.request_sha256
    && c.action_sha256 == b.action_sha256
    && c.action_json == b.action_json

-- The authorizations that the store can still give for `b`: its unconsumed grants, and one while
-- there is no grant record for `b`.
abbrev pub fresh : ℕ → ℕ
fresh n = if n == 0 then 1 else 0

abbrev pub credit : Binding → GrantStore → ℕ
credit b s = count_where (unspent b) s.grants + fresh (count_where (matches b) s.grants)

-- A row that matches one binding matches another exactly when the two are the same.
matches-same_binding :
    (b c : Binding) (g : Grant) → matches c g ≡ true → matches b g ≡ same_binding b c
unfolding matches same_binding
matches-same_binding b c g h = ground (
  arith,
  eq_iff g.run_id c.run_id,
  eq_iff g.interaction_id c.interaction_id,
  eq_iff g.interaction_sha256 c.interaction_sha256,
  eq_iff g.request_sha256 c.request_sha256,
  eq_iff g.action_sha256 c.action_sha256,
  eq_iff g.action_json c.action_json,
)

same_binding-eq : (b c : Binding) → same_binding b c ≡ true → b ≡ c
unfolding same_binding
same_binding-eq b c h = ground (
  arith,
  eq_iff c.run_id b.run_id,
  eq_iff c.interaction_id b.interaction_id,
  eq_iff c.interaction_sha256 b.interaction_sha256,
  eq_iff c.request_sha256 b.request_sha256,
  eq_iff c.action_sha256 b.action_sha256,
  eq_iff c.action_json b.action_json,
)

-- A call of the store.
pub data GrantOp : Type 0 where
  issue : Call → String → GrantOp
  recover : Call → String → GrantOp
  authorize : Call → GrantOp

abbrev stored : {E : Type 0} → Result E (Receipt × GrantStore) → Result E GrantStore
stored (ok (_, s)) = ok s
stored (err e) = err e

abbrev succeeds : {E A : Type 0} → Result E A → Bool
succeeds (ok _) = true
succeeds (err _) = false

module _ (h : Hashing) where
  -- A call that raises leaves the store as it was: the transaction is rolled back.
  unfoldable pub step : GrantOp → GrantStore → GrantStore
  step (issue c r) s = attempt s (stored (issue_grant h c r s))
  step (recover c r) s = attempt s (stored (recover_consumed_grant h c r s))
  step (authorize c) s = attempt s (authorize_and_consume h c s)

  -- The calls that authorized, and those that re-armed, the binding `b`.
  unfoldable pub spent : Binding → GrantOp → GrantStore → ℕ
  spent b (authorize c) s =
      bit (succeeds (authorize_and_consume h c s) && same_binding b (binding h c))
  spent b _ s = 0

  unfoldable pub recovered : Binding → GrantOp → GrantStore → ℕ
  recovered b (recover c r) s =
      bit (succeeds (recover_consumed_grant h c r s) && same_binding b (binding h c))
  recovered b _ s = 0

  matches-new_grant : (b c : Binding) (r : String) → matches b (new_grant h c r) ≡ same_binding b c
  unfolding matches same_binding
  matches-new_grant b c r = refl

  -- A new row for `c` where there is none.
  insert-credit :
      (b c : Binding) (r : String) (gs : List Grant)
      → count_where (matches c) gs ≡ 0
      → count_where (unspent b) (gs ++ new_grant h c r ∷ [])
          + fresh (count_where (matches b) (gs ++ new_grant h c r ∷ []))
        ≡ count_where (unspent b) gs + fresh (count_where (matches b) gs)
  unfolding count_where
  insert-credit b c r gs none_there =
      let rows = count_where-append (matches b) gs (new_grant h c r ∷ []) in
      let unspent_rows = count_where-append (unspent b) gs (new_grant h c r ∷ []) in
      elim (Bool-cases (same_binding b c)) [
        | inl same ↦
            let here : count_where (matches b) gs ≡ 0 =
              subst (λ x. count_where (matches x) gs ≡ 0) (sym (same_binding-eq b c same))
                none_there in
            ground (arith, rows, unspent_rows, matches-new_grant b c r)
        | inr other ↦ ground (arith, rows, unspent_rows, matches-new_grant b c r)
      ]

  issue-credit :
      (b : Binding) (c : Call) (r : String) (s : GrantStore)
      → credit b (step (issue c r) s) ≡ credit b s
  unfolding step issue_grant
  issue-credit b c r s = elim (Option-cases (find? (matches (binding h c)) s.grants)) [
    | inl missing ↦ ground (
      arith,
      missing,
      insert-credit b (binding h c) r s.grants
          (find?-none (matches (binding h c)) s.grants missing),
    )
    | inr (existing, found) ↦ ground (arith, found)
  ]

  matches-rearm :
      (b : Binding) (id r : String) (g : Grant)
      → matches b (change (stranded h id) (rearm h r) g) ≡ matches b g
  unfolding matches
  matches-rearm b id r g = ground arith

  matches-consume :
      (b : Binding) (id : String) (g : Grant)
      → matches b (change (armed h id) (consume h) g) ≡ matches b g
  unfolding matches
  matches-consume b id g = ground arith

  matches-rearm_lem : (b : Binding) (r : String) (g : Grant) → matches b (rearm h r g) ≡ matches b g
  unfolding matches
  matches-rearm_lem b r g = refl

  -- Exactly one consumed row, the one that was found, is re-armed.
  rearm-credit :
      (b c : Binding) (r : String) (gs : List Grant) (g : Grant)
      → find? (matches c) gs ≡ some g
      → g.consumed ≡ true
      → count_where (stranded h g.grant_id) gs ≡ 1
      → (count_where (unspent b) (update (stranded h g.grant_id) (rearm h r) gs)
          ≡ count_where (unspent b) gs + bit (same_binding b c))
        × (count_where (matches b) (update (stranded h g.grant_id) (rearm h r) gs)
            ≡ count_where (matches b) gs)
  rearm-credit b c r gs g found used one = (
    ground (
      arith,
      str_refl g.grant_id,
      matches-rearm_lem b r g,
      matches-same_binding b c g (find?-sound (matches c) gs found),
      update-one (unspent b) (stranded h g.grant_id) (matches c) (rearm h r) gs g,
    ),
    count_where-update (matches b) (stranded h g.grant_id) (rearm h r) gs
        (matches-rearm b g.grant_id r),
  )

  recover-credit :
      (b : Binding) (c : Call) (r : String) (s : GrantStore)
      → credit b (step (recover c r) s) ≡ credit b s + recovered b (recover c r) s
  unfolding step recovered recover_consumed_grant
  recover-credit b c r s = elim (Option-cases (find? (matches (binding h c)) s.grants)) [
    | inl missing ↦ ground (arith, missing)
    | inr (g, found) ↦ ground (
      arith,
      found,
      length-select (stranded h g.grant_id) s.grants,
      rearm-credit b (binding h c) r s.grants g found,
    )
  ]

  authorize-credit :
      (b : Binding) (c : Call) (s : GrantStore)
      → credit b (step (authorize c) s) + spent b (authorize c) s ≡ credit b s
  unfolding step spent authorize_and_consume
  authorize-credit b c s = elim (Option-cases (find? (unspent (binding h c)) s.grants)) [
    | inl missing ↦ ground (arith, missing)
    | inr (g, found) ↦ ground (
      arith,
      found,
      str_refl g.grant_id,
      length-select (armed h g.grant_id) s.grants,
      find?-sound (unspent (binding h c)) s.grants found,
      matches-same_binding b (binding h c) g,
      count_where-update (matches b) (armed h g.grant_id) (consume h) s.grants
          (matches-consume b g.grant_id),
      update-one (unspent b) (armed h g.grant_id) (unspent (binding h c)) (consume h) s.grants g,
    )
  ]

  -- Who is authorized has one unconsumed grant less.
  pub authorize_and_consume-unspent :
      (c : Call) (s s' : GrantStore)
      → authorize_and_consume h c s ≡ ok s'
      → count_where (unspent (binding h c)) s'.grants + 1
        ≡ count_where (unspent (binding h c)) s.grants
  unfolding authorize_and_consume
  authorize_and_consume-unspent c s s' e =
      elim (Option-cases (find? (unspent (binding h c)) s.grants)) [
        | inl missing ↦ absurd (ground (arith, missing, e))
        | inr (g, found) ↦ ground (
          arith,
          found,
          e,
          str_refl g.grant_id,
          length-select (armed h g.grant_id) s.grants,
          find?-sound (unspent (binding h c)) s.grants found,
          update-one (unspent (binding h c)) (armed h g.grant_id) (unspent (binding h c))
              (consume h) s.grants g,
        )
      ]

  step-credit :
      (b : Binding) (o : GrantOp) (s : GrantStore)
      → credit b (step o s) + spent b o s ≡ credit b s + recovered b o s
  unfolding spent recovered
  step-credit b (issue c r) s = omega (arith, issue-credit b c r s)
  step-credit b (recover c r) s = omega (arith, recover-credit b c r s)
  step-credit b (authorize c) s = omega (arith, authorize-credit b c s)

  -- Any calls, in any order.
  unfoldable pub run : List GrantOp → GrantStore → GrantStore
  run [] s = s
  run (o ∷ ops) s = run ops (step o s)

  unfoldable pub authorizations : Binding → List GrantOp → GrantStore → ℕ
  authorizations b [] s = 0
  authorizations b (o ∷ ops) s = spent b o s + authorizations b ops (step o s)

  unfoldable pub recoveries : Binding → List GrantOp → GrantStore → ℕ
  recoveries b [] s = 0
  recoveries b (o ∷ ops) s = recovered b o s + recoveries b ops (step o s)

  -- For every pending action and any calls of the store, refused ones included: the authorizations
  -- given and the credit left at the end add up to the credit at the start and the recoveries of
  -- that action, where the credit is the number of its unconsumed grants, or one while it has no
  -- grant record.
  pub run-credit :
      (b : Binding) (ops : List GrantOp) (s : GrantStore)
      → authorizations b ops s + credit b (run ops s) ≡ credit b s + recoveries b ops s
  unfolding run authorizations recoveries
  run-credit b [] s = omega arith
  run-credit b (o ∷ ops) s = omega (arith, step-credit b o s, run-credit b ops (step o s))
