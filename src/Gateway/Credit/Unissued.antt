-- ===== src/Gateway/Credit/Unissued.antt =====
-- Pending actions for which nobody issued a grant
-- (SqliteOneTimeActionGrantStore of src/material_agent/gateway/authorization.py).
use materials_screening_agen.Prelude.{
  all, count_where-one, count_where-pos, ◌≤◌, ◌≡◌, refl, Bool, true, false, List, [], ◌∷◌, inl, inr,
  arith, find?, count_where, count_where-append, count_where-update, find?-sound, Option-cases,
  string_eq, nat_eq, not,
}
use materials_screening_agen.Gateway.Model.{Hashing}
use materials_screening_agen.Gateway.Grants.{
  Grant, GrantStore, Binding, unspent, binding, matches, new_grant, issue_grant,
  recover_consumed_grant, authorize_and_consume, stranded, rearm, armed, consume,
}
use materials_screening_agen.Gateway.Credit.{
  same_binding, matches-same_binding, GrantOp, issue, recover, authorize, step, spent,
  matches-new_grant, matches-rearm, matches-consume, authorizations,
}

module _ (h : Hashing) where
  -- A call that issues a grant for `b`.
  abbrev pub issues : Binding → GrantOp → Bool
  issues b (issue c _) = same_binding b (binding h c)
  issues b _ = false

  abbrev pub never_issued : Binding → List GrantOp → Bool
  never_issued b ops = all ops (λ o. not (issues b o))

  step-unissued :
      (b : Binding) (o : GrantOp) (s : GrantStore)
      → issues b o ≡ false
      → count_where (matches b) s.grants ≡ 0
      → count_where (matches b) (step h o s).grants ≡ 0
  unfolding step issue_grant recover_consumed_grant authorize_and_consume
  step-unissued b (issue c r) s other none_there = ground (
    arith,
    matches-new_grant h b (binding h c) r,
    count_where-append (matches b) s.grants (new_grant h (binding h c) r ∷ []),
    count_where-one (matches b) (new_grant h (binding h c) r),
  )
  step-unissued b (recover c r) s other none_there =
      elim (Option-cases (find? (matches (binding h c)) s.grants)) [
        | inl missing ↦ ground (arith, missing)
        | inr (g, found) ↦ ground (
          arith,
          found,
          count_where-update (matches b) (stranded h g.grant_id) (rearm h r) s.grants
              (matches-rearm h b g.grant_id r),
        )
      ]
  step-unissued b (authorize c) s other none_there =
      elim (Option-cases (find? (unspent (binding h c)) s.grants)) [
        | inl missing ↦ ground (arith, missing)
        | inr (g, found) ↦ ground (
          arith,
          found,
          count_where-update (matches b) (armed h g.grant_id) (consume h) s.grants
              (matches-consume h b g.grant_id),
        )
      ]

  -- Without a row for `b` nothing authorizes it.
  unspent-le :
      (b : Binding) (gs : List Grant) → count_where (unspent b) gs ≤ count_where (matches b) gs
  unfolding count_where
  unspent-le b [] = omega arith
  unspent-le b (g ∷ gs) = ground (arith, unspent-le b gs)

  spent-le :
      (b : Binding) (o : GrantOp) (s : GrantStore)
      → spent h b o s ≤ count_where (unspent b) s.grants
  unfolding spent authorize_and_consume
  spent-le b (authorize c) s = elim (Option-cases (find? (unspent (binding h c)) s.grants)) [
    | inl missing ↦ ground (arith, missing)
    | inr (g, found) ↦ ground (
      arith,
      find?-sound (unspent (binding h c)) s.grants found,
      matches-same_binding b (binding h c) g,
      count_where-pos (unspent (binding h c)) (unspent b) s.grants found,
    )
  ]
  spent-le b _ s = omega arith

  -- No grant, no authority: a pending action that has no grant record at the start, and that no call
  -- issues a grant for, is never authorized, whatever else is granted, recovered and authorized.
  pub unissued-authorizations :
      (b : Binding) (ops : List GrantOp) (s : GrantStore)
      → count_where (matches b) s.grants ≡ 0
      → never_issued b ops ≡ true
      → authorizations h b ops s ≡ 0
  unfolding authorizations
  unissued-authorizations b [] s none_there others = refl
  unissued-authorizations b (o ∷ ops) s none_there others = ground (
    arith,
    spent-le b o s,
    unspent-le b s.grants,
    step-unissued b o s,
    unissued-authorizations b ops (step h o s),
  )
