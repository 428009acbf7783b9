-- ===== src/Mcp/Laws.antt =====
-- What passes the chokepoint.
use linkedin_outreach_agent.Prelude.{
  ◌≡◌, ◌≢◌, ◌↔◌, ◌⊎◌, inl, inr, true, false, not, Option, refl, ap, sym, ◌∙◌, subst, String,
  Bool-cases, if◌then◌else◌,
}
use linkedin_outreach_agent.Domain.{
  UserId, ActRequest, ActionType, ActionResult, Account, AutonomyLevel, supervised, semi_auto,
  autonomous, Decision, allow, defer, deny, CampaignRow,
}
use linkedin_outreach_agent.Effects.{
  Step, ◌>>=◌, bind_inv, bind_next, try_next, try_stop, pair_eq, returned, threw, Answer-cases,
  safety_deferred, Refusal, later, never, ret, Failure,
}
use linkedin_outreach_agent.Mcp.{
  executed, queued, GateDeps, ActionRef, may_execute_directly, is_message_class, gate_act, route,
  on_decision, refused, on_throw,
}

semi_permits :
    (type : ActionType)
    → (semi_auto ≡ autonomous) ⊎ ((semi_auto ≡ semi_auto) × (type ≢ ActionType.message))
    → not (is_message_class type) ≡ true
unfolding is_message_class
semi_permits type (inl e) = absurd cc
semi_permits ActionType.message (inr (e, h)) = absurd (h refl)
semi_permits _ (inr (e, h)) = refl

never_supervised :
    (type : ActionType)
    → (supervised ≡ autonomous) ⊎ ((supervised ≡ semi_auto) × (type ≢ ActionType.message))
    → false ≡ true
never_supervised type (inl e) = cc
never_supervised type (inr (e, h)) = cc

-- The autonomy matrix: an action runs without an approval exactly under full autonomy, or under
-- semi-autonomy when it is not a message.
pub may_execute_directly_exact :
    (level : AutonomyLevel) (type : ActionType)
    → (may_execute_directly level type ≡ true)
      ↔ ((level ≡ autonomous) ⊎ ((level ≡ semi_auto) × (type ≢ ActionType.message)))
unfolding may_execute_directly is_message_class
may_execute_directly_exact supervised type = (λ h. absurd cc, never_supervised type)
may_execute_directly_exact semi_auto type =
    (λ h. inr (refl, λ e. absurd (cc (h, ap is_message_class e))), semi_permits type)
may_execute_directly_exact autonomous type = (λ h. inl refl, λ h. refl)

module _ {W : Type 0} (deps : GateDeps W) (req : ActRequest) (draft_body : Option String) where
  -- If the campaign's level asks for an approval, the gate calls neither the executor nor the safety
  -- gate: with any others in their place it does the same.
  pub approval_bypasses_executor :
      (s : W) (campaign : CampaignRow) (execute : ActRequest → Step W ActionRef)
      (can_act : Account → ActRequest → Step W Decision)
      → (deps.get_campaign req.campaign_id (deps.get_account req.account_id s).1).0
        ≡ returned campaign
      → may_execute_directly campaign.autonomy_level req.type ≡ false
      → gate_act deps req draft_body s
        ≡ gate_act (record deps { execute = execute; can_act = can_act }) req draft_body s
  unfolding gate_act route
  approval_bypasses_executor s campaign execute can_act h e =
      elim (Answer-cases (deps.get_account req.account_id s).0) [
        | inl (account, a) ↦ rw (gate_act, ◌>>=◌, a, h, route, e)
        | inr (error, a) ↦ rw (gate_act, ◌>>=◌, a)
      ]

  on_throw_never_executes :
      (x : Failure) (s s' : W) (id : UserId) (result : ActionResult)
      → on_throw deps x s ≢ (returned (executed id result), s')
  unfolding on_throw refused
  on_throw_never_executes (safety_deferred (later t)) s s' id result h = cc
  on_throw_never_executes (safety_deferred (never r)) s s' id result h = cc
  on_throw_never_executes _ s s' id result h = cc

  decision_executed :
      (d : Decision) (s s' : W) (id : UserId) (result : ActionResult)
      → on_decision deps req d s ≡ (returned (executed id result), s')
      → (d ≡ allow) × (deps.execute req s ≡ (returned (record { id = id; result = result }), s'))
  unfolding on_decision
  decision_executed allow s s' id result h = elim (Answer-cases (deps.execute req s).0) [
    | inl (act, e) ↦
        let k =
          sym (
            try_next (deps.execute req) (λ action. ret (executed action.id action.result)) s
              (on_throw deps) act e)
          ∙ h in
        (
          refl,
          pair_eq (deps.execute req s) (returned (record { id = id; result = result })) s'
              (cc (e, k)) (cc k),
        )
    | inr (x, e) ↦ absurd (
        on_throw_never_executes x (deps.execute req s).1 s' id result (
          sym (
            try_stop (deps.execute req) (λ action. ret (executed action.id action.result)) s
              (on_throw deps) x e)
          ∙ h))
  ]
  decision_executed (defer t) s s' id result h = absurd cc
  decision_executed (deny r) s s' id result h = absurd cc

  route_executed :
      (account : Account) (level : AutonomyLevel) (s s' : W) (id : UserId) (result : ActionResult)
      → route deps req draft_body account level s ≡ (returned (executed id result), s')
      → (may_execute_directly level req.type ≡ true)
        × ((deps.can_act account req s).0 ≡ returned allow)
        × (deps.execute req (deps.can_act account req s).1
            ≡ (returned (record { id = id; result = result }), s'))
  unfolding route
  route_executed account level s s' id result h =
      elim (Bool-cases (may_execute_directly level req.type)) [
        | inl e ↦
            let k =
              bind_inv (deps.can_act account req) (on_decision deps req) s (executed id result) s' (
                subst
                  (λ b.
                    (if not b
                        then (deps.enqueue req level draft_body >>= λ id. ret (queued id))
                        else (deps.can_act account req >>= on_decision deps req))
                      s
                    ≡ (returned (executed id result), s'))
                  e h) in
            let r = decision_executed k.0 (deps.can_act account req s).1 s' id result k.2 in
            (e, k.1 ∙ ap (λ d. returned d) r.0, r.1)
        | inr e ↦
            let k =
              bind_inv (deps.enqueue req level draft_body) (λ id. ret (queued id)) s
                (executed id result) s'
                (subst
                  (λ b.
                    (if not b
                        then (deps.enqueue req level draft_body >>= λ id. ret (queued id))
                        else (deps.can_act account req >>= on_decision deps req))
                      s
                    ≡ (returned (executed id result), s'))
                  e h) in
            absurd (cc k.2)
      ]

  -- What ran was allowed: the level permits it without approval, the safety gate said yes to it, and
  -- what the gate reports is what the executor returned.
  pub executed_was_allowed :
      (s s' : W) (id : UserId) (result : ActionResult)
      → gate_act deps req draft_body s ≡ (returned (executed id result), s')
      → (account : Account) × (campaign : CampaignRow) × (let s1 =
            (deps.get_account req.account_id s).1 in
          let s2 = (deps.get_campaign req.campaign_id s1).1 in
          let s3 = (deps.can_act account req s2).1 in
          ((deps.get_account req.account_id s).0 ≡ returned account)
          × ((deps.get_campaign req.campaign_id s1).0 ≡ returned campaign)
          × (may_execute_directly campaign.autonomy_level req.type ≡ true)
          × ((deps.can_act account req s2).0 ≡ returned allow)
          × (deps.execute req s3 ≡ (returned (record { id = id; result = result }), s')))
  unfolding gate_act route
  executed_was_allowed s s' id result h =
      let (account, a, h1) =
        bind_inv (deps.get_account req.account_id)
          (λ account. deps.get_campaign req.campaign_id >>= λ campaign.
            route deps req draft_body account campaign.autonomy_level)
          s (executed id result) s' h in
      let (campaign, c, h2) =
        bind_inv (deps.get_campaign req.campaign_id)
          (λ campaign. route deps req draft_body account campaign.autonomy_level)
          (deps.get_account req.account_id s).1 (executed id result) s' h1 in
      (let r =
          route_executed account campaign.autonomy_level
            (deps.get_campaign req.campaign_id (deps.get_account req.account_id s).1).1 s' id result
            h2 in
        (account, campaign, (a, c, r.0, r.1, r.2)))

  -- When the level permits the action and the safety gate allowed it, a refusal that the executor
  -- throws is reported as a refusal, with the state that the executor left.
  pub late_refusal_is_a_refusal :
      (account : Account) (level : AutonomyLevel) (s s1 s2 : W) (r : Refusal)
      → may_execute_directly level req.type ≡ true
      → deps.can_act account req s ≡ (returned allow, s1)
      → deps.execute req s1 ≡ (threw (safety_deferred r), s2)
      → route deps req draft_body account level s ≡ (returned (refused r), s2)
  unfolding route on_decision on_throw
  late_refusal_is_a_refusal account level s s1 s2 r h c x =
      rw
        (
          h,
          bind_next (deps.can_act account req) (on_decision deps req) s allow (ap (λ p. p.0) c),
          ap (λ p. p.1) c,
        )
        (try_stop (deps.execute req) (λ action. ret (executed action.id action.result)) s1
            (on_throw deps) (safety_deferred r) (ap (λ p. p.0) x)
          ∙ ap (λ p. (returned (refused r), p.1)) x)
