-- ===== src/Dispatch/StepLaws.antt =====
-- What a step that contacted the person went through.
use linkedin_outreach_agent.Prelude.{
  ◌≡◌, ◌⊎◌, refl, sym, ap, ◌∙◌, Bool, true, false, ◌&&◌, Option, none, some, List, String, arith,
  inl, inr, Bool-cases, get_or,
}
use linkedin_outreach_agent.Domain.{
  UserId, Time, Text, CampaignRow, reply_probe_failed, ActionType, ActionResult, CampaignStepRow,
  CampaignStepType, TargetRow, TargetProgressRow, TargetStage,
}
use linkedin_outreach_agent.Calendar.{Zone}
use linkedin_outreach_agent.Effects.{
  Answer, returned, threw, Step, Failure, Answer-cases, bind_next, bind_stop, try_next, try_stop,
  try, ◌>>=◌, ◌>>◌,
}
use linkedin_outreach_agent.Mcp.{GateOutcome, gate_act, may_execute_directly}
use linkedin_outreach_agent.Store.Tables.{find_target}
use linkedin_outreach_agent.Suppression.{is_suppressed}
use linkedin_outreach_agent.Dispatch.Unheld.{IsUnheld, held_by_other_campaign-IsUnheld}
use linkedin_outreach_agent.Dispatch.World.{
  log_event, World, TickDeps, StepOutcome, held_by_other_campaign,
}
use linkedin_outreach_agent.Dispatch.Outcome.{park_after_connect}
use linkedin_outreach_agent.Dispatch.Act.{
  on_gate_throw, draft_body_for, act_request_for, after_gate, act_step, locked_by, lock_step,
}
use linkedin_outreach_agent.Dispatch.Steps.{
  on_broken_probe, is_stop_stage, is_connected, draft_step, probe_threw, on_probe, probe_step,
  pull_suppressed, message_step, connect_step, typed_step,
}

-- The person was contacted: a message went out, or an invite.
abbrev pub contacts : Answer StepOutcome → Bool
contacts (threw e) = false
contacts (returned o) = elim o [
  | StepOutcome.executed c id n ↦ true
  | StepOutcome.awaiting_connection c ↦ true
  | _ ↦ false
]

module _ {W A : Type 0} where
  contacts-bind :
      (m : Step W A) (f : A → Step W StepOutcome) (w : W)
      → contacts ((m >>= f) w).0 ≡ true
      → (a : A) × ((m w).0 ≡ returned a) × (contacts (f a (m w).1).0 ≡ true)
  contacts-bind m f w h = elim (Answer-cases (m w).0) [
    | inl (a, e) ↦ (a, e, ap (λ x. contacts x.0) (sym (bind_next m f w a e)) ∙ h)
    | inr (x, e) ↦ absurd (cc (ap (λ x. contacts x.0) (bind_stop m f w x e), h))
  ]

  contacts-try :
      (m : Step W A) (f : A → Step W StepOutcome) (g : Failure → Step W StepOutcome) (w : W)
      → contacts (try m f g w).0 ≡ true
      → ((a : A) × ((m w).0 ≡ returned a) × (contacts (f a (m w).1).0 ≡ true))
        ⊎ ((e : Failure) × (contacts (g e (m w).1).0 ≡ true))
  contacts-try m f g w h = elim (Answer-cases (m w).0) [
    | inl (a, e) ↦ inl (a, e, ap (λ x. contacts x.0) (sym (try_next m f w g a e)) ∙ h)
    | inr (x, e) ↦ inr (x, ap (λ x. contacts x.0) (sym (try_stop m f w g x e)) ∙ h)
  ]

is_connected_sound :
    (stage : TargetStage) → is_connected stage ≡ true → stage ≡ TargetStage.connected
unfolding is_connected
is_connected_sound TargetStage.connected h = refl
is_connected_sound _ h = absurd cc

module _ {O : Type 0} (z : Zone) (deps : TickDeps O) (now : Time) (p : TargetProgressRow)
    (steps : List CampaignStepRow) (step : CampaignStepRow) where
  -- The gate executed the step's request, in a world in which no other campaign contacts the person:
  -- no target of another campaign under the person's canonical key is invited, connected, in
  -- conversation, replied or won.
  pub record Passed (type : ActionType) : Type 0 where
    pub body : Option String
    pub before : World O
    pub action : UserId
    pub free : IsUnheld before.store p
    pub performed :
        (gate_act deps.gate (act_request_for type step p) body before).0
        ≡ returned (GateOutcome.executed action ActionResult.success)

  after_gate-contacts :
      (t : CampaignStepType) (o : GateOutcome) (w : World O)
      → contacts (after_gate z deps now p steps t o w).0 ≡ true
      → (action : UserId) × (o ≡ GateOutcome.executed action ActionResult.success)
  unfolding after_gate park_after_connect
  after_gate-contacts t (GateOutcome.queued pending) w h = absurd (ground arith)
  after_gate-contacts t (GateOutcome.deferred until) w h = absurd (ground arith)
  after_gate-contacts t (GateOutcome.denied reason) w h = absurd (ground arith)
  after_gate-contacts t (GateOutcome.executed action ActionResult.success) w h = (action, refl)
  after_gate-contacts CampaignStepType.connect (GateOutcome.executed action r) w h =
      absurd (ground arith)
  after_gate-contacts t (GateOutcome.executed action r) w h = absurd (ground arith)

  act_contacts :
      (type : ActionType) (body : Option String) (w : World O)
      → held_by_other_campaign w.store p ≡ none
      → contacts (act_step z deps now p steps step type body w).0 ≡ true
      → Passed type
  unfolding act_step on_gate_throw
  act_contacts type body w free h =
      elim (contacts-try (gate_act deps.gate (act_request_for type step p) body)
        (after_gate z deps now p steps step.step_type) (on_gate_throw z deps p) w h) [
          | inl (o, e, k) ↦
              let r =
                after_gate-contacts step.step_type o
                  (gate_act deps.gate (act_request_for type step p) body w).1 k in
              record {
                body = body;
                before = w;
                action = r.0;
                free = held_by_other_campaign-IsUnheld w.store p free;
                performed = e ∙ ap (λ x. returned x) r.1;
              }
          | inr (x, k) ↦ absurd (ground arith)
        ]

  lock_contacts :
      (type : ActionType) (body : Option String) (found : Option (TargetRow × Text)) (w : World O)
      → held_by_other_campaign w.store p ≡ found
      → contacts (locked_by z deps now p steps step type body found w).0 ≡ true
      → Passed type
  unfolding locked_by
  lock_contacts type body none w e h = act_contacts type body w e h
  lock_contacts type body (some (blocker, key)) w e h = absurd (ground arith)

  draft_contacts :
      (target : TargetRow) (w : World O)
      → contacts (draft_step z deps now p steps step target w).0 ≡ true
      → Passed ActionType.message
  unfolding draft_step lock_step
  draft_contacts target w h =
      lock_contacts ActionType.message _ (held_by_other_campaign w.store p) w refl h

  on_probe_contacts :
      (target : TargetRow) (b : Bool) (w : World O)
      → contacts (on_probe z deps now p steps step target b w).0 ≡ true
      → Passed ActionType.message
  unfolding on_probe
  on_probe_contacts target true w h = absurd (ground arith)
  on_probe_contacts target false w h = draft_contacts target w h

  broken_contacts :
      (target : TargetRow) (c : CampaignRow) (w : World O)
      → contacts (on_broken_probe z deps now p steps step target c w).0 ≡ true
      → Passed ActionType.message
  unfolding on_broken_probe
  broken_contacts target c w h =
      elim (Bool-cases (may_execute_directly c.autonomy_level ActionType.message)) [
        | inl e ↦ absurd (ground arith)
        | inr e ↦ draft_contacts target w (ground arith)
      ]

  probe_threw_contacts :
      (target : TargetRow) (w : World O)
      → contacts (probe_threw z deps now p steps step target w).0 ≡ true
      → Passed ActionType.message
  unfolding probe_threw
  probe_threw_contacts target w h =
      let m =
        log_event deps now (reply_probe_failed p.id p.target_id) (some p.account_id)
        >> deps.gate.get_campaign p.campaign_id in
      let k = contacts-bind m (on_broken_probe z deps now p steps step target) w h in
      broken_contacts target k.0 (m w).1 k.2

  probe_contacts :
      (target : TargetRow) (o : Option (UserId → TargetRow → Option Time → Step (World O) Bool))
      (w : World O)
      → contacts (probe_step z deps now p steps step target o w).0 ≡ true
      → Passed ActionType.message
  unfolding probe_step
  probe_contacts target none w h = draft_contacts target w h
  probe_contacts target (some check) w h =
      elim (contacts-try (check p.account_id target (some (get_or p.last_step_at p.created_at)))
        (on_probe z deps now p steps step target)
        (λ error. probe_threw z deps now p steps step target) w h) [
          | inl (b, e, k) ↦
              on_probe_contacts target b
                (check p.account_id target (some (get_or p.last_step_at p.created_at)) w).1 k
          | inr (x, k) ↦
              probe_threw_contacts target
                (check p.account_id target (some (get_or p.last_step_at p.created_at)) w).1 k
        ]

  -- What held of the target of a message that went out from a sequence.
  pub record MayMessage (w : World O) : Type 0 where
    pub target : TargetRow
    pub found : find_target w.store p.target_id ≡ some target
    pub connected : target.stage ≡ TargetStage.connected
    pub not_suppressed : (deps.has_suppression && is_suppressed w.store p.target_id) ≡ false
    pub passed : Passed ActionType.message

  pull_reports : (w : World O) → contacts (pull_suppressed z deps p w).0 ≡ false
  unfolding pull_suppressed
  pull_reports w = ground arith

  message_contacts :
      (o : Option TargetRow) (w : World O)
      → find_target w.store p.target_id ≡ o
      → contacts (message_step z deps now p steps step o w).0 ≡ true
      → MayMessage w
  unfolding message_step
  message_contacts none w e h = absurd cc
  message_contacts (some t) w e h = elim (Bool-cases (is_stop_stage t.stage)) [
    | inl s ↦ absurd (ground arith)
    | inr s ↦ elim (Bool-cases (is_connected t.stage)) [
      | inr n ↦ absurd (ground arith)
      | inl c ↦ elim (Bool-cases (deps.has_suppression && is_suppressed w.store p.target_id)) [
        | inl u ↦ absurd (ground (arith, pull_reports w))
        | inr u ↦ record {
          target = t;
          found = e;
          connected = is_connected_sound t.stage c;
          not_suppressed = u;
          passed = probe_contacts t deps.reply_probe w (ground arith);
        }
      ]
    ]
  ]

  -- A message step that reports a contact found the target connected and not suppressed, and went
  -- through the gate, which executed it with success, in a world in which no target of another
  -- campaign under the person's canonical key was invited, connected, in conversation, replied or
  -- won.
  pub message_step-MayMessage :
      (w : World O)
      → contacts (typed_step z deps now p steps step CampaignStepType.message w).0 ≡ true
      → MayMessage w
  unfolding typed_step
  message_step-MayMessage w h = message_contacts (find_target w.store p.target_id) w refl h

  -- A connect step that reports a contact was for a person who is not suppressed, and went through
  -- the gate, which executed it with success, in a world in which no target of another campaign under
  -- the person's canonical key was invited, connected, in conversation, replied or won. A step that
  -- throws reports no contact.
  pub connect_step-Passed :
      (w : World O)
      → contacts (typed_step z deps now p steps step CampaignStepType.connect w).0 ≡ true
      → ((deps.has_suppression && is_suppressed w.store p.target_id) ≡ false)
        × Passed ActionType.connect
  unfolding typed_step connect_step lock_step
  connect_step-Passed w h =
      elim (Bool-cases (deps.has_suppression && is_suppressed w.store p.target_id)) [
        | inl u ↦ absurd (ground (arith, pull_reports w))
        | inr u ↦ (
          u,
          lock_contacts ActionType.connect (draft_body_for CampaignStepType.connect step)
              (held_by_other_campaign w.store p) w refl (ground arith),
        )
      ]
