-- ===== src/Router.antt =====
-- `ReplyRouter` of control-plane/orchestrator/src/reply-router.ts: what a classified reply does to its
-- target. The state is the store with what the scheduler keeps behind it; the scheduler is a port.
pub mod Laws
use linkedin_outreach_agent.Prelude.{
  ℕ, ◌+◌, ◌*◌, Bool, true, false, Option, none, some, if◌then◌else◌,
}
use linkedin_outreach_agent.Domain.{
  UserId, Time, ReplyIntent, interested, question, referral, objection, not_now, out_of_office,
  not_interested, stop, TargetStage, StopReason, EventKind, reply_routed, day_ms, Text,
}
use linkedin_outreach_agent.Effects.{Step, Answer, returned, threw, not_found, ret, ◌>>=◌, ◌>>◌}
use linkedin_outreach_agent.Store.{Store}
use linkedin_outreach_agent.Store.Tables.{set_stage, record_event}
use linkedin_outreach_agent.Store.Funnel.{pull_target_from_funnel}
use linkedin_outreach_agent.Suppression.{suppress_by_target}

pub record Desk (O : Type 0) : Type 0 where
  pub store : Store
  pub outside : O

-- A follow-up for the scheduler; its reason is the intent.
pub record FollowUp : Type 0 where
  pub target : UserId
  pub campaign : UserId
  pub not_before : Time
  pub reason : ReplyIntent

-- The port of the scheduler, which has no access to the store.
abbrev pub Scheduler : Type 0 → Type 0
Scheduler O = FollowUp → Step O (Unit {0})

pub record RoutingOutcome : Type 0 where
  pub intent : ReplyIntent
  pub needs_reply : Bool
  pub stage : Option TargetStage
  pub suppressed : Bool
  pub scheduled_follow_up : Bool

abbrev pub three_days_ms : ℕ
three_days_ms = 3 * day_ms

-- `setStage`
unfoldable pub move_to : UserId → TargetStage → Step Store TargetStage
move_to target stage s = elim (set_stage s target stage) [
  | none ↦ (threw (not_found target), s)
  | some t ↦ (returned stage, t)
]

module _ {O : Type 0} where
  -- A call of the store alone, and one of the scheduler alone.
  abbrev pub on_store : {A : Type 0} → Step Store A → Step (Desk O) A
  on_store m w = let r = m w.store in (r.0, record w { store = r.1 })

  abbrev pub on_outside : {A : Type 0} → Step O A → Step (Desk O) A
  on_outside m w = let r = m w.outside in (r.0, record w { outside = r.1 })

  -- A reply that a human answers.
  unfoldable pub answered : ReplyIntent → UserId → TargetStage → Step (Desk O) RoutingOutcome
  unfolding move_to
  answered intent target stage = on_store (move_to target stage) >>= λ st. ret (record {
    intent = intent;
    needs_reply = true;
    stage = some st;
    suppressed = false;
    scheduled_follow_up = false;
  })

  -- A reply that is followed up later.
  unfoldable pub followed_up :
      Scheduler O → Time → ℕ → UserId → UserId → ReplyIntent → Step (Desk O) RoutingOutcome
  unfolding move_to
  followed_up scheduler now delay target campaign intent =
      on_store (move_to target TargetStage.replied) >>= λ st.
      on_outside (
        scheduler (record {
          target = target;
          campaign = campaign;
          not_before = now + delay;
          reason = intent;
        }))
      >> ret (record {
        intent = intent;
        needs_reply = false;
        stage = some st;
        suppressed = false;
        scheduled_follow_up = true;
      })

  unfoldable pub closed_lost : ReplyIntent → UserId → Bool → Step (Desk O) RoutingOutcome
  unfolding move_to
  closed_lost intent target suppressed = on_store (move_to target TargetStage.lost) >>= λ st.
      ret (record {
        intent = intent;
        needs_reply = false;
        stage = some st;
        suppressed = suppressed;
        scheduled_follow_up = false;
      })

  -- The `switch` on the intent.
  unfoldable pub by_intent :
      Scheduler O → Time → ℕ → UserId → UserId → ReplyIntent → Step (Desk O) RoutingOutcome
  unfolding answered followed_up closed_lost
  by_intent scheduler now delay target campaign stop =
      on_store (suppress_by_target now target) >> closed_lost stop target true
  by_intent scheduler now delay target campaign interested =
      answered interested target TargetStage.in_conversation
  by_intent scheduler now delay target campaign question =
      answered question target TargetStage.in_conversation
  by_intent scheduler now delay target campaign referral =
      answered referral target TargetStage.replied
  by_intent scheduler now delay target campaign objection =
      answered objection target TargetStage.replied
  by_intent scheduler now delay target campaign not_now =
      followed_up scheduler now delay target campaign not_now
  by_intent scheduler now delay target campaign out_of_office =
      followed_up scheduler now delay target campaign out_of_office
  by_intent scheduler now delay target campaign not_interested =
      closed_lost not_interested target false

  abbrev pub pulled : Bool → UserId → Step (Desk O) (Unit {0})
  pulled pullout target w = (
    returned tt,
    if pullout
        then record w { store = pull_target_from_funnel w.store target StopReason.reply }
        else w,
  )

  abbrev pub logged : Time → UserId → UserId → RoutingOutcome → Step (Desk O) RoutingOutcome
  logged now target campaign o w = (
    returned o,
    record w {
      store =
          record_event w.store now
            (reply_routed target campaign o.intent o.needs_reply o.suppressed o.scheduled_follow_up
              o.stage)
            none;
    },
  )

  -- `route`, with a pull-out port or without.
  unfoldable pub route_reply :
      Scheduler O → Bool → Time → ℕ → UserId → UserId → ReplyIntent → Step (Desk O) RoutingOutcome
  unfolding by_intent
  route_reply scheduler pullout now delay target campaign intent =
      pulled pullout target
      >> by_intent scheduler now delay target campaign intent
      >>= logged now target campaign
