-- ===== src/Scheduler/Service.antt =====
-- `SchedulerService` of runtime/src/adapters/scheduler.ts: the queue of paced follow-ups behind the
-- reply router.
use linkedin_outreach_agent.Prelude.{
  ℕ, ◌+◌, ◌*◌, ◌≤◌, ◌<◌, ◌≡◌, refl, ap, ◌∙◌, Bool, true, false, Option, none, some, List, [], ◌∷◌,
  ◌++◌, arith, includes,
}
use linkedin_outreach_agent.Domain.{
  UserId, Time, hour_ms, ReplyIntent, not_now, out_of_office, TargetRow, TargetStage,
}
use linkedin_outreach_agent.Calendar.{Zone}
use linkedin_outreach_agent.Effects.{Step, Answer, returned, bind_next, ret, ◌>>◌}
use linkedin_outreach_agent.Store.Tables.{find_target}
use linkedin_outreach_agent.Store.Funnel.{pull_target_from_funnel}
use linkedin_outreach_agent.Store.Lookups.{stage_found}
use linkedin_outreach_agent.Router.{
  FollowUp, Scheduler, Desk, RoutingOutcome, followed_up, by_intent, move_to, route_reply, pulled,
  logged, on_store, on_outside,
}
use linkedin_outreach_agent.Scheduler.Window.{is_within_working_hours, next_working_instant}
use linkedin_outreach_agent.Scheduler.WindowLaws.{IsRegular, next_working_instant-within}
use linkedin_outreach_agent.Scheduler.{SchedulerConfig, next_run_at, jitter_ms, later_of}

pub record QueuedFollowUp : Type 0 where
  pub account_id : Option UserId
  pub target_id : UserId
  pub campaign_id : UserId
  pub not_before : Time
  pub reason : ReplyIntent
  pub enqueued_at : Time

-- `enqueueFollowUp` of `asOrchestratorPort`, with `paced`.
unfoldable pub enqueue_follow_up :
    Zone → SchedulerConfig → ℕ → Time → FollowUp → Step (List QueuedFollowUp) (Unit {0})
enqueue_follow_up z cfg draw now f queue = (
  returned tt,
  queue
      ++ (record {
        account_id = none;
        target_id = f.target;
        campaign_id = f.campaign;
        not_before = next_run_at z cfg draw f.not_before now;
        reason = f.reason;
        enqueued_at = now;
      })
        ∷ [],
)

-- The open window of a configuration: a working day and hours of it.
pub record IsOpen (cfg : SchedulerConfig) (d : ℕ) : Type 0 where
  pub in_week : d < 7
  pub works : includes cfg.working.working_days d ≡ true
  pub opens : cfg.working.start_hour < cfg.working.end_hour
  pub in_day : cfg.working.start_hour < 24

later_of-ge : (a b : Time) → (a ≤ later_of a b) × (b ≤ later_of a b)
unfolding later_of
later_of-ge a b = ground arith

module _ (z : Zone) (cfg : SchedulerConfig) (d : ℕ) where
  -- A paced action runs in the working window, not before its time and not before now, and less
  -- than 16 days and the jitter after them.
  pub next_run_at-within :
      (draw : ℕ) (scheduled now : Time)
      → IsRegular z
      → IsOpen cfg d
      → let t = next_run_at z cfg draw scheduled now in
        (is_within_working_hours z t cfg.working ≡ true)
        × (scheduled ≤ t)
        × (now ≤ t)
        × (t ≤ later_of scheduled now + jitter_ms cfg draw + 384 * hour_ms)
  unfolding next_run_at
  next_run_at-within draw scheduled now regular o =
      let start = later_of scheduled now in
      let (k, first, k_bound, w1) =
        next_working_instant-within z cfg.working d start regular o.in_week o.works o.opens
          o.in_day in
      let (m, second, m_bound, within) =
        next_working_instant-within z cfg.working d
          (next_working_instant z start cfg.working + jitter_ms cfg draw) regular o.in_week o.works
          o.opens o.in_day in
      let bounds = later_of-ge scheduled now in
      (
        within,
        omega (arith, bounds, first, second),
        omega (arith, bounds, first, second),
        omega (arith, first, second),
      )

-- The intents that the router follows up later.
unfoldable pub follows_up : ReplyIntent → Bool
follows_up not_now = true
follows_up out_of_office = true
follows_up _ = false

-- A follow-up as the queue should hold it.
pub record IsPaced (z : Zone) (cfg : SchedulerConfig) (target : UserId) (earliest : Time)
    (q : QueuedFollowUp) : Type 0 where
  pub of_target : q.target_id ≡ target
  pub in_window : is_within_working_hours z q.not_before cfg.working ≡ true
  pub after_delay : earliest ≤ q.not_before

module _ (z : Zone) (cfg : SchedulerConfig) (d : ℕ) (regular : IsRegular z) (o : IsOpen cfg d)
    (draw : ℕ) (now : Time) (delay : ℕ) (target campaign : UserId) where
  abbrev service : Scheduler (List QueuedFollowUp)
  service = enqueue_follow_up z cfg draw now

  -- What the scheduler is left with.
  record Queues (w : Desk (List QueuedFollowUp))
      (r : Answer RoutingOutcome × Desk (List QueuedFollowUp)) : Type 0 where
    outcome : RoutingOutcome
    entry : QueuedFollowUp
    answers : r.0 ≡ returned outcome
    queues : r.1.outside ≡ w.outside ++ entry ∷ []
    paced : IsPaced z cfg target (now + delay) entry

  -- What follows the change of the stage.
  abbrev schedule : ReplyIntent → TargetStage → Step (Desk (List QueuedFollowUp)) RoutingOutcome
  schedule intent st =
      on_outside (
        service (record {
          target = target;
          campaign = campaign;
          not_before = now + delay;
          reason = intent;
        }))
      >> ret (record {
        intent = intent;
        needs_reply = false;
        stage = some st;
        suppressed = false;
        scheduled_follow_up = true;
      })

  followed_up-Queues :
      (intent : ReplyIntent) (w : Desk (List QueuedFollowUp)) (a : TargetRow)
      → find_target w.store target ≡ some a
      → Queues w (followed_up service now delay target campaign intent w)
  unfolding followed_up enqueue_follow_up
  followed_up-Queues intent w a h =
      let within = next_run_at-within z cfg d draw (now + delay) now regular o in
      let moved : (move_to target TargetStage.replied w.store).0 ≡ returned TargetStage.replied =
        rw (move_to, stage_found w.store target a TargetStage.replied h) in
      let done =
        bind_next (on_store (move_to target TargetStage.replied)) (schedule intent) w
          TargetStage.replied moved in
      record {
        outcome = record {
          intent = intent;
          needs_reply = false;
          stage = some TargetStage.replied;
          suppressed = false;
          scheduled_follow_up = true;
        };
        entry = record {
          account_id = none;
          target_id = target;
          campaign_id = campaign;
          not_before = next_run_at z cfg draw (now + delay) now;
          reason = intent;
          enqueued_at = now;
        };
        answers = ap (λ r. r.0) done;
        queues = ap (λ r. r.1.outside) done;
        paced = record { of_target = refl; in_window = within.0; after_delay = within.1 };
      }

  routed :
      (pullout : Bool) (intent : ReplyIntent) (w : Desk (List QueuedFollowUp))
      → Queues w (by_intent service now delay target campaign intent (pulled pullout target w).1)
      → (q : QueuedFollowUp) × ((route_reply service pullout now delay target campaign intent
            w).1.outside
          ≡ w.outside ++ q ∷ [])
        × IsPaced z cfg target (now + delay) q
  unfolding route_reply
  routed pullout intent w r = (
    r.entry,
    ap (λ x. x.1.outside)
          (bind_next (pulled pullout target >> by_intent service now delay target campaign intent)
            (logged now target campaign) w r.outcome r.answers)
        ∙ r.queues,
    r.paced,
  )

  pulled-Queues :
      (pullout : Bool) (intent : ReplyIntent) (w : Desk (List QueuedFollowUp)) (a : TargetRow)
      → find_target w.store target ≡ some a
      → Queues w (followed_up service now delay target campaign intent (pulled pullout target w).1)
  unfolding pull_target_from_funnel find_target
  pulled-Queues true intent w a h =
      let r = followed_up-Queues intent (pulled true target w).1 a h in
      record {
        outcome = r.outcome;
        entry = r.entry;
        answers = r.answers;
        queues = r.queues;
        paced = r.paced;
      }
  pulled-Queues false intent w a h = followed_up-Queues intent w a h

  -- The router with the scheduler service behind it: a reply that says "not now" or comes from an
  -- absence notice puts one follow-up into the queue, in the working window and not before the
  -- delay has passed, with a pull-out port or without.
  pub route_reply-IsPaced :
      (pullout : Bool) (intent : ReplyIntent) (w : Desk (List QueuedFollowUp)) (a : TargetRow)
      → follows_up intent ≡ true
      → find_target w.store target ≡ some a
      → (q : QueuedFollowUp) × ((route_reply service pullout now delay target campaign intent
            w).1.outside
          ≡ w.outside ++ q ∷ [])
        × IsPaced z cfg target (now + delay) q
  unfolding follows_up by_intent
  route_reply-IsPaced pullout not_now w a f h =
      routed pullout not_now w (pulled-Queues pullout not_now w a h)
  route_reply-IsPaced pullout out_of_office w a f h =
      routed pullout out_of_office w (pulled-Queues pullout out_of_office w a h)
  route_reply-IsPaced pullout _ w a f h = absurd (cc)
