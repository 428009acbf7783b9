-- ===== src/Scheduler.antt =====
-- `PacingScheduler` of control-plane/scheduler/src/scheduler.ts: when queued actions run. What
-- `localeCompare` says of two ids and the gate's answers are parameters.
pub mod Window
pub mod WindowLaws
pub mod DueLaws
pub mod Service
use linkedin_outreach_agent.Prelude.{
  ℕ, ◌+◌, ◌-◌, ◌*◌, ◌/◌, ◌^◌, Bool, ◌&&◌, ◌||◌, Option, none, some, List, [], ◌∷◌, map, ltb, leb,
  ◌==◌, if◌then◌else◌, includes, get_or,
}
use linkedin_outreach_agent.Domain.{
  UserId, Time, ActionType, same_type, CapTable, Decision, allow, defer, deny,
}
use linkedin_outreach_agent.Calendar.{Zone}
use linkedin_outreach_agent.Store.Sequence.{sort_by}
use linkedin_outreach_agent.Scheduler.Window.{
  WorkingHours, is_within_working_hours, next_working_instant,
}

pub record SchedulerConfig : Type 0 where
  pub working : WorkingHours
  pub min_gap_seconds : ℕ
  pub max_gap_seconds : ℕ

-- The fields of an `Action` that the scheduler reads.
pub record Queued : Type 0 where
  pub id : UserId
  pub type : ActionType
  pub scheduled_at : Time
  pub dedup_key : ℕ

pub data SkipReason : Type 0 where
  outside_working_hours not_due_yet duplicate denied deferred budget_exhausted : SkipReason

pub record DueResult : Type 0 where
  pub due : List Queued
  pub skipped : List (Queued × SkipReason)

-- `selectedByType`
abbrev pub Selected : Type 0
Selected = ActionType → ℕ

unfoldable pub bump_selected : Selected → ActionType → Selected
bump_selected sel type k = if same_type k type then sel k + 1 else sel k

-- `used + alreadySelected >= cap`: not so for a cap that the table lacks.
unfoldable pub is_exhausted : Option ℕ → ℕ → Bool
is_exhausted none n = Bool.false
is_exhausted (some cap) n = leb cap n

unfoldable pub refusal : Decision → Option SkipReason
refusal allow = none
refusal (defer until) = some SkipReason.deferred
refusal (deny reason) = some SkipReason.denied

unfoldable pub skip : Queued → SkipReason → DueResult → DueResult
skip a reason r = record r { skipped = (a, reason) ∷ r.skipped }

unfoldable pub take_due : Queued → DueResult → DueResult
take_due a r = record r { due = a ∷ r.due }

-- `jitterMs`, for a draw below 2 ^ 53.
unfoldable pub jitter_ms : SchedulerConfig → ℕ → ℕ
jitter_ms cfg draw =
    cfg.min_gap_seconds * 1000
    + ((draw * (cfg.max_gap_seconds - cfg.min_gap_seconds)) * 1000 + 2 ^ 52) / 2 ^ 53

unfoldable pub later_of : Time → Time → Time
later_of a b = if ltb b a then a else b

module _ (z : Zone) (cfg : SchedulerConfig) where
  -- `nextRunAt`
  unfoldable pub next_run_at : ℕ → Time → Time → Time
  unfolding later_of
  next_run_at draw scheduled_at now =
      let in_window = next_working_instant z (later_of scheduled_at now) cfg.working in
      next_working_instant z (in_window + jitter_ms cfg draw) cfg.working

  module _ (before : UserId → UserId → Bool) (caps used : CapTable)
      (can_act : Queued → Decision) where
    -- The order of the sort: by time, then by what `localeCompare` says of the ids.
    unfoldable pub run_order : Queued → Queued → Bool
    run_order a b =
        ltb a.scheduled_at b.scheduled_at || (a.scheduled_at == b.scheduled_at && before a.id b.id)

    -- Why the loop skips an action, if it does.
    unfoldable pub why_skipped : Time → List ℕ → Selected → Queued → Option SkipReason
    unfolding is_exhausted refusal
    why_skipped now seen sel a =
        if includes seen a.dedup_key
        then some duplicate
        else if ltb now a.scheduled_at
        then some not_due_yet
        else if is_exhausted (caps a.type) (get_or (used a.type) 0 + sel a.type)
        then some budget_exhausted
        else refusal (can_act a)

    -- The loop over the ordered queue.
    unfoldable pub select : Time → List ℕ → Selected → List Queued → DueResult
    unfolding why_skipped skip take_due bump_selected
    select now seen sel [] = record { due = []; skipped = [] }
    select now seen sel (a ∷ rest) = elim (why_skipped now seen sel a) [
      | some reason ↦ skip a reason (select now seen sel rest)
      | none ↦ take_due a (select now (a.dedup_key ∷ seen) (bump_selected sel a.type) rest)
    ]

    -- `dueActions`
    unfoldable pub due_actions : List Queued → Time → DueResult
    unfolding select
    due_actions queue now =
        let outside : DueResult = record {
          due = [];
          skipped = map (λ a. (a, outside_working_hours)) queue;
        } in
        if is_within_working_hours z now cfg.working
        then select now [] (λ k. 0) (sort_by run_order queue)
        else outside
