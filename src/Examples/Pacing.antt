-- ===== src/Examples/Pacing.antt =====
-- The theorems on the scheduler at concrete inputs.
use linkedin_outreach_agent.Prelude.{
  ◌+◌, ◌*◌, ◌≤◌, ◌≡◌, refl, true, ◌⊎◌, ℕ, leb, some, List, [], ◌∷◌, ◌++◌, max, get_or, includes,
  arith, All, find_row,
}
use linkedin_outreach_agent.Domain.{ActionType, CapTable, allow, hour_ms, not_now, Time}
use linkedin_outreach_agent.Calendar.Fixed.{utc}
use linkedin_outreach_agent.Router.{Desk, route_reply}
use linkedin_outreach_agent.Scheduler.{SchedulerConfig, Queued, due_actions}
use linkedin_outreach_agent.Scheduler.Window.{
  WorkingHours, is_within_working_hours, next_working_instant,
}
use linkedin_outreach_agent.Scheduler.WindowLaws.{utc-IsRegular, next_working_instant-within}
use linkedin_outreach_agent.Scheduler.DueLaws.{
  MayRun, HasFreshKeys, count_type, due_actions-MayRun, due_actions-le-cap,
}
use linkedin_outreach_agent.Scheduler.Service.{
  QueuedFollowUp, enqueue_follow_up, IsOpen, IsPaced, follows_up, route_reply-IsPaced,
}
use linkedin_outreach_agent.Store.Tables.{find_target}
use linkedin_outreach_agent.Examples.Stores.{small, lead}

-- Weekdays from nine to six.
abbrev office : WorkingHours
office = record { start_hour = 9; end_hour = 18; working_days = 1 ∷ 2 ∷ 3 ∷ 4 ∷ 5 ∷ [] }

abbrev pacing : SchedulerConfig
pacing = record { working = office; min_gap_seconds = 8; max_gap_seconds = 20 }

pacing-IsOpen : IsOpen pacing 1
unfolding includes
pacing-IsOpen = record {
  in_week = omega arith;
  works = refl;
  opens = omega arith;
  in_day = omega arith;
}

-- Saturday the 3rd of January 1970.
abbrev saturday : Time
saturday = 2 * 86_400_000 + 7 * hour_ms

next_working_instant-within_example :
    (k : ℕ) × (next_working_instant utc saturday office ≡ saturday + k * hour_ms)
    × (k ≤ 192)
    × (is_within_working_hours utc (next_working_instant utc saturday office) office ≡ true)
unfolding includes
next_working_instant-within_example =
    next_working_instant-within utc office 1 saturday utc-IsRegular (omega arith) refl (omega arith)
      (omega arith)

abbrev queue : List Queued
queue =
    record { id = 1; type = ActionType.connect; scheduled_at = 100; dedup_key = 7 }
    ∷ record { id = 2; type = ActionType.connect; scheduled_at = 90; dedup_key = 7 }
    ∷ record { id = 3; type = ActionType.message; scheduled_at = 80; dedup_key = 8 }
    ∷ []

abbrev one_each : CapTable
one_each type = some 1

abbrev none_used : CapTable
none_used type = some 0

due_actions-MayRun_example :
    let r =
      due_actions utc pacing (λ a b. leb a b) one_each none_used (λ a. allow) queue saturday in
    All (MayRun utc pacing (λ a b. leb a b) one_each none_used (λ a. allow) saturday) r.due
    × HasFreshKeys [] r.due
    × ((is_within_working_hours utc saturday pacing.working ≡ true) ⊎ (r.due ≡ []))
due_actions-MayRun_example =
    due_actions-MayRun utc pacing (λ a b. leb a b) one_each none_used (λ a. allow) queue saturday

due_actions-le-cap_example :
    get_or (none_used ActionType.connect) 0
      + count_type ActionType.connect
          (due_actions utc pacing
            (λ a b. leb a b)
            one_each
            none_used
            (λ a. allow)
            queue
            (saturday + 50 * hour_ms)).due
    ≤ max 1 (get_or (none_used ActionType.connect) 0)
due_actions-le-cap_example =
    due_actions-le-cap utc pacing (λ a b. leb a b) one_each none_used (λ a. allow) queue
      (saturday + 50 * hour_ms) ActionType.connect 1 refl

route_reply-IsPaced_example :
    let w : Desk (List QueuedFollowUp) = record { store = small; outside = [] } in
    (q : QueuedFollowUp) × ((route_reply
        (enqueue_follow_up utc pacing 5 saturday)
        true
        saturday
        1000
        20
        3
        not_now
        w).1.outside
      ≡ w.outside ++ q ∷ [])
    × IsPaced utc pacing 20 (saturday + 1000) q
unfolding find_target find_row follows_up
route_reply-IsPaced_example =
    route_reply-IsPaced utc pacing 1 utc-IsRegular pacing-IsOpen 5 saturday 1000 20 3 true not_now
      (record { store = small; outside = [] }) lead refl refl
