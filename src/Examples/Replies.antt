-- ===== src/Examples/Replies.antt =====
-- The theorems on the reply router at concrete inputs: a scheduler that counts its calls.
use linkedin_outreach_agent.Prelude.{ℕ, suc, ◌≡◌, refl, true, some, All, find_row}
use linkedin_outreach_agent.Domain.{stop, not_now, TargetStage}
use linkedin_outreach_agent.Effects.{returned}
use linkedin_outreach_agent.Store.Tables.{find_target}
use linkedin_outreach_agent.Store.FunnelLaws.{IsStopped, IsSilent}
use linkedin_outreach_agent.Suppression.{is_suppressed}
use linkedin_outreach_agent.Router.{Desk, Scheduler, route_reply, three_days_ms}
use linkedin_outreach_agent.Router.Laws.{stopped_outcome, route_reply-IsStopped, stop_suppresses}
use linkedin_outreach_agent.Examples.Stores.{lead, small}

abbrev counting : Scheduler ℕ
counting follow_up n = (returned tt, suc n)

abbrev desk : Desk ℕ
desk = record { store = small; outside = 0 }

route_reply-IsStopped_example :
    let w1 = (route_reply counting true 9 three_days_ms 20 3 not_now desk).1 in
    All (IsStopped 20) w1.store.progress × All (IsSilent 20) w1.store.messages
route_reply-IsStopped_example = route_reply-IsStopped counting 9 three_days_ms 20 3 not_now desk

stop_suppresses_example :
    let r = route_reply counting true 9 three_days_ms 20 3 stop desk in
    (r.0 ≡ returned stopped_outcome)
    × (find_target r.1.store 20 ≡ some (record lead { stage = TargetStage.lost }))
    × (is_suppressed r.1.store 20 ≡ true)
    × (r.1.outside ≡ 0)
unfolding find_target find_row
stop_suppresses_example = stop_suppresses counting 9 three_days_ms 20 3 desk lead true refl
