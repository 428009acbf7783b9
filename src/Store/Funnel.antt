-- ===== src/Store/Funnel.antt =====
-- `stopFunnel` and its two callers: a target's active cursors become terminal, and its outbound
-- messages that are not sent yet are cancelled.
use linkedin_outreach_agent.Prelude.{Bool, true, false, ◌&&◌, none, some, map, ◌==◌, if◌then◌else◌}
use linkedin_outreach_agent.Domain.{
  UserId, ProgressState, MessageStatus, MessageDirection, TargetProgressRow, MessageRow, StopReason,
  is_active_progress, is_cancelable_status,
}
use linkedin_outreach_agent.Store.Defs.{Store}

unfoldable pub stop_cursor :
    UserId → StopReason → ProgressState → TargetProgressRow → TargetProgressRow
stop_cursor target reason terminal p =
    if p.target_id == target && is_active_progress p.state
    then record p { state = terminal; next_step_at = none; error_message = some reason }
    else p

abbrev pub is_outbound : MessageDirection → Bool
is_outbound MessageDirection.outbound = true
is_outbound MessageDirection.inbound = false

unfoldable pub cancel_message : UserId → MessageRow → MessageRow
cancel_message target m =
    if m.target_id == target && is_outbound m.direction && is_cancelable_status m.status
    then record m { status = MessageStatus.cancelled }
    else m

unfoldable pub stop_funnel : Store → UserId → StopReason → ProgressState → Store
stop_funnel s target reason terminal = record s {
  progress = map (stop_cursor target reason terminal) s.progress;
  messages = map (cancel_message target) s.messages;
}

-- `pullTargetFromFunnel`
unfoldable pub pull_target_from_funnel : Store → UserId → StopReason → Store
unfolding stop_funnel
pull_target_from_funnel s target reason = stop_funnel s target reason ProgressState.replied

-- `excludeTargetFromFunnel`
unfoldable pub exclude_target_from_funnel : Store → UserId → StopReason → Store
unfolding stop_funnel
exclude_target_from_funnel s target reason = stop_funnel s target reason ProgressState.skipped
