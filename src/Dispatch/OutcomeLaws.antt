-- ===== src/Dispatch/OutcomeLaws.antt =====
-- What settles a connect, a broken lane and an exhausted send leaves behind.
use linkedin_outreach_agent.Prelude.{
  ◌≡◌, refl, sym, true, Option, none, some, arith, any_of, set_row, ==_refl, subst,
}
use linkedin_outreach_agent.Domain.{
  UserId, Time, ActionType, ActionResult, MessageRow, TargetRow, TargetStage, TargetProgressRow,
  ProgressState, StopReason, type_code, no_invite_sent,
}
use linkedin_outreach_agent.Calendar.{Zone}
use linkedin_outreach_agent.Effects.{◌>>◌, ret, then_eq, returned}
use linkedin_outreach_agent.Store.{Store}
use linkedin_outreach_agent.Store.Tables.{find_target, set_stage, record_event}
use linkedin_outreach_agent.Store.Sequence.{
  Patch, find_progress, apply_patch, advance_target_progress,
}
use linkedin_outreach_agent.Store.Lookups.{
  find_after_patch, find_after_stage, patch_found, stage_found,
}
use linkedin_outreach_agent.Dispatch.World.{
  World, TickDeps, update, StepOutcome, awaiting_connection, already_invited, move_stage, advance,
  log_event, in_lane,
}
use linkedin_outreach_agent.Dispatch.Outcome.{parked, stopped, park_after_connect, halt_send_lane}

module _ {O : Type 0} where
  update_lem :
      (w : World O) (id : UserId) (f : Store → Option Store) (s : Store)
      → f w.store ≡ some s
      → update id f w ≡ (returned tt, record w { store = s })
  update_lem w id f s h = rw (update, h)

  advance_lem :
      (w : World O) (id : UserId) (p : TargetProgressRow) (patch : Patch)
      → find_progress w.store id ≡ some p
      → advance id patch w ≡ (
        returned tt,
        record w {
          store = record w.store {
            progress = set_row (λ r. r.id) (apply_patch patch p) w.store.progress;
          };
        },
      )
  unfolding advance
  advance_lem w id p patch h =
      update_lem w id (λ s. advance_target_progress s id patch) _ (patch_found w.store id p patch h)

  move_stage_lem :
      (w : World O) (id : UserId) (t : TargetRow) (stage : TargetStage)
      → find_target w.store id ≡ some t
      → move_stage id stage w ≡ (
        returned tt,
        record w {
          store = record w.store {
            targets = set_row (λ r. r.id) (record t { stage = stage }) w.store.targets;
          };
        },
      )
  unfolding move_stage
  move_stage_lem w id t stage h =
      update_lem w id (λ s. set_stage s id stage) _ (stage_found w.store id t stage h)

-- The cursor's state after a connect of each result, and whether an invite is outstanding.
abbrev pub connect_state : ActionResult → ProgressState
connect_state ActionResult.success = ProgressState.awaiting_connection
connect_state ActionResult.skipped = ProgressState.already_invited
connect_state _ = ProgressState.failed

abbrev pub stage_after : ActionResult → TargetStage → TargetStage
stage_after ActionResult.success old = TargetStage.invited
stage_after ActionResult.skipped old = TargetStage.invited
stage_after _ old = old

-- A connect ends in the state of its row's result, without a due time.
pub record Parked {O : Type 0} (id target : UserId) (r : ActionResult) (t : TargetRow) (w : World O)
    : Type 0 where
  pub cursor : TargetProgressRow
  pub found : find_progress w.store id ≡ some cursor
  pub state : cursor.state ≡ connect_state r
  pub undue : cursor.next_step_at ≡ none
  pub stage : find_target w.store target ≡ some (record t { stage = stage_after r t.stage })

module _ {O : Type 0} (id target : UserId) (now : Time) (w : World O) (p : TargetProgressRow)
    (t : TargetRow) where
  -- The world after the stage and the cursor are written.
  both : Patch → World O
  both patch = record w {
    store = record w.store {
      targets = set_row (λ r. r.id) (record t { stage = TargetStage.invited }) w.store.targets;
      progress = set_row (λ r. r.id) (apply_patch patch p) w.store.progress;
    };
  }

  after_both :
      (patch : Patch) (o : StepOutcome)
      → find_progress w.store id ≡ some p
      → find_target w.store target ≡ some t
      → (move_stage target TargetStage.invited >> advance id patch >> ret o) w
        ≡ (returned o, both patch)
  unfolding both find_progress
  after_both patch o h k =
      let w1 : World O = record w {
        store = record w.store {
          targets = set_row (λ r. r.id) (record t { stage = TargetStage.invited }) w.store.targets;
        };
      } in
      then_eq (move_stage target TargetStage.invited >> advance id patch) (ret o) w (both patch) tt
        (returned o, both patch)
        (then_eq (move_stage target TargetStage.invited) (advance id patch) w w1 tt
          (returned tt, both patch) (move_stage_lem w target t TargetStage.invited k)
          (advance_lem w1 id p patch h))
        refl

  stopped_lem :
      (e : StopReason)
      → find_progress w.store id ≡ some p
      → (advance id (stopped e) >> ret (StepOutcome.failed id e)) w ≡ (
        returned (StepOutcome.failed id e),
        record w {
          store = record w.store {
            progress = set_row (λ r. r.id) (apply_patch (stopped e) p) w.store.progress;
          };
        },
      )
  stopped_lem e h =
      then_eq (advance id (stopped e)) (ret (StepOutcome.failed id e)) w _ tt _
        (advance_lem w id p (stopped e) h) refl

  not_landed :
      (r : ActionResult) (e : StopReason)
      → connect_state r ≡ ProgressState.failed
      → stage_after r t.stage ≡ t.stage
      → find_progress w.store id ≡ some p
      → find_target w.store target ≡ some t
      → Parked id target r t ((advance id (stopped e) >> ret (StepOutcome.failed id e)) w).1
  unfolding find_progress find_target apply_patch
  not_landed r e c g h k = rw (stopped_lem e h) (record {
    cursor = apply_patch (stopped e) p;
    found = find_after_patch w.store id p (stopped e) h;
    state = sym c;
    undue = refl;
    stage = rw g k;
  })

  -- A connect whose row says success parks its cursor for the acceptance, one that found an invite
  -- pending ends as already invited, both with the target's stage at invited; any other result fails
  -- the cursor and leaves the stage. In each case the cursor has no due time.
  pub park_after_connect_lem :
      (r : ActionResult)
      → find_progress w.store id ≡ some p
      → find_target w.store target ≡ some t
      → Parked id target r t (park_after_connect id target r now w).1
  unfolding park_after_connect both find_progress find_target apply_patch
  park_after_connect_lem ActionResult.success h k =
      let patch = parked ProgressState.awaiting_connection now in
      rw (after_both patch (awaiting_connection id) h k) (record {
        cursor = apply_patch patch p;
        found = find_after_patch w.store id p patch h;
        state = refl;
        undue = refl;
        stage = find_after_stage w.store target t TargetStage.invited k;
      })
  park_after_connect_lem ActionResult.skipped h k =
      let patch = parked ProgressState.already_invited now in
      rw (after_both patch (already_invited id) h k) (record {
        cursor = apply_patch patch p;
        found = find_after_patch w.store id p patch h;
        state = refl;
        undue = refl;
        stage = find_after_stage w.store target t TargetStage.invited k;
      })
  park_after_connect_lem ActionResult.pending h k =
      not_landed ActionResult.pending (no_invite_sent ActionResult.pending) refl refl h k
  park_after_connect_lem ActionResult.failed h k =
      not_landed ActionResult.failed (no_invite_sent ActionResult.failed) refl refl h k
  park_after_connect_lem ActionResult.deferred h k =
      not_landed ActionResult.deferred (no_invite_sent ActionResult.deferred) refl refl h k

module _ {O : Type 0} (z : Zone) (deps : TickDeps O) (now : Time) (msg : MessageRow)
    (type : ActionType) where
  in_lane_refl : in_lane msg.account_id type (msg.account_id, type) ≡ true
  unfolding in_lane
  in_lane_refl = ground (arith, ==_refl msg.account_id, ==_refl (type_code type))

  halted_is_noop :
      (w : World O) (later : Time) (other : MessageRow)
      → any_of (in_lane other.account_id type) w.halted_lanes ≡ true
      → halt_send_lane z deps later other type w ≡ (returned none, w)
  unfolding halt_send_lane
  halted_is_noop w later other e = rw (halt_send_lane, e)

  halt_records :
      (w : World O)
      → let w1 = (halt_send_lane z deps now msg type w).1 in
        ((halt_send_lane z deps now msg type w).0 ≡ returned none)
        × (w1.store.messages ≡ w.store.messages)
        × (w1.store.progress ≡ w.store.progress)
        × (w1.store.targets ≡ w.store.targets)
        × (w1.store.actions ≡ w.store.actions)
        × (any_of (in_lane msg.account_id type) w1.halted_lanes ≡ true)
  unfolding halt_send_lane log_event record_event any_of
  halt_records w = (
    ground arith,
    ground arith,
    ground arith,
    ground arith,
    ground arith,
    ground (arith, in_lane_refl),
  )

  -- A broken lane costs no lead: the messages, the cursors, the targets and the actions stay as they
  -- are, nothing is reported, and a second halt of the same account's lane does nothing at all.
  pub halt_send_lane_lem :
      (w : World O) (later : Time) (other : MessageRow)
      → other.account_id ≡ msg.account_id
      → let w1 = (halt_send_lane z deps now msg type w).1 in
        ((halt_send_lane z deps now msg type w).0 ≡ returned none)
        × (w1.store.messages ≡ w.store.messages)
        × (w1.store.progress ≡ w.store.progress)
        × (w1.store.targets ≡ w.store.targets)
        × (w1.store.actions ≡ w.store.actions)
        × (halt_send_lane z deps later other type w1 ≡ (returned none, w1))
  halt_send_lane_lem w later other h =
      let r = halt_records w in
      let w1 = (halt_send_lane z deps now msg type w).1 in
      (
        r.0,
        r.1,
        r.2,
        r.3,
        r.4,
        halted_is_noop w1 later other
            (subst (λ a. any_of (in_lane a type) w1.halted_lanes ≡ true) (sym h) r.5),
      )
