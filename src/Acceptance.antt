-- ===== src/Acceptance.antt =====
-- `AcceptanceTick` of runtime/src/dispatch/acceptance-tick.ts: a cursor that waits for its invite
-- goes on once the person is among the account's connections. The state is the store, the count
-- of outstanding invites (the sink `onInviteAccepted`, as runtime/src/compose.ts ties it) and what
-- the ports keep outside, which have no access to the first two.
pub mod Laws
pub mod Onward
pub mod Pile
pub mod Pass
use linkedin_outreach_agent.Prelude.{
  ℕ, ◌+◌, Bool, true, false, ◌&&◌, ◌||◌, not, Option, none, some, List, [], ◌∷◌, ◌++◌, ◌==◌,
  if◌then◌else◌, eq_text, length,
}
use linkedin_outreach_agent.Domain.{
  UserId, Time, Text, json_text, ActionType, AccountSchedule, default_schedule, TargetRow,
  TargetProgressRow, TargetStage, ProgressState,
}
use linkedin_outreach_agent.Calendar.{Zone}
use linkedin_outreach_agent.Counters.Live.{Outstanding, release_invite}
use linkedin_outreach_agent.Dispatch.Advance.{advance_after_step}
use linkedin_outreach_agent.Dispatch.World.{next_action_type}
use linkedin_outreach_agent.Effects.{
  Step, Answer, returned, threw, not_found, other_error, ret, throw, ◌>>=◌, ◌>>◌,
}
use linkedin_outreach_agent.Matching.{matches_identity, context_text}
use linkedin_outreach_agent.Profile.Names.{
  is_truncated_name, first_name_is_initial, expands_initial_first_name,
}
use linkedin_outreach_agent.Store.{Store}
use linkedin_outreach_agent.Store.Sequence.{
  Patch, advance_target_progress, enabled_steps, awaiting_connection_enrollments,
}
use linkedin_outreach_agent.Store.Tables.{find_target, set_stage, merge_external_context}
use linkedin_outreach_agent.Texts.{Unicode, trim, is_filled}

pub record AcceptedConnection : Type 0 where
  pub entity_urn : Text
  pub profile_url : Option Text
  pub name : Option Text

-- `AcceptanceOutcome`; the ids are the target's, the cursor's, the account's and the campaign's.
pub data AcceptanceOutcome : Type 0 where
  connected : UserId → UserId → ℕ → UserId → UserId → Option Text → AcceptanceOutcome
  completed : UserId → UserId → UserId → UserId → Option Text → AcceptanceOutcome
  still_waiting : UserId → AcceptanceOutcome

pub record Network (O : Type 0) : Type 0 where
  pub store : Store
  pub outstanding : Outstanding
  pub outside : O

pub record AcceptanceDeps (O : Type 0) : Type 0 where
  pub read_connections : UserId → ℕ → Step O (List AcceptedConnection)
  pub connections_limit : ℕ
  pub schedule_for : Option (UserId → Option ActionType → Step O AccountSchedule)
  pub on_outcome : AcceptanceOutcome → O → O
  pub on_name_refreshed : UserId → UserId → Option Text → Text → O → O
  pub zone : Zone
  pub unicode : Unicode

-- `leadName`
unfoldable pub lead_name : TargetRow → Option Text
unfolding context_text trim
lead_name target = elim (context_text "name" target.external_context) [
  | none ↦ none
  | some n ↦ if is_filled (trim n) then some n else none
]

abbrev pub is_stored : Text → Option Text → Bool
is_stored full none = false
is_stored full (some n) = eq_text full n

-- A stored name that stays: a real one, unless its given name is an initial that `full` fills in.
unfoldable pub reads_real : Unicode → Option Text → Text → Bool
unfolding is_truncated_name first_name_is_initial expands_initial_first_name
reads_real unicode none full = false
reads_real unicode (some n) full =
    is_filled n
    && not (is_truncated_name n)
    && (not (first_name_is_initial n) || not (expands_initial_first_name unicode n full))

-- The name to write, if the early returns of `refreshTruncatedName` leave one.
unfoldable pub better_name : Unicode → Option Text → Option Text → Option Text
unfolding reads_real is_truncated_name trim
better_name unicode stored none = none
better_name unicode stored (some name) =
    let full = trim name in
    if not (is_filled full)
      || is_stored full stored
      || is_truncated_name full
      || reads_real unicode stored full
    then none
    else some full

-- `connections.find`, whose test may throw.
unfoldable pub find_accepted :
    Unicode → List AcceptedConnection → TargetRow → Answer (Option AcceptedConnection)
find_accepted unicode [] target = returned none
find_accepted unicode (c ∷ cs) target =
    let rest = find_accepted unicode cs target in
    elim (matches_identity unicode c.entity_urn c.profile_url target) [
      | none ↦ threw (other_error "URI malformed")
      | some b ↦ if b then returned (some c) else rest
    ]

-- The groups of `byAccount`, a `Map` in the order of the first enrollments.
abbrev pub Groups : Type 0
Groups = List (UserId × List TargetProgressRow)

unfoldable pub add_to_group : TargetProgressRow → Groups → Groups
add_to_group p [] = (p.account_id, p ∷ []) ∷ []
add_to_group p ((a, ps) ∷ gs) =
    if a == p.account_id then (a, ps ++ p ∷ []) ∷ gs else (a, ps) ∷ add_to_group p gs

unfoldable pub group_on : Groups → List TargetProgressRow → Groups
unfolding add_to_group
group_on gs [] = gs
group_on gs (p ∷ ps) = group_on (add_to_group p gs) ps

module _ {O : Type 0} where
  -- A port that has no access to the store.
  abbrev pub outside_only : {A : Type 0} → Step O A → Step (Network O) A
  outside_only m w = let r = m w.outside in (r.0, record w { outside = r.1 })

  abbrev pub tell : (O → O) → Step (Network O) (Unit {0})
  tell f w = (returned tt, record w { outside = f w.outside })

  abbrev pub look : {A : Type 0} → (Store → A) → Step (Network O) A
  look f w = (returned (f w.store), w)

  -- A write that throws when the row is absent.
  abbrev pub change : UserId → (Store → Option Store) → Step (Network O) (Unit {0})
  change id f w = elim (f w.store) [
    | none ↦ (threw (not_found id), w)
    | some s ↦ (returned tt, record w { store = s })
  ]

  -- `onInviteAccepted`
  unfoldable pub invite_accepted : UserId → Step (Network O) (Unit {0})
  invite_accepted account w =
      (returned tt, record w { outstanding = release_invite account w.outstanding })

  module _ (deps : AcceptanceDeps O) where
    -- `refreshTruncatedName`
    unfoldable pub refresh_truncated_name :
        TargetRow → AcceptedConnection → UserId → Step (Network O) (Option Text)
    refresh_truncated_name target accepted account =
        elim (better_name deps.unicode (lead_name target) accepted.name) [
          | none ↦ ret (lead_name target)
          | some full ↦
              change target.id
                (λ s. merge_external_context s target.id (("name", json_text full) ∷ []))
              >> tell (deps.on_name_refreshed target.id account (lead_name target) full)
              >> ret (some full)
        ]

    -- `scheduleFor?.(...) ?? DEFAULT_SCHEDULE`
    unfoldable pub accepted_schedule : UserId → Option ActionType → Step (Network O) AccountSchedule
    accepted_schedule account action = elim deps.schedule_for [
      | none ↦ ret default_schedule
      | some f ↦ outside_only (f account action)
    ]

    abbrev pub name_or : Option Text → Option Text → Option Text
    name_or none n = n
    name_or (some r) n = some r

    abbrev pub outcome_of :
        TargetProgressRow → TargetRow → Option Text → Option ProgressState → ℕ → AcceptanceOutcome
    outcome_of p target name (some ProgressState.completed) next =
        completed target.id p.id p.account_id p.campaign_id name
    outcome_of p target name _ next = connected target.id p.id next p.account_id p.campaign_id name

    abbrev pub step_or_zero : Option ℕ → ℕ
    step_or_zero none = 0
    step_or_zero (some n) = n

    -- The end of `release`, with the patch.
    unfoldable pub leave_parked :
        TargetProgressRow → TargetRow → Option Text → Patch → Step (Network O) AcceptanceOutcome
    unfolding invite_accepted
    leave_parked p target name patch =
        change p.id (λ s. advance_target_progress s p.id patch)
        >> invite_accepted p.account_id
        >> ret (outcome_of p target name patch.state (step_or_zero patch.current_step))

    -- `release`, behind the match.
    unfoldable pub accept :
        TargetProgressRow
        → TargetRow
        → AcceptedConnection
        → Time
        → Step (Network O) AcceptanceOutcome
    unfolding refresh_truncated_name accepted_schedule leave_parked
    accept p target accepted now =
        refresh_truncated_name target accepted p.account_id >>= λ resolved.
        change p.target_id (λ s. set_stage s p.target_id TargetStage.connected)
        >> look (λ s. enabled_steps s p.campaign_id)
        >>= λ steps.
            accepted_schedule p.account_id (next_action_type steps p.current_step) >>= λ schedule.
            leave_parked p target (name_or resolved (lead_name target))
              (advance_after_step deps.zone steps p.current_step now schedule)

    -- `release`
    unfoldable pub release :
        TargetProgressRow → List AcceptedConnection → Time → Step (Network O) AcceptanceOutcome
    unfolding accept
    release p connections now w = elim (find_target w.store p.target_id) [
      | none ↦ (returned (still_waiting p.id), w)
      | some target ↦ elim (find_accepted deps.unicode connections target) [
        | threw e ↦ (threw e, w)
        | returned found ↦ elim found [
          | none ↦ (returned (still_waiting p.id), w)
          | some accepted ↦ accept p target accepted now w
        ]
      ]
    ]

    -- The inner loop of `runTick`.
    unfoldable pub release_all :
        List AcceptedConnection
        → Time
        → List TargetProgressRow
        → Step (Network O) (List AcceptanceOutcome)
    unfolding release
    release_all connections now [] = ret []
    release_all connections now (p ∷ ps) = release p connections now >>= λ o.
        tell (deps.on_outcome o) >> release_all connections now ps >>= λ os. ret (o ∷ os)

    -- The outer loop.
    unfoldable pub release_groups : Time → Groups → Step (Network O) (List AcceptanceOutcome)
    unfolding release_all
    release_groups now [] = ret []
    release_groups now ((account, enrolled) ∷ gs) =
        outside_only (deps.read_connections account deps.connections_limit) >>= λ connections.
        release_all connections now enrolled >>= λ os.
        release_groups now gs >>= λ rest. ret (os ++ rest)

    -- `runTick`: the accounts that were read, and the outcomes.
    unfoldable pub acceptance_tick : Time → Step (Network O) (ℕ × List AcceptanceOutcome)
    unfolding release_groups group_on
    acceptance_tick now w =
        let gs = group_on [] (awaiting_connection_enrollments w.store) in
        (release_groups now gs >>= λ os. ret (length gs, os)) w
