-- ===== src/Store/Sequence.antt =====
-- The sequence store: step templates, enrollments and their cursors.
use linkedin_outreach_agent.Prelude.{
  ℕ, Bool, true, false, ◌&&◌, ◌||◌, Option, none, some, List, [], ◌∷◌, leb, ltb, ◌==◌,
  if◌then◌else◌, find_row, set_row, keep_if, find_first, get_or,
}
use linkedin_outreach_agent.Domain.{
  UserId, Time, ProgressState, CampaignStepRow, TargetProgressRow, StopReason, is_active_progress,
  EventRow,
}
use linkedin_outreach_agent.Store.Defs.{Store, next_id}

-- The stable sort that `sort` is, by insertion.
module _ {ℓ} {A : Type ℓ} (le : A → A → Bool) where
  unfoldable pub insert_by : A → List A → List A
  insert_by a [] = a ∷ []
  insert_by a (x ∷ xs) = if le a x then a ∷ x ∷ xs else x ∷ insert_by a xs

  unfoldable pub sort_by : List A → List A
  unfolding insert_by
  sort_by [] = []
  sort_by (x ∷ xs) = insert_by x (sort_by xs)

-- `listCampaignSteps`
unfoldable pub list_campaign_steps : Store → UserId → List CampaignStepRow
list_campaign_steps s campaign =
    sort_by (λ a b. leb a.step_order b.step_order)
      (keep_if (λ r. r.campaign_id == campaign) s.steps)

-- The steps that the ticks walk.
unfoldable pub enabled_steps : Store → UserId → List CampaignStepRow
enabled_steps s campaign = keep_if (λ r. r.enabled) (list_campaign_steps s campaign)

-- `getTargetProgressByTarget`
unfoldable pub get_target_progress_by_target : Store → UserId → Option TargetProgressRow
get_target_progress_by_target s target = find_first (λ p. p.target_id == target) s.progress

-- `enrollTarget`
unfoldable pub enroll_target :
    Store → Time → UserId → UserId → UserId → Option Time → TargetProgressRow × Store
enroll_target s now campaign target account next_step_at =
    elim (get_target_progress_by_target s target) [
      | some existing ↦ (existing, s)
      | none ↦
          let full : TargetProgressRow = record {
            id = next_id s;
            campaign_id = campaign;
            target_id = target;
            account_id = account;
            current_step = 0;
            state = ProgressState.in_progress;
            next_step_at = next_step_at;
            last_step_at = none;
            error_message = none;
            created_at = now;
          } in
          (full, record s { progress = set_row (λ r. r.id) full s.progress; counter = next_id s })
    ]

abbrev pub is_in_progress : ProgressState → Bool
is_in_progress ProgressState.in_progress = true
is_in_progress _ = false

abbrev pub is_awaiting_connection : ProgressState → Bool
is_awaiting_connection ProgressState.awaiting_connection = true
is_awaiting_connection _ = false

unfoldable pub is_due : Time → TargetProgressRow → Bool
is_due now p = is_in_progress p.state && (elim p.next_step_at [ none ↦ true | some t ↦ leb t now ])

unfoldable pub is_upcoming : Time → TargetProgressRow → Bool
is_upcoming now p =
    is_in_progress p.state && (elim p.next_step_at [ none ↦ false | some t ↦ ltb now t ])

-- `at(a) - at(b) || a.createdAt - b.createdAt`: a missing time is minus infinity.
abbrev pub due_order : TargetProgressRow → TargetProgressRow → Bool
due_order a b = elim a.next_step_at [
  | none ↦ elim b.next_step_at [ none ↦ leb a.created_at b.created_at | some u ↦ true ]
  | some t ↦ elim b.next_step_at [
    | none ↦ false
    | some u ↦ ltb t u || (t == u && leb a.created_at b.created_at)
  ]
]

-- `dueTargetProgress`
unfoldable pub due_target_progress : Store → Time → List TargetProgressRow
due_target_progress s now = sort_by due_order (keep_if (is_due now) s.progress)

-- `upcomingTargetProgress`
unfoldable pub upcoming_target_progress : Store → Time → List TargetProgressRow
upcoming_target_progress s now = keep_if (is_upcoming now) s.progress

abbrev pub of_account : UserId → EventRow → Bool
of_account id e = elim e.account_id [ none ↦ false | some a ↦ a == id ]

-- `awaitingConnectionEnrollments`
unfoldable pub awaiting_connection_enrollments : Store → List TargetProgressRow
awaiting_connection_enrollments s = keep_if (λ p. is_awaiting_connection p.state) s.progress

-- `activeEnrollments`
unfoldable pub active_enrollments : Store → List TargetProgressRow
active_enrollments s = keep_if (λ p. is_active_progress p.state) s.progress

-- `TargetProgressPatch`: a field that is `none` is left alone.
pub record Patch : Type 0 where
  pub current_step : Option ℕ
  pub state : Option ProgressState
  pub next_step_at : Option (Option Time)
  pub last_step_at : Option (Option Time)
  pub error_message : Option (Option StopReason)

abbrev pub no_patch : Patch
no_patch = record {
  current_step = none;
  state = none;
  next_step_at = none;
  last_step_at = none;
  error_message = none;
}

unfoldable pub apply_patch : Patch → TargetProgressRow → TargetProgressRow
apply_patch patch cur = record cur {
  current_step = get_or patch.current_step cur.current_step;
  state = get_or patch.state cur.state;
  next_step_at = get_or patch.next_step_at cur.next_step_at;
  last_step_at = get_or patch.last_step_at cur.last_step_at;
  error_message = get_or patch.error_message cur.error_message;
}

unfoldable pub find_progress : Store → UserId → Option TargetProgressRow
find_progress s id = find_row (λ r. r.id) id s.progress

-- `advanceTargetProgress`; `none` is the error that an absent row throws.
unfoldable pub advance_target_progress : Store → UserId → Patch → Option Store
advance_target_progress s id patch = elim (find_progress s id) [
  | none ↦ none
  | some cur ↦ some (record s { progress = set_row (λ r. r.id) (apply_patch patch cur) s.progress })
]

-- `InMemEventRepo.listByAccount`: the newest first.
unfoldable pub list_events_by_account : Store → UserId → List EventRow
unfolding sort_by insert_by
list_events_by_account s id = sort_by (λ a b. leb b.ts a.ts) (keep_if (of_account id) s.events)
