-- ===== src/Scheduler/DueLaws.antt =====
-- What `dueActions` of control-plane/scheduler/src/scheduler.ts selects.
use mathlib.Core.List.{Perm, perm_middle}
use mathlib.Core.List.Perm
use linkedin_outreach_agent.Prelude.{
  ℕ, ◌+◌, ◌≤◌, ◌<◌, ◌≡◌, refl, sym, subst, max, Bool, true, false, none, some, List, [], ◌∷◌, ◌++◌,
  map, arith, includes, get_or, All, length, keep_if, Bool-cases, Option-cases, ◌⊎◌, inl, inr,
}
use linkedin_outreach_agent.Domain.{
  UserId, Time, ActionType, same_type, same_type_sound, CapTable, Decision, allow, defer, deny,
}
use linkedin_outreach_agent.Calendar.{Zone}
use linkedin_outreach_agent.Store.Sequence.{sort_by}
use linkedin_outreach_agent.Store.Order.{sort_by-perm}
use linkedin_outreach_agent.Scheduler.Window.{is_within_working_hours}
use linkedin_outreach_agent.Scheduler.{
  SchedulerConfig, Queued, SkipReason, DueResult, Selected, bump_selected, is_exhausted, refusal,
  skip, take_due, run_order, why_skipped, select, due_actions,
}

-- No key of the actions stands in the set or stands twice.
unfoldable pub HasFreshKeys : List ℕ → List Queued → Type 0
HasFreshKeys seen [] = Unit
HasFreshKeys seen (a ∷ rest) =
    (includes seen a.dedup_key ≡ false) × HasFreshKeys (a.dedup_key ∷ seen) rest

-- The actions of a type.
unfoldable pub count_type : ActionType → List Queued → ℕ
count_type type xs = length (keep_if (λ a. same_type type a.type) xs)

unfoldable pub all_of : DueResult → List Queued
all_of r = r.due ++ map (λ (s : Queued × SkipReason). s.0) r.skipped

refusal-allow : (d : Decision) → refusal d ≡ none → d ≡ allow
unfolding refusal
refusal-allow allow h = refl
refusal-allow (defer until) h = cc
refusal-allow (deny reason) h = cc

map-outside :
    (xs : List Queued)
    → map (λ (s : Queued × SkipReason). s.0) (map (λ a. (a, SkipReason.outside_working_hours)) xs)
      ≡ xs
map-outside [] = refl
map-outside (x ∷ xs) = cc (map-outside xs)

module _ (z : Zone) (cfg : SchedulerConfig) (before : UserId → UserId → Bool) (caps used : CapTable)
    (can_act : Queued → Decision) (now : Time) where
  abbrev chosen : List ℕ → Selected → List Queued → DueResult
  chosen seen sel xs = select z cfg before caps used can_act now seen sel xs

  -- What an action that is taken has passed.
  abbrev pub MayRun : Queued → Type 0
  MayRun a = (a.scheduled_at ≤ now) × (can_act a ≡ allow)

  taken :
      (seen : List ℕ) (sel : Selected) (a : Queued)
      → why_skipped z cfg before caps used can_act now seen sel a ≡ none
      → (includes seen a.dedup_key ≡ false)
        × (a.scheduled_at ≤ now)
        × (is_exhausted (caps a.type) (get_or (used a.type) 0 + sel a.type) ≡ false)
        × (can_act a ≡ allow)
  unfolding why_skipped
  taken seen sel a h =
      (ground arith, ground arith, ground arith, refusal-allow (can_act a) (ground arith))

  select_taken :
      (seen : List ℕ) (sel : Selected) (a : Queued) (rest : List Queued)
      → why_skipped z cfg before caps used can_act now seen sel a ≡ none
      → chosen seen sel (a ∷ rest)
        ≡ take_due a (chosen (a.dedup_key ∷ seen) (bump_selected sel a.type) rest)
  unfolding select
  select_taken seen sel a rest e = rw (select, e)

  select_skipped :
      (seen : List ℕ) (sel : Selected) (a : Queued) (rest : List Queued) (reason : SkipReason)
      → why_skipped z cfg before caps used can_act now seen sel a ≡ some reason
      → chosen seen sel (a ∷ rest) ≡ skip a reason (chosen seen sel rest)
  unfolding select
  select_skipped seen sel a rest reason e = rw (select, e)

  select-perm :
      (seen : List ℕ) (sel : Selected) (xs : List Queued) → Perm (all_of (chosen seen sel xs)) xs
  unfolding all_of skip take_due
  select-perm seen sel [] = unfold select in Perm.refl []
  select-perm seen sel (a ∷ rest) =
      elim (Option-cases (why_skipped z cfg before caps used can_act now seen sel a)) [
        | inl e ↦
            rw (select_taken seen sel a rest e)
              (Perm.cons a (select-perm (a.dedup_key ∷ seen) (bump_selected sel a.type) rest))
        | inr (reason, e) ↦
            rw (select_skipped seen sel a rest reason e)
              (Perm.trans (perm_middle _ _) (Perm.cons a (select-perm seen sel rest)))
      ]

  select-MayRun :
      (seen : List ℕ) (sel : Selected) (xs : List Queued)
      → All MayRun (chosen seen sel xs).due × HasFreshKeys seen (chosen seen sel xs).due
  unfolding skip take_due HasFreshKeys
  select-MayRun seen sel [] = unfold select in (tt, tt)
  select-MayRun seen sel (a ∷ rest) =
      elim (Option-cases (why_skipped z cfg before caps used can_act now seen sel a)) [
        | inl e ↦
            let (fresh, time, room, may) = taken seen sel a e in
            let (run, keys) = select-MayRun (a.dedup_key ∷ seen) (bump_selected sel a.type) rest in
            rw (select_taken seen sel a rest e) (((time, may), run), (fresh, keys))
        | inr (reason, e) ↦
            rw (select_skipped seen sel a rest reason e) (select-MayRun seen sel rest)
      ]

  below_limit :
      (other type : ActionType) (sel : Selected) (limit : ℕ)
      → other ≡ type
      → caps type ≡ some limit
      → is_exhausted (caps other) (get_or (used other) 0 + sel other) ≡ false
      → get_or (used type) 0 + sel type < limit
  unfolding is_exhausted
  below_limit other type sel limit p h room =
      let room' : is_exhausted (caps type) (get_or (used type) 0 + sel type) ≡ false =
        subst (λ t. is_exhausted (caps t) (get_or (used t) 0 + sel t) ≡ false) p room in
      let room'' : is_exhausted (some limit) (get_or (used type) 0 + sel type) ≡ false =
        rw h at room' in
      ground (arith, room'')

  select-le-cap :
      (seen : List ℕ) (sel : Selected) (xs : List Queued) (type : ActionType) (limit : ℕ)
      → caps type ≡ some limit
      → get_or (used type) 0 + sel type + count_type type (chosen seen sel xs).due
        ≤ max limit (get_or (used type) 0 + sel type)
  unfolding skip take_due count_type keep_if bump_selected
  select-le-cap seen sel [] type limit h = unfold select in omega arith
  select-le-cap seen sel (a ∷ rest) type limit h =
      elim (Option-cases (why_skipped z cfg before caps used can_act now seen sel a)) [
        | inl e ↦
            let (fresh, time, room, may) = taken seen sel a e in
            let ih =
              select-le-cap (a.dedup_key ∷ seen) (bump_selected sel a.type) rest type limit h in
            rw (select_taken seen sel a rest e) (elim (Bool-cases (same_type type a.type)) [
              | inl same ↦
                  let p : a.type ≡ type = sym (same_type_sound type a.type same) in
                  let below : get_or (used type) 0 + sel type < limit =
                    below_limit a.type type sel limit p h room in
                  rw same (omega (arith, rw same at ih))
              | inr other ↦ rw other (rw other at ih)
            ])
        | inr (reason, e) ↦
            rw (select_skipped seen sel a rest reason e) (select-le-cap seen sel rest type limit h)
      ]

-- Of the due actions, none runs before its time or without the gate's yes, and no two share a
-- key; there are none unless the working window is open.
pub due_actions-MayRun :
    (z : Zone) (cfg : SchedulerConfig) (before : UserId → UserId → Bool) (caps used : CapTable)
    (can_act : Queued → Decision) (queue : List Queued) (now : Time)
    → let r = due_actions z cfg before caps used can_act queue now in
      All (MayRun z cfg before caps used can_act now) r.due
      × HasFreshKeys [] r.due
      × ((is_within_working_hours z now cfg.working ≡ true) ⊎ (r.due ≡ []))
unfolding due_actions HasFreshKeys
due_actions-MayRun z cfg before caps used can_act queue now =
    elim (Bool-cases (is_within_working_hours z now cfg.working)) [
      | inl open_now ↦
          let (run, keys) =
            select-MayRun z cfg before caps used can_act now [] (λ k. 0)
              (sort_by (run_order z cfg before caps used can_act) queue) in
          rw (due_actions, open_now) (run, keys, inl refl)
      | inr shut ↦ rw (due_actions, shut) (tt, tt, inr refl)
    ]

-- The batch stays within the caps: for a type with a cap, what was used and what is selected do
-- not pass the cap, unless what was used did so already.
pub due_actions-le-cap :
    (z : Zone) (cfg : SchedulerConfig) (before : UserId → UserId → Bool) (caps used : CapTable)
    (can_act : Queued → Decision) (queue : List Queued) (now : Time) (type : ActionType) (limit : ℕ)
    → caps type ≡ some limit
    → get_or (used type) 0
        + count_type type (due_actions z cfg before caps used can_act queue now).due
      ≤ max limit (get_or (used type) 0)
unfolding due_actions count_type keep_if
due_actions-le-cap z cfg before caps used can_act queue now type limit h =
    elim (Bool-cases (is_within_working_hours z now cfg.working)) [
      | inl open_now ↦ rw open_now (
          omega (
            arith,
            select-le-cap z cfg before caps used can_act now [] (λ k. 0)
                (sort_by (run_order z cfg before caps used can_act) queue) type limit h,
          ))
      | inr shut ↦ rw shut (omega arith)
    ]

-- No action is lost: the due ones and the skipped ones are the queue, each as often as it was.
pub due_actions-perm :
    (z : Zone) (cfg : SchedulerConfig) (before : UserId → UserId → Bool) (caps used : CapTable)
    (can_act : Queued → Decision) (queue : List Queued) (now : Time)
    → Perm (all_of (due_actions z cfg before caps used can_act queue now)) queue
unfolding due_actions all_of
due_actions-perm z cfg before caps used can_act queue now =
    elim (Bool-cases (is_within_working_hours z now cfg.working)) [
      | inl open_now ↦
          rw (due_actions, open_now)
            (Perm.trans
              (select-perm z cfg before caps used can_act now [] (λ k. 0)
                (sort_by (run_order z cfg before caps used can_act) queue))
              (sort_by-perm (run_order z cfg before caps used can_act) queue))
      | inr shut ↦
          rw (due_actions, shut)
            (subst (λ xs. Perm xs queue) (sym (map-outside queue)) (Perm.refl queue))
    ]
