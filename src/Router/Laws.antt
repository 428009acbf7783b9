-- ===== src/Router/Laws.antt =====
-- What a routed reply leaves behind.
use linkedin_outreach_agent.Prelude.{
  ℕ, ◌≡◌, refl, Bool, true, false, none, some, List, arith, All, ap, ◌∙◌, subst, set_row,
}
use linkedin_outreach_agent.Domain.{
  UserId, Time, ReplyIntent, interested, question, referral, objection, not_now, out_of_office,
  not_interested, stop, TargetStage, StopReason, TargetRow, target_suppressed, reply_routed,
  EventKind,
}
use linkedin_outreach_agent.Effects.{returned, then_eq, bind_eq, ret, ◌>>◌}
use linkedin_outreach_agent.Store.{Store}
use linkedin_outreach_agent.Store.Tables.{set_stage, record_event, find_target, list_suppression}
use linkedin_outreach_agent.Store.Funnel.{pull_target_from_funnel}
use linkedin_outreach_agent.Store.FunnelLaws.{IsStopped, IsSilent, pull_target_from_funnel_lem}
use linkedin_outreach_agent.Suppression.{
  suppress_by_target, is_suppressed, is_urn_suppressed, is_urn_suppressed-record_event, named,
  suppressed_of_find,
}
use linkedin_outreach_agent.Profile.{canonical_profile_key}
use linkedin_outreach_agent.Store.Lookups.{find_after_stage, stage_found}
use linkedin_outreach_agent.Router.{
  pulled, logged, on_store, Desk, Scheduler, RoutingOutcome, move_to, answered, followed_up,
  closed_lost, by_intent, route_reply,
}

-- The cursors and messages of a store are those of another.
abbrev SameFunnel : Store → Store → Type 0
SameFunnel s t = (t.progress ≡ s.progress) × (t.messages ≡ s.messages)

move_to-SameFunnel :
    (target : UserId) (stage : TargetStage) (s : Store) → SameFunnel s (move_to target stage s).1
unfolding move_to set_stage
move_to-SameFunnel target stage s = (ground arith, ground arith)

suppress_by_target-SameFunnel :
    (now : Time) (target : UserId) (s : Store) → SameFunnel s (suppress_by_target now target s).1
unfolding suppress_by_target record_event
suppress_by_target-SameFunnel now target s = (ground arith, ground arith)

module _ {O : Type 0} where
  answered-SameFunnel :
      (intent : ReplyIntent) (target : UserId) (stage : TargetStage) (w : Desk O)
      → SameFunnel w.store (answered intent target stage w).1.store
  unfolding answered
  answered-SameFunnel intent target stage w =
      let m = move_to-SameFunnel target stage w.store in (ground (arith, m.0), ground (arith, m.1))

  closed_lost-SameFunnel :
      (intent : ReplyIntent) (target : UserId) (b : Bool) (w : Desk O)
      → SameFunnel w.store (closed_lost intent target b w).1.store
  unfolding closed_lost
  closed_lost-SameFunnel intent target b w =
      let m = move_to-SameFunnel target TargetStage.lost w.store in
      (ground (arith, m.0), ground (arith, m.1))

  module _ (scheduler : Scheduler O) (now : Time) (delay : ℕ) (target campaign : UserId) where
    followed_up-SameFunnel :
        (intent : ReplyIntent) (w : Desk O)
        → SameFunnel w.store (followed_up scheduler now delay target campaign intent w).1.store
    unfolding followed_up
    followed_up-SameFunnel intent w =
        let m = move_to-SameFunnel target TargetStage.replied w.store in
        (ground (arith, m.0), ground (arith, m.1))

    by_intent-SameFunnel :
        (intent : ReplyIntent) (w : Desk O)
        → SameFunnel w.store (by_intent scheduler now delay target campaign intent w).1.store
    unfolding by_intent
    by_intent-SameFunnel stop w =
        let a = suppress_by_target-SameFunnel now target w.store in
        let b =
          closed_lost-SameFunnel stop target true
            (record w { store = (suppress_by_target now target w.store).1 }) in
        (ground (arith, a.0, b.0), ground (arith, a.1, b.1))
    by_intent-SameFunnel interested w =
        answered-SameFunnel interested target TargetStage.in_conversation w
    by_intent-SameFunnel question w =
        answered-SameFunnel question target TargetStage.in_conversation w
    by_intent-SameFunnel referral w = answered-SameFunnel referral target TargetStage.replied w
    by_intent-SameFunnel objection w = answered-SameFunnel objection target TargetStage.replied w
    by_intent-SameFunnel not_now w = followed_up-SameFunnel not_now w
    by_intent-SameFunnel out_of_office w = followed_up-SameFunnel out_of_office w
    by_intent-SameFunnel not_interested w = closed_lost-SameFunnel not_interested target false w

    -- A router that has the port to the sequences takes the target of every reply, of whatever intent,
    -- out of the funnel: when it is done, even by an exception, no cursor of the target is active and
    -- none of its outbound messages can still be sent.
    pub route_reply-IsStopped :
        (intent : ReplyIntent) (w : Desk O)
        → let w1 = (route_reply scheduler true now delay target campaign intent w).1 in
          All (IsStopped target) w1.store.progress × All (IsSilent target) w1.store.messages
    unfolding route_reply record_event
    route_reply-IsStopped intent w =
        let w0 : Desk O = record w {
          store = pull_target_from_funnel w.store target StopReason.reply;
        } in
        let m = by_intent-SameFunnel intent w0 in
        let p = pull_target_from_funnel_lem w.store target StopReason.reply in
        (
          subst (All (IsStopped target)) (ground (arith, m.0)) p.2,
          subst (All (IsSilent target)) (ground (arith, m.1)) p.3,
        )

-- The outcome of a reply that says stop.
abbrev pub stopped_outcome : RoutingOutcome
stopped_outcome = record {
  intent = stop;
  needs_reply = false;
  stage = some TargetStage.lost;
  suppressed = true;
  scheduled_follow_up = false;
}

suppressed_under :
    (s : Store) (now : Time) (target : UserId) (a : TargetRow) (rows : List TargetRow)
    → is_urn_suppressed
        (record (record_event s now
          (target_suppressed (canonical_profile_key a.linkedin_urn) target)
          none) { targets = rows })
        a.linkedin_urn
      ≡ true
unfolding is_urn_suppressed list_suppression
suppressed_under s now target a rows = named s now target a.linkedin_urn a.linkedin_urn refl

suppress_eq :
    (s : Store) (now : Time) (target : UserId) (a : TargetRow)
    → find_target s target ≡ some a
    → suppress_by_target now target s ≡ (
      returned (canonical_profile_key a.linkedin_urn),
      record_event s now (target_suppressed (canonical_profile_key a.linkedin_urn) target) none,
    )
unfolding suppress_by_target
suppress_eq s now target a h = rw (suppress_by_target, h)

move_eq :
    (s : Store) (target : UserId) (a : TargetRow) (stage : TargetStage)
    → find_target s target ≡ some a
    → move_to target stage s ≡ (
      returned stage,
      record s { targets = set_row (λ r. r.id) (record a { stage = stage }) s.targets },
    )
unfolding move_to
move_eq s target a stage h = rw (move_to, stage_found s target a stage h)

kept_target :
    (s : Store) (now : Time) (kind : EventKind) (target : UserId) {a : TargetRow}
    → find_target s target ≡ some a
    → find_target (record_event s now kind none) target ≡ some a
unfolding record_event find_target
kept_target s now kind target h = h

module _ {O : Type 0} (scheduler : Scheduler O) (now : Time) (delay : ℕ) (target campaign : UserId)
    (w : Desk O) (a : TargetRow) where
  by_stop :
      find_target w.store target ≡ some a
      → by_intent scheduler now delay target campaign stop w ≡ (
        returned stopped_outcome,
        record w {
          store =
              record (record_event w.store now
                (target_suppressed (canonical_profile_key a.linkedin_urn) target)
                none) {
                  targets =
                      set_row (λ r. r.id) (record a { stage = TargetStage.lost }) w.store.targets;
                };
        },
      )
  unfolding by_intent closed_lost record_event find_target
  by_stop h =
      let s1 =
        record_event w.store now (target_suppressed (canonical_profile_key a.linkedin_urn) target)
          none in
      let w1 : Desk O = record w { store = s1 } in
      then_eq (on_store (suppress_by_target now target)) (closed_lost stop target true) w w1
        (canonical_profile_key a.linkedin_urn) _
        (ap (λ r. (r.0, record w { store = r.1 })) (suppress_eq w.store now target a h))
        (bind_eq (on_store (move_to target TargetStage.lost))
          (λ st. ret (record stopped_outcome { stage = some st })) w1 _ TargetStage.lost _
          (ap (λ r. (r.0, record w { store = r.1 })) (move_eq s1 target a TargetStage.lost h)) refl)

-- The store after a stop, from the store after the pull.
abbrev stopped_store : Time → UserId → UserId → TargetRow → Store → Store
stopped_store now target campaign a s =
    record_event
      (record (record_event s now (target_suppressed (canonical_profile_key a.linkedin_urn) target)
        none) { targets = set_row (λ r. r.id) (record a { stage = TargetStage.lost }) s.targets })
      now (reply_routed target campaign stop false true false (some TargetStage.lost)) none

stopped_suppressed :
    (s : Store) (now : Time) (target campaign : UserId) (a : TargetRow)
    → find_target s target ≡ some a
    → (find_target (stopped_store now target campaign a s) target
        ≡ some (record a { stage = TargetStage.lost }))
      × (is_suppressed (stopped_store now target campaign a s) target ≡ true)
unfolding record_event
stopped_suppressed s now target campaign a h =
    let s1 =
      record_event s now (target_suppressed (canonical_profile_key a.linkedin_urn) target) none in
    let s2 : Store = record s1 {
      targets = set_row (λ r. r.id) (record a { stage = TargetStage.lost }) s.targets;
    } in
    let f =
      kept_target s2 now
        (reply_routed target campaign stop false true false (some TargetStage.lost)) target
        (find_after_stage s1 target a TargetStage.lost (
          kept_target s now (target_suppressed (canonical_profile_key a.linkedin_urn) target) target
            h)) in
    (
      f,
      suppressed_of_find (stopped_store now target campaign a s) target
            (record a { stage = TargetStage.lost }) f
          ∙ is_urn_suppressed-record_event s2 now
              (reply_routed target campaign stop false true false (some TargetStage.lost)) none
              a.linkedin_urn (suppressed_under s now target a s2.targets),
    )

module _ {O : Type 0} (scheduler : Scheduler O) (now : Time) (delay : ℕ) (target campaign : UserId)
    (w : Desk O) (a : TargetRow) where
  pulled_target :
      (b : Bool)
      → find_target w.store target ≡ some a
      → find_target (pulled b target w).1.store target ≡ some a
  unfolding pull_target_from_funnel find_target
  pulled_target true h = h
  pulled_target false h = h

  route_stop_eq :
      (b : Bool)
      → find_target w.store target ≡ some a
      → route_reply scheduler b now delay target campaign stop w ≡ (
        returned stopped_outcome,
        record (pulled b target w).1 {
          store = stopped_store now target campaign a (pulled b target w).1.store;
        },
      )
  unfolding route_reply
  route_stop_eq b h =
      let w0 = (pulled b target w).1 in
      bind_eq (pulled b target >> by_intent scheduler now delay target campaign stop)
        (logged now target campaign) w _ stopped_outcome _
        (then_eq (pulled b target) (by_intent scheduler now delay target campaign stop) w w0 tt _
          refl (by_stop scheduler now delay target campaign w0 a (pulled_target b h)))
        refl

  pulled_outside : (b : Bool) → (pulled b target w).1.outside ≡ w.outside
  pulled_outside true = refl
  pulled_outside false = refl

  -- A reply that says stop, of a target that exists: the person is suppressed, the target's stage is lost, no reply is drafted
  -- and the scheduler is not called, with a pull-out port or without.
  pub stop_suppresses :
      (b : Bool)
      → find_target w.store target ≡ some a
      → let r = route_reply scheduler b now delay target campaign stop w in
        (r.0 ≡ returned stopped_outcome)
        × (find_target r.1.store target ≡ some (record a { stage = TargetStage.lost }))
        × (is_suppressed r.1.store target ≡ true)
        × (r.1.outside ≡ w.outside)
  stop_suppresses b h =
      let p =
        stopped_suppressed (pulled b target w).1.store now target campaign a (pulled_target b h) in
      rw (route_stop_eq b h) (refl, p.0, p.1, pulled_outside b)
