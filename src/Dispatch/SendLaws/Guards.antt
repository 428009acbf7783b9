-- ===== src/Dispatch/SendLaws/Guards.antt =====
-- The guards that a sent message has passed.
use mathlib.Core.Option.{some-injective}
use linkedin_outreach_agent.Prelude.{
  ℕ, ◌<◌, ◌≤◌, ◌≡◌, ◌≢◌, refl, ap, ◌∙◌, subst, Bool, true, false, ◌&&◌, Option, none, some, arith,
  inl, inr, Bool-cases, leb,
}
use linkedin_outreach_agent.Domain.{
  UserId, Time, ActionType, same_type, ActRequest, Account, MessageRow, StopReason,
  TargetProgressRow, TargetRow, TargetStage, ProgressState, Decision, allow, defer, deny,
}
use linkedin_outreach_agent.Calendar.{Zone}
use linkedin_outreach_agent.Effects.{returned, Step, ◌>>=◌}
use linkedin_outreach_agent.Store.{Store}
use linkedin_outreach_agent.Store.Tables.{find_target, count_failed_since}
use linkedin_outreach_agent.Store.Sequence.{get_target_progress_by_target}
use linkedin_outreach_agent.Suppression.{is_suppressed}
use linkedin_outreach_agent.Dispatch.World.{World, TickDeps, CancelReason, max_send_attempts}
use linkedin_outreach_agent.Dispatch.Send.{
  cancel_reason, is_replied, is_lost, is_not_before, probe_since, on_probe, probe_with, probe_send,
  guard_by, target_reason, guard_message, guard_kind, guard_send, give_up_or_halt, check_attempts,
  on_allowed, send_bound, send_approved,
}
use linkedin_outreach_agent.Dispatch.SendLaws.{
  executed_action, executed_bind, executed_try, cancel_reports, give_up_reports, halt_reports,
  dispatch_sent, Performed,
}

module _ {O : Type 0} (z : Zone) (deps : TickDeps O) (now : Time) (msg : MessageRow) where
  abbrev IsMessage : ActRequest → Type 0
  IsMessage req = same_type req.type ActionType.message ≡ true

  abbrev suppressed_in : Store → Bool
  suppressed_in s = deps.has_suppression && is_suppressed s msg.target_id

  abbrev cursor_in : Store → Option TargetProgressRow
  cursor_in s = get_target_progress_by_target s msg.target_id

  -- What held of the request in the world `w` at which the guards began.
  pub record Guarded (req : ActRequest) (id : UserId) (w : World O) : Type 0 where
    pub few_failures :
        deps.has_actions ≡ true
        → count_failed_since w.store msg.target_id req.type msg.created_at < max_send_attempts
    pub not_suppressed : suppressed_in w.store ≡ false
    pub there :
        IsMessage req
        → (target : TargetRow) × (find_target w.store msg.target_id ≡ some target)
          × (target.stage ≢ TargetStage.lost)
    pub not_replied :
        IsMessage req
        → (p : TargetProgressRow) → cursor_in w.store ≡ some p
        → p.state ≢ ProgressState.replied
    pub not_early :
        IsMessage req
        → (p : TargetProgressRow) (t : Time) → cursor_in w.store ≡ some p
        → p.next_step_at ≡ some t
        → t ≤ now
    pub no_reply :
        IsMessage req
        → (check : UserId → TargetRow → Option Time → Step (World O) Bool) (target : TargetRow)
        → deps.reply_probe ≡ some check
        → find_target w.store msg.target_id ≡ some target
        → (check req.account_id target (probe_since (cursor_in w.store) msg) w).0 ≡ returned false
    pub sent_from : World O
    pub performed : Performed z deps now msg req id sent_from

  -- The message was bound to a request, the safety gate allowed it, and it passed the guards.
  pub record Sent (id : UserId) (w : World O) : Type 0 where
    pub req : ActRequest
    pub account : Account
    pub bound : msg.pending_req ≡ some req
    pub known : (deps.gate.get_account req.account_id w).0 ≡ returned account
    pub allowed :
        (deps.gate.can_act account req (deps.gate.get_account req.account_id w).1).0
        ≡ returned allow
    pub guarded :
        Guarded req id (deps.gate.can_act account req (deps.gate.get_account req.account_id w).1).1

  abbrev Probe : Type 0
  Probe = UserId → TargetRow → Option Time → Step (World O) Bool

  on_probe_sent :
      (req : ActRequest) (p : Option TargetProgressRow) (b : Bool) (w : World O) (id : UserId)
      → executed_action (on_probe z deps now msg req p b w).0 ≡ some id
      → (b ≡ false) × Performed z deps now msg req id w
  unfolding on_probe
  on_probe_sent req p true w id h = absurd (ground arith)
  on_probe_sent req p false w id h = (refl, dispatch_sent z deps now msg req w id h)

  probe_with_sent :
      (req : ActRequest) (p : Option TargetProgressRow) (t : TargetRow) (o : Option Probe)
      (w : World O) (id : UserId)
      → executed_action (probe_with z deps now msg req p t o w).0 ≡ some id
      → ((check : Probe)
          → o ≡ some check
          → (check req.account_id t (probe_since p msg) w).0 ≡ returned false)
        × ((s : World O) × Performed z deps now msg req id s)
  unfolding probe_with
  probe_with_sent req p t none w id h =
      (λ check e. absurd cc, (w, dispatch_sent z deps now msg req w id h))
  probe_with_sent req p t (some check) w id h =
      let k =
        executed_try (check req.account_id t (probe_since p msg)) (on_probe z deps now msg req p) w
          id h in
      let w1 = (check req.account_id t (probe_since p msg) w).1 in
      let r = on_probe_sent req p k.0 w1 id k.2 in
      (λ other e. cc (some-injective check other e, k.1, r.0), (w1, r.1))

  probe_sent :
      (req : ActRequest) (p : Option TargetProgressRow) (t : Option TargetRow) (w : World O)
      (id : UserId)
      → executed_action (probe_send z deps now msg req p t w).0 ≡ some id
      → ((check : Probe) (target : TargetRow)
          → deps.reply_probe ≡ some check
          → t ≡ some target
          → (check req.account_id target (probe_since p msg) w).0 ≡ returned false)
        × ((s : World O) × Performed z deps now msg req id s)
  unfolding probe_send
  probe_sent req p none w id h =
      (λ check target e n. absurd cc, (w, dispatch_sent z deps now msg req w id h))
  probe_sent req p (some t) w id h =
      let r = probe_with_sent req p t deps.reply_probe w id h in
      (
        λ check target e n.
            subst (λ x. (check req.account_id x (probe_since p msg) w).0 ≡ returned false)
              (some-injective t target n) (r.0 check e),
        r.1,
      )

  guard_by_sent :
      (req : ActRequest) (p : Option TargetProgressRow) (t : Option TargetRow)
      (reason : Option (CancelReason × StopReason)) (w : World O) (id : UserId)
      → executed_action (guard_by z deps now msg req p t reason w).0 ≡ some id
      → (reason ≡ none)
        × (is_not_before p now ≡ false)
        × (executed_action (probe_send z deps now msg req p t w).0 ≡ some id)
  unfolding guard_by
  guard_by_sent req p t (some r) w id h = absurd (cancel_reports z deps now msg p r w id h)
  guard_by_sent req p t none w id h = ground arith

  -- What there is when there is no reason to cancel.
  replied_clear :
      (p q : TargetProgressRow)
      → is_replied (some p) ≡ false
      → p ≡ q
      → q.state ≢ ProgressState.replied
  unfolding is_replied
  replied_clear p q h e s = absurd (ground (arith, h, ap (λ x. x.state) e, s))

  not_replied_of :
      (p : Option TargetProgressRow)
      → is_replied p ≡ false
      → (q : TargetProgressRow) → p ≡ some q
      → q.state ≢ ProgressState.replied
  not_replied_of none h q e = absurd cc
  not_replied_of (some p) h q e = replied_clear p q h (some-injective p q e)

  reason_target :
      (t : Option TargetRow) (sup : Bool)
      → target_reason t sup ≡ none
      → (sup ≡ false) × ((x : TargetRow) × (t ≡ some x) × (x.stage ≢ TargetStage.lost))
  unfolding target_reason is_lost
  reason_target none sup h = absurd cc
  reason_target (some t) sup h =
      (ground (arith, h), (t, refl, λ e. absurd (ground (arith, h, ap is_lost e))))

  reason_clear :
      (p : Option TargetProgressRow) (t : Option TargetRow) (sup : Bool)
      → cancel_reason p t sup ≡ none
      → (is_replied p ≡ false) × (target_reason t sup ≡ none)
  unfolding cancel_reason
  reason_clear p t sup h = ground (arith, h)

  early_clear :
      (o : Option TargetProgressRow) (p : TargetProgressRow) (t : Time)
      → is_not_before o now ≡ false
      → o ≡ some p
      → p.next_step_at ≡ some t
      → t ≤ now
  unfolding is_not_before
  early_clear none p t h e n = absurd cc
  early_clear (some q) p t h e n =
      let k : q.next_step_at ≡ some t = ap (λ x. x.next_step_at) (some-injective q p e) ∙ n in
      ground (arith, h, k)

  guard_kind_sent :
      (req : ActRequest) (b : Bool) (w : World O) (id : UserId)
      → same_type req.type ActionType.message ≡ b
      → (deps.has_actions ≡ true
          → count_failed_since w.store msg.target_id req.type msg.created_at < max_send_attempts)
      → executed_action (guard_kind z deps now msg req (suppressed_in w.store) b w).0 ≡ some id
      → Guarded req id w
  unfolding guard_kind guard_message
  guard_kind_sent req true w id m few h =
      let p = cursor_in w.store in
      let t = find_target w.store msg.target_id in
      let g = guard_by_sent req p t (cancel_reason p t (suppressed_in w.store)) w id h in
      let r = reason_clear p t (suppressed_in w.store) g.0 in
      let s = reason_target t (suppressed_in w.store) r.1 in
      let c = probe_sent req p t w id g.2 in
      record {
        few_failures = few;
        not_suppressed = s.0;
        there = λ q. s.1;
        not_replied = λ q. not_replied_of p r.0;
        not_early = λ q x at. early_clear p x at g.1;
        no_reply = λ q. c.0;
        sent_from = c.1.0;
        performed = c.1.1;
      }
  guard_kind_sent req false w id m few h = elim (Bool-cases (suppressed_in w.store)) [
    | inl s ↦ absurd (
        cancel_reports z deps now msg none (CancelReason.suppressed, StopReason.suppressed) w id
          (ground arith))
    | inr s ↦ record {
      few_failures = few;
      not_suppressed = s;
      there = λ q. absurd cc;
      not_replied = λ q. absurd cc;
      not_early = λ q. absurd cc;
      no_reply = λ q. absurd cc;
      sent_from = w;
      performed = dispatch_sent z deps now msg req w id (ground arith);
    }
  ]

  give_up_or_halt_reports :
      (req : ActRequest) (n : ℕ) (w : World O) (id : UserId)
      → executed_action (give_up_or_halt z deps now msg req n w).0 ≢ some id
  unfolding give_up_or_halt
  give_up_or_halt_reports req n w id h = ground (
    arith,
    halt_reports z deps now msg req.type w id,
    give_up_reports z deps now msg (cursor_in w.store) req.type n w id,
  )

  check_attempts_sent :
      (req : ActRequest) (w : World O) (id : UserId)
      → executed_action (check_attempts z deps now msg req w).0 ≡ some id
      → Guarded req id w
  unfolding check_attempts guard_send
  check_attempts_sent req w id h = elim (Bool-cases deps.has_actions) [
    | inl a ↦
        elim (Bool-cases (
          leb max_send_attempts
            (count_failed_since w.store msg.target_id req.type msg.created_at))) [
              | inl e ↦ absurd (
                  give_up_or_halt_reports req
                    (count_failed_since w.store msg.target_id req.type msg.created_at) w id
                    (ground arith))
              | inr e ↦
                  guard_kind_sent req (same_type req.type ActionType.message) w id refl
                    (λ q. ground arith) (ground arith)
            ]
    | inr a ↦
        guard_kind_sent req (same_type req.type ActionType.message) w id refl (λ q. absurd cc)
          (ground arith)
  ]

  on_allowed_sent :
      (req : ActRequest) (d : Decision) (w : World O) (id : UserId)
      → executed_action (on_allowed z deps now msg req d w).0 ≡ some id
      → (d ≡ allow) × Guarded req id w
  unfolding on_allowed
  on_allowed_sent req allow w id h = (refl, check_attempts_sent req w id h)
  on_allowed_sent req (defer t) w id h = absurd cc
  on_allowed_sent req (deny r) w id h = absurd cc

  send_bound-Sent :
      (o : Option ActRequest) (w : World O) (id : UserId)
      → msg.pending_req ≡ o
      → executed_action (send_bound z deps now msg o w).0 ≡ some id
      → Sent id w
  unfolding send_bound
  send_bound-Sent none w id e h = absurd cc
  send_bound-Sent (some req) w id e h =
      let a =
        executed_bind (deps.gate.get_account req.account_id)
          (λ account. deps.gate.can_act account req >>= on_allowed z deps now msg req) w id h in
      let w1 = (deps.gate.get_account req.account_id w).1 in
      let d = executed_bind (deps.gate.can_act a.0 req) (on_allowed z deps now msg req) w1 id a.2 in
      let r = on_allowed_sent req d.0 (deps.gate.can_act a.0 req w1).1 id d.2 in
      record {
        req = req;
        account = a.0;
        bound = e;
        known = a.1;
        allowed = d.1 ∙ ap (λ x. returned x) r.0;
        guarded = r.1;
      }

  -- An approved message that the tick reports as sent was bound to a request that the safety gate
  -- allowed, had failed fewer than five times, was not suppressed, and was sent by a call of the
  -- executor with the message's own body whose row says success; if it is a message, its target was
  -- there and not lost, had not replied, its time had come, and the reply probe said no: a probe that
  -- throws sends nothing.
  pub send_approved-Sent :
      (w : World O) (id : UserId)
      → executed_action (send_approved z deps now msg w).0 ≡ some id
      → Sent id w
  unfolding send_approved
  send_approved-Sent w id h = send_bound-Sent msg.pending_req w id refl h
