-- ===== src/Dispatch/SendLaws.antt =====
-- What an approved message went through when the tick reports that it was sent.
pub mod Guards
use linkedin_outreach_agent.Prelude.{
  ℕ, ◌≤◌, ◌<◌, ◌≡◌, ◌≢◌, refl, sym, ap, ◌∙◌, subst, Bool, true, false, ◌&&◌, ◌||◌, Option, none,
  some, List, arith, inl, inr, Bool-cases, Option-cases, leb, if◌then◌else◌,
}
use linkedin_outreach_agent.Domain.{
  UserId, Time, ActionType, ActionResult, same_type, ActRequest, text_payload, Account, MessageRow,
  MessageStatus, TargetProgressRow, TargetRow, StopReason, Decision, allow, defer, deny,
}
use linkedin_outreach_agent.Calendar.{Zone}
use linkedin_outreach_agent.Effects.{
  Answer, returned, threw, Step, Failure, Answer-cases, bind_next, bind_stop, try_next, try_stop,
  try, ◌>>=◌, ◌>>◌, ret,
}
use linkedin_outreach_agent.Mcp.{ActionRef}
use linkedin_outreach_agent.Store.{Store}
use linkedin_outreach_agent.Store.Tables.{find_target, count_failed_since}
use linkedin_outreach_agent.Store.Sequence.{get_target_progress_by_target}
use linkedin_outreach_agent.Suppression.{is_suppressed}
use linkedin_outreach_agent.Dispatch.World.{
  World, TickDeps, StepOutcome, CancelReason, max_send_attempts, mark, cursor_id, read,
}
use linkedin_outreach_agent.Dispatch.Outcome.{
  is_connect, cancel_approved, halt_send_lane, give_up_approved, after_connect, settle_connect,
  after_send, settle_send, after_skip, settle_skip, park_after_connect, resume_cursor,
}
use linkedin_outreach_agent.Dispatch.Send.{
  cancel_reason, is_not_before, on_result, dispatch_send, probe_send, guard_message, guard_send,
  give_up_or_halt, check_attempts, on_allowed, send_approved,
}

-- The action that an answer reports as executed.
abbrev pub executed_action : Answer (Option StepOutcome) → Option UserId
executed_action (threw e) = none
executed_action (returned none) = none
executed_action (returned (some o)) = elim o [ StepOutcome.executed c id n ↦ some id | _ ↦ none ]

module _ {W A : Type 0} where
  pub executed_bind :
      (m : Step W A) (f : A → Step W (Option StepOutcome)) (w : W) (id : UserId)
      → executed_action ((m >>= f) w).0 ≡ some id
      → (a : A) × ((m w).0 ≡ returned a) × (executed_action (f a (m w).1).0 ≡ some id)
  executed_bind m f w id h = elim (Answer-cases (m w).0) [
    | inl (a, e) ↦ (a, e, ap (λ x. executed_action x.0) (sym (bind_next m f w a e)) ∙ h)
    | inr (x, e) ↦ absurd (cc (ap (λ x. executed_action x.0) (bind_stop m f w x e), h))
  ]

  pub executed_then :
      (m : Step W A) (k : Step W (Option StepOutcome)) (w : W) (id : UserId)
      → executed_action ((m >> k) w).0 ≡ some id
      → executed_action (k (m w).1).0 ≡ some id
  executed_then m k w id h = (executed_bind m (λ a. k) w id h).2

  pub executed_try :
      (m : Step W A) (f : A → Step W (Option StepOutcome)) (w : W) (id : UserId)
      → executed_action (try m f (λ error. ret none) w).0 ≡ some id
      → (a : A) × ((m w).0 ≡ returned a) × (executed_action (f a (m w).1).0 ≡ some id)
  executed_try m f w id h = elim (Answer-cases (m w).0) [
    | inl (a, e) ↦
        (a, e, ap (λ x. executed_action x.0) (sym (try_next m f w (λ error. ret none) a e)) ∙ h)
    | inr (x, e) ↦
        absurd (cc (ap (λ x. executed_action x.0) (try_stop m f w (λ error. ret none) x e), h))
  ]

ref_eq :
    (a : ActionRef) (id : UserId) (r : ActionResult)
    → a.id ≡ id
    → a.result ≡ r
    → a ≡ record { id = id; result = r }
ref_eq a id r h k = cc

module _ {O : Type 0} (z : Zone) (deps : TickDeps O) (now : Time) (msg : MessageRow) where
  pub cancel_reports :
      (p : Option TargetProgressRow) (r : CancelReason × StopReason) (w : World O) (id : UserId)
      → executed_action (cancel_approved z deps now msg p r w).0 ≢ some id
  unfolding cancel_approved
  cancel_reports p r w id h = ground arith

  pub give_up_reports :
      (p : Option TargetProgressRow) (type : ActionType) (n : ℕ) (w : World O) (id : UserId)
      → executed_action (give_up_approved z deps now msg p type n w).0 ≢ some id
  unfolding give_up_approved
  give_up_reports p type n w id h = ground arith

  pub halt_reports :
      (type : ActionType) (w : World O) (id : UserId)
      → executed_action (halt_send_lane z deps now msg type w).0 ≢ some id
  unfolding halt_send_lane
  halt_reports type w id h = ground arith

  after_connect_reports :
      (action id : UserId) (w : World O)
      → executed_action (after_connect z deps now msg action w).0 ≡ some id
      → action ≡ id
  unfolding after_connect settle_connect
  after_connect_reports action id w h = ground arith

  after_send_reports :
      (action id : UserId) (w : World O)
      → executed_action (after_send z deps now msg action w).0 ≡ some id
      → action ≡ id
  unfolding after_send settle_send resume_cursor
  after_send_reports action id w h = ground arith

  park_reports :
      (p t : UserId) (r : ActionResult) (w : World O) (o : StepOutcome) (id : UserId)
      → (park_after_connect p t r now w).0 ≡ returned o
      → executed_action (returned (some o)) ≢ some id
  unfolding park_after_connect
  park_reports p t r w o id h = ground arith

  settle_skip_reports :
      (req : ActRequest) (a : ActionRef) (p : Option TargetProgressRow) (w : World O) (id : UserId)
      → executed_action (settle_skip z deps now msg req a p w).0 ≢ some id
  unfolding settle_skip
  settle_skip_reports req a none w id h = cc
  settle_skip_reports req a (some p) w id h = elim (Bool-cases (is_connect req)) [
    | inl e ↦
        let k =
          executed_bind (park_after_connect p.id p.target_id a.result now) (λ o. ret (some o)) w id
            (subst
              (λ b.
                executed_action
                  ((if b
                      then (park_after_connect p.id p.target_id a.result now >>= λ o. ret (some o))
                      else ret
                          (some (StepOutcome.cancelled p.id msg.id CancelReason.nothing_to_send)))
                    w).0
                ≡ some id)
              e h) in
        park_reports p.id p.target_id a.result w k.0 id k.1 k.2
    | inr e ↦ ground arith
  ]

  after_skip_reports :
      (req : ActRequest) (a : ActionRef) (w : World O) (id : UserId)
      → executed_action (after_skip z deps now msg req a w).0 ≢ some id
  unfolding after_skip settle_skip
  after_skip_reports req a w id h =
      settle_skip_reports req a
        (get_target_progress_by_target (mark now msg.id MessageStatus.cancelled w).1.store
          msg.target_id)
        (mark now msg.id MessageStatus.cancelled w).1 id
        (executed_then (mark now msg.id MessageStatus.cancelled)
          (read (λ s. get_target_progress_by_target s msg.target_id)
            >>= settle_skip z deps now msg req a)
          w id h)

  on_result_sent :
      (req : ActRequest) (a : ActionRef) (r : ActionResult) (w : World O) (id : UserId)
      → executed_action (on_result z deps now msg req a r w).0 ≡ some id
      → (a.id ≡ id) × (r ≡ ActionResult.success)
  unfolding on_result
  on_result_sent req a ActionResult.skipped w id h =
      let k = executed_try (after_skip z deps now msg req a) (λ o. ret o) w id h in
      absurd (after_skip_reports req a w id (ap executed_action k.1 ∙ k.2))
  on_result_sent req a ActionResult.success w id h = (
    landed (
        executed_then (mark now msg.id MessageStatus.sent)
          (if is_connect req
            then after_connect z deps now msg a.id
            else after_send z deps now msg a.id)
          w id h),
    refl,
  )
    where
      w1 : World O
      w1 = (mark now msg.id MessageStatus.sent w).1

      landed :
          executed_action
              ((if is_connect req
                  then after_connect z deps now msg a.id
                  else after_send z deps now msg a.id)
                w1).0
            ≡ some id
          → a.id ≡ id
      landed k = ground (arith, after_connect_reports a.id id w1, after_send_reports a.id id w1)
  on_result_sent req a _ w id h = absurd cc

  -- The executor's call that an executed outcome comes from.
  abbrev pub Performed : ActRequest → UserId → World O → Type 0
  Performed req id w =
      (deps.gate.execute (record req { payload = text_payload msg.body }) w).0
      ≡ returned (record { id = id; result = ActionResult.success })

  pub dispatch_sent :
      (req : ActRequest) (w : World O) (id : UserId)
      → executed_action (dispatch_send z deps now msg req w).0 ≡ some id
      → Performed req id w
  unfolding dispatch_send
  dispatch_sent req w id h =
      let k =
        executed_try (deps.gate.execute (record req { payload = text_payload msg.body }))
          (λ action. on_result z deps now msg req action action.result) w id h in
      let r =
        on_result_sent req k.0 k.0.result
          (deps.gate.execute (record req { payload = text_payload msg.body }) w).1 id k.2 in
      k.1 ∙ ap (λ x. returned x) (ref_eq k.0 id ActionResult.success r.0 r.1)
