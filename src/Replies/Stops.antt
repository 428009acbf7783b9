-- ===== src/Replies/Stops.antt =====
-- What a reply that was routed has done to its target.
use linkedin_outreach_agent.Prelude.{
  ◌≡◌, sym, ap, ◌∙◌, subst, Bool, true, false, some, List, ◌∷◌, All, inl, inr, Option-cases,
  Bool-cases, String,
}
use linkedin_outreach_agent.Domain.{UserId, Time, TargetRow, TargetProgressRow, ReplyIntent}
use linkedin_outreach_agent.Effects.{
  Step, Answer, Answer-cases, pair_eq, returned, threw, bind_inv, ret, ◌>>◌,
}
use linkedin_outreach_agent.Router.{Desk, route_reply, three_days_ms}
use linkedin_outreach_agent.Router.Laws.{route_reply-IsStopped}
use linkedin_outreach_agent.Store.FunnelLaws.{IsStopped, IsSilent}
use linkedin_outreach_agent.Replies.{
  InboundMessage, Mailroom, ReplyDeps, ReplyOutcome, message_key, recorded, unmatched, seen, routed,
  has_seen, find_enrolled, on_port, on_desk, add_seen, record_inbound, classify_and_route,
  classify_and_route_only, handle_new, handle,
}

module _ {O : Type 0} where
  -- No cursor of the target is active and none of its outbound messages can still be sent.
  unfoldable pub IsOut : UserId → Desk O → Type 0
  IsOut target d = All (IsStopped target) d.store.progress × All (IsSilent target) d.store.messages

  module _ (deps : ReplyDeps O) (pullout : deps.pullout ≡ true) where
    routed-IsOut :
        (target campaign : UserId) (now : Time) (intent : ReplyIntent) (d : Desk O)
        → IsOut target
            (route_reply deps.scheduler deps.pullout now three_days_ms target campaign intent d).1
    unfolding IsOut
    routed-IsOut target campaign now intent d =
        subst
          (λ b.
            IsOut target
              (route_reply deps.scheduler b now three_days_ms target campaign intent d).1)
          (sym pullout)
          (route_reply-IsStopped deps.scheduler now three_days_ms target campaign intent d)

    -- The routing of one message, after the message is classified.
    route_step : TargetRow → UserId → ReplyIntent → Step (Mailroom O) ReplyIntent
    unfolding route_reply
    route_step target campaign intent w =
        (on_desk (
              route_reply deps.scheduler deps.pullout (deps.now w.desk.outside) three_days_ms
                target.id campaign intent)
            >> ret intent)
          w

    route_step-IsOut :
        (target : TargetRow) (campaign : UserId) (intent b : ReplyIntent) (w w1 : Mailroom O)
        → route_step target campaign intent w ≡ (returned b, w1)
        → IsOut target.id w1.desk
    unfolding route_step
    route_step-IsOut target campaign intent b w w1 h =
        let r =
          route_reply deps.scheduler deps.pullout (deps.now w.desk.outside) three_days_ms target.id
            campaign intent in
        let (o, e, k) = bind_inv (on_desk r) (λ o. ret intent) w b w1 h in
        subst (λ d. IsOut target.id d) (ap (λ x. x.1.desk) k)
          (routed-IsOut target.id campaign (deps.now w.desk.outside) intent w.desk)

    classified-IsOut :
        (account : UserId) (target : TargetRow) (campaign : UserId) (m : InboundMessage)
        (b : ReplyIntent) (w w1 : Mailroom O)
        → classify_and_route deps account target campaign m w ≡ (returned b, w1)
        → IsOut target.id w1.desk
    unfolding classify_and_route classify_and_route_only route_step
    classified-IsOut account target campaign m b w w1 h =
        let (u, e, k) =
          bind_inv (record_inbound deps account target m)
            (λ u. classify_and_route_only deps target campaign m) w b w1 h in
        let w2 = (record_inbound deps account target m w).1 in
        let (intent, e2, k2) =
          bind_inv (on_port (deps.classify_reply m target)) (route_step target campaign) w2 b w1
            k in
        route_step-IsOut target campaign intent b (on_port (deps.classify_reply m target) w2).1 w1
          k2

    new-IsOut :
        (account : UserId) (p : TargetProgressRow) (t : TargetRow) (m : InboundMessage)
        (route : Bool) (w w1 : Mailroom O) (id : UserId) (thread : String) (intent : ReplyIntent)
        → handle_new deps account p t m route w ≡ (returned (routed id thread intent), w1)
        → IsOut id w1.desk
    unfolding handle_new
    new-IsOut account p t m false w w1 id thread intent h =
        let (u, e, k) =
          bind_inv (add_seen (message_key m) >> record_inbound deps account t m)
            (λ u. ret (recorded t.id m.thread_urn)) w (routed id thread intent) w1 h in
        absurd (cc (ap (λ x. x.0) k))
    new-IsOut account p t m true w w1 id thread intent h =
        let marked = record w { seen = message_key m ∷ w.seen } in
        let (found, e, k) =
          bind_inv (add_seen (message_key m) >> classify_and_route deps account t p.campaign_id m)
            (λ intent. ret (routed t.id m.thread_urn intent)) w (routed id thread intent) w1 h in
        let same : (t.id ≡ id) = cc (ap (λ x. x.0) k) in
        subst (λ i. IsOut i w1.desk) same
          (classified-IsOut account t p.campaign_id m found marked w1 (
            pair_eq (classify_and_route deps account t p.campaign_id m marked) (returned found) w1 e
              (ap (λ x. x.1) k)))

    answer_of :
        (account : UserId) (enrolled : List TargetProgressRow) (m : InboundMessage) (route : Bool)
        (w : Mailroom O) (a : Answer ReplyOutcome) (w2 : Mailroom O)
        → handle deps account enrolled m route w ≡ (a, w2)
        → (handle deps account enrolled m route w).0 ≡ a
    answer_of account enrolled m route w a w2 h = ap (λ x. x.0) h

    new_eq :
        (account : UserId) (enrolled : List TargetProgressRow) (m : InboundMessage) (route : Bool)
        (w : Mailroom O) (hit : TargetProgressRow × TargetRow)
        → find_enrolled deps.unicode m enrolled w ≡ returned (some hit)
        → has_seen w.seen (message_key m) ≡ false
        → handle deps account enrolled m route w ≡ handle_new deps account hit.0 hit.1 m route w
    unfolding handle
    new_eq account enrolled m route w hit f b = rw (handle, f, b)

    -- A reply that was routed ends the automation: when a message has been handled with the outcome
    -- that it was routed for a target, no cursor of the target is active and none of its outbound
    -- messages can still be sent, whatever the classification was. The router has the port to the
    -- sequences.
    pub handled-IsOut :
        (account : UserId) (enrolled : List TargetProgressRow) (m : InboundMessage) (route : Bool)
        (w w1 : Mailroom O) (id : UserId) (thread : String) (intent : ReplyIntent)
        → handle deps account enrolled m route w ≡ (returned (routed id thread intent), w1)
        → IsOut id w1.desk
    unfolding handle
    handled-IsOut account enrolled m route w w1 id thread intent h =
        elim (Answer-cases (find_enrolled deps.unicode m enrolled w)) [
          | inr (e, f) ↦
              absurd (cc (answer_of account enrolled m route w (threw e) w (rw (handle, f)), h))
          | inl (found, f) ↦ elim (Option-cases found) [
            | inl n ↦ absurd (
                cc (
                  answer_of account enrolled m route w (returned (unmatched m.thread_urn)) w
                      (rw (handle, f, n)),
                  h,
                ))
            | inr (hit, n) ↦ elim (Bool-cases (has_seen w.seen (message_key m))) [
              | inl b ↦ absurd (
                  cc (
                    answer_of account enrolled m route w (returned (seen m.thread_urn)) w
                        (rw (handle, f, n, b)),
                    h,
                  ))
              | inr b ↦
                  new-IsOut account hit.0 hit.1 m route w w1 id thread intent
                    (sym (new_eq account enrolled m route w hit (f ∙ ap returned n) b) ∙ h)
            ]
          ]
        ]
