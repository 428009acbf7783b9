-- ===== src/Replies.antt =====
-- `ReplyTick` of runtime/src/dispatch/reply-tick.ts: inbound messages are mapped to the enrolled
-- targets, recorded, and the newest of a thread is routed.
pub mod Inbox
pub mod Pass
pub mod Seen
pub mod Once
pub mod Stops
unfoldable pub use Inbox.*
use linkedin_outreach_agent.Prelude.{
  ℕ, Bool, true, false, ◌&&◌, ◌||◌, not, ltb, leb, Option, none, some, List, [], ◌∷◌, ◌++◌, ◌==◌,
  if◌then◌else◌, length, keep_if, any_of,
}
use linkedin_outreach_agent.Domain.{
  UserId, Time, TargetRow, TargetProgressRow, MessageRow, ReplyIntent, MessageDirection,
  MessageStatus, ThreadRef,
}
use linkedin_outreach_agent.Effects.{Step, Answer, returned, threw, other_error, ret, ◌>>=◌, ◌>>◌}
use linkedin_outreach_agent.Acceptance.{Groups, group_on}
use linkedin_outreach_agent.Matching.{matches_identity}
use linkedin_outreach_agent.Router.{Desk, Scheduler, route_reply, three_days_ms}
use linkedin_outreach_agent.Store.Sequence.{active_enrollments, sort_by, insert_by}
use linkedin_outreach_agent.Store.Tables.{find_target, create_message}
use linkedin_outreach_agent.Texts.{Unicode}

-- `matchesTarget`; `none` is the error of a malformed escape.
unfoldable pub matches_target : Unicode → InboundMessage → TargetRow → Option Bool
matches_target unicode m target = matches_identity unicode m.sender_urn m.profile_url target

-- `oldestFirst`
unfoldable pub oldest_first : List InboundMessage → List InboundMessage
unfolding sort_by insert_by
oldest_first history = sort_by (λ a b. leb a.received_at b.received_at) history

-- The thread of a target: `threads.find`, whose test may throw.
unfoldable pub find_thread : Unicode → List InboxThread → TargetRow → Answer (Option InboxThread)
find_thread unicode [] target = returned none
find_thread unicode (t ∷ ts) target =
    let rest = find_thread unicode ts target in
    elim (matches_identity unicode t.participant_urn t.profile_url target) [
      | none ↦ threw (other_error "URI malformed")
      | some b ↦ if b then returned (some t) else rest
    ]

-- The row of the transcript that `record` looks for.
unfoldable pub is_recorded : InboundMessage → MessageRow → Bool
unfolding same_string
is_recorded m row =
    is_thread m.thread_urn row.thread_ref && is_inbound row.direction && same_string row.body m.text

module _ {O : Type 0} where
  abbrev pub on_desk : {A : Type 0} → Step (Desk O) A → Step (Mailroom O) A
  on_desk m w = let r = m w.desk in (r.0, record w { desk = r.1 })

  abbrev pub on_port : {A : Type 0} → Step O A → Step (Mailroom O) A
  on_port m w =
      let r = m w.desk.outside in (r.0, record w { desk = record w.desk { outside = r.1 } })

  -- `seen.add(key)`
  unfoldable pub add_seen : MessageKey → Step (Mailroom O) (Unit {0})
  add_seen k w = (returned tt, record w { seen = k ∷ w.seen })

  -- `markThreadSeen`
  unfoldable pub mark_thread_seen : InboxThread → Step (Mailroom O) (Unit {0})
  unfolding put_mark
  mark_thread_seen t w = elim t.last_activity_at [
    | none ↦ (returned tt, w)
    | some at ↦ (returned tt, record w { watermarks = put_mark t.thread_urn at w.watermarks })
  ]

  -- The loop of `handle` over the enrollments.
  unfoldable pub find_enrolled :
      Unicode
      → InboundMessage
      → List TargetProgressRow
      → Mailroom O
      → Answer (Option (TargetProgressRow × TargetRow))
  unfolding matches_target
  find_enrolled unicode m [] w = returned none
  find_enrolled unicode m (p ∷ ps) w =
      let rest = find_enrolled unicode m ps w in
      elim (find_target w.desk.store p.target_id) [
        | none ↦ rest
        | some row ↦ elim (matches_target unicode m row) [
          | none ↦ threw (other_error "URI malformed")
          | some b ↦ if b then returned (some (p, row)) else rest
        ]
      ]

  module _ (deps : ReplyDeps O) where
    -- `readInboxCached`
    unfoldable pub read_inbox_cached : UserId → Step (Mailroom O) (List InboundMessage)
    unfolding fresh
    read_inbox_cached account w =
        let now = deps.date_now w.desk.outside in
        elim (fresh now (w.inbox_cache account)) [
          | some messages ↦ (returned messages, w)
          | none ↦
              (on_port (deps.read_inbox account deps.inbox_limit) >>= λ messages.
              store_inbox account now messages >> ret messages)
                w
        ]

    -- `readThreadsCached`
    unfoldable pub read_threads_cached :
        (UserId → ℕ → Step O (List InboxThread)) → UserId → Step (Mailroom O) (List InboxThread)
    unfolding fresh
    read_threads_cached read account w =
        let now = deps.date_now w.desk.outside in
        elim (fresh now (w.thread_cache account)) [
          | some threads ↦ (returned threads, w)
          | none ↦
              (on_port (read account deps.inbox_limit) >>= λ threads.
              store_threads account now threads >> ret threads)
                w
        ]

    -- `record`
    unfoldable pub record_inbound :
        UserId → TargetRow → InboundMessage → Step (Mailroom O) (Unit {0})
    unfolding is_recorded
    record_inbound account target m w =
        if not deps.has_messages || any_of (is_recorded m) w.desk.store.messages
        then (returned tt, w)
        else (
          returned tt,
          record w {
            desk = record w.desk {
              store =
                  (create_message w.desk.store m.received_at account target.id
                    MessageDirection.inbound m.text (ThreadRef.thread m.thread_urn) none
                    MessageStatus.sent none).1;
            };
          },
        )

    -- `classifyAndRouteOnly`
    unfoldable pub classify_and_route_only :
        TargetRow → UserId → InboundMessage → Step (Mailroom O) ReplyIntent
    unfolding route_reply
    classify_and_route_only target campaign m =
        on_port (deps.classify_reply m target) >>= λ intent w.
        (on_desk (
              route_reply deps.scheduler deps.pullout (deps.now w.desk.outside) three_days_ms
                target.id campaign intent)
            >> ret intent)
          w

    -- `classifyAndRoute`
    unfoldable pub classify_and_route :
        UserId → TargetRow → UserId → InboundMessage → Step (Mailroom O) ReplyIntent
    unfolding record_inbound classify_and_route_only
    classify_and_route account target campaign m =
        record_inbound account target m >> classify_and_route_only target campaign m

    -- `handle`, behind the match and the test of the seen-set.
    unfoldable pub handle_new :
        UserId
        → TargetProgressRow
        → TargetRow
        → InboundMessage
        → Bool
        → Step (Mailroom O) ReplyOutcome
    unfolding classify_and_route add_seen record_inbound
    handle_new account p target m false =
        add_seen (message_key m)
        >> record_inbound account target m
        >> ret (recorded target.id m.thread_urn)
    handle_new account p target m true =
        add_seen (message_key m) >> classify_and_route account target p.campaign_id m >>= λ intent.
        ret (routed target.id m.thread_urn intent)

    -- `handle`
    unfoldable pub handle :
        UserId → List TargetProgressRow → InboundMessage → Bool → Step (Mailroom O) ReplyOutcome
    unfolding find_enrolled has_seen handle_new
    handle account enrolled m route w = elim (find_enrolled deps.unicode m enrolled w) [
      | threw e ↦ (threw e, w)
      | returned found ↦ elim found [
        | none ↦ (returned (unmatched m.thread_urn), w)
        | some hit ↦ elim (has_seen w.seen (message_key m)) [
          | true ↦ (returned (seen m.thread_urn), w)
          | false ↦ handle_new account hit.0 hit.1 m route w
        ]
      ]
    ]

    -- The loop over a list of messages, all of which may be routed.
    unfoldable pub handle_all :
        UserId
        → List TargetProgressRow
        → List InboundMessage
        → Step (Mailroom O) (List ReplyOutcome)
    unfolding handle
    handle_all account enrolled [] = ret []
    handle_all account enrolled (m ∷ ms) = handle account enrolled m true >>= λ o.
        handle_all account enrolled ms >>= λ os. ret (o ∷ os)

    -- The loop over a history: only the last message may be routed.
    unfoldable pub handle_history :
        UserId → TargetProgressRow → List InboundMessage → Step (Mailroom O) (List ReplyOutcome)
    unfolding handle
    handle_history account p [] = ret []
    handle_history account p (m ∷ ms) = handle account (p ∷ []) m (is_last ms) >>= λ o.
        handle_history account p ms >>= λ os. ret (o ∷ os)
