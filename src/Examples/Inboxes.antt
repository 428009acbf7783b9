-- ===== src/Examples/Inboxes.antt =====
-- The theorems on inbound messages at concrete inputs: a target that replies "later", a classifier
-- that says so, and a pass of the reply tick behind it.
use linkedin_outreach_agent.Prelude.{
  ◌≡◌, refl, true, none, some, [], ◌∷◌, find_row, eq_text, any_of,
}
use linkedin_outreach_agent.Domain.{not_now}
use linkedin_outreach_agent.Effects.{returned}
use linkedin_outreach_agent.Matching.{matches_identity, same_filled, urn_tail}
use linkedin_outreach_agent.Matching.Laws.{UrnShape, urn_of}
use linkedin_outreach_agent.Texts.{codes, trim}
use linkedin_outreach_agent.Store.Tables.{find_target, set_stage, create_message}
use linkedin_outreach_agent.Store.Funnel.{pull_target_from_funnel}
use linkedin_outreach_agent.Replies.{
  InboundMessage, Mailroom, ReplyDeps, find_enrolled, is_thread, handle,
}
use linkedin_outreach_agent.Replies.Pass.{reply_tick}
use linkedin_outreach_agent.Replies.Once.{Runs, handled_once}
use linkedin_outreach_agent.Replies.Stops.{IsOut, handled-IsOut}
use linkedin_outreach_agent.Examples.Stores.{small, cursor}
use linkedin_outreach_agent.Examples.Acceptances.{found}

abbrev later_please : InboundMessage
later_please = record {
  thread_urn = "t1";
  sender_urn = urn_of UrnShape.profile (codes "AC");
  profile_url = none;
  text = "later please";
  received_at = 90;
}

abbrev mailroom : Mailroom (Unit {0})
mailroom = record {
  desk = record { store = record small { targets = found ∷ [] }; outside = tt };
  seen = [];
  inbox_cache = λ a. none;
  thread_cache = λ a. none;
  watermarks = λ u. none;
}

abbrev readers : ReplyDeps (Unit {0})
readers = record {
  read_inbox = λ a n o. (returned (later_please ∷ []), o);
  history = some ((λ a n o. (returned [], o)), (λ a u o. (returned (later_please ∷ []), o)));
  classify_reply = λ m t o. (returned not_now, o);
  scheduler = λ f o. (returned tt, o);
  pullout = true;
  has_messages = true;
  inbox_limit = 20;
  now = λ o. 100;
  date_now = λ o. 100;
  unicode = λ t. t;
}

abbrev after_reply : Mailroom (Unit {0})
after_reply = (handle readers 7 (cursor ∷ []) later_please true mailroom).1

handled_once_example :
    let w1 = (reply_tick readers after_reply).1 in
    (handle readers 7 (cursor ∷ []) later_please true w1).1 ≡ w1
unfolding find_enrolled find_target find_row matches_identity urn_tail urn_of same_filled trim
    eq_text
handled_once_example =
    handled_once readers later_please 7 (cursor ∷ []) true mailroom
      (reply_tick readers after_reply).1 (cursor, found) refl
      (Runs.pass (Runs.stop (reply_tick readers after_reply).1)) 7 (cursor ∷ []) true

handled-IsOut_example : IsOut 20 after_reply.desk
unfolding handle find_row find_target matches_identity urn_tail urn_of same_filled trim eq_text
    any_of is_thread set_stage pull_target_from_funnel create_message
handled-IsOut_example =
    handled-IsOut readers refl 7 (cursor ∷ []) later_please true mailroom after_reply 20 "t1"
      not_now refl
