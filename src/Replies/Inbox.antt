-- ===== src/Replies/Inbox.antt =====
-- The state and the ports of the reply tick.
use text.Mathlib.Text.{◌==◌ as ◌=s◌}
use linkedin_outreach_agent.Prelude.{
  ℕ, ◌-◌, String, Bool, true, false, ◌&&◌, ◌||◌, ltb, leb, Option, none, some, List, [], ◌∷◌, ◌==◌,
  if◌then◌else◌,
}
use linkedin_outreach_agent.Domain.{
  UserId, Time, Text, TargetRow, ReplyIntent, MessageDirection, ThreadRef,
}
use linkedin_outreach_agent.Effects.{Step, returned}
use linkedin_outreach_agent.Router.{Desk, Scheduler}
use linkedin_outreach_agent.Texts.{Unicode}

pub record InboundMessage : Type 0 where
  pub thread_urn : String
  pub sender_urn : Text
  pub profile_url : Option Text
  pub text : String
  pub received_at : Time

-- A row without a usable time has none.
pub record InboxThread : Type 0 where
  pub thread_urn : String
  pub participant_urn : Text
  pub profile_url : Option Text
  pub last_activity_at : Option Time

-- `ReplyOutcome`
pub data ReplyOutcome : Type 0 where
  routed : UserId → String → ReplyIntent → ReplyOutcome
  recorded : UserId → String → ReplyOutcome
  unmatched seen : String → ReplyOutcome

abbrev pub inbox_cache_ttl_ms : ℕ
inbox_cache_ttl_ms = 60_000

-- `messageKey`: the parts of the text.
pub record MessageKey : Type 0 where
  pub thread_urn : String
  pub received_at : Time
  pub text : String

abbrev pub message_key : InboundMessage → MessageKey
message_key m = record { thread_urn = m.thread_urn; received_at = m.received_at; text = m.text }

unfoldable pub same_string : String → String → Bool
same_string a b = a =s b

unfoldable pub same_key : MessageKey → MessageKey → Bool
unfolding same_string
same_key a b =
    same_string a.thread_urn b.thread_urn
    && a.received_at == b.received_at
    && same_string a.text b.text

-- `seen.has(key)`
unfoldable pub has_seen : List MessageKey → MessageKey → Bool
unfolding same_key
has_seen [] k = false
has_seen (j ∷ js) k = same_key j k || has_seen js k

abbrev pub is_inbound : MessageDirection → Bool
is_inbound MessageDirection.inbound = true
is_inbound MessageDirection.outbound = false

-- `listByThread`, as a test.
unfoldable pub is_thread : String → ThreadRef → Bool
unfolding same_string
is_thread urn (ThreadRef.pending_send a t) = false
is_thread urn (ThreadRef.thread u) = same_string u urn

abbrev pub is_last {ℓ} : {A : Type ℓ} → List A → Bool
is_last [] = true
is_last (x ∷ xs) = false

-- `threadWatermarks`
abbrev pub Watermarks : Type 0
Watermarks = String → Option Time

unfoldable pub put_mark : String → Time → Watermarks → Watermarks
unfolding same_string
put_mark urn at marks u = if same_string u urn then some at else marks u

-- `isUnchanged`
unfoldable pub is_unchanged : InboxThread → Watermarks → Bool
is_unchanged t marks = elim t.last_activity_at [
  | none ↦ false
  | some at ↦ elim (marks t.thread_urn) [ none ↦ false | some mark ↦ leb at mark ]
]

-- A cached read.
abbrev pub Cache : Type 0 → Type 0
Cache A = UserId → Option (Time × A)

unfoldable pub fresh : {A : Type 0} → Time → Option (Time × A) → Option A
fresh now none = none
fresh now (some c) = if ltb (now - c.0) inbox_cache_ttl_ms then some c.1 else none

pub record Mailroom (O : Type 0) : Type 0 where
  pub desk : Desk O
  pub seen : List MessageKey
  pub inbox_cache : Cache (List InboundMessage)
  pub thread_cache : Cache (List InboxThread)
  pub watermarks : Watermarks

-- `history` is the pair of readers that an older adapter lacks. The two clocks are read outside.
pub record ReplyDeps (O : Type 0) : Type 0 where
  pub read_inbox : UserId → ℕ → Step O (List InboundMessage)
  pub history :
      Option (
        (UserId → ℕ → Step O (List InboxThread)) × (UserId → String → Step O (List InboundMessage)))
  pub classify_reply : InboundMessage → TargetRow → Step O ReplyIntent
  pub scheduler : Scheduler O
  pub pullout : Bool
  pub has_messages : Bool
  pub inbox_limit : ℕ
  pub now : O → Time
  pub date_now : O → Time
  pub unicode : Unicode

module _ {O : Type 0} where
  abbrev pub store_inbox : UserId → Time → List InboundMessage → Step (Mailroom O) (Unit {0})
  store_inbox account now messages w = (
    returned tt,
    record w { inbox_cache = λ a. if a == account then some (now, messages) else w.inbox_cache a },
  )

  abbrev pub store_threads : UserId → Time → List InboxThread → Step (Mailroom O) (Unit {0})
  store_threads account now threads w = (
    returned tt,
    record w { thread_cache = λ a. if a == account then some (now, threads) else w.thread_cache a },
  )
