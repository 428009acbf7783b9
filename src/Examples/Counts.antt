-- ===== src/Examples/Counts.antt =====
-- The theorems on executions and counters at concrete inputs.
use linkedin_outreach_agent.Prelude.{
  ◌≡◌, refl, true, false, none, some, [], ◌∷◌, includes, find_row, keep_if, arith,
}
use linkedin_outreach_agent.Domain.{ActionType, account_paused, account_resumed}
use linkedin_outreach_agent.Effects.{returned, threw, safety_deferred, later}
use linkedin_outreach_agent.Store.{Store}
use linkedin_outreach_agent.Store.Tables.{
  list_actions_by_account, find_account, find_target, find_action, record_event,
}
use linkedin_outreach_agent.Counters.{no_connects, rehydrate, stamps_of, count_invites}
use linkedin_outreach_agent.Counters.Live.{rehydrate_paused}
use linkedin_outreach_agent.Counters.Pauses.{EventsBefore, rehydrate_paused-record_event}
use linkedin_outreach_agent.Executor.{Cabin, landed, ExecutorDeps}
use linkedin_outreach_agent.Executor.Laws.{Call, run}
use linkedin_outreach_agent.Executor.Charges.{SameLimiters, run_one-deferred}
use linkedin_outreach_agent.Executor.Counted.{IsCounted, run_one-IsCounted}
use linkedin_outreach_agent.Executor.Ends.{IsEnded, run_one-IsEnded}
use linkedin_outreach_agent.Examples.Safety.{anna}
use linkedin_outreach_agent.Examples.Stores.{small, lead}

abbrev manned : Store
manned = record small { accounts = anna ∷ [] }

abbrev cabin : Cabin (Unit {0})
cabin = record {
  store = manned;
  weekly = no_connects;
  daily = λ a. none;
  outstanding = λ a. none;
  pace = λ a. none;
  outside = tt;
}

-- A page on which every action lands.
abbrev lands : ExecutorDeps (Unit {0})
lands = record {
  mint = λ a r o. (returned tt, o);
  page_for = λ a o. (returned tt, o);
  profile_url_for = λ t. returned [];
  drive = λ r t url b o. (returned landed, o);
  is_renderer_stall = λ e. false;
  recycle = λ a o. o;
  personalize = λ b t. b;
}

abbrev invite : Call (Unit {0})
invite = record {
  deps = lands;
  scheduled = 100;
  reserved = 110;
  done = 150;
  type = ActionType.connect;
  account = 7;
  target = 20;
  campaign = 3;
  body = none;
  cabin = cabin;
}

-- The same when the gate defers at the token.
abbrev deferred_invite : Call (Unit {0})
deferred_invite = record invite {
  deps = record lands { mint = λ a r o. (threw (safety_deferred (later 500)), o) };
}

run_one-deferred_example :
    ((run deferred_invite).0 ≡ threw (safety_deferred (later 500)))
    × ((run deferred_invite).1.store.actions ≡ manned.actions)
    × SameLimiters cabin (run deferred_invite).1
    × ((run deferred_invite).1.pace ≡ cabin.pace)
unfolding find_account find_target find_action find_row
run_one-deferred_example =
    run_one-deferred deferred_invite anna lead (later 500) refl refl refl refl

run_one-IsEnded_example : IsEnded (Unit {0}) invite (run invite)
unfolding find_account find_target find_row
run_one-IsEnded_example = run_one-IsEnded invite anna lead [] refl refl refl refl refl

cabin-IsCounted : IsCounted (Unit {0}) (7 ∷ []) cabin
unfolding rehydrate stamps_of count_invites list_actions_by_account includes keep_if
cabin-IsCounted = record { agree = λ now account h. ground (arith, h) }

run_one-IsCounted_example : IsCounted (Unit {0}) (7 ∷ []) (run invite).1
unfolding find_action find_row
run_one-IsCounted_example = run_one-IsCounted invite (7 ∷ []) refl cabin-IsCounted

rehydrate_paused-record_event_example :
    (rehydrate_paused (record_event manned 900 account_paused (some 7)) (7 ∷ []) (λ a. false) 7
      ≡ true)
    × (rehydrate_paused (record_event manned 900 account_resumed (some 7)) (7 ∷ []) (λ a. false) 7
        ≡ false)
unfolding EventsBefore includes
rehydrate_paused-record_event_example =
    rehydrate_paused-record_event manned 900 7 (7 ∷ []) (λ a. false) refl tt tt
