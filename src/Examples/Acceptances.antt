-- ===== src/Examples/Acceptances.antt =====
-- The theorems on acceptances at concrete inputs: one invite is out, and its target is among the
-- connections of the account.
use linkedin_outreach_agent.Prelude.{
  ◌≡◌, refl, true, none, some, [], ◌∷◌, ◌==◌, if◌then◌else◌, find_row, keep_if, arith,
}
use linkedin_outreach_agent.Domain.{ProgressState, TargetRow, TargetProgressRow}
use linkedin_outreach_agent.Calendar.Fixed.{utc}
use linkedin_outreach_agent.Counters.Live.{outstanding_invites, count_parked}
use linkedin_outreach_agent.Effects.{returned}
use linkedin_outreach_agent.Store.Sequence.{find_progress, awaiting_connection_enrollments}
use linkedin_outreach_agent.Texts.{codes}
use linkedin_outreach_agent.Profile.{is_id_char}
use linkedin_outreach_agent.Texts.{take_while}
use linkedin_outreach_agent.Matching.{matches_identity}
use linkedin_outreach_agent.Matching.Laws.{UrnShape, urn_of, matches_identity-urn_of}
use linkedin_outreach_agent.Acceptance.{
  AcceptanceDeps, AcceptedConnection, Network, release, acceptance_tick,
}
use linkedin_outreach_agent.Acceptance.Onward.{Settled, release-Settled}
use linkedin_outreach_agent.Acceptance.Pile.{IsOutstanding}
use linkedin_outreach_agent.Acceptance.Pass.{acceptance_tick-IsOutstanding}
use linkedin_outreach_agent.Examples.Stores.{small, cursor, lead}

-- A search result that wraps the id "AC".
abbrev pub found : TargetRow
found = record lead { linkedin_urn = urn_of UrnShape.search_result (codes "AC") }

abbrev parked : TargetProgressRow
parked = record cursor { state = ProgressState.awaiting_connection }

abbrev accepted : AcceptedConnection
accepted = record {
  entity_urn = urn_of UrnShape.profile (codes "AC");
  profile_url = none;
  name = some (codes "Anna Berg");
}

abbrev network : Network (Unit {0})
network = record {
  store = record small { targets = found ∷ []; progress = parked ∷ [] };
  outstanding = λ a. if a == 7 then some 1 else none;
  outside = tt;
}

abbrev ports : AcceptanceDeps (Unit {0})
ports = record {
  read_connections = λ a n o. (returned (accepted ∷ []), o);
  connections_limit = 40;
  schedule_for = none;
  on_outcome = λ r o. o;
  on_name_refreshed = λ t a old full o. o;
  zone = utc;
  unicode = λ t. t;
}

-- One invite of account 7 is out.
network-IsOutstanding : IsOutstanding network
unfolding IsOutstanding outstanding_invites count_parked awaiting_connection_enrollments keep_if
network-IsOutstanding account = ground arith

acceptance_tick-IsOutstanding_example : IsOutstanding (acceptance_tick ports 100 network).1
unfolding find_row
acceptance_tick-IsOutstanding_example =
    acceptance_tick-IsOutstanding ports 100 network (refl, tt) network-IsOutstanding

release-Settled_example :
    Settled ports 100 parked
      (accepted ∷ [])
      network
      (release ports parked (accepted ∷ []) 100 network)
unfolding find_progress find_row
release-Settled_example = release-Settled ports 100 parked (accepted ∷ []) network refl

matches_identity-urn_of_example :
    matches_identity (λ t. t) (urn_of UrnShape.profile (codes "AC")) none found ≡ some true
unfolding take_while is_id_char
matches_identity-urn_of_example =
    matches_identity-urn_of (λ t. t) 65 (67 ∷ []) refl UrnShape.profile UrnShape.search_result none
      found refl
