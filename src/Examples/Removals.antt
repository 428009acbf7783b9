-- ===== src/Examples/Removals.antt =====
-- The theorems on removals at concrete inputs: of two campaigns, one target is removed by its urn.
use linkedin_outreach_agent.Prelude.{
  ℕ, ◌≡◌, refl, true, false, ◌&&◌, some, [], ◌∷◌, ◌==◌, find_row, List, Pairs,
}
use linkedin_outreach_agent.Domain.{TargetRow}
use linkedin_outreach_agent.Effects.{returned}
use linkedin_outreach_agent.Store.{Store}
use linkedin_outreach_agent.Store.Tables.{find_target, list_targets_by_campaign}
use linkedin_outreach_agent.Removal.{Missing, RemoveSelector, remove_targets}
use linkedin_outreach_agent.Removal.Laws.{IsRemoved, CancelsOnly}
use linkedin_outreach_agent.Removal.Choice.{is_named}
use linkedin_outreach_agent.Removal.Pass.{IsSelected, remove_targets-IsRemoved}
use linkedin_outreach_agent.Examples.Stores.{small, lead}

abbrev by_urn : RemoveSelector
by_urn = record { target_ids = 99 ∷ []; linkedin_urns = lead.linkedin_urn ∷ [] }

remove_targets-IsRemoved_example :
    let rows = list_targets_by_campaign small 3 in
    (n : ℕ × List Missing) × (s1 : Store) × (remove_targets 9 3 by_urn "moved on" small
      ≡ (returned n, s1))
    × ((t : TargetRow)
        → find_row (λ t. t.id) t.id rows ≡ some t
        → is_named by_urn t ≡ true
        → IsRemoved t s1)
    × ((t : TargetRow)
        → find_target small t.id ≡ some t
        → (t.campaign_id == 3 && is_named by_urn t) ≡ false
        → find_target s1 t.id ≡ some t)
    × Pairs (CancelsOnly (IsSelected rows by_urn)) small.messages s1.messages
unfolding find_row
remove_targets-IsRemoved_example =
    remove_targets-IsRemoved 9 3 by_urn "moved on" small (refl, (refl, tt))
