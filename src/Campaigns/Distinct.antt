-- ===== src/Campaigns/Distinct.antt =====
-- The targets of a campaign stay distinct persons
-- (addTargets of control-plane/orchestrator/src/campaigns.ts).
use linkedin_outreach_agent.Prelude.{
  true, false, ◌≡◌, refl, List, [], ◌∷◌, map, ◌==◌, ==_refl, keep_if, set_row, eq_text, All, arith,
  Bool-cases, inl, inr, ap, ◌∙◌,
}
use linkedin_outreach_agent.Domain.{UserId, Time, Text, TargetRow}
use linkedin_outreach_agent.Store.{Store}
use linkedin_outreach_agent.Store.Tables.{list_targets_by_campaign, record_event}
use linkedin_outreach_agent.Campaigns.{
  AddTargetInput, has_key, with_key, row_key, create_target, create_many_targets, to_create,
  add_targets, new_target,
}
use linkedin_outreach_agent.Campaigns.Laws.{
  IsDistinct, New, IsKeyed, urn_of, campaign_keys, eq_text_comm, fresh_targets_lem,
  fresh_targets-IsKeyed, with_key-IsKeyed,
}

-- The keys of the rows of a campaign.
abbrev keys_of : UserId → List TargetRow → List Text
keys_of c rows = map row_key (keep_if (λ t. t.campaign_id == c) rows)

-- A row that is put in its place brings no key but its own.
set_row_lacks :
    (c : UserId) (new : TargetRow) (rows : List TargetRow) (k : Text)
    → has_key (keys_of c rows) k ≡ false
    → eq_text (row_key new) k ≡ false
    → has_key (keys_of c (set_row (λ t. t.id) new rows)) k ≡ false
unfolding has_key keep_if set_row
set_row_lacks c new [] k h e = ground (arith, h, e)
set_row_lacks c new (r ∷ rs) k h e = elim (Bool-cases (r.campaign_id == c)) [
  | inl m ↦ ground (arith, h, e, m, set_row_lacks c new rs k)
  | inr m ↦ ground (arith, h, e, m, set_row_lacks c new rs k)
]

set_row-IsDistinct :
    (c : UserId) (new : TargetRow) (rows : List TargetRow)
    → (new.campaign_id == c) ≡ true
    → IsDistinct (keys_of c rows)
    → has_key (keys_of c rows) (row_key new) ≡ false
    → IsDistinct (keys_of c (set_row (λ t. t.id) new rows))
unfolding IsDistinct has_key keep_if set_row
set_row-IsDistinct c new [] own d h = rw own (refl, tt)
set_row-IsDistinct c new (r ∷ rs) own d h = elim (Bool-cases (r.campaign_id == c)) [
  | inr m ↦
      let d1 : IsDistinct (keys_of c rs) = rw m at d in
      let h1 : has_key (keys_of c rs) (row_key new) ≡ false = rw m at h in
      elim (Bool-cases (r.id == new.id)) [
        | inl e ↦ rw (e, own) (h1, d1)
        | inr e ↦ rw (e, m) (set_row-IsDistinct c new rs own d1 h1)
      ]
  | inl m ↦
      let d1 : IsDistinct (row_key r ∷ keys_of c rs) = rw m at d in
      let h1 : has_key (row_key r ∷ keys_of c rs) (row_key new) ≡ false = rw m at h in
      let h2 : has_key (keys_of c rs) (row_key new) ≡ false = ground (arith, h1) in
      elim (Bool-cases (r.id == new.id)) [
        | inl e ↦ rw (e, own) (h2, d1.1)
        | inr e ↦
            rw (e, m)
              (
                set_row_lacks c new rs (row_key r) d1.0
                    (ground (arith, h1, eq_text_comm (row_key new) (row_key r))),
                set_row-IsDistinct c new rs own d1.1 h2,
              )
      ]
]

New-set_row :
    (c : UserId) (new : TargetRow) (rows : List TargetRow) (us : List Text)
    → has_key us (row_key new) ≡ false
    → New (keys_of c rows) us
    → New (keys_of c (set_row (λ t. t.id) new rows)) us
unfolding New has_key
New-set_row c new rows [] h n = tt
New-set_row c new rows (u ∷ us) h n = (
  set_row_lacks c new rows u n.0 (ground (arith, h, eq_text_comm u (row_key new))),
  New-set_row c new rows us (ground (arith, h)) n.1,
)

create_many_targets-IsDistinct :
    (c : UserId) (ts : List AddTargetInput) (s : Store)
    → All IsKeyed ts
    → New (keys_of c s.targets) (map urn_of ts)
    → IsDistinct (map urn_of ts)
    → IsDistinct (keys_of c s.targets)
    → IsDistinct (keys_of c (create_many_targets c ts s).1.targets)
unfolding create_many_targets create_target new_target IsKeyed New IsDistinct
create_many_targets-IsDistinct c [] s k n d h = h
create_many_targets-IsDistinct c (t ∷ ts) s k n d h =
    let made = create_target c t s in
    create_many_targets-IsDistinct c ts made.1 k.1
      (New-set_row c made.0 s.targets (map urn_of ts) (ap (has_key (map urn_of ts)) k.0 ∙ d.0) n.1)
      d.1
      (set_row-IsDistinct c made.0 s.targets (==_refl c) h
        (ap (has_key (keys_of c s.targets)) k.0 ∙ n.0))

-- `addTargets` keeps the targets of the campaign on distinct persons: when no two targets of the
-- campaign have the same canonical key, no two have it afterwards, whatever wrappers of a key the
-- inputs repeat.
pub add_targets-IsDistinct :
    (now : Time) (c : UserId) (inputs : List AddTargetInput) (s : Store)
    → IsDistinct (campaign_keys c s)
    → IsDistinct (campaign_keys c (add_targets now c inputs s).1)
unfolding to_create campaign_keys add_targets list_targets_by_campaign record_event
add_targets-IsDistinct now c inputs s h =
    let fresh = fresh_targets_lem (campaign_keys c s) (map with_key inputs) in
    create_many_targets-IsDistinct c (to_create c inputs s) s
      (fresh_targets-IsKeyed (campaign_keys c s) (map with_key inputs) (with_key-IsKeyed inputs))
      fresh.0 fresh.1 h
