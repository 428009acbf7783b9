-- ===== src/Sequences/Laws.antt =====
-- A sequence reads back as it was defined.
use mathlib.Core.List.{append_assoc, append-nil}
use linkedin_outreach_agent.Prelude.{
  set_row-absent, ℕ, suc, ◌+◌, ◌≤◌, ◌≡◌, refl, sym, ap, ◌∙◌, subst, true, not, none, List, [], ◌∷◌,
  ◌++◌, map, leb, ◌==◌, ==_refl, get_or, All, All-keep_if_of_All, keep_if, keep_if-append, find_row,
  IsMap, arith,
}
use linkedin_outreach_agent.Domain.{UserId, CampaignStepRow}
use linkedin_outreach_agent.Effects.{returned}
use linkedin_outreach_agent.Store.{Store, next_id}
use linkedin_outreach_agent.Store.Sequence.{list_campaign_steps, sort_by, insert_by}
use linkedin_outreach_agent.Sequences.Deletes.{delete_steps_eq, deleted_eq}
use linkedin_outreach_agent.Sequences.{
  SequenceStepInput, step_row, insert_step, upsert_campaign_step, delete_steps, new_step,
  insert_steps, first_bad, define_campaign_steps, to_step_view, campaign_step_views,
}

-- Every id of the table was given out.
abbrev pub GivenOut : ℕ → List CampaignStepRow → Type 0
GivenOut n rows = All (λ r. r.id ≤ n) rows

absent_above :
    (n : ℕ) (rows : List CampaignStepRow)
    → GivenOut n rows
    → find_row (λ r. r.id) (suc n) rows ≡ none
unfolding find_row
absent_above n [] h = refl
absent_above n (r ∷ rs) h = ground (arith, h.0, absent_above n rs h.1)

GivenOut-append :
    (n : ℕ) (r : CampaignStepRow) (rows : List CampaignStepRow)
    → r.id ≡ suc n
    → GivenOut n rows
    → GivenOut (suc n) (rows ++ r ∷ [])
GivenOut-append n r [] e h = (omega (arith, e), tt)
GivenOut-append n r (x ∷ xs) e h = (omega (arith, h.0), GivenOut-append n r xs e h.1)

-- The rows of the inputs, with the ids and the places that they get.
unfoldable pub defined_rows : UserId → ℕ → ℕ → List SequenceStepInput → List CampaignStepRow
defined_rows campaign order n [] = []
defined_rows campaign order n (step ∷ steps) =
    record {
      id = suc n;
      campaign_id = campaign;
      step_order = order;
      step_type = step.step_type;
      delay_seconds = get_or step.delay_seconds 0;
      note = step.note;
      body = step.body;
      reaction = step.reaction;
      enabled = get_or step.enabled true;
    }
    ∷ defined_rows campaign (order + 1) (suc n) steps

insert_steps_eq :
    (campaign : UserId) (order : ℕ) (steps : List SequenceStepInput) (s : Store)
    → GivenOut s.counter s.steps
    → (insert_steps campaign order steps s).steps
      ≡ s.steps ++ defined_rows campaign order s.counter steps
unfolding insert_steps upsert_campaign_step new_step insert_step step_row defined_rows
insert_steps_eq campaign order [] s h = sym (append-nil s.steps)
insert_steps_eq campaign order (step ∷ steps) s h =
    let row = step_row (new_step campaign order step) (next_id s) 0 true in
    let s1 : Store = (upsert_campaign_step (new_step campaign order step) s).1 in
    let e = set_row-absent (λ r. r.id) row s.steps (absent_above s.counter s.steps h) in
    insert_steps_eq campaign (order + 1) steps s1
      (subst (GivenOut (suc s.counter)) (sym e) (GivenOut-append s.counter row s.steps refl h))
    ∙ ap (λ rows. rows ++ defined_rows campaign (order + 1) (suc s.counter) steps) e
    ∙ append_assoc s.steps (row ∷ []) (defined_rows campaign (order + 1) (suc s.counter) steps)

-- The defined rows are of the campaign, and in order.
keep_if-defined :
    (campaign : UserId) (order n : ℕ) (steps : List SequenceStepInput)
    → keep_if (λ r. r.campaign_id == campaign) (defined_rows campaign order n steps)
      ≡ defined_rows campaign order n steps
unfolding defined_rows keep_if
keep_if-defined campaign order n [] = refl
keep_if-defined campaign order n (step ∷ steps) =
    ground (arith, ==_refl campaign, keep_if-defined campaign (order + 1) (suc n) steps)

sort_by-defined :
    (campaign : UserId) (order n : ℕ) (steps : List SequenceStepInput)
    → sort_by (λ a b. leb a.step_order b.step_order) (defined_rows campaign order n steps)
      ≡ defined_rows campaign order n steps
unfolding defined_rows sort_by insert_by
sort_by-defined campaign order n [] = refl
sort_by-defined campaign order n (step ∷ []) = refl
sort_by-defined campaign order n (step ∷ next ∷ steps) =
    ap
      (insert_by (λ a b. leb a.step_order b.step_order)
        (record {
          id = suc n;
          campaign_id = campaign;
          step_order = order;
          step_type = step.step_type;
          delay_seconds = get_or step.delay_seconds 0;
          note = step.note;
          body = step.body;
          reaction = step.reaction;
          enabled = get_or step.enabled true;
        }))
      (sort_by-defined campaign (order + 1) (suc n) (next ∷ steps))
    ∙ ground arith

dropped_rest :
    (campaign : UserId) (rows : List CampaignStepRow)
    → keep_if (λ r. r.campaign_id == campaign) (keep_if (λ r. not (r.campaign_id == campaign)) rows)
      ≡ []
unfolding keep_if
dropped_rest campaign [] = refl
dropped_rest campaign (r ∷ rs) = ground (arith, dropped_rest campaign rs)

define_next :
    (campaign : UserId) (steps : List SequenceStepInput) (s : Store)
    → first_bad steps ≡ none
    → let t = insert_steps campaign 0 steps (delete_steps (list_campaign_steps s campaign) s) in
      define_campaign_steps campaign steps s
      ≡ (returned (map to_step_view (list_campaign_steps t campaign)), t)
unfolding define_campaign_steps
define_next campaign steps s h = rw (define_campaign_steps, h)

-- The rows after the old steps are gone and the new ones are there.
defined_eq :
    (campaign : UserId) (steps : List SequenceStepInput) (s : Store)
    → IsMap (λ r. r.id) s.steps
    → GivenOut s.counter s.steps
    → (insert_steps campaign 0 steps (delete_steps (list_campaign_steps s campaign) s)).steps
      ≡ keep_if (λ r. not (r.campaign_id == campaign)) s.steps
        ++ defined_rows campaign 0 s.counter steps
defined_eq campaign steps s m g =
    let old = list_campaign_steps s campaign in
    let s0 = delete_steps old s in
    let kept = keep_if (λ r. not (r.campaign_id == campaign)) s.steps in
    let count = (delete_steps_eq old s m).1 in
    insert_steps_eq campaign 0 steps s0 (
      subst (λ n. GivenOut n s0.steps) (sym count)
        (subst (GivenOut s.counter) (sym (deleted_eq campaign s m)) (
          All-keep_if_of_All (λ r. r.id ≤ s.counter) (λ r. not (r.campaign_id == campaign)) s.steps
            g)))
    ∙ ap (λ q. q ++ defined_rows campaign 0 s0.counter steps) (deleted_eq campaign s m)
    ∙ ap (λ n. kept ++ defined_rows campaign 0 n steps) count

-- A campaign's part of a table is what stands behind the rows of the others.
listed_eq :
    (campaign n : UserId) (steps : List SequenceStepInput) (s t : Store)
    → t.steps
      ≡ keep_if (λ r. not (r.campaign_id == campaign)) s.steps ++ defined_rows campaign 0 n steps
    → list_campaign_steps t campaign ≡ defined_rows campaign 0 n steps
unfolding list_campaign_steps
listed_eq campaign n steps s t rows =
    let of = λ (r : CampaignStepRow). r.campaign_id == campaign in
    let sorted = sort_by {A = CampaignStepRow} (λ a b. leb a.step_order b.step_order) in
    let defined = defined_rows campaign 0 n steps in
    let kept = keep_if (λ r. not (r.campaign_id == campaign)) s.steps in
    ap (λ q. sorted (keep_if of q)) rows
    ∙ ap sorted (keep_if-append of kept defined)
    ∙ ap (λ q. sorted (q ++ keep_if of defined)) (dropped_rest campaign s.steps)
    ∙ ap sorted (keep_if-defined campaign 0 n steps)
    ∙ sort_by-defined campaign 0 n steps

-- A sequence that passes the tests replaces the campaign's old one and reads back as it was given, if
-- the ids of the steps in the store differ and the counter has passed them: the answer, and a later
-- read, is one view for each step, in their order and at the places 0, 1 and so on, with the delay 0
-- and enabled where the step does not say; the steps of all other campaigns stay as they are.
pub define_campaign_steps_lem :
    (campaign : UserId) (steps : List SequenceStepInput) (s : Store)
    → IsMap (λ r. r.id) s.steps
    → GivenOut s.counter s.steps
    → first_bad steps ≡ none
    → let views = map to_step_view (defined_rows campaign 0 s.counter steps) in
      (t : Store) × (define_campaign_steps campaign steps s ≡ (returned views, t))
      × (campaign_step_views t campaign ≡ views)
      × (t.steps
          ≡ keep_if (λ r. not (r.campaign_id == campaign)) s.steps
            ++ defined_rows campaign 0 s.counter steps)
unfolding campaign_step_views
define_campaign_steps_lem campaign steps s m g h =
    let t = insert_steps campaign 0 steps (delete_steps (list_campaign_steps s campaign) s) in
    let rows = defined_eq campaign steps s m g in
    let views = ap (map to_step_view) (listed_eq campaign s.counter steps s t rows) in
    (t, define_next campaign steps s h ∙ ap (λ q. (returned q, t)) views, views, rows)
