-- ===== src/Store/Lookups.antt =====
-- What a lookup finds after an update of a row.
use linkedin_outreach_agent.Prelude.{
  ◌≡◌, some, find_row, set_row, find_row-set_row_self, find_row-key, subst,
}
use linkedin_outreach_agent.Domain.{UserId, TargetRow, TargetStage, TargetProgressRow}
use linkedin_outreach_agent.Store.Defs.{Store}
use linkedin_outreach_agent.Store.Tables.{find_target, set_stage}
use linkedin_outreach_agent.Store.Sequence.{
  Patch, find_progress, apply_patch, advance_target_progress,
}

pub find_after_patch :
    (s : Store) (id : UserId) (p : TargetProgressRow) (patch : Patch)
    → find_progress s id ≡ some p
    → find_progress
        (record s { progress = set_row (λ r. r.id) (apply_patch patch p) s.progress })
        id
      ≡ some (apply_patch patch p)
unfolding find_progress apply_patch
find_after_patch s id p patch h =
    subst
      (λ k.
        find_row (λ r. r.id) k (set_row (λ r. r.id) (apply_patch patch p) s.progress)
        ≡ some (apply_patch patch p))
      (find_row-key (λ r. r.id) id s.progress p h)
      (find_row-set_row_self (λ r. r.id) (apply_patch patch p) s.progress)

pub find_after_stage :
    (s : Store) (id : UserId) (t : TargetRow) (stage : TargetStage)
    → find_target s id ≡ some t
    → find_target
        (record s { targets = set_row (λ r. r.id) (record t { stage = stage }) s.targets })
        id
      ≡ some (record t { stage = stage })
unfolding find_target
find_after_stage s id t stage h =
    subst
      (λ k.
        find_row (λ r. r.id) k (set_row (λ r. r.id) (record t { stage = stage }) s.targets)
        ≡ some (record t { stage = stage }))
      (find_row-key (λ r. r.id) id s.targets t h)
      (find_row-set_row_self (λ r. r.id) (record t { stage = stage }) s.targets)

pub patch_found :
    (s : Store) (id : UserId) (p : TargetProgressRow) (patch : Patch)
    → find_progress s id ≡ some p
    → advance_target_progress s id patch
      ≡ some (record s { progress = set_row (λ r. r.id) (apply_patch patch p) s.progress })
unfolding advance_target_progress
patch_found s id p patch h = rw (advance_target_progress, h)

pub stage_found :
    (s : Store) (id : UserId) (t : TargetRow) (stage : TargetStage)
    → find_target s id ≡ some t
    → set_stage s id stage
      ≡ some (record s { targets = set_row (λ r. r.id) (record t { stage = stage }) s.targets })
unfolding set_stage
stage_found s id t stage h = rw (set_stage, h)
