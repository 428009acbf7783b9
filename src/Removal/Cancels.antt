-- ===== src/Removal/Cancels.antt =====
-- Which messages a removal cancels.
use linkedin_outreach_agent.Prelude.{
  ◌≡◌, ap, ==_iff, sym, ◌∙◌, subst, some, List, ◌∷◌, ◌==◌, find_row, arith, inl, inr, Bool-cases,
}
use linkedin_outreach_agent.Domain.{UserId, MessageRow, MessageStatus, TargetRow}
use linkedin_outreach_agent.Removal.Laws.{CancelsOnly}
use linkedin_outreach_agent.Store.FunnelLaws.{IsUnsent}

abbrev cancelled : MessageRow → MessageRow
cancelled m = record m { status = MessageStatus.cancelled }

-- A cancellation is one for a larger set, and two of them are one.
pub CancelsOnly-then :
    (P Q S : UserId → Type 0)
    → ((k : UserId) → P k → S k)
    → ((k : UserId) → Q k → S k)
    → (a b c : MessageRow) → CancelsOnly P a b
    → CancelsOnly Q b c
    → CancelsOnly S a c
CancelsOnly-then P Q S f g a b c (inl e) (inl h) = inl (h ∙ e)
CancelsOnly-then P Q S f g a b c (inl e) (inr (k, d, u, h)) = inr (
  subst S (ap (λ m. m.target_id) e) (g b.target_id k),
  ap (λ m. m.direction) (sym e) ∙ d,
  subst (λ m. IsUnsent m.status) e u,
  h ∙ ap cancelled e,
)
CancelsOnly-then P Q S f g a b c (inr (k, d, u, e)) (inl h) = inr (f a.target_id k, d, u, h ∙ e)
CancelsOnly-then P Q S f g a b c (inr (k, d, u, e)) (inr (l, o, v, h)) =
    inr (f a.target_id k, d, u, h ∙ ap cancelled e)

pub CancelsOnly-widen :
    (P Q : UserId → Type 0)
    → ((k : UserId) → P k → Q k)
    → (a b : MessageRow) → CancelsOnly P a b
    → CancelsOnly Q a b
CancelsOnly-widen P Q f a b (inl e) = inl e
CancelsOnly-widen P Q f a b (inr (k, d, u, e)) = inr (f a.target_id k, d, u, e)

-- The ids of rows.
abbrev pub IsAmong : List TargetRow → UserId → Type 0
IsAmong rs k = (t : TargetRow) × (find_row (λ t. t.id) k rs ≡ some t)

pub IsAmong-head :
    (r : TargetRow) (rs : List TargetRow) (k : UserId) → k ≡ r.id → IsAmong (r ∷ rs) k
unfolding find_row
IsAmong-head r rs k e = (r, ground (arith, (==_iff r.id k).1 (sym e)))

pub IsAmong-tail :
    (r : TargetRow) (rs : List TargetRow) (k : UserId) → IsAmong rs k → IsAmong (r ∷ rs) k
unfolding find_row
IsAmong-tail r rs k (t, h) = elim (Bool-cases (r.id == k)) [
  | inl e ↦ (r, ground (arith, e))
  | inr e ↦ (t, ground (arith, e, h))
]
