-- ===== src/Enroll/Ready.antt =====
-- The allocator finds a slot whenever it is asked.
use linkedin_outreach_agent.Prelude.{
  ℕ, suc, ◌+◌, ◌*◌, ◌≤◌, ◌<◌, ◌≡◌, refl, sym, subst, true, Option, none, some, List, [], ◌∷◌, ltb,
  get_or, includes, Bool-cases, Option-cases, inl, inr, arith, find_first,
}
use linkedin_outreach_agent.Domain.{UserId, Time, day_ms, AccountSchedule, ActionType}
use linkedin_outreach_agent.Calendar.{Zone}
use linkedin_outreach_agent.Store.{Store}
use linkedin_outreach_agent.Store.Sequence.{list_campaign_steps}
use linkedin_outreach_agent.Dispatch.Stagger.{
  Occupancy, no_one, take_ledger, ledger_day, bump, slot_day,
}
use linkedin_outreach_agent.Dispatch.Stagger.Laws.{next-Claimed}
use linkedin_outreach_agent.Enroll.Slots.{
  Allocator, later_day, ledger_end, stagger_of, next_slot, next_start, stagger_for, enroll_stagger,
  cap_of, schedule_of, limits_of, step_action, first_step_ledger,
}

-- No day from `e` on is occupied.
abbrev pub IsFreeFrom : Occupancy → ℕ → Type 0
IsFreeFrom occ e = (d : ℕ) → e ≤ d → occ d ≡ 0

-- A schedule with an hour to start at and the weekday `w`.
pub record IsUsable (w : ℕ) (s : AccountSchedule) : Type 0 where
  pub early : s.hours_start < 24
  pub active : includes s.days w ≡ true

pub record IsReady (w : ℕ) (a : Allocator) : Type 0 where
  pub room : 0 < a.cap
  pub usable : IsUsable w a.schedule
  pub free : IsFreeFrom a.occupancy a.beyond

unfoldable pub IsReadyStart : ℕ → Option Allocator → Type 0
IsReadyStart w none = Unit
IsReadyStart w (some a) = IsReady w a

IsFreeFrom-bump :
    (occ : Occupancy) (d e : ℕ) → IsFreeFrom occ e → IsFreeFrom (bump occ d) (later_day e (suc d))
unfolding bump
IsFreeFrom-bump occ d e h k le = ground (arith, h k)

module _ (z : Zone) (now : Time) where
  IsFreeFrom-take_ledger :
      (ledger : List (Option Time)) (occ : Occupancy) (e : ℕ)
      → IsFreeFrom occ e
      → IsFreeFrom (take_ledger z now occ ledger) (later_day e (ledger_end z now ledger))
  unfolding take_ledger ledger_end
  IsFreeFrom-take_ledger [] occ e h k le = h k (ground (arith, le))
  IsFreeFrom-take_ledger (at ∷ rest) occ e h k le =
      IsFreeFrom-take_ledger rest (bump occ (ledger_day z now at))
        (later_day e (suc (ledger_day z now at))) (IsFreeFrom-bump occ (ledger_day z now at) e h) k
        (ground (arith, le))

  stagger_for-IsReadyStart :
      (w : ℕ) (s : Store) (campaign account : UserId) (type : ActionType)
      → IsUsable w (schedule_of (limits_of s account) type)
      → IsReadyStart w (stagger_for z now s campaign account type)
  unfolding stagger_for stagger_of IsReadyStart
  stagger_for-IsReadyStart w s campaign account type u =
      elim (Bool-cases (ltb 0 (cap_of (limits_of s account) type))) [
        | inl b ↦
            let cap = cap_of (limits_of s account) type in
            let ledger = first_step_ledger s campaign in
            let made = stagger_of z now cap (schedule_of (limits_of s account) type) ledger in
            let e : (stagger_for z now s campaign account type ≡ some made) = rw (stagger_for, b) in
            subst (IsReadyStart w) (sym e) (record {
              room = ground (arith, b);
              usable = u;
              free = λ d le.
                  IsFreeFrom-take_ledger ledger no_one 0 (λ k le. refl) d (ground (arith, le));
            })
        | inr b ↦
            let e : (stagger_for z now s campaign account type ≡ none) = rw (stagger_for, b) in
            subst (IsReadyStart w) (sym e) tt
      ]

  -- Whichever step is first, the allocator is ready when the account's schedules are usable.
  pub enroll_stagger-IsReadyStart :
      (w : ℕ) (s : Store) (campaign account : UserId)
      → ((type : ActionType) → IsUsable w (schedule_of (limits_of s account) type))
      → IsReadyStart w (enroll_stagger z now s campaign account)
  unfolding enroll_stagger IsReadyStart
  enroll_stagger-IsReadyStart w s campaign account u =
      let made = enroll_stagger z now s campaign account in
      elim (Option-cases (find_first (λ r. r.enabled) (list_campaign_steps s campaign))) [
        | inl e ↦
            let q : (made ≡ none) = rw (enroll_stagger, e) in subst (IsReadyStart w) (sym q) tt
        | inr (first, e) ↦ elim (Option-cases (step_action first.step_type)) [
          | inl f ↦
              let q : (made ≡ none) = rw (enroll_stagger, e, f) in subst (IsReadyStart w) (sym q) tt
          | inr (type, f) ↦
              let q : (made ≡ stagger_for z now s campaign account type) =
                rw (enroll_stagger, e, f) in
              subst (IsReadyStart w) (sym q)
                (stagger_for-IsReadyStart w s campaign account type (u type))
        ]
      ]

  module _ (w : ℕ) (week : w < 7) (shift : (k : ℕ) → z.day (now + k * day_ms) ≡ z.day now + k) where
    next_slot-IsReady :
        (a : Allocator)
        → IsReady w a
        → (r : Option Time × Allocator) × (next_slot z now a ≡ some r) × IsReady w r.1
    unfolding next_slot slot_day
    next_slot-IsReady a h =
        let c =
          next-Claimed z now a.cap a.schedule w h.usable.early week h.usable.active shift
            a.occupancy a.beyond h.room h.free in
        (
          (
            c.0.0,
            record a {
              occupancy = c.0.1;
              beyond = later_day a.beyond (suc (z.day (get_or c.0.0 now)));
            },
          ),
          rw (next_slot, c.1),
          record {
            room = h.room;
            usable = h.usable;
            free =
                subst (λ r. IsFreeFrom r.1 (later_day a.beyond (suc (z.day (get_or r.0 now)))))
                  (sym c.2.result)
                  (IsFreeFrom-bump a.occupancy (slot_day z now a.cap a.schedule c.2.offset) a.beyond
                    h.free);
          },
        )

    pub next_start-IsReadyStart :
        (o : Option Allocator)
        → IsReadyStart w o
        → (r : Option Time × Option Allocator) × (next_start z now o ≡ some r) × IsReadyStart w r.1
    unfolding next_start IsReadyStart
    next_start-IsReadyStart none h = ((none, none), refl, tt)
    next_start-IsReadyStart (some a) h =
        let c = next_slot-IsReady a h in ((c.0.0, some c.0.1), rw (next_start, c.1), c.2)
