-- ===== src/Dispatch/Stagger.antt =====
-- `StaggerAllocator` of runtime/src/dispatch/stagger.ts: which day a new enrollment starts on. The map
-- of the days' occupancy is a function from the local day's number; the unbounded loop of `next` has
-- fuel.
pub mod Laws
use linkedin_outreach_agent.Prelude.{
  ℕ, zero, suc, ◌+◌, ◌*◌, Option, none, some, List, [], ◌∷◌, ltb, ◌==◌, if◌then◌else◌, get_or,
}
use linkedin_outreach_agent.Domain.{Time, AccountSchedule}
use linkedin_outreach_agent.Calendar.{Zone}
use linkedin_outreach_agent.Dispatch.Advance.{day_seconds, due_after_delay}

abbrev pub Occupancy : Type 0
Occupancy = ℕ → ℕ

abbrev pub no_one : Occupancy
no_one d = 0

-- `bump`, on the day's key.
unfoldable pub bump : Occupancy → ℕ → Occupancy
bump occ d k = if k == d then suc (occ k) else occ k

module _ (z : Zone) (now : Time) where
  -- The day against which an entry of the ledger counts.
  unfoldable pub ledger_day : Option Time → ℕ
  ledger_day none = z.day now
  ledger_day (some at) = if ltb now at then z.day at else z.day now

  -- The constructor's loop.
  unfoldable pub take_ledger : Occupancy → List (Option Time) → Occupancy
  unfolding bump ledger_day
  take_ledger occ [] = occ
  take_ledger occ (at ∷ rest) = take_ledger (bump occ (ledger_day at)) rest

  module _ (cap : ℕ) (s : AccountSchedule) where
    -- `at` of an offset in days.
    unfoldable pub slot : ℕ → Option Time
    slot zero = none
    slot (suc d) = due_after_delay z now (suc d * day_seconds) s

    unfoldable pub slot_day : ℕ → ℕ
    unfolding slot
    slot_day d = z.day (get_or (slot d) now)

    -- The loop of `next` from offset `d` on.
    unfoldable pub search : ℕ → ℕ → Occupancy → Option (Option Time × Occupancy)
    unfolding slot slot_day bump
    search zero d occ = none
    search (suc fuel) d occ =
        let rest = search fuel (d + 1) occ in
        if ltb (occ (slot_day d)) cap then some (slot d, bump occ (slot_day d)) else rest

    -- `next`
    unfoldable pub next : ℕ → Occupancy → Option (Option Time × Occupancy)
    unfolding search
    next fuel occ = search fuel 0 occ
