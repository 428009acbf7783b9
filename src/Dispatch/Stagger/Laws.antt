-- ===== src/Dispatch/Stagger/Laws.antt =====
-- The slot that the allocator hands out.
use native.Mathlib.Decide.{ℕ_discrete}
use linkedin_outreach_agent.Prelude.{
  ℕ, zero, suc, ◌+◌, ◌*◌, ◌≤◌, ◌<◌, ◌≡◌, ◌≢◌, refl, sym, ap, ◌∙◌, subst, true, inl, inr, Option,
  some, arith, includes, Bool-cases, ltb, get_or,
}
use linkedin_outreach_agent.Domain.{Time, AccountSchedule, day_ms}
use linkedin_outreach_agent.Calendar.{Zone}
use linkedin_outreach_agent.Dispatch.Advance.{day_seconds}
use linkedin_outreach_agent.Dispatch.AdvanceLaws.{due_after_delay_lem}
use linkedin_outreach_agent.Dispatch.Stagger.{Occupancy, bump, slot, slot_day, search, next}

-- No day gets past the cap by a claim on a day below it.
bump_le :
    (occ : Occupancy) (d cap : ℕ)
    → occ d < cap
    → ((k : ℕ) → occ k ≤ cap)
    → (k : ℕ) → bump occ d k ≤ cap
unfolding bump
bump_le occ d cap h a k = ground (arith, a k)

module _ (z : Zone) (now : Time) (cap : ℕ) (s : AccountSchedule) where
  -- The first offset from `d` on whose day has room.
  pub record Claimed (occ : Occupancy) (d : ℕ) (r : Option Time × Occupancy) : Type 0 where
    pub offset : ℕ
    pub from_offset : d ≤ offset
    pub result : r ≡ (slot z now cap s offset, bump occ (slot_day z now cap s offset))
    pub room : occ (slot_day z now cap s offset) < cap
    pub full : (e : ℕ) → d ≤ e → e < offset → cap ≤ occ (slot_day z now cap s e)

  search_finds :
      (fuel d e : ℕ) (occ : Occupancy)
      → d ≤ e
      → e < d + fuel
      → occ (slot_day z now cap s e) < cap
      → (r : Option Time × Occupancy) × (search z now cap s fuel d occ ≡ some r) × Claimed occ d r
  unfolding search
  search_finds zero d e occ le lt h = absurd (omega arith)
  search_finds (suc fuel) d e occ le lt h =
      elim (Bool-cases (ltb (occ (slot_day z now cap s d)) cap)) [
        | inl b ↦ (
          (slot z now cap s d, bump occ (slot_day z now cap s d)),
          rw b,
          record {
            offset = d;
            from_offset = omega arith;
            result = refl;
            room = ground arith;
            full = λ k le lt. absurd (omega arith);
          },
        )
        | inr b ↦
            let ne : e ≢ d = λ q. ground arith in
            let r = search_finds fuel (d + 1) e occ (omega arith) (omega arith) h in
            (
              r.0,
              rw b r.1,
              record {
                offset = r.2.offset;
                from_offset = omega (arith, r.2.from_offset);
                result = r.2.result;
                room = r.2.room;
                full = λ k le lt. elim (ℕ_discrete k d) [
                  | yes p ↦ ground arith
                  | no p ↦ r.2.full k (omega arith) lt
                ];
              },
            )
      ]

  module _ (w : ℕ) (early : s.hours_start < 24) (week : w < 7) (active : includes s.days w ≡ true)
      (shift : (k : ℕ) → z.day (now + k * day_ms) ≡ z.day now + k) where
    -- The day of an offset is not before that many days from today.
    slot_day_ge : (d : ℕ) → z.day now + d ≤ slot_day z now cap s d
    unfolding slot_day slot
    slot_day_ge zero = omega arith
    slot_day_ge (suc d) =
        let r =
          (due_after_delay_lem z now (suc d * day_seconds) s w early week active).2 (omega arith) in
        let f = r.2 in
        let dayeq : z.day (now + suc d * day_seconds * 1000) ≡ z.day now + suc d =
          ap z.day (omega arith) ∙ shift (suc d) in
        let same : slot_day z now cap s (suc d) ≡ f.on =
          ap (λ o. z.day (get_or o now)) r.1
          ∙ ap z.day f.at_on
          ∙ z.day-at f.on s.hours_start early in
        omega (arith, f.from_on, dayeq, same)

    -- Above the last occupied day there is room: with a positive cap, an active weekday and days of
    -- the length of a day, the loop of `next` ends within one more round than the first free day's
    -- number, with the earliest offset whose day has room, and no day passes the cap that was not past
    -- it before.
    pub next-Claimed :
        (occ : Occupancy) (free : ℕ)
        → 0 < cap
        → ((d : ℕ) → free ≤ d → occ d ≡ 0)
        → (r : Option Time × Occupancy) × (next z now cap s (suc free) occ ≡ some r)
          × Claimed occ 0 r
          × (((k : ℕ) → occ k ≤ cap) → (k : ℕ) → r.1 k ≤ cap)
    unfolding next
    next-Claimed occ free pos empty =
        let f =
          search_finds (suc free) 0 free occ (omega arith) (omega arith)
            (omega (arith, empty (slot_day z now cap s free) (omega (arith, slot_day_ge free)))) in
        let c = f.2 in
        (
          f.0,
          f.1,
          c,
          λ a k.
              subst (λ x. x.1 k ≤ cap) (sym c.result)
                (bump_le occ (slot_day z now cap s c.offset) cap c.room a k),
        )
