-- ===== src/Counters/Reads.antt =====
-- Reads of the weekly counter of runtime/src/adapters/safety-state.ts: pruning is not observed.
use linkedin_outreach_agent.Prelude.{
  ℕ, ◌≤◌, ◌≡◌, refl, sym, ◌∙◌, ap, Option, none, some, List, [], ◌∷◌, ◌==◌, ==_iff, length, keep_if,
  arith, Bool-cases, inl, inr, Option-cases,
}
use linkedin_outreach_agent.Domain.{UserId, Time}
use linkedin_outreach_agent.Counters.{Connects, put, in_recent_week, count_invites}

-- What a later window keeps of an earlier one.
keep_later :
    (now later : Time) (xs : List Time)
    → now ≤ later
    → keep_if (in_recent_week later) (keep_if (in_recent_week now) xs)
      ≡ keep_if (in_recent_week later) xs
unfolding keep_if
keep_later now later [] h = refl
keep_later now later (x ∷ xs) h = ground (arith, keep_later now later xs h)

-- The number that `count_invites` returns.
unfoldable pub fresh_count : Time → Option (List Time) → ℕ
fresh_count now none = 0
fresh_count now (some xs) = length (keep_if (in_recent_week now) xs)

pub count_invites-fresh_count :
    (now : Time) (account : UserId) (w : Connects)
    → (count_invites now account w).0 ≡ fresh_count now (w account)
unfolding count_invites fresh_count
count_invites-fresh_count now account w = elim (Option-cases (w account)) [
  | inl e ↦ rw (count_invites, e)
  | inr (xs, e) ↦ rw (count_invites, e)
]

pruned :
    (now later : Time) (read account : UserId) (w : Connects) (xs : List Time)
    → now ≤ later
    → w read ≡ some xs
    → fresh_count later (put read (keep_if (in_recent_week now) xs) w account)
      ≡ fresh_count later (w account)
unfolding fresh_count
pruned now later read account w xs h e = elim (Bool-cases (account == read)) [
  | inl same ↦
      rw (same, keep_later now later xs h)
        (ap (fresh_count later) (sym (ap w ((==_iff account read).0 same) ∙ e)))
  | inr differ ↦ rw differ
]

after_read :
    (now later : Time) (read account : UserId) (w : Connects)
    → now ≤ later
    → fresh_count later ((count_invites now read w).1 account) ≡ fresh_count later (w account)
unfolding count_invites fresh_count
after_read now later read account w h = elim (Option-cases (w read)) [
  | inl e ↦ rw (count_invites, e)
  | inr (xs, e) ↦ elim (Bool-cases (length (keep_if (in_recent_week now) xs) == length xs)) [
    | inl full ↦ rw (count_invites, e, full)
    | inr less ↦ rw (count_invites, e, less) (pruned now later read account w xs h e)
  ]
]

-- A read prunes stamps, which no later read observes: every account's count at a later time is
-- the same whether or not the counter was read before.
pub count_invites-count_invites :
    (now later : Time) (read account : UserId) (w : Connects)
    → now ≤ later
    → (count_invites later account (count_invites now read w).1).0
      ≡ (count_invites later account w).0
count_invites-count_invites now later read account w h =
    count_invites-fresh_count later account (count_invites now read w).1
    ∙ after_read now later read account w h
    ∙ sym (count_invites-fresh_count later account w)
