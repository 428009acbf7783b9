-- ===== src/Suppression.antt =====
-- `SuppressionService` of control-plane/orchestrator/src/suppression.ts: the persons who must not
-- be contacted again, kept as events.
use linkedin_outreach_agent.Prelude.{
  Bool, true, false, ◌≡◌, refl, ◌∙◌, ◌||◌, Option, none, some, List, [], ◌∷◌, ◌++◌, arith, any_of,
  keep_if, eq_text, eq_text_refl, keep_if-append, or_true,
}
use linkedin_outreach_agent.Domain.{
  UserId, Time, Text, TargetRow, EventRow, EventKind, target_suppressed,
}
use linkedin_outreach_agent.Profile.{canonical_profile_key, canonical_profile_key_twice}
use linkedin_outreach_agent.Effects.{Step, not_found, returned, threw}
use linkedin_outreach_agent.Store.{Store}
use linkedin_outreach_agent.Store.Tables.{
  find_target, record_event, list_suppression, is_suppression,
}

-- `suppressByTarget`
unfoldable pub suppress_by_target : Time → UserId → Step Store Text
suppress_by_target now target_id s = elim (find_target s target_id) [
  | none ↦ (threw (not_found target_id), s)
  | some target ↦
      let key = canonical_profile_key target.linkedin_urn in
      (returned key, record_event s now (target_suppressed key target_id) none)
]

unfoldable pub names_key : Text → EventRow → Bool
names_key key e = elim e.kind [
  | target_suppressed urn origin ↦ eq_text (canonical_profile_key urn) key
  | _ ↦ false
]

-- `isUrnSuppressed`
unfoldable pub is_urn_suppressed : Store → Text → Bool
unfolding names_key
is_urn_suppressed s urn = any_of (names_key (canonical_profile_key urn)) (list_suppression s)

-- `isSuppressed`
unfoldable pub is_suppressed : Store → UserId → Bool
unfolding is_urn_suppressed
is_suppressed s target_id = elim (find_target s target_id) [
  | none ↦ false
  | some target ↦ is_urn_suppressed s target.linkedin_urn
]

any_of-append :
    (p : EventRow → Bool) (xs ys : List EventRow)
    → any_of p (xs ++ ys) ≡ (any_of p xs || any_of p ys)
unfolding any_of
any_of-append p [] ys = refl
any_of-append p (x ∷ xs) ys = ground (arith, any_of-append p xs ys)

-- More events never lift a suppression.
pub is_urn_suppressed-record_event :
    (s : Store) (now : Time) (kind : EventKind) (account : Option UserId) (urn : Text)
    → is_urn_suppressed s urn ≡ true
    → is_urn_suppressed (record_event s now kind account) urn ≡ true
unfolding is_urn_suppressed list_suppression record_event
is_urn_suppressed-record_event s now kind account urn h =
    let e : EventRow = record { ts = now; account_id = account; kind = kind } in
    rw (
      keep_if-append is_suppression s.events (e ∷ []),
      any_of-append (names_key (canonical_profile_key urn)) (keep_if is_suppression s.events)
          (keep_if is_suppression (e ∷ [])),
      h,
    )

newest :
    (now : Time) (origin : UserId) (a b : Text)
    → canonical_profile_key a ≡ canonical_profile_key b
    → any_of (names_key (canonical_profile_key b)) (
        keep_if is_suppression (
          record {
            ts = now;
            account_id = none;
            kind = target_suppressed (canonical_profile_key a) origin;
          }
          ∷ []))
      ≡ true
unfolding any_of keep_if names_key
newest now origin a b k =
    rw (canonical_profile_key_twice a, k, eq_text_refl (canonical_profile_key b))

pub named :
    (s : Store) (now : Time) (origin : UserId) (a b : Text)
    → canonical_profile_key a ≡ canonical_profile_key b
    → is_urn_suppressed
        (record_event s now (target_suppressed (canonical_profile_key a) origin) none)
        b
      ≡ true
unfolding is_urn_suppressed list_suppression record_event
named s now origin a b k =
    let e : EventRow = record {
      ts = now;
      account_id = none;
      kind = target_suppressed (canonical_profile_key a) origin;
    } in
    rw
      (
        keep_if-append is_suppression s.events (e ∷ []),
        any_of-append (names_key (canonical_profile_key b)) (keep_if is_suppression s.events)
            (keep_if is_suppression (e ∷ [])),
      )
      (or_true (any_of (names_key (canonical_profile_key b)) (keep_if is_suppression s.events))
        (any_of (names_key (canonical_profile_key b)) (keep_if is_suppression (e ∷ [])))
        (newest now origin a b k))

pub after_suppress :
    (s : Store) (now : Time) (origin : UserId) (a : TargetRow)
    → find_target s origin ≡ some a
    → (suppress_by_target now origin s).1
      ≡ record_event s now (target_suppressed (canonical_profile_key a.linkedin_urn) origin) none
unfolding suppress_by_target
after_suppress s now origin a h = rw (suppress_by_target, h)

pub suppressed_of_find :
    (s : Store) (other : UserId) (b : TargetRow)
    → find_target s other ≡ some b
    → is_suppressed s other ≡ is_urn_suppressed s b.linkedin_urn
unfolding is_suppressed
suppressed_of_find s other b h = rw (is_suppressed, h)

-- After a target that exists is suppressed, every target with the same canonical key counts as
-- suppressed, in whatever form its urn is stored.
pub suppress_by_target_lem :
    (s : Store) (now : Time) (origin other : UserId) (a b : TargetRow)
    → find_target s origin ≡ some a
    → find_target s other ≡ some b
    → canonical_profile_key a.linkedin_urn ≡ canonical_profile_key b.linkedin_urn
    → is_suppressed (suppress_by_target now origin s).1 other ≡ true
unfolding record_event find_target
suppress_by_target_lem s now origin other a b ha hb k = rw (after_suppress s now origin a ha) (
    suppressed_of_find
      (record_event s now (target_suppressed (canonical_profile_key a.linkedin_urn) origin) none)
      other b hb
    ∙ named s now origin a.linkedin_urn b.linkedin_urn k)
