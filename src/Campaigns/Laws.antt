-- ===== src/Campaigns/Laws.antt =====
-- The dedup of `addTargets` of control-plane/orchestrator/src/campaigns.ts.
use linkedin_outreach_agent.Prelude.{
  ℕ, suc, ◌≤◌, none, find_row, set_row-absent, Bool, true, false, ◌≡◌, refl, ◌∙◌, ap, ◌||◌, List,
  [], ◌∷◌, ◌++◌, map, ◌==◌, ==_refl, if◌then◌else◌, keep_if, eq_text, eq_text_refl, eq_text_sound,
  keep_if-append, All, arith, sym, subst, or_true,
}
use mathlib.Core.List.{append_assoc, append-nil}
use linkedin_outreach_agent.Domain.{UserId, Time, Text, TargetRow}
use linkedin_outreach_agent.Profile.{canonical_profile_key, canonical_profile_key_twice}
use linkedin_outreach_agent.Store.{Store}
use linkedin_outreach_agent.Store.Tables.{list_targets_by_campaign, record_event}
use linkedin_outreach_agent.Campaigns.{
  AddTargetInput, has_key, with_key, fresh_targets, row_key, create_target, create_many_targets,
  to_create, add_targets, new_target,
}

abbrev pub urn_of : AddTargetInput → Text
urn_of t = t.linkedin_urn

-- No key twice.
unfoldable pub IsDistinct : List Text → Type 0
IsDistinct [] = Unit
IsDistinct (k ∷ ks) = (has_key ks k ≡ false) × IsDistinct ks

pub eq_text_comm : (a b : Text) → eq_text a b ≡ eq_text b a
unfolding eq_text
eq_text_comm [] [] = refl
eq_text_comm [] (y ∷ ys) = refl
eq_text_comm (x ∷ xs) [] = refl
eq_text_comm (x ∷ xs) (y ∷ ys) = ground (arith, eq_text_comm xs ys)

has_key-append :
    (ks ls : List Text) (k : Text) → has_key (ks ++ ls) k ≡ (has_key ks k || has_key ls k)
unfolding has_key
has_key-append [] ls k = refl
has_key-append (x ∷ ks) ls k = ground (arith, has_key-append ks ls k)

-- Keys that a set lacks.
unfoldable pub New : List Text → List Text → Type 0
New seen [] = Unit
New seen (k ∷ ks) = (has_key seen k ≡ false) × New seen ks

New-tail : (u : Text) (seen ks : List Text) → New (u ∷ seen) ks → New seen ks
unfolding New has_key
New-tail u seen [] h = tt
New-tail u seen (k ∷ ks) h = (ground (arith, h.0), New-tail u seen ks h.1)

New-head : (u : Text) (seen ks : List Text) → New (u ∷ seen) ks → has_key ks u ≡ false
unfolding New has_key
New-head u seen [] h = refl
New-head u seen (k ∷ ks) h = ground (arith, h.0, eq_text_comm u k, New-head u seen ks h.1)

-- The loop keeps inputs with new keys, each key once.
pub fresh_targets_lem :
    (seen : List Text) (ts : List AddTargetInput)
    → New seen (map urn_of (fresh_targets seen ts))
      × IsDistinct (map urn_of (fresh_targets seen ts))
unfolding New IsDistinct fresh_targets
fresh_targets_lem seen [] = (tt, tt)
fresh_targets_lem seen (t ∷ ts) =
    split (has_key seen t.linkedin_urn) refl (fresh_targets_lem seen ts)
      (fresh_targets_lem (t.linkedin_urn ∷ seen) ts)
  where
    Good : List Text → List AddTargetInput → Type 0
    Good ks xs = New ks (map urn_of xs) × IsDistinct (map urn_of xs)

    split :
        (b : Bool)
        → has_key seen t.linkedin_urn ≡ b
        → Good seen (fresh_targets seen ts)
        → Good (t.linkedin_urn ∷ seen) (fresh_targets (t.linkedin_urn ∷ seen) ts)
        → Good seen
            (if b then fresh_targets seen ts else t ∷ fresh_targets (t.linkedin_urn ∷ seen) ts)
    split true e skipped kept = skipped
    split false e skipped kept = (
      (e, New-tail t.linkedin_urn seen _ kept.0),
      (New-head t.linkedin_urn seen _ kept.0, kept.1),
    )

-- The loop loses no key.
fresh_targets_keys :
    (seen : List Text) (ts : List AddTargetInput) (k : Text)
    → (has_key seen k || has_key (map urn_of (fresh_targets seen ts)) k)
      ≡ (has_key seen k || has_key (map urn_of ts) k)
unfolding fresh_targets has_key
fresh_targets_keys seen [] k = refl
fresh_targets_keys seen (t ∷ ts) k = ground (
  arith,
  fresh_targets_keys seen ts k,
  fresh_targets_keys (t.linkedin_urn ∷ seen) ts k,
  eq_text_sound t.linkedin_urn k,
)

-- Inputs whose urn is a key already.
unfoldable pub IsKeyed : AddTargetInput → Type 0
IsKeyed t = canonical_profile_key t.linkedin_urn ≡ t.linkedin_urn

pub fresh_targets-IsKeyed :
    (seen : List Text) (ts : List AddTargetInput)
    → All IsKeyed ts
    → All IsKeyed (fresh_targets seen ts)
unfolding fresh_targets
fresh_targets-IsKeyed seen [] h = tt
fresh_targets-IsKeyed seen (t ∷ ts) h =
    split (has_key seen t.linkedin_urn) (fresh_targets-IsKeyed seen ts h.1)
      (fresh_targets-IsKeyed (t.linkedin_urn ∷ seen) ts h.1)
  where
    split :
        (b : Bool)
        → All IsKeyed (fresh_targets seen ts)
        → All IsKeyed (fresh_targets (t.linkedin_urn ∷ seen) ts)
        → All IsKeyed
            (if b then fresh_targets seen ts else t ∷ fresh_targets (t.linkedin_urn ∷ seen) ts)
    split true skipped kept = skipped
    split false skipped kept = (h.0, kept)

pub with_key-IsKeyed : (ts : List AddTargetInput) → All IsKeyed (map with_key ts)
unfolding with_key IsKeyed
with_key-IsKeyed [] = tt
with_key-IsKeyed (t ∷ ts) = (canonical_profile_key_twice t.linkedin_urn, with_key-IsKeyed ts)

map-row_key-append :
    (xs ys : List TargetRow) → map row_key (xs ++ ys) ≡ map row_key xs ++ map row_key ys
map-row_key-append [] ys = refl
map-row_key-append (x ∷ xs) ys = cc (map-row_key-append xs ys)

-- Every id of the targets was given out by the counter.
abbrev pub IsIssued : Store → Type 0
IsIssued s = All (λ t. t.id ≤ s.counter) s.targets

issued_absent :
    (n : ℕ) (rows : List TargetRow)
    → All (λ t. t.id ≤ n) rows
    → find_row (λ t. t.id) (suc n) rows ≡ none
unfolding find_row
issued_absent n [] h = refl
issued_absent n (r ∷ rs) h = ground (arith, h.0, issued_absent n rs h.1)

issued_next :
    (n : ℕ) (r : TargetRow) (rows : List TargetRow)
    → r.id ≡ suc n
    → All (λ t. t.id ≤ n) rows
    → All (λ t. t.id ≤ suc n) (rows ++ r ∷ [])
issued_next n r [] e h = (omega (arith, e), tt)
issued_next n r (x ∷ xs) e h = (omega (arith, h.0), issued_next n r xs e h.1)

-- What `createMany` appends, which rows of the campaign they are, and under which keys.
create_many_targets_lem :
    (c : UserId) (ts : List AddTargetInput) (s : Store)
    → IsIssued s
    → All IsKeyed ts
    → ((create_many_targets c ts s).1.targets ≡ s.targets ++ (create_many_targets c ts s).0)
      × (keep_if (λ t. t.campaign_id == c) (create_many_targets c ts s).0
          ≡ (create_many_targets c ts s).0)
      × (map row_key (create_many_targets c ts s).0 ≡ map urn_of ts)
unfolding create_many_targets create_target new_target keep_if IsKeyed
create_many_targets_lem c [] s i h = (sym (append-nil s.targets), refl, refl)
create_many_targets_lem c (t ∷ ts) s i h =
    let made = create_target c t s in
    let e = set_row-absent (λ t. t.id) made.0 s.targets (issued_absent s.counter s.targets i) in
    let next = issued_next s.counter made.0 s.targets refl i in
    let (appended, own, keys) =
      create_many_targets_lem c ts made.1 (subst (All (λ t. t.id ≤ suc s.counter)) (sym e) next)
        h.1 in
    (
      appended
          ∙ ap (λ rows. rows ++ (create_many_targets c ts made.1).0) e
          ∙ append_assoc s.targets (made.0 ∷ []) _,
      rw (==_refl c, own),
      cc (h.0, keys),
    )

-- The keys of the campaign's targets.
unfoldable pub campaign_keys : UserId → Store → List Text
campaign_keys c s = map row_key (list_targets_by_campaign s c)

add_targets_keys :
    (now : Time) (c : UserId) (inputs : List AddTargetInput) (s : Store)
    → IsIssued s
    → campaign_keys c (add_targets now c inputs s).1
      ≡ campaign_keys c s ++ map urn_of (to_create c inputs s)
unfolding campaign_keys add_targets list_targets_by_campaign record_event to_create
add_targets_keys now c inputs s i =
    let ts = to_create c inputs s in
    let made = create_many_targets c ts s in
    let (appended, own, keys) =
      create_many_targets_lem c ts s i (
        fresh_targets-IsKeyed (campaign_keys c s) (map with_key inputs)
          (with_key-IsKeyed inputs)) in
    ap (λ rows. map row_key (keep_if (λ t. t.campaign_id == c) rows)) appended
    ∙ ap (map row_key) (keep_if-append (λ t. t.campaign_id == c) s.targets made.0)
    ∙ map-row_key-append (list_targets_by_campaign s c) (keep_if (λ t. t.campaign_id == c) made.0)
    ∙ ap (λ rows. campaign_keys c s ++ rows) (ap (map row_key) own ∙ keys)

-- The loop keeps nothing when the set has all keys.
fresh_targets-known :
    (seen : List Text) (ts : List AddTargetInput)
    → ((k : Text) → has_key (map urn_of ts) k ≡ true → has_key seen k ≡ true)
    → fresh_targets seen ts ≡ []
unfolding fresh_targets has_key
fresh_targets-known seen [] h = refl
fresh_targets-known seen (t ∷ ts) h = rw (
  h t.linkedin_urn (ground (arith, eq_text_refl t.linkedin_urn)),
  fresh_targets-known seen ts (λ k e. h k (ground (arith, e))),
)

-- After `addTargets` the campaign has a target for a person exactly when it had one before or
-- the canonical key of one of the inputs is that person's, in a store whose target ids were given
-- out by its counter.
pub add_targets-has_key :
    (now : Time) (c : UserId) (inputs : List AddTargetInput) (s : Store) (key : Text)
    → IsIssued s
    → has_key (campaign_keys c (add_targets now c inputs s).1) key ≡ (
        has_key (campaign_keys c s) key
        || has_key (map (λ t. canonical_profile_key t.linkedin_urn) inputs) key)
unfolding to_create campaign_keys with_key
add_targets-has_key now c inputs s key i =
    ap (λ ks. has_key ks key) (add_targets_keys now c inputs s i)
    ∙ has_key-append (campaign_keys c s) _ key
    ∙ fresh_targets_keys (campaign_keys c s) (map with_key inputs) key
    ∙ ap (λ ks. has_key (campaign_keys c s) key || has_key ks key) (urn_of_with_key inputs)
  where
    urn_of_with_key :
        (ts : List AddTargetInput)
        → map urn_of (map with_key ts) ≡ map (λ t. canonical_profile_key t.linkedin_urn) ts
    urn_of_with_key [] = refl
    urn_of_with_key (t ∷ ts) = cc (urn_of_with_key ts)

to_create-empty :
    (now : Time) (c : UserId) (inputs : List AddTargetInput) (s : Store)
    → IsIssued s
    → to_create c inputs (add_targets now c inputs s).1 ≡ []
unfolding to_create campaign_keys
to_create-empty now c inputs s i = fresh_targets-known _ (map with_key inputs) (λ k e.
    ap (λ ks. has_key ks k) (add_targets_keys now c inputs s i)
    ∙ has_key-append (campaign_keys c s) _ k
    ∙ fresh_targets_keys (campaign_keys c s) (map with_key inputs) k
    ∙ or_true _ _ e)

-- A second call with the same inputs creates no target: it returns no row and leaves the targets
-- of the store as they are, if the target ids were given out by the counter before.
pub add_targets-add_targets :
    (now later : Time) (c : UserId) (inputs : List AddTargetInput) (s : Store)
    → IsIssued s
    → let once = (add_targets now c inputs s).1 in
      let again = add_targets later c inputs once in
      (again.0 ≡ []) × (again.1.targets ≡ once.targets)
unfolding add_targets record_event create_many_targets
add_targets-add_targets now later c inputs s i =
    let once = (add_targets now c inputs s).1 in
    let none_left = to_create-empty now c inputs s i in
    (
      ap (λ ts. (create_many_targets c ts once).0) none_left,
      ap (λ ts. (create_many_targets c ts once).1.targets) none_left,
    )
