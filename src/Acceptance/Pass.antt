-- ===== src/Acceptance/Pass.antt =====
-- A whole pass of the acceptance tick keeps the count.
use mathlib.Core.List.{append_assoc, append-nil}
use linkedin_outreach_agent.Prelude.{
  ◌≡◌, sym, subst, Bool, true, false, some, List, [], ◌∷◌, ◌++◌, ◌==◌, if◌then◌else◌, length,
  All-keep_if, All-keep_if_of_All, IsMap, IsMap-keep_if, IsMap-Shuffled, Shuffled, Shuffled-middle,
  Shuffled-under, All-Shuffled, find_row-IsMap,
}
use linkedin_outreach_agent.Domain.{Time, TargetProgressRow}
use linkedin_outreach_agent.Effects.{bind_cases, ◌>>◌, ret, ◌>>=◌}
use linkedin_outreach_agent.Store.Sequence.{
  find_progress, is_awaiting_connection, awaiting_connection_enrollments,
}
use linkedin_outreach_agent.Acceptance.{
  AcceptedConnection, Network, AcceptanceDeps, Groups, add_to_group, group_on, release, release_all,
  release_groups, acceptance_tick, tell, outside_only,
}
use linkedin_outreach_agent.Acceptance.Pile.{IsOutstanding, Waiting, Pile, settled-Pile}
use linkedin_outreach_agent.Acceptance.Laws.{release-Handled}

-- The rows of the groups, in the order in which a pass handles them.
flatten : Groups → List TargetProgressRow
flatten [] = []
flatten ((a, ps) ∷ gs) = ps ++ flatten gs

added :
    (p : TargetProgressRow) (gs : Groups) → Shuffled (p ∷ flatten gs) (flatten (add_to_group p gs))
unfolding flatten add_to_group
added p [] = Shuffled.same (p ∷ [])
added p ((a, ps) ∷ gs) = placed (a == p.account_id) (added p gs)
  where
    placed :
        (b : Bool)
        → Shuffled (p ∷ flatten gs) (flatten (add_to_group p gs))
        → Shuffled
            (p ∷ ps ++ flatten gs)
            (flatten (if b then (a, ps ++ p ∷ []) ∷ gs else (a, ps) ∷ add_to_group p gs))
    placed true h =
        subst (Shuffled (p ∷ ps ++ flatten gs)) (sym (append_assoc ps (p ∷ []) (flatten gs)))
          (Shuffled-middle p ps (flatten gs))
    placed false h = Shuffled.then (Shuffled-middle p ps (flatten gs)) (Shuffled-under ps h)

grouped_on :
    (gs : Groups) (ps : List TargetProgressRow)
    → Shuffled (ps ++ flatten gs) (flatten (group_on gs ps))
unfolding group_on
grouped_on gs [] = Shuffled.same (flatten gs)
grouped_on gs (p ∷ ps) =
    Shuffled.then (Shuffled-middle p ps (flatten gs))
      (Shuffled.then (Shuffled-under ps (added p gs)) (grouped_on (add_to_group p gs) ps))

-- The groups hold the parked rows, each as often as the table does.
grouped : (ps : List TargetProgressRow) → Shuffled ps (flatten (group_on [] ps))
unfolding flatten
grouped ps = subst (λ q. Shuffled q (flatten (group_on [] ps))) (append-nil ps) (grouped_on [] ps)

module _ {O : Type 0} (deps : AcceptanceDeps O) (now : Time) where
  Pile-drop : (ps rest : List TargetProgressRow) (w : Network O) → Pile w (ps ++ rest) → Pile w rest
  unfolding Pile Waiting
  Pile-drop [] rest w h = h
  Pile-drop (p ∷ ps) rest w (o, (m, f, a)) = Pile-drop ps rest w (o, (m.1, f.1, a.1))

  Pile-none : (w : Network O) (ps : List TargetProgressRow) → Pile w ps → Pile w []
  unfolding Pile Waiting
  Pile-none w ps h = (h.0, (tt, tt, tt))

  -- The step from one row to the next, whatever is left of the loop.
  release-Pile :
      (p : TargetProgressRow) (ps : List TargetProgressRow) (connections : List AcceptedConnection)
      (w : Network O)
      → Pile w (p ∷ ps)
      → Pile (release deps p connections now w).1 ps
  unfolding Pile Waiting
  release-Pile p ps connections w h =
      settled-Pile deps now p ps connections w (release deps p connections now w) h
        (release-Handled deps now p connections w h.1.1.0)

  -- What the ports keep outside does not count.
  Pile-outside :
      (w : Network O) (ps : List TargetProgressRow) (o : O)
      → Pile w ps
      → Pile (record w { outside = o }) ps
  unfolding Pile Waiting IsOutstanding
  Pile-outside w ps o h = h

  release_all-Pile :
      (connections : List AcceptedConnection) (ps rest : List TargetProgressRow) (w : Network O)
      → Pile w (ps ++ rest)
      → Pile (release_all deps connections now ps w).1 rest
  unfolding release_all
  release_all-Pile connections [] rest w h = h
  release_all-Pile connections (p ∷ ps) rest w h =
      let w1 = (release deps p connections now w).1 in
      let k = release-Pile p (ps ++ rest) connections w h in
      bind_cases (release deps p connections now)
        (λ o.
          tell (deps.on_outcome o) >> release_all deps connections now ps >>= λ os. ret (o ∷ os))
        w (λ r. Pile r.1 rest) (λ e x. Pile-drop ps rest w1 k)
        (λ o x.
          let next =
            release_all-Pile connections ps rest
              (record w1 { outside = deps.on_outcome o w1.outside })
              (Pile-outside w1 (ps ++ rest) (deps.on_outcome o w1.outside) k) in
          bind_cases (tell (deps.on_outcome o) >> release_all deps connections now ps)
            (λ os. ret (o ∷ os)) w1 (λ r. Pile r.1 rest) (λ e y. next) (λ os y. next))

  release_groups-Pile :
      (gs : Groups) (w : Network O) → Pile w (flatten gs) → Pile (release_groups deps now gs w).1 []
  unfolding release_groups flatten
  release_groups-Pile [] w h = h
  release_groups-Pile ((account, ps) ∷ gs) w h =
      let read = outside_only (deps.read_connections account deps.connections_limit) in
      let w1 = (read w).1 in
      let k = Pile-outside w (ps ++ flatten gs) w1.outside h in
      bind_cases read
        (λ connections. release_all deps connections now ps >>= λ os.
          release_groups deps now gs >>= λ rest. ret (os ++ rest))
        w (λ r. Pile r.1 []) (λ e x. Pile-none w1 (ps ++ flatten gs) k)
        (λ connections x.
          let k1 = release_all-Pile connections ps (flatten gs) w1 k in
          let w2 = (release_all deps connections now ps w1).1 in
          bind_cases (release_all deps connections now ps)
            (λ os. release_groups deps now gs >>= λ rest. ret (os ++ rest)) w1 (λ r. Pile r.1 [])
            (λ e y. Pile-none w2 (flatten gs) k1)
            (λ os y.
              let next = release_groups-Pile gs w2 k1 in
              bind_cases (release_groups deps now gs) (λ rest. ret (os ++ rest)) w2
                (λ r. Pile r.1 []) (λ e z. next) (λ rest z. next)))

  -- A pass keeps the count of every account at the number of its cursors that wait for a
  -- connection, on every path: it may stop at an exception of a port or at a malformed address.
  -- The cursors have different ids.
  pub acceptance_tick-IsOutstanding :
      (w : Network O)
      → IsMap (λ p. p.id) w.store.progress
      → IsOutstanding w
      → IsOutstanding (acceptance_tick deps now w).1
  unfolding acceptance_tick Pile Waiting find_progress awaiting_connection_enrollments
  acceptance_tick-IsOutstanding w m o =
      let parked = awaiting_connection_enrollments w.store in
      let gs = group_on [] parked in
      let s = grouped parked in
      let next =
        (release_groups-Pile gs w (
          o,
          (
            IsMap-Shuffled (λ p. p.id) s
                (IsMap-keep_if (λ p. p.id) (λ p. is_awaiting_connection p.state) w.store.progress
                  m),
            All-Shuffled (λ p. find_progress w.store p.id ≡ some p) s
                (All-keep_if_of_All (λ p. find_progress w.store p.id ≡ some p)
                  (λ p. is_awaiting_connection p.state) w.store.progress
                  (find_row-IsMap (λ p. p.id) w.store.progress m)),
            All-Shuffled (λ p. is_awaiting_connection p.state ≡ true) s
                (All-keep_if (λ p. is_awaiting_connection p.state ≡ true)
                  (λ p. is_awaiting_connection p.state) w.store.progress (λ p e. e)),
          ),
        )).0 in
      bind_cases (release_groups deps now gs) (λ os. ret (length gs, os)) w (λ r. IsOutstanding r.1)
        (λ e z. next) (λ os z. next)
