-- ===== src/Graph/Walk.antt =====
-- go/internal/graph/engine.go: what cashoutDepth walks.
use payment_infrastructure.Base.{
  ℕ, zero, suc, ◌+◌, ◌≤◌, ◌≡◌, refl, sym, ap, subst, ◌⊎◌, inl, inr, Bool, true, false, String, List,
  [], ◌∷◌, Map, lookup_or, insert, length, ltb, ◌&&◌, is_empty, Bool-cases, arith,
}
use payment_infrastructure.Base.Int.{ℤ, negsuc, ltb_ℤ}
use payment_infrastructure.Graph.{
  Edge, GraphEngine, newest_edge, within_decay_window, walk_from, cashout_depth, component_walk_cap,
}

-- An edge among those out of an account.
pub data HasEdge (to : String) (e : Edge) : Map Edge → Type 0 where
  first : (outs : Map Edge) → HasEdge to e ((to, e) ∷ outs)
  later :
      (other : String × Edge) (outs : Map Edge) → HasEdge to e outs → HasEdge to e (other ∷ outs)

-- A walk over edges within the decay window, each to an account that was not visited before.
pub data IsWalk (edges : Map (Map Edge)) (now_ms : ℤ)
    : String → Map Bool → List String → Type 0 where
  stop : (cur : String) (visited : Map Bool) → IsWalk edges now_ms cur visited []
  hop :
      (cur next : String) (e : Edge) (visited : Map Bool) (stops : List String)
      → HasEdge next e (lookup_or [] cur edges)
      → within_decay_window e.last_seen_ms now_ms ≡ true
      → lookup_or false next visited ≡ false
      → IsWalk edges now_ms next (insert next true visited) stops
      → IsWalk edges now_ms cur visited (next ∷ stops)

-- What newest_edge picks: the account it started with, or one that an edge leads to.
abbrev Picks : ℤ → Map Bool → Map Edge → String → String → Type 0
Picks now_ms visited outs start next =
    (next ≡ start)
    ⊎ ((e : Edge) × HasEdge next e outs
        × (within_decay_window e.last_seen_ms now_ms ≡ true)
        × (lookup_or false next visited ≡ false))

Picks-later :
    (now_ms : ℤ) (visited : Map Bool) (other : String × Edge) (outs : Map Edge)
    (start next : String)
    → Picks now_ms visited outs start next
    → Picks now_ms visited (other ∷ outs) start next
Picks-later now_ms visited other outs start next (inl e) = inl e
Picks-later now_ms visited other outs start next (inr (e, has, within, new)) =
    inr (e, later other outs has, within, new)

-- Whoever is picked after starting with the edge's own account is picked with that edge in the list.
Picks-first :
    (now_ms : ℤ) (visited : Map Bool) (to : String) (e : Edge) (outs : Map Edge)
    (start next : String)
    → within_decay_window e.last_seen_ms now_ms ≡ true
    → lookup_or false to visited ≡ false
    → Picks now_ms visited outs to next
    → Picks now_ms visited ((to, e) ∷ outs) start next
Picks-first now_ms visited to e outs start next within new (inl same) = inr (
  e,
  subst (λ x. HasEdge x e ((to, e) ∷ outs)) (sym same) (first outs),
  within,
  subst (λ x. lookup_or false x visited ≡ false) (sym same) new,
)
Picks-first now_ms visited to e outs start next within new (inr (e', has, within', new')) =
    inr (e', later (to, e) outs has, within', new')

newest_edge-Picks :
    (now_ms : ℤ) (visited : Map Bool) (outs : Map Edge) (best : String × ℤ)
    → Picks now_ms visited outs best.0 (newest_edge now_ms visited outs best).0
unfolding newest_edge
newest_edge-Picks now_ms visited [] best = inl refl
newest_edge-Picks now_ms visited ((to, e) ∷ outs) best =
    elim (Bool-cases (lookup_or false to visited)) [
      | inl old ↦
          rw (newest_edge, old)
            (Picks-later now_ms visited (to, e) outs best.0 _
              (newest_edge-Picks now_ms visited outs best))
      | inr new ↦
          elim (Bool-cases
            (ltb_ℤ best.1 e.last_seen_ms && within_decay_window e.last_seen_ms now_ms)) [
              | inl newer ↦
                  rw (newest_edge, new)
                    (rw newer (
                      Picks-first now_ms visited to e outs best.0 _ (ground arith) new
                        (newest_edge-Picks now_ms visited outs (to, e.last_seen_ms))))
              | inr older ↦
                  rw (newest_edge, new)
                    (rw older (
                      Picks-later now_ms visited (to, e) outs best.0 _
                        (newest_edge-Picks now_ms visited outs best)))
            ]
    ]

walk_from-IsWalk :
    (edges : Map (Map Edge)) (now_ms : ℤ) (n : ℕ) (cur : String) (visited : Map Bool) (depth : ℕ)
    → (stops : List String) × IsWalk edges now_ms cur visited stops
      × (walk_from edges now_ms n cur visited depth ≡ depth + length stops)
      × (length stops ≤ n)
unfolding walk_from
walk_from-IsWalk edges now_ms zero cur visited depth =
    ([], stop cur visited, omega arith, omega arith)
walk_from-IsWalk edges now_ms (suc n) cur visited depth =
    let outs = lookup_or [] cur edges in
    let next = (newest_edge now_ms visited outs ("", negsuc 0)).0 in
    let visited' = insert next true visited in
    elim (Bool-cases (is_empty next)) [
      | inl none_left ↦ ([], stop cur visited, rw (walk_from, none_left) (omega arith), omega arith)
      | inr some_left ↦
          let (e, has, within, new) =
            picked now_ms visited outs next some_left
              (newest_edge-Picks now_ms visited outs ("", negsuc 0)) in
          elim (Bool-cases (ltb component_walk_cap (length visited'))) [
            | inl wide ↦ (
              next ∷ [],
              hop cur next e visited [] has within new (stop next visited'),
              rw (walk_from, some_left) (rw wide (omega arith)),
              omega arith,
            )
            | inr narrow ↦
                let (stops, walk, run, short) =
                  walk_from-IsWalk edges now_ms n next visited' (suc depth) in
                (
                  next ∷ stops,
                  hop cur next e visited stops has within new walk,
                  rw (walk_from, some_left) (rw narrow (omega (arith, run))),
                  omega (arith, short),
                )
          ]
    ]
  where
    picked :
        (now_ms : ℤ) (visited : Map Bool) (outs : Map Edge) (next : String)
        → is_empty next ≡ false
        → Picks now_ms visited outs "" next
        → (e : Edge) × HasEdge next e outs
          × (within_decay_window e.last_seen_ms now_ms ≡ true)
          × (lookup_or false next visited ≡ false)
    picked now_ms visited outs next named (inl same) = absurd (cc (ap is_empty same))
    picked now_ms visited outs next named (inr found) = found

-- The cash-out depth is the length of a real walk from the payee: at most the allowed number of hops,
-- each over a payment within the decay window, to an account that the walk has not visited before.
pub cashout_depth-IsWalk :
    (start : String) (now_ms : ℤ) (max_hops : ℕ) (g : GraphEngine)
    → (stops : List String) × IsWalk g.payer_to_payees now_ms start ((start, true) ∷ []) stops
      × (cashout_depth start now_ms max_hops g ≡ length stops)
      × (length stops ≤ max_hops)
unfolding cashout_depth
cashout_depth-IsWalk start now_ms max_hops g =
    let (stops, walk, run, short) =
      walk_from-IsWalk g.payer_to_payees now_ms max_hops start ((start, true) ∷ []) 0 in
    (stops, walk, omega (arith, run), short)
