-- ===== src/Rebalance/SamePeer.antt =====
-- getRoute where the two channels have the same peer, which the command circular does not refuse.
use circular.Prelude.{
  ℕ, suc, ◌+◌, ◌≡◌, refl, sym, subst, ◌∙◌, String, Bool, true, some, [], ◌∷◌, Map, lookup, insert,
  lookup-insert, str_eq, eq_iff, slt, arith, sub64,
}
use circular.Errors.{ok, err, panic}
use circular.Graph.Network.{Graph, Edge}
use circular.Graph.Route.{prepend, new_route}
use circular.Graph.Queue.{init, pop}
use circular.Graph.Pathfinder as Pathfinder
use circular.Rebalance.Params.{Rebalance}
use circular.Rebalance.Attempt.{close_route, get_route}

module _ (g : Graph) (exclude : Map Bool) (a : String) (amount hops : ℕ) where
  self : str_eq a a ≡ true
  self = (eq_iff a a).1 refl

  at_zero : lookup a (insert a 0 (Pathfinder.unreached g.inbound)) ≡ some 0
  at_zero = lookup-insert a a 0 (Pathfinder.unreached g.inbound) ∙ rw self refl

  -- the search ends at the node that it begins with
  at_once :
      (fuel : ℕ)
      → Pathfinder.main_loop g exclude a hops (suc fuel) (Pathfinder.start g a amount)
        ≡ some (record (Pathfinder.start g a amount) { queue = [] })
  unfolding Pathfinder.main_loop Pathfinder.start Pathfinder.visit init pop slt
  at_once fuel =
      rw (at_zero, self, Pathfinder.main_loop, Pathfinder.start, Pathfinder.visit, init, pop) refl

  abbrev ended : Pathfinder.Search
  ended = record (Pathfinder.start g a amount) { queue = [] }

  ends_with_two :
      (n : ℕ)
      → Pathfinder.main_loop g exclude a hops (n + 2) (Pathfinder.start g a amount) ≡ some ended
  ends_with_two n =
      subst
        (λ fuel.
          Pathfinder.main_loop g exclude a hops fuel (Pathfinder.start g a amount) ≡ some ended)
        {y = n + 2} (omega arith) (at_once (n + 1))

  finish-ended : Pathfinder.finish a a hops ended ≡ some (ok [])
  unfolding Pathfinder.finish Pathfinder.read_hops Pathfinder.start
  finish-ended = rw (at_zero, self, Pathfinder.finish, Pathfinder.read_hops, Pathfinder.start) refl

  dijkstra-same :
      (m : Map Edge)
      → lookup a g.inbound ≡ some m
      → Pathfinder.dijkstra g exclude a a amount hops ≡ some (ok [])
  unfolding Pathfinder.dijkstra
  dijkstra-same m there =
      rw (there, Pathfinder.dijkstra)
        (rw (there, Pathfinder.dijkstra)
          (rw (ends_with_two (Pathfinder.links_size g.inbound), Pathfinder.dijkstra) finish-ended))

-- Where the two channels have the same peer, and the graph has it, getRoute panics: the search
-- returns no hop, and Prepend reads the first.
pub get_route-same_peer :
    (r : Rebalance) (self_id : String) (g : Graph) (max_hops : ℕ) (m : Map Edge)
    → r.out_channel.destination ≡ r.in_channel.source
    → lookup r.in_channel.source g.inbound ≡ some m
    → get_route r self_id g max_hops ≡ some (err panic)
unfolding get_route Pathfinder.get_route close_route prepend new_route
get_route-same_peer r self_id g max_hops m same there =
    let a = r.in_channel.source in
    let found = dijkstra-same g ((self_id, true) ∷ []) a r.amount (sub64 max_hops 2) m there in
    let searched : Pathfinder.get_route g ((self_id, true) ∷ []) a a r.amount max_hops
        ≡ some (ok (new_route a a r.amount [])) =
      rw (found, Pathfinder.get_route) refl in
    rw
      (
        subst
            (λ x.
              Pathfinder.get_route g ((self_id, true) ∷ []) x a r.amount max_hops
              ≡ some (ok (new_route a a r.amount [])))
            (sym same) searched,
        get_route,
      )
      refl
