-- ===== src/Graph/Pathfinder.antt =====
-- graph/pathfinder.go: the search for the cheapest route from `src` to `dst`, from the destination
-- backwards. The order in which `range` meets the neighbours of a node is that of the list; it may differ
-- from node to node, and each node is expanded once, so a statement for every graph covers every order.
-- `none` says that the fuel of a loop ran out. The main loop gets one round for each short channel id of
-- the adjacency list, and two more; the loop that reads the route back gets one for each hop that the
-- route may have, and one more.
pub mod Trace
pub mod Once
pub mod Invariant
pub mod Relaxed
pub mod Expand
pub mod Round
pub mod Loop
pub mod Correct
use circular.Prelude.{
  ℕ, zero, suc, ◌+◌, ◌^◌, String, Bool, true, false, Option, none, some, List, [], ◌∷◌, ◌++◌, not,
  Map, lookup, insert, get_or, str_eq, ◌==◌, if◌then◌else◌, add64, sub64, slt, sle, length,
}
use circular.Errors.{Result, ok, err, no_such_node, no_route, panic, ◌>>=◌}
use circular.Graph.Channel.{Channel, compute_fee, can_forward}
use circular.Graph.Route.{RouteHop, Route, new_route}
use circular.Graph.Network.{Graph, Edge, neighbours, channel_id}
use circular.Graph.Queue.{PqItem, Item, PriorityQueue, push, pop, init}

abbrev pub max_distance : ℕ
max_distance = 2 ^ 31

pub record Search : Type 0 where
  pub distance : Map ℕ
  pub hop : Map RouteHop
  pub queue : PriorityQueue

-- distance[u], 0 for a node that no channel leads to
abbrev pub distance_of : Search → String → ℕ
distance_of s u = get_or 0 (lookup u s.distance)

-- distance[u] = maxDistance, for each u of g.Inbound
unfoldable pub unreached : Map (Map Edge) → Map ℕ
unreached [] = []
unreached ((u, m) ∷ links) = (u, max_distance) ∷ unreached links

unfoldable pub start : Graph → String → ℕ → Search
unfolding unreached init
start g dst amount = record {
  distance = insert dst 0 (unreached g.inbound);
  hop = [];
  queue = init (
      record {
        value = record { node = dst; amount = amount; delay = 0; hops = 0 };
        priority = 0;
        index = 0;
      }
      ∷ []);
}

-- for u := src; u != dst; u = hop[u].Destination; a missing hop has no channel to read from
unfoldable pub read_hops : ℕ → Map RouteHop → String → String → Option (Result (List RouteHop))
read_hops zero hop dst u = none
read_hops (suc fuel) hop dst u = elim (str_eq u dst) [
  | true ↦ some (ok [])
  | false ↦ elim (lookup u hop) [
    | none ↦ some (err panic)
    | some h ↦ elim (read_hops fuel hop dst h.channel.destination) [
      | none ↦ none
      | some r ↦ some (do hops ← r; ok (h ∷ hops))
    ]
  ]
]

-- the number of short channel ids in the adjacency list
unfoldable pub edge_size : Map Edge → ℕ
edge_size [] = 0
edge_size ((v, edge) ∷ m) = length edge + edge_size m

unfoldable pub links_size : Map (Map Edge) → ℕ
unfolding edge_size
links_size [] = 0
links_size ((u, m) ∷ links) = edge_size m + links_size links

-- what follows the main loop
unfoldable pub finish : String → String → ℕ → Search → Option (Result (List RouteHop))
unfolding read_hops
finish src dst max_hops s =
    if distance_of s src == max_distance
    then some (err no_route)
    else read_hops (suc max_hops) s.hop dst src

module _ (g : Graph) (exclude : Map Bool) where
  -- the end of the loop's body, for a channel from `v` to the node of `item`
  unfoldable pub relax : PqItem → String → Channel → Search → Search
  relax item v channel s =
      let fee = compute_fee channel item.amount in
      let new_distance = add64 (distance_of s item.node) fee in
      let amount = add64 item.amount fee in
      let delay = add64 item.delay channel.delay in
      if slt new_distance (distance_of s v)
      then record {
        distance = insert v new_distance s.distance;
        hop = insert v (record { channel = channel; milli_satoshi = amount; delay = delay }) s.hop;
        queue = push s.queue (record {
          value = record { node = v; amount = amount; delay = delay; hops = suc item.hops };
          priority = new_distance;
          index = 0;
        });
      }
      else s

  -- the rest of the body, for one short channel id
  unfoldable pub try_scid : PqItem → String → String → Search → Search
  unfolding relax
  try_scid item v scid s = elim (lookup (channel_id scid v item.node) g.channels) [
    | none ↦ s
    | some channel ↦ if can_forward channel item.amount then relax item v channel s else s
  ]

  -- for _, scid := range edge
  unfoldable pub try_edge : PqItem → String → Edge → Search → Search
  unfolding try_scid
  try_edge item v [] s = s
  try_edge item v (scid ∷ edge) s = try_edge item v edge (try_scid item v scid s)

  -- for v, edge := range g.Inbound[u]
  unfoldable pub try_neighbours : PqItem → Map Edge → Search → Search
  unfolding try_edge
  try_neighbours item [] s = s
  try_neighbours item ((v, edge) ∷ m) s =
      try_neighbours item m (if get_or false (lookup v exclude) then s else try_edge item v edge s)

  -- the body of the main loop after the pop; `none` is the `break`
  unfoldable pub visit : String → ℕ → Item → Search → Option Search
  unfolding try_neighbours
  visit src max_hops item s =
      let value = item.value in
      if slt (distance_of s value.node) item.priority
      then some s
      else if str_eq value.node src
      then none
      else if sle max_hops value.hops
      then some s
      else some (try_neighbours value (neighbours g.inbound value.node) s)

  unfoldable pub main_loop : String → ℕ → ℕ → Search → Option Search
  unfolding visit
  main_loop src max_hops zero s = none
  main_loop src max_hops (suc fuel) s = elim (pop s.queue) [
    | none ↦ some s
    | some (item, rest) ↦ elim (visit src max_hops item (record s { queue = rest })) [
      | none ↦ some (record s { queue = rest })
      | some s' ↦ main_loop src max_hops fuel s'
    ]
  ]

  unfoldable pub dijkstra : String → String → ℕ → ℕ → Option (Result (List RouteHop))
  unfolding start main_loop finish links_size
  dijkstra src dst amount max_hops = elim (lookup dst g.inbound) [
    | none ↦ some (err no_such_node)
    | some _ ↦ elim (lookup src g.inbound) [
      | none ↦ some (err no_such_node)
      | some _ ↦ elim (main_loop src max_hops (links_size g.inbound + 2) (start g dst amount)) [
        | none ↦ none
        | some s ↦ finish src dst max_hops s
      ]
    ]
  ]

  unfoldable pub get_route : String → String → ℕ → ℕ → Option (Result Route)
  unfolding dijkstra
  get_route src dst amount max_hops = elim (dijkstra src dst amount (sub64 max_hops 2)) [
    | none ↦ none
    | some r ↦ some (do hops ← r; ok (new_route src dst amount hops))
  ]
