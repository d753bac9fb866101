-- ===== src/Graph/Pathfinder/Invariant.antt =====
-- The invariant of the search.
use circular.Prelude.{
  ℕ, ◌+◌, ◌<◌, ◌≤◌, ◌≡◌, ◌⊎◌, String, Bool, none, some, List, ◌∷◌, Map, lookup, length,
}
use circular.Graph.Route.{RouteHop}
use circular.Graph.Network.{Graph}
use circular.Graph.Queue.{PqItem, PriorityQueue}
use circular.Graph.Queue.Order.{IsHeap}
use circular.Graph.Queue.Swaps.{Each}
use circular.Graph.Pathfinder.{Search, distance_of, max_distance}
use circular.Graph.Pathfinder.Trace.{amount_of, delay_of, Trace, Trace-settle}

-- what a distance below the greatest says of a node: the search does not know it, or it is the destination,
-- or it has a hop
abbrev pub IsReached : Graph → String → Search → String → Type 0
IsReached g dst s v =
    (lookup v g.inbound ≡ none) ⊎ (v ≡ dst) ⊎ ((h : RouteHop) × (lookup v s.hop ≡ some h))

module _ (g : Graph) (exclude : Map Bool) (dst : String) (amount max_hops : ℕ) where
  -- a chain of at most `max_hops` hops from `v`, which costs its distance on top of the amount
  pub record HasChain (D : ℕ) (s : Search) (v : String) (hops : List RouteHop) : Type 0 where
    pub trace : Trace g exclude dst amount D s v hops
    pub costs : amount_of amount hops ≡ amount + distance_of s v
    pub short : length hops ≤ max_hops

  -- the search comes to the distance `E`, and its queue changes
  pub HasChain-settle :
      (D E : ℕ) (s : Search) (q : PriorityQueue) (v : String) (hops : List RouteHop)
      → D ≤ E
      → HasChain D s v hops
      → HasChain E (record s { queue = q }) v hops
  HasChain-settle D E s q v hops b c = record {
    trace = Trace-settle g exclude dst amount D E s q v hops b c.trace;
    costs = c.costs;
    short = c.short;
  }

  -- An item that waits in the queue lies at `D` or beyond. If its priority is the distance of its node, it
  -- has the amount, the delay and the hops of the chain from there.
  pub record IsWaiting (D : ℕ) (s : Search) (item : PqItem) (p : ℕ) : Type 0 where
    pub ahead : D ≤ p
    pub below : p < max_distance
    pub no_better : distance_of s item.node ≤ p
    pub amounts : item.amount ≡ amount + p
    pub current :
        p ≡ distance_of s item.node
        → (hops : List RouteHop) × HasChain D s item.node hops
          × (delay_of hops ≡ item.delay)
          × (length hops ≡ item.hops)

  pub record Inv (D : ℕ) (s : Search) : Type 0 where
    pub heap : IsHeap s.queue
    pub arrived : distance_of s dst ≡ 0
    pub bounded : (v : String) → distance_of s v ≤ max_distance
    pub waiting : Each (IsWaiting D s) s.queue
    pub chained :
        (v : String) (h : RouteHop)
        → lookup v s.hop ≡ some h
        → (hops : List RouteHop) × HasChain D s v (h ∷ hops)
    pub reached : (v : String) → distance_of s v < max_distance → IsReached g dst s v

  -- the node that is expanded, with its chain
  pub record IsCurrent (D : ℕ) (s : Search) (item : PqItem) (hops : List RouteHop) : Type 0 where
    pub here : distance_of s item.node ≡ D
    pub chain : HasChain D s item.node hops
    pub delays : delay_of hops ≡ item.delay
    pub counted : length hops ≡ item.hops
    pub room : length hops < max_hops
    pub amounts : item.amount ≡ amount + D
