-- ===== src/Graph/SearchExamples.antt =====
-- The theorems about the queue, the search and its routes at the small network.
use circular.Prelude.{
  map, ℕ, zero, suc, ◌%◌, ◌≡◌, ◌≢◌, refl, String, none, some, List, [], ◌∷◌, lookup, arith, u64_mod,
  mul64, sub64,
}
use circular.Errors.{Result, ok}
use circular.Graph.Route.{
  RouteHop, Route, append, initial_delay, new_pretty_route, pretty_hops, pretty_hop, PrettyRoute,
}
use circular.Graph.Route.Prices.{IsPriced, append-IsPriced}
use circular.Graph.Route.Pretty.{unpriced, without_fee, pretty_fees, sum_fees}
use circular.Graph.Queue.{Item, PriorityQueue, push, pop, minus_one}
use circular.Graph.Queue.Array.{rank}
use circular.Graph.Queue.Order.{IsHeap}
use circular.Graph.Queue.Laws.{push-IsHeap, Popped, pop-Popped}
use circular.Graph.Pathfinder.{dijkstra}
use circular.Graph.Pathfinder.Correct.{IsFound, dijkstra-IsFound}
use circular.Graph.Examples.{channel_ab, channel_bc, ends, network, network-Assumptions}

abbrev item : ℕ → Item
item p = record {
  value = record { node = "a"; amount = 1000; delay = 0; hops = 1 };
  priority = p;
  index = 0;
}

abbrev queue : PriorityQueue
queue = item 3 ∷ item 8 ∷ []

queue-IsHeap : IsHeap queue
unfolding rank
queue-IsHeap zero p q r = absurd (omega arith)
queue-IsHeap (suc zero) p q r = omega arith
queue-IsHeap (suc (suc c)) p q r = absurd (omega arith)

push-IsHeap_example : IsHeap (push queue (item 1))
push-IsHeap_example = push-IsHeap queue (item 1) queue-IsHeap

pop-Popped_example :
    (others : PriorityQueue) × (pop queue ≡ some (record (item 3) { index = minus_one }, others))
    × Popped queue (item 3) others
pop-Popped_example = pop-Popped (item 3) (item 8 ∷ []) queue-IsHeap

abbrev inner : Route
inner = record {
  source = "a";
  destination = "b";
  amount = 100000;
  hops = record { channel = channel_ab; milli_satoshi = 101001; delay = 6 } ∷ [];
}

append-IsPriced_example : IsPriced 100000 initial_delay (append channel_bc inner).hops
append-IsPriced_example = append-IsPriced channel_bc inner

known_c : lookup "c" network.inbound ≢ none
unfolding lookup
known_c e = absurd (cc e)

known_b : lookup "b" network.inbound ≢ none
unfolding lookup
known_b e = absurd (cc e)

dijkstra-IsFound_example :
    (r : Result (List RouteHop)) × (dijkstra network [] "b" "c" 1000000 3 ≡ some r)
    × IsFound network [] "c" 1000000 3 "b" r
dijkstra-IsFound_example =
    dijkstra-IsFound ends network [] "c" 1000000 3 network-Assumptions (omega arith) "b" known_c
      known_b

abbrev first : RouteHop
first = record { channel = channel_ab; milli_satoshi = 101010; delay = 12 }

abbrev second : RouteHop
second = record { channel = channel_bc; milli_satoshi = 100000; delay = 6 }

abbrev route : Route
route = record { source = "a"; destination = "c"; amount = 100000; hops = first ∷ second ∷ [] }

abbrev alias_of : String → String
alias_of id = id

abbrev pretty : PrettyRoute
pretty = record {
  payment_hash = "hash";
  source_id = "a";
  destination_id = "c";
  source_alias = "a";
  destination_alias = "c";
  amount = 100;
  fee = 1010;
  fee_ppm = 10100;
  hops = pretty_hop alias_of first 0 0 ∷ pretty_hop alias_of second 1010 10100 ∷ [];
}

pretty-route : new_pretty_route alias_of route "hash" ≡ ok pretty
unfolding new_pretty_route pretty_hops pretty_hop mul64 sub64
pretty-route = refl

pretty_fees_example :
    (sum_fees pretty.hops % u64_mod ≡ pretty.fee)
    × (map without_fee pretty.hops ≡ map (unpriced alias_of) (first ∷ second ∷ []))
pretty_fees_example =
    pretty_fees alias_of route "hash" first (second ∷ []) pretty refl
      (omega arith, (omega arith, tt)) refl pretty-route
