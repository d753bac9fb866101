-- ===== src/Graph/Pathfinder/Loop.antt =====
-- The main loop keeps the invariant and ends: each round takes an item out of the queue, or uses up the
-- edges of a node that it expands.
use circular.Prelude.{
  ℕ, zero, suc, ◌+◌, ◌<◌, ◌≡◌, inl, inr, refl, subst, ap, ◌∙◌, String, Bool, none, some, [], Map,
  arith, Option-cases, List-cases, i64_half,
}
use circular.Graph.Network.{Graph}
use circular.Graph.Queue.{Item, PriorityQueue, pop, minus_one}
use circular.Graph.Queue.Order.{IsHeap}
use circular.Graph.Queue.Laws.{pop-Popped}
use circular.Graph.Pathfinder.{Search, visit, main_loop}
use circular.Graph.Pathfinder.Once.{Once, size, remaining}
use circular.Graph.Pathfinder.Expand.{Assumptions}
use circular.Graph.Pathfinder.Round.{Holds, GoesOn, visit-keeps, after-Inv}

module _ (ends : String → String × String) (g : Graph) (exclude : Map Bool) (dst : String)
    (amount max_hops : ℕ) (a : Assumptions ends g amount) (few : max_hops < i64_half) where
  module _ (src : String) (fuel : ℕ) (s : Search) where
    main_loop-empty : pop s.queue ≡ none → main_loop g exclude src max_hops (suc fuel) s ≡ some s
    unfolding main_loop
    main_loop-empty e = rw (e, main_loop)

    module _ (item : Item) (others : PriorityQueue) (e : pop s.queue ≡ some (item, others)) where
      main_loop-stop :
          visit g exclude src max_hops item (record s { queue = others }) ≡ none
          → main_loop g exclude src max_hops (suc fuel) s ≡ some (record s { queue = others })
      unfolding main_loop
      main_loop-stop v = rw (e, main_loop) (rw (v, main_loop))

      main_loop-go :
          (s' : Search)
          → visit g exclude src max_hops item (record s { queue = others }) ≡ some s'
          → main_loop g exclude src max_hops (suc fuel) s ≡ main_loop g exclude src max_hops fuel s'
      unfolding main_loop
      main_loop-go s' v = rw (e, main_loop) (rw (v, main_loop))

  pop-empty : pop [] ≡ none
  unfolding pop
  pop-empty = refl

  -- With a round for each item and each short channel id that is left, and one more, the loop ends.
  pub main_loop-keeps :
      (src : String) (fuel D : ℕ) (done : String → Bool) (s : Search)
      → Holds ends g exclude dst amount max_hops a few D s
      → Once done D s
      → size s.queue + remaining done g.inbound < fuel
      → (t : Search) × (main_loop g exclude src max_hops fuel s ≡ some t)
        × (E : ℕ) × Holds ends g exclude dst amount max_hops a few E t
  main_loop-keeps src zero D done s i once b = absurd (omega arith)
  main_loop-keeps src (suc fuel) D done s i once b = elim (List-cases s.queue) [
    | inl q ↦ (s, main_loop-empty src fuel s (ap pop q ∙ pop-empty), D, i)
    | inr (x, rest, q) ↦
        let (others, pops, popped) = pop-Popped x rest (subst IsHeap q i.heap) in
        let pops' = ap pop q ∙ pops in
        let goes =
          visit-keeps ends g exclude dst amount max_hops a few D s i x rest others q popped done
            once src in
        elim (Option-cases (
          visit g exclude src max_hops (record x { index = minus_one })
            (record s { queue = others }))) [
              | inl stop ↦ (
                record s { queue = others },
                main_loop-stop src fuel s _ others pops' stop,
                x.priority,
                after-Inv ends g exclude dst amount max_hops a few D s i x rest others q popped,
              )
              | inr (s', go) ↦
                  let (i', (done', once', less)) =
                    subst
                      (GoesOn ends g exclude dst amount max_hops a few D s i x rest others q popped
                        done once)
                      go goes in
                  let (t, e, E, kept) =
                    main_loop-keeps src fuel x.priority done' s' i' once' (omega arith) in
                  (t, main_loop-go src fuel s _ others pops' s' go ∙ e, E, kept)
            ]
  ]
