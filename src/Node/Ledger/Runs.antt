-- ===== src/Node/Ledger/Runs.antt =====
-- The refinement: every run of the node's operations on payments is a run of the ledger. The node's steps are
-- GeneratePreimageHashPair, SendPay, the two reports of lightningd, SaveToDb of a route, a round of
-- UpdateLiquidity, and any change of what neither the database nor the updates hold, in any order.
use Prim.Native.String.{◌++◌ as str_append}
use circular.Prelude.{ℕ, ◌≡◌, refl, sym, ap, ◌∙◌, String, Bool, List, [], ◌∷◌, ◌++◌, Map}
use circular.Lightning.{Peer, SendPayFailure, SendPaySuccess}
use circular.Graph.Route.{Route, PrettyRoute}
use circular.Graph.Network.{Graph}
use circular.Node.Store.{Badger, IsTransactional, Json, route, route_prefix}
use circular.Node.State.{Node, Client, LiquidityUpdate}
use circular.Node.Payments.{
  continue, generate_preimage_hash_pair, send_pay, on_payment_failure, on_payment_success,
  on_htlc_accepted, save, update_liquidity,
}
use circular.Node.Ledger.{
  Phase, unknown, pending, timed_out, reused, Ledger, Event, began, failed, succeeded, learned,
  apply, IsHash, Tracks, replay, drop_first, sent_events, answer, NeverBegan,
}
use circular.Node.Ledger.Pending.{replay-not_pending, answer-not_pending, not_pending-answer}
use circular.Node.Ledger.Refines.{IsReliable, set_hash-Tracks}
use circular.Node.Ledger.Reports.{
  on_payment_failure-Tracks, on_payment_success-Tracks, send_pay-Follows, saved-Tracks, entered,
}

module _ {D L : Type 0} (b : Badger D) (json : Json) (client : Client L) where
  -- a step with what it means for the ledger
  pub data Step : Node D L → List Event → Node D L → Type 0 where
    generate :
        (n : Node D L)
        → Step n
            (began
                (client.sha256 (client.random_preimage n.world).0)
                (client.random_preimage n.world).0
              ∷ [])
            (generate_preimage_hash_pair b json client n).1
    send :
        (n : Node D L) (r : Route) (hash : String)
        → IsHash hash
        → Step n
            (sent_events hash (send_pay b json client r hash n).0)
            (send_pay b json client r hash n).1
    fail :
        (n : Node D L) (sf : SendPayFailure)
        → IsHash sf.payment_hash
        → Step n (failed sf ∷ []) (on_payment_failure b json client sf n)
    succeed :
        (n : Node D L) (ss : SendPaySuccess)
        → IsHash ss.payment_hash
        → Step n (succeeded ss ∷ []) (on_payment_success b json client ss n)
    note :
        (n : Node D L) (hash : String) (r : PrettyRoute)
        → IsHash hash
        → Step n [] (save b json client (str_append route_prefix hash) (route r) n)
    -- all else of the node changes
    elsewhere :
        (n : Node D L) (world : L) (graph : Graph) (peers : Map Peer) (stopped : Bool)
        → Step n [] (record n { world = world; graph = graph; peers = peers; stopped = stopped })
    learn : (n : Node D L) (now : ℕ) → Step n (learned ∷ []) (update_liquidity now n)

  pub data Runs (n : Node D L) : List Event → Node D L → Type 0 where
    here : Runs n [] n
    next :
        {done events : List Event} {m p : Node D L}
        → Runs n done m
        → Step m events p
        → Runs n (done ++ events) p

module _ {D L : Type 0} (b : Badger D) (json : Json) (client : Client L) (t : IsTransactional b)
    (r : IsReliable b) (s : (preimage : String) → IsHash (client.sha256 preimage)) where
  generate-Tracks :
      (n : Node D L) (l : Ledger)
      → Tracks b n l
      → Tracks b (generate_preimage_hash_pair b json client n).1 (
          apply
            (began
              (client.sha256 (client.random_preimage n.world).0)
              (client.random_preimage n.world).0)
            l)
  unfolding generate_preimage_hash_pair
  generate-Tracks n l k =
      let drawn = client.random_preimage n.world in
      let hash = client.sha256 drawn.0 in
      let (m, q) = r.sets hash drawn.0 n.db in
      let set = set_hash-Tracks b json client t r hash (s drawn.0) drawn.0 n l k in
      rw (q, generate_preimage_hash_pair) (record { phases = set.phases; updates = set.updates })

  update_liquidity-Tracks :
      (n : Node D L) (l : Ledger) (now : ℕ)
      → Tracks b n l
      → Tracks b (update_liquidity now n) (apply learned l)
  unfolding update_liquidity
  update_liquidity-Tracks n l now k = go n.updates refl
    where
      go :
          (updates : List LiquidityUpdate)
          → n.updates ≡ updates
          → Tracks b (update_liquidity now n) (apply learned l)
      go [] e =
          rw (e, update_liquidity)
            (record { phases = k.phases; updates = e ∙ ap drop_first (sym e ∙ k.updates) })
      go (u ∷ updates) e =
          rw (e, update_liquidity)
            (record { phases = k.phases; updates = ap drop_first (sym e ∙ k.updates) })

  Step-Tracks :
      {n m : Node D L} {events : List Event} (l : Ledger)
      → Step b json client n events m
      → Tracks b n l
      → Tracks b m (replay events l)
  Step-Tracks l (generate n) k = generate-Tracks n l k
  Step-Tracks l (send n r' hash h) k = send_pay-Follows b json client t r r' hash n l k h
  Step-Tracks l (fail n sf h) k = on_payment_failure-Tracks b json client t r sf n l k h
  Step-Tracks l (succeed n ss h) k = on_payment_success-Tracks b json client t r ss n l k h
  Step-Tracks l (note n hash r' h) k =
      saved-Tracks b json client t r "r_" hash (route r') n l refl h k
  Step-Tracks l (elsewhere n world graph peers stopped) k = record {
    phases = k.phases;
    updates = k.updates;
  }
  Step-Tracks l (learn n now) k = update_liquidity-Tracks n l now k

  replay-append :
      (done events : List Event) (l : Ledger)
      → replay (done ++ events) l ≡ replay events (replay done l)
  replay-append [] events l = refl
  replay-append (e ∷ done) events l = replay-append done events (apply e l)

  -- If the transactions of the database do all or nothing, if its writes succeed and if hashes have
  -- 64 characters, then from a node that agrees with a ledger on, after every run of
  -- GeneratePreimageHashPair, SendPay, the reports of failures and successes, SaveToDb of routes,
  -- rounds of UpdateLiquidity and other changes of the node, in any order, the state of the node
  -- agrees with the ledger after the events of the run: each payment is unknown, pending, timed out
  -- or pending again, and the updates are those of the first reports of known payments.
  pub Runs-Tracks :
      {n m : Node D L} {events : List Event} (l : Ledger)
      → Runs b json client n events m
      → Tracks b n l
      → Tracks b m (replay events l)
  Runs-Tracks l here k = k
  Runs-Tracks l (next {done} {events} before st) k =
      rw (replay-append done events l) (Step-Tracks (replay done l) st (Runs-Tracks l before k))

  answered :
      (n : Node D L) (l : Ledger) (hash : String) (p : Phase)
      → Tracks b n l
      → IsHash hash
      → l.phase hash ≡ p
      → on_htlc_accepted b json client hash n ≡ answer p
  unfolding on_htlc_accepted
  answered n l hash unknown k h e =
      rw ((entered b json client t r n l hash unknown k h e).0, on_htlc_accepted) refl
  answered n l hash (pending preimage) k h e =
      rw ((entered b json client t r n l hash (pending preimage) k h e).0, on_htlc_accepted) refl
  answered n l hash (reused preimage) k h e =
      rw ((entered b json client t r n l hash (reused preimage) k h e).0, on_htlc_accepted) refl
  answered n l hash timed_out k h e =
      rw ((entered b json client t r n l hash timed_out k h e).0, on_htlc_accepted) refl

  -- After every run of the node, if the transactions of the database do all or nothing, its writes
  -- succeed, hashes have 64 characters, and the node agrees with a ledger at the start of the run,
  -- the hook answers what the ledger that replays the events of the run says: it resolves a payment
  -- that is pending, for the first time or again, with its preimage, and lets every other pass.
  pub on_htlc_accepted-Runs :
      {n m : Node D L} {events : List Event} (l : Ledger) (hash : String)
      → Runs b json client n events m
      → Tracks b n l
      → IsHash hash
      → on_htlc_accepted b json client hash m ≡ answer ((replay events l).phase hash)
  on_htlc_accepted-Runs {events} l hash runs k h =
      answered _ (replay events l) hash _ (Runs-Tracks l runs k) h refl

  -- Where the hook lets the payment of a hash pass, it lets it pass after every run of the node
  -- that does not begin a payment of that hash, if the transactions of the database do all or
  -- nothing, its writes succeed, hashes have 64 characters, and the node agrees with a ledger at
  -- the start of the run.
  pub on_htlc_accepted-stays :
      {n m : Node D L} {events : List Event} (l : Ledger) (hash : String)
      → Runs b json client n events m
      → Tracks b n l
      → IsHash hash
      → NeverBegan hash events
      → on_htlc_accepted b json client hash n ≡ continue
      → on_htlc_accepted b json client hash m ≡ continue
  on_htlc_accepted-stays {events} l hash runs k h never e =
      let before = answer-not_pending _ (sym (answered _ l hash _ k h refl) ∙ e) in
      on_htlc_accepted-Runs l hash runs k h
      ∙ not_pending-answer _ (replay-not_pending hash events l never before)
