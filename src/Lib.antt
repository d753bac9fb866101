-- ===== src/Lib.antt =====
-- circular: a plugin of lightningd that rebalances the channels of a Lightning node. It holds a graph of the
-- network with what it believes of each channel's liquidity, searches cheap circular routes in it, sends
-- payments along them, and corrects its beliefs by the payments that fail.
--
-- The parts, and the files that model them:
--   Prelude    Boolean tests, lists, Go's maps (association lists), 64-bit words and float64's halving
--   Lightning  the structures of the glightning client, as far as the code reads or writes them
--   Errors     util/error.go: the errors, and results of a function that may fail; a panic is one of them
--   Util       util/util.go: all, get_direction (GetDirection), min, max, rand_range, get_map_values
--   Graph/Htlc       the limits of a channel as texts: strings.TrimSuffix and strconv.ParseUint on them
--   Graph/Channel    graph/channel.go: fees, delays and whether a channel can forward an amount
--   Graph/Route      graph/route.go and graph/prettyRoute.go: routes, their prices, their reports
--   Graph/Network    graph/graph.go and graph/stats.go: the graph, its updates by gossip and by failures
--   Graph/Queue      graph/pq.go with container/heap on it
--   Graph/Pathfinder graph/pathfinder.go: the search of the cheapest route
--   Types            types/node.go and types/result.go: what is reported as JSON
--   Singleton        singleton/node.go: what a rebalance sees of the node, over any state of the world
--   Node/Peers       node/peers.go: the peers of the node, their channels and balances
--   Rebalance/Params   rebalance/params.go: the parameters of a rebalance and their checks
--   Rebalance/Attempt  rebalance/route.go and runAttempt: the route of an attempt, and its payment
--   Rebalance/Run      Run of rebalance/rebalance.go: attempts, until one succeeds
--   Rebalance/Commands rebalance/bynode.go and rebalance/byscid.go: the two commands
--   Rebalance/Parallel rebalance/parallel: circular-pull and circular-push, with child modules for the
--              candidates (Candidates), the choices of the two (Methods), the report (Report), and their
--              calls up to WaitForResult (Wait); Accounts, Rounds, Settled and Ends are about the splits
--   Rebalance/SamePeer a rebalance between two channels of one peer
--   Node/Store         node/db.go and consts/db.go: the database, with badger as a parameter
--   Node/State         node/node.go: the state of the node, and the calls of lightningd as a parameter
--   Node/Payments      node/payment.go, node/preimage.go, node/liquidity.go and the hook of
--              cmd/circular/hooks.go: a payment from its preimage to the report of lightningd
--   Node/Ledger        the abstract view of the payments; Refines, Reports and Runs relate the node to it,
--              and Honest is about its preimages where writes fail
--   Node/Learned       what a failed payment teaches the graph
--   Node/Instance      the node of Node/State as an implementation of Singleton
--   Node/Files         node/file.go: the graph in its file, with os and encoding/json as parameters
--   Node/Cron          node/cron.go: the refresh of the graph, the peers and the beliefs
--   Node/Options       the options of the plugin as setOptions, setupCronJobs and startWebsocket read them
--   Node/Init          node/node.go: NewNode and Init, with the services that they call (Services)
--   Node/Control       node/control.go: circular-stop and circular-resume
--   Node/Life          all that changes the node while the plugin runs, as steps in any order
--   Node/Sockets       node/websocket.go: the connections and broadcasts; Requests has one message and its
--              answer, and Active, Broadcast and Answers are about them
--   Node/Stats         node/stats.go and node/deletestats.go
--   Rebalance/Stopped  a rebalance on a node that is stopped
--   Plugin             cmd/circular: the options (Options), the methods (Methods) and main.go (Start), with
--              the plugin of glightning as a parameter (Registry)
-- The Examples, CronExamples and CallExamples have tests, and the Fixture modules their data.
--
-- The parts meet in the node: a rebalance reads its peers and its graph, begins a payment, searches a route,
-- and sends the payment; lightningd's report ends the payment, and a failure becomes an update of the graph's
-- beliefs. A rebalance sees the node through the interface of Singleton.
--
-- A function of the code has its name in snake_case. A method that writes through its receiver returns
-- the new state. An unsigned 64-bit word is a number below 2 ^ 64; an int is the word of its bit pattern,
-- compared with `slt` and `sle`. Sums, differences and products wrap around (`add64`, `sub64`, `mul64`).
-- time.Now() is an argument. The calls run one after the other. The operations on the graph, and most of those
-- on the peers, hold their lock from the first to the last access of the data. The handlers of the payments hold
-- none: what two of them do to the database at the same time is not modelled, nor is what a rebalance meets in a
-- graph that changes between its steps.
--
-- The loops on lists and maps are structural. The loops of the heap run on fuel that is the length of the
-- heap and one more; each step goes up or down one level. The search has a round for each short channel id
-- of the adjacency list and two more: each node is expanded at most once, and an expansion puts at most
-- one item into the queue for each short channel id. Run has a round for each attempt and each hop that are
-- allowed, and one more; each round spends one of them.
-- FireCandidates has a round for each candidate and one more; each round takes one. WaitForResult has a round
-- for each candidate, each rebalance that runs and each split of the amount, and one more; each result takes
-- a rebalance, and a success that brings a candidate back takes a split.
--
-- The code of the libraries is a parameter: records of functions, with what the code relies on as named laws.
-- These are badger (Badger, IsTransactional), encoding/json (Json), os (Files, IsFiles), glightning's client with
-- math/rand and crypto/sha256 (Client), its plugin (Registry, IsRegistry), robfig/cron (Cron), the calls of the start
-- (Starter, Host), the connections of the web sockets (Backend), float64 in pull and push (Floats). The
-- goroutines of a parallel rebalance are an environment that says which of them sends its result next.
--
-- The plugin registers its options and methods, and its start makes the node, with a graph of the file and of
-- gossip, and then lets the cron jobs, the reports of lightningd, the commands and the web sockets change it.
-- The web sockets are served one event at a time, in any order of the connections.
--
-- Not modelled: logging; the printing of reports and statistics; that badger lets an entry expire after 14 days,
-- and how it opens a directory; the network below the web sockets and below the client of lightningd; the
-- rounding of the seconds of a period of the liquidity, in a float64, where the period has wrapped around.
pub mod Prelude
pub mod Lightning
pub mod Errors
pub mod Util
pub mod Graph
pub mod Types
pub mod Singleton
pub mod Node
pub mod Rebalance
pub mod Plugin
