-- ===== src/Node/Options.antt =====
-- The options of the plugin as the node reads them: setOptions of node/node.go, setupCronJobs of node/cron.go and
-- startWebsocket of node/websocket.go. A read of an option that is not there, or of another type, panics.
use Prim.Native.String.{◌++◌ as str_append}
use circular.Prelude.{
  ℕ, String, Bool, Option, none, some, Map, lookup, str_eq, if◌then◌else◌, itoa, mul64,
}
use circular.Errors.{Result, ok, err, ◌>>=◌, panic}
use circular.Node.State.{Node}

-- glightning.Option: the value that GetValue returns
pub data OptionValue : Type 0 where
  int : ℕ → OptionValue
  bool : Bool → OptionValue
  string : String → OptionValue

abbrev pub Options : Type 0
Options = Map OptionValue

abbrev pub option_websocket_endpoint : String
option_websocket_endpoint = "circular-websocket"

abbrev pub circular_dir : String
circular_dir = "circular"

abbrev pub liquidity_refresh_interval : ℕ
liquidity_refresh_interval = 10

-- the type assertions on a value
abbrev as_int : Option OptionValue → Result ℕ
as_int (some (int n)) = ok n
as_int _ = err panic

abbrev as_bool : Option OptionValue → Result Bool
as_bool (some (bool x)) = ok x
as_bool _ = err panic

abbrev as_string : Option OptionValue → Result String
as_string (some (string s)) = ok s
as_string _ = err panic

abbrev pub get_int : String → Options → Result ℕ
get_int name options = as_int (lookup name options)

abbrev pub get_bool : String → Options → Result Bool
get_bool name options = as_bool (lookup name options)

abbrev pub get_string : String → Options → Result String
get_string name options = as_string (lookup name options)

-- time.Minute, in nanoseconds; a product that does not fit the int64 of a time.Duration wraps around
abbrev pub minute : ℕ
minute = 60000000000

unfoldable pub set_options : {D L : Type 0} → Options → Node D L → Result (Node D L)
set_options options n = do
  minutes ← get_int "circular-liquidity-refresh" options
  save ← get_bool "circular-save-stats" options
  ok (record n { liquidity_refresh = mul64 minutes minute; save_stats = save })

pub data Job : Type 0 where
  refreshing_graph refreshing_peers refreshing_liquidity : Job

-- github.com/robfig/cron: New, and AddFunc with its schedule
pub record Cron (C : Type 0) : Type 0 where
  pub new : C
  pub add_func : String → Job → C → Result C

-- log.Fatalln ends the program
abbrev pub or_exit {ℓ} : {A : Type ℓ} → Result A → Result A
or_exit (ok a) = ok a
or_exit (err e) = err panic

module _ {C : Type 0} (cron : Cron C) where
  unfoldable pub add_cron_job : String → Job → C → Result C
  add_cron_job interval job c = or_exit (cron.add_func (str_append "@every " interval) job c)

  unfoldable pub setup_cron_jobs : Options → Result C
  unfolding add_cron_job
  setup_cron_jobs options = do
    graph_minutes ← get_int "circular-graph-refresh" options
    c ← add_cron_job (str_append (itoa graph_minutes) "m") refreshing_graph cron.new
    peer_seconds ← get_int "circular-peer-refresh" options
    d ← add_cron_job (str_append (itoa peer_seconds) "s") refreshing_peers c
    add_cron_job (str_append (itoa liquidity_refresh_interval) "m") refreshing_liquidity d

-- the endpoint on which it listens, if it is enabled
unfoldable pub start_websocket : Options → Result (Option String)
start_websocket options = do
  endpoint ← get_string option_websocket_endpoint options
  ok (if str_eq endpoint "" then none else some endpoint)
