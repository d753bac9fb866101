-- ===== src/Plugin/Fixture.antt =====
-- A plugin that keeps what is registered, and a host with files: lightningd gossips the small network, and the file of the
-- graph has it.
use Prim.Native.String.{String}
use circular.Prelude.{
  ℕ, ◌≡◌, refl, ap, ◌∙◌, subst, String, true, some, List, [], ◌∷◌, Map, lookup, insert, delete,
  itoa, lookup-insert, All, arith,
}
use circular.Errors.{Result, ok, err}
use circular.Lightning.{LightningChannel}
use circular.Graph.Channel.{Channel}
use circular.Util.{get_direction}
use circular.Graph.Network.{channel_id}
use circular.Graph.Network.WellFormed.{Follows}
use circular.Graph.Examples.{gossip, gossip-Follows, ends, network}
use circular.Node.State.{Client}
use circular.Node.Files.{open_graph}
use circular.Node.Files.Loaded.{IsDistinct, ArePlaced}
use circular.Node.Files.Fixture.{Disk, disk}
use circular.Node.Ledger.Fixture.{client_on}
use circular.Node.Options.{OptionValue, int, bool, string, Options, Cron, Job}
use circular.Node.Init.{Starter}
use circular.Node.Init.Services.{AreUp}
use circular.Plugin.Registry.{
  RpcMethod, OptionKind, int_kind, bool_kind, string_kind, kind_of, Registry, IsRegistry, IsGiven,
}
use circular.Plugin.Options.{register_options}
use circular.Plugin.Methods.{register_methods}
use circular.Plugin.Start.{Host, IsUp, HasSoundFile, ready, redirect_stderr, register}

abbrev pub Known : Type 0
Known = Map OptionKind × Map RpcMethod

abbrev pub registry : Registry Known
registry = record {
  register_option = λ name description v g. (ok 0, (insert name (kind_of v) g.0, g.1));
  register_method = λ m g. (ok 0, (g.0, insert m.name m g.1));
  kind_at = λ j g. lookup j g.0;
  method_at = λ j g. lookup j g.1;
}

pub registry-IsRegistry : IsRegistry registry
registry-IsRegistry = record {
  kind-register = λ name description v g n e j. lookup-insert name j (kind_of v) g.0;
  method-register = λ m g new j. lookup-insert m.name j m g.1;
  kind-register_method = λ m g j. refl;
}

abbrev pub nothing_known : Known
nothing_known = ([], [])

-- a value of each type
abbrev value_of : OptionKind → OptionValue
value_of int_kind = int 7
value_of bool_kind = bool true
value_of string_kind = string ""

kind_of-value_of : (k : OptionKind) → kind_of (value_of k) ≡ k
kind_of-value_of int_kind = refl
kind_of-value_of bool_kind = refl
kind_of-value_of string_kind = refl

abbrev pub values_of : Map OptionKind → Options
values_of [] = []
values_of ((j, k) ∷ kinds) = (j, value_of k) ∷ values_of kinds

lookup-values_of :
    (j : String) (k : OptionKind) (kinds : Map OptionKind)
    → lookup j kinds ≡ some k
    → lookup j (values_of kinds) ≡ some (value_of k)
unfolding lookup
lookup-values_of j k [] e = absurd (cc e)
lookup-values_of j k ((i, h) ∷ kinds) e = ground (arith, lookup-values_of j k kinds)

pub values-IsGiven : (g : Known) → IsGiven registry g (values_of g.0)
values-IsGiven g j k e = (value_of k, lookup-values_of j k g.0 e, kind_of-value_of k)

abbrev pub after : Result Known → Known
after (ok g) = g
after (err e) = nothing_known

abbrev pub known : Known
known = after (register registry nothing_known)

pub registered : register registry nothing_known ≡ ok known
unfolding register register_options register_methods
registered = refl

-- lightningd, over the files
abbrev pub gossiping : Client Disk
gossiping = record (client_on (λ w. w)) { list_channels = λ w. (ok gossip, w) }

pub gossiping-Follows :
    (l : Disk) (channels : List LightningChannel)
    → (gossiping.list_channels l).0 ≡ ok channels
    → All (Follows ends) channels
gossiping-Follows l channels e =
    subst (All (Follows ends))
      (ap (λ (x : Result (List LightningChannel)). elim x [ ok c ↦ c | err z ↦ [] ]) e)
      gossip-Follows

-- the file of the graph is there, with the small network
abbrev pub begun : Disk
begun = ("/root/.lightning/circular/graph.json", network.channels) ∷ []

abbrev pub cron : Cron (List (String × Job))
cron = record { new = []; add_func = λ spec job jobs. ok ((spec, job) ∷ jobs) }

abbrev pub starter : Starter (Map String) Disk
starter = record { get_info = λ l. (ok "n", l); open_db = λ dir l. (ok [], l) }

abbrev pub host : Host Disk
host = record {
  open_file = λ name l. (ok 0, insert name [] l);
  redirect = λ name l. (ok 0, l);
  start_up = λ l. (ok 0, l);
}

placed : IsDistinct network.channels × ArePlaced ends network.channels
unfolding lookup channel_id get_direction
placed = ((refl, (refl, tt)), ((refl, refl), ((refl, refl), tt)))

-- what is read is the small network
read-placed :
    (text m : Map Channel) → network.channels ≡ text → text ≡ m → IsDistinct m × ArePlaced ends m
read-placed text m e q = subst (λ x. IsDistinct x × ArePlaced ends x) (e ∙ q) placed

inside : {a b : Map Channel} → ok a ≡ ok b → a ≡ b
inside {a} e = ap (λ (x : Result (Map Channel)). elim x [ ok y ↦ y | err z ↦ a ]) e

-- the files once lightningd has started the plugin
abbrev pub ready_files : Disk
ready_files = ready gossiping disk cron starter host "/root/.lightning" 1700000000 begun

pub started-IsSound :
    HasSoundFile gossiping disk cron starter host "/root/.lightning" 1700000000 begun ends
unfolding open_graph lookup insert redirect_stderr itoa
started-IsSound text m e q = read-placed text m (inside e) (inside q)

pub services-AreUp :
    (graph_minutes peer_seconds : ℕ)
    → AreUp gossiping disk cron starter graph_minutes peer_seconds "/root/.lightning/circular"
        ready_files
unfolding lookup insert delete redirect_stderr itoa
services-AreUp graph_minutes peer_seconds = record {
  knows = ("n", refl);
  decodes = λ text e. (text, refl);
  lists_channels = (gossip, refl);
  lists_nodes = ([], refl);
  makes = (0, refl);
  creates = (0, refl);
  encodes = λ m. (0, refl);
  renames = λ m. (0, refl);
  lists_peers = λ m. ([], refl);
  opens = λ m. ([], refl);
  accepts = (_, refl, _, refl, (_, refl));
}

pub host-IsUp : IsUp gossiping disk cron starter host "/root/.lightning" 1700000000 begun
host-IsUp = record {
  makes = (0, refl);
  opens = (0, refl);
  redirects = (0, refl);
  starts = (0, refl);
}
