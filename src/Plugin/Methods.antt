-- ===== src/Plugin/Methods.antt =====
-- cmd/circular/methods.go: the methods of the plugin, under the names that Name of each command returns.
use circular.Prelude.{
  ◌≡◌, refl, ◌∙◌, String, true, false, Option, none, some, List, [], ◌∷◌, str_eq, if◌then◌else◌,
  All, Bool-cases, inl, inr, eq_iff, arith,
}
use circular.Plugin.Registry.{
  Command, rebalance_by_node, by_scid_command, rebalance_pull, rebalance_push, stats, delete_stats,
  stop, resume, RpcMethod, Registry, IsRegistry,
}

-- what Name of each command returns
abbrev pub rebalance_by_node_name : String
rebalance_by_node_name = "circular-node"

abbrev pub by_scid_command_name : String
by_scid_command_name = "circular"

abbrev pub rebalance_pull_name : String
rebalance_pull_name = "circular-pull"

abbrev pub rebalance_push_name : String
rebalance_push_name = "circular-push"

abbrev pub stats_name : String
stats_name = "circular-stats"

abbrev pub delete_stats_name : String
delete_stats_name = "circular-delete-stats"

abbrev pub stop_name : String
stop_name = "circular-stop"

abbrev pub resume_name : String
resume_name = "circular-resume"

-- the methods Name of the commands
unfoldable pub name : Command → String
name rebalance_by_node = rebalance_by_node_name
name by_scid_command = by_scid_command_name
name rebalance_pull = rebalance_pull_name
name rebalance_push = rebalance_push_name
name stats = stats_name
name delete_stats = delete_stats_name
name stop = stop_name
name resume = resume_name

-- NewRpcMethod, with the description in full
abbrev new_rpc_method : Command → String → String → RpcMethod
new_rpc_method c description long_desc = record {
  name = name c;
  command = c;
  description = description;
  long_desc = long_desc;
  category = "utility";
}

-- what registerMethods registers, in its order
unfoldable pub methods : List RpcMethod
unfolding name
methods =
    new_rpc_method rebalance_by_node "Rebalance by NodeID"
      "Rebalance the node `innode` from the node `outnode` for amount `amount` for at most `maxppm`"
    ∷ new_rpc_method by_scid_command "Rebalance by Scid"
        "Rebalance the channel `inchannel` from the channel `outchannel` for amount `amount` for at most `maxppm`"
    ∷ new_rpc_method rebalance_pull "Pull liquidity into a channel from many sources in parallel"
        "Rebalance the channel `inscid` from many channels concurrently"
    ∷ new_rpc_method rebalance_push
        "Push liquidity out of a channel to many destinations in parallel"
        "Rebalance the channel `outscid` from many channels concurrently"
    ∷ new_rpc_method stats "Get stats" "Get the stats of the usage of circular"
    ∷ new_rpc_method delete_stats "Delete Stats" "Delete the stats of the usage of circular"
    ∷ new_rpc_method stop "Stop circular" "Stop future htlcs from being fired"
    ∷ new_rpc_method resume "Resume circular"
        "Resume activity after a stop command. Allows htlcs to be fired"
    ∷ []

-- the first method of the name
abbrev find : String → List RpcMethod → Option RpcMethod
find j [] = none
find j (m ∷ ms) = if str_eq m.name j then some m else find j ms

abbrev or_else : Option RpcMethod → Option RpcMethod → Option RpcMethod
or_else none other = other
or_else (some m) other = some m

-- a name that differs from all is not found
find-none :
    (m : RpcMethod) (j : String) (ms : List RpcMethod)
    → str_eq m.name j ≡ true
    → All (λ n. str_eq m.name n.name ≡ false) ms
    → find j ms ≡ none
find-none m j [] t differ = refl
find-none m j (n ∷ ms) t differ =
    ground
      (arith, find-none m j ms t differ.1, eq_iff m.name j, eq_iff n.name j, eq_iff m.name n.name)

module _ {G : Type 0} (r : Registry G) where
  -- one registration after the other; their errors are dropped
  abbrev register_all : List RpcMethod → G → G
  register_all [] g = g
  register_all (m ∷ ms) g = register_all ms (r.register_method m g).1

  unfoldable pub register_methods : G → G
  unfolding methods
  register_methods = register_all methods

  abbrev AreNew : List RpcMethod → G → Type 0
  AreNew ms g = All (λ m. r.method_at m.name g ≡ none) ms

  -- each name differs from the ones behind it
  abbrev AreDistinct : List RpcMethod → Type 0
  AreDistinct [] = Unit
  AreDistinct (m ∷ ms) = All (λ n. str_eq m.name n.name ≡ false) ms × AreDistinct ms

  module _ (law : IsRegistry r) where
    AreNew-register :
        (m : RpcMethod) (ms : List RpcMethod) (g : G)
        → r.method_at m.name g ≡ none
        → All (λ n. str_eq m.name n.name ≡ false) ms
        → AreNew ms g
        → AreNew ms (r.register_method m g).1
    AreNew-register m [] g new differ news = tt
    AreNew-register m (n ∷ ms) g new differ news = (
      law.method-register m g new n.name ∙ rw differ.0 news.0,
      AreNew-register m ms g new differ.1 news.1,
    )

    skip :
        (m : RpcMethod) (ms : List RpcMethod) (g : G) (j : String)
        → All (λ n. str_eq m.name n.name ≡ false) ms
        → (before after : Option RpcMethod) → after ≡ (if str_eq m.name j then some m else before)
        → or_else (find j ms) after ≡ or_else (find j (m ∷ ms)) before
    skip m ms g j differ before after e = elim (Bool-cases (str_eq m.name j)) [
      | inl t ↦ rw (find-none m j ms t differ, e, t) refl
      | inr t ↦ rw (e, t) refl
    ]

    method_at-register_all :
        (ms : List RpcMethod) (g : G) (j : String)
        → AreDistinct ms
        → AreNew ms g
        → r.method_at j (register_all ms g) ≡ or_else (find j ms) (r.method_at j g)
    method_at-register_all [] g j distinct news = refl
    method_at-register_all (m ∷ ms) g j (differ, distinct) (new, news) =
        method_at-register_all ms (r.register_method m g).1 j distinct
          (AreNew-register m ms g new differ news)
        ∙ skip m ms g j differ (r.method_at j g) _ (law.method-register m g new j)

    method_at-methods :
        (g : G) (j : String)
        → ((d : Command) → r.method_at (name d) g ≡ none)
        → r.method_at j (register_methods g) ≡ or_else (find j methods) (r.method_at j g)
    unfolding register_methods
    method_at-methods g j new = method_at-register_all methods g j (search tt) (
      new rebalance_by_node,
      (
        new by_scid_command,
        (
          new rebalance_pull,
          (new rebalance_push, (new stats, (new delete_stats, (new stop, (new resume, tt))))),
        ),
      ),
    )

    kind_at-register_all :
        (j : String) (ms : List RpcMethod) (g : G) → r.kind_at j (register_all ms g) ≡ r.kind_at j g
    kind_at-register_all j [] g = refl
    kind_at-register_all j (m ∷ ms) g =
        kind_at-register_all j ms (r.register_method m g).1 ∙ law.kind-register_method m g j

    pub kind_at-register_methods :
        (j : String) (g : G) → r.kind_at j (register_methods g) ≡ r.kind_at j g
    unfolding register_methods
    kind_at-register_methods j g = kind_at-register_all j methods g

    -- If a plugin answers a call of no name of the commands yet, then after registerMethods a call
    -- of the name of each command runs that command.
    pub method_at-register_methods :
        (g : G) (c : Command)
        → ((d : Command) → r.method_at (name d) g ≡ none)
        → (m : RpcMethod) × (r.method_at (name c) (register_methods g) ≡ some m) × (m.command ≡ c)
    unfolding methods
    method_at-register_methods g rebalance_by_node new = (_, method_at-methods g _ new, refl)
    method_at-register_methods g by_scid_command new = (_, method_at-methods g _ new, refl)
    method_at-register_methods g rebalance_pull new = (_, method_at-methods g _ new, refl)
    method_at-register_methods g rebalance_push new = (_, method_at-methods g _ new, refl)
    method_at-register_methods g stats new = (_, method_at-methods g _ new, refl)
    method_at-register_methods g delete_stats new = (_, method_at-methods g _ new, refl)
    method_at-register_methods g stop new = (_, method_at-methods g _ new, refl)
    method_at-register_methods g resume new = (_, method_at-methods g _ new, refl)
