-- ===== src/Plugin/Registry.antt =====
-- glightning.Plugin: what cmd/circular/options.go and cmd/circular/methods.go register with it.
use circular.Prelude.{ℕ, ◌≡◌, String, Option, none, some, str_eq, if◌then◌else◌, lookup}
use circular.Errors.{Result, ok}
use circular.Node.Options.{OptionValue, int, bool, string, Options}

-- the commands that the program implements, by their types
pub data Command : Type 0 where
  rebalance_by_node by_scid_command rebalance_pull rebalance_push : Command
  stats delete_stats stop resume : Command

-- glightning.RpcMethod
pub record RpcMethod : Type 0 where
  pub name : String
  pub command : Command
  pub description : String
  pub long_desc : String
  pub category : String

pub data OptionKind : Type 0 where
  int_kind bool_kind string_kind : OptionKind

abbrev pub kind_of : OptionValue → OptionKind
kind_of (int n) = int_kind
kind_of (bool b) = bool_kind
kind_of (string s) = string_kind

pub record Registry (G : Type 0) : Type 0 where
  -- RegisterOption: a name, a description and a default
  pub register_option : String → String → OptionValue → G → Result ℕ × G
  pub register_method : RpcMethod → G → Result ℕ × G
  -- the type of a registered option, and the method that a call of a name runs
  pub kind_at : String → G → Option OptionKind
  pub method_at : String → G → Option RpcMethod

-- What glightning documents: an option that is registered is known with the type of its default, and a method whose
-- name is new answers calls of its name, and is no option.
pub record IsRegistry {G : Type 0} (r : Registry G) : Type 0 where
  pub kind-register :
      (name description : String) (v : OptionValue) (g : G) (n : ℕ)
      → (r.register_option name description v g).0 ≡ ok n
      → (j : String)
      → r.kind_at j (r.register_option name description v g).1
        ≡ (if str_eq name j then some (kind_of v) else r.kind_at j g)
  pub method-register :
      (m : RpcMethod) (g : G)
      → r.method_at m.name g ≡ none
      → (j : String)
      → r.method_at j (r.register_method m g).1
        ≡ (if str_eq m.name j then some m else r.method_at j g)
  pub kind-register_method :
      (m : RpcMethod) (g : G) (j : String) → r.kind_at j (r.register_method m g).1 ≡ r.kind_at j g

-- The options that Init is given: each registered one, with a value of its type.
abbrev pub IsGiven : {G : Type 0} → Registry G → G → Options → Type 0
IsGiven r g options =
    (j : String) (k : OptionKind)
    → r.kind_at j g ≡ some k
    → (v : OptionValue) × (lookup j options ≡ some v) × (kind_of v ≡ k)
