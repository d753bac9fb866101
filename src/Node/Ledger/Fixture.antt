-- ===== src/Node/Ledger/Fixture.antt =====
-- A database that is an association list, a client that answers with fixed values, and a node with both.
use circular.Prelude.{
  ℕ, suc, ◌≡◌, refl, ap, ◌∙◌, String, Bool, true, false, Option, none, some, [], Map, lookup,
  insert, delete, lookup-insert, lookup-delete, str_eq, if◌then◌else◌,
}
use circular.Errors.{Result, ok, err, key_not_found, library}
use circular.Node.Store.{Badger, IsTransactional, Json}
use circular.Graph.Network.{new_graph}
use circular.Node.State.{Node, Client, unpaid}
use circular.Node.Payments.{timeout_text}
use circular.Node.Ledger.{unknown, Ledger}
use circular.Node.Ledger.Refines.{IsReliable}

abbrev found : Option String → Result String
found none = err key_not_found
found (some v) = ok v

found-if :
    (x : Bool) (p q : Option String) → found (if x then p else q) ≡ (if x then found p else found q)
found-if true p q = refl
found-if false p q = refl

abbrev pub memory : Badger (Map String)
memory = record {
  set_entry = λ k v d. (ok 0, insert k v d);
  remove = λ k d. (ok 0, delete k d);
  read = λ k d. found (lookup k d);
  values = λ prefix d. [];
  drop_prefix = λ prefixes d. (ok 0, []);
}

pub memory-IsTransactional : IsTransactional memory
memory-IsTransactional = record {
  read-set =
      λ k j v d n e. ap found (lookup-insert k j v d) ∙ found-if (str_eq k j) (some v) (lookup j d);
  read-set_failed = λ k j v d x e. absurd (cc e);
  read-remove =
      λ k j d n e. ap found (lookup-delete k j d) ∙ found-if (str_eq k j) none (lookup j d);
  read-remove_failed = λ k j d x e. absurd (cc e);
}

pub memory-IsReliable : IsReliable memory
memory-IsReliable = record { sets = λ k v d. (0, refl); removes = λ k d. (0, refl) }

abbrev pub hash : String
hash = "0123456789abcdef0123456789abcdef0123456789abcdef0123456789abcdef"

-- a payment that it waits for has timed out
abbrev pub client_on : {L : Type 0} → (L → L) → Client L
client_on tick = record {
  send_pay_lite = λ hops h w. (ok 0, tick w);
  wait_send_pay =
      λ h seconds w. (unpaid (record { message = timeout_text; erring_node = none }), tick w);
  list_channels = λ w. (ok [], w);
  list_nodes = λ w. (ok [], w);
  list_peers = λ w. (ok [], w);
  get_channel = λ scid w. (ok [], w);
  random_preimage = λ w. ("feed", tick w);
  sha256 = λ preimage. hash;
}

abbrev pub client : Client ℕ
client = client_on suc

abbrev pub json : Json
json = record {
  marshal = λ value. ok "{}";
  unmarshal_route = λ text. err (library "EOF");
  unmarshal_failure = λ text. err (library "EOF");
  unmarshal_success = λ text. err (library "EOF");
}

abbrev pub fresh_node : Node (Map String) ℕ
fresh_node = record {
  id = "me";
  peers = [];
  graph = new_graph;
  db = [];
  world = 0;
  stopped = false;
  save_stats = true;
  liquidity_refresh = 300000000000;
  updates = [];
}

abbrev pub fresh_ledger : Ledger
fresh_ledger = record { phase = λ h. unknown; updates = [] }
