-- ===== src/Node/Sockets/Fixture.antt =====
-- Test data: connections that write what is sent, but for the broken connection 13.
use circular.Prelude.{ℕ, String, List, [], ◌∷◌, ◌++◌, ◌==◌, str_eq, if◌then◌else◌, some, none}
use circular.Errors.{ok, err, library}
use circular.Rebalance.Commands.{ByScid}
use circular.Node.Sockets.Requests.{WebsocketMessage, WebsocketResponse, Backend, Fields}
use circular.Node.Sockets.{Sockets}

abbrev pub Log : Type 0
Log = List (ℕ × WebsocketResponse String String String)

abbrev pub command : ByScid
command = record {
  out_scid = "1x1x1";
  in_scid = "2x2x2";
  amount = 100000;
  max_ppm = 10;
  attempts = 1;
  max_hops = 8;
}

abbrev pub backend : Backend String String String String Log
backend = record {
  send = λ ws r l. if ws == 13 then (err (library "broken pipe"), l) else (ok 0, l ++ (ws, r) ∷ []);
  get_info = λ l. (ok "this node", l);
  list_peers = λ l. (ok ("alice" ∷ "bob" ∷ []), l);
  get_node = λ id l. (ok id, l);
  request_resume = λ l. (ok "circular has been resumed", l);
  request_stop = λ l. (ok "circular has been stopped", l);
  peer_id = λ p. p;
  alias = λ n. n;
  color = λ n. "112233";
  decode_get_node = λ v. ok v;
  decode_by_scid = λ v. if str_eq v "" then err (library "no data") else ok command;
  decode_status = λ v. ok "";
  text = λ e. "error";
}

abbrev pub empty : WebsocketMessage String
empty = record { action = ""; data_value = "" }

abbrev pub asking : String → Fields String
asking action = record { action = some action; data_value = none }

abbrev pub two_open : Sockets String Log
two_open = record { active = 7 ∷ 13 ∷ 9 ∷ []; pending = []; data_of = λ i. empty; world = [] }
