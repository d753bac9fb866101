-- ===== src/Node/Sockets/Broadcast.antt =====
-- websocketBroadcast of node/websocket.go: whom a message reaches.
use circular.Prelude.{◌≡◌, refl, ◌∙◌, sym, ap, ℕ, String, List, [], ◌∷◌, ◌++◌}
use circular.Errors.{Error, ok, err}
use circular.Node.Sockets.Requests.{Payload, WebsocketResponse, Backend}
use circular.Node.Sockets.{Sockets, send_all, websocket_broadcast}

module _ {V I N P L : Type 0} (b : Backend V I N P L) where
  -- the world after a message has been sent to each socket of a list, whatever comes of it
  abbrev pub deliver : WebsocketResponse I N P → List ℕ → L → L
  deliver m [] l = l
  deliver m (ws ∷ sockets) l = deliver m sockets (b.send ws m l).1

  -- each of these sendings succeeds
  abbrev pub AreSent : WebsocketResponse I N P → List ℕ → L → Type 0
  AreSent m [] l = Unit
  AreSent m (ws ∷ sockets) l =
      ((n : ℕ) × ((b.send ws m l).0 ≡ ok n)) × AreSent m sockets (b.send ws m l).1

  send_all-sent :
      (m : WebsocketResponse I N P) (sockets rest : List ℕ) (l : L)
      → AreSent m sockets l
      → send_all b m (sockets ++ rest) l ≡ send_all b m rest (deliver m sockets l)
  unfolding send_all
  send_all-sent m [] rest l a = refl
  send_all-sent m (ws ∷ sockets) rest l ((n, e), a) =
      rw (e, send_all) (send_all-sent m sockets rest (b.send ws m l).1 a)

  deliver-append :
      (m : WebsocketResponse I N P) (xs ys : List ℕ) (l : L)
      → deliver m (xs ++ ys) l ≡ deliver m ys (deliver m xs l)
  deliver-append m [] ys l = refl
  deliver-append m (ws ∷ xs) ys l = deliver-append m xs ys (b.send ws m l).1

  -- the first of these sendings fails, if there is one
  abbrev pub IsStopped : WebsocketResponse I N P → List ℕ → L → Type 0
  IsStopped m [] l = Unit
  IsStopped m (ws ∷ sockets) l = (e : Error) × ((b.send ws m l).0 ≡ err e)

  abbrev pub first : List ℕ → List ℕ
  first [] = []
  first (ws ∷ sockets) = ws ∷ []

  send_all-stopped :
      (m : WebsocketResponse I N P) (sockets : List ℕ) (l : L)
      → IsStopped m sockets l
      → send_all b m sockets l ≡ deliver m (first sockets) l
  unfolding send_all
  send_all-stopped m [] l h = refl
  send_all-stopped m (ws ∷ sockets) l (e, lost) = rw (lost, send_all) refl

  abbrev pub message : String → Payload I N P → String → WebsocketResponse I N P
  message action payload error = record { action = action; payload = payload; error = error }

  -- Where the active sockets are some to which the sending succeeds and then none, or one to which
  -- it fails, the broadcast sends its message to the former and to the first of the latter, and to
  -- no socket behind it.
  pub websocket_broadcast-stops :
      (action : String) (payload : Payload I N P) (error : String) (s : Sockets V L)
      (before after : List ℕ)
      → s.active ≡ before ++ after
      → AreSent (message action payload error) before s.world
      → IsStopped
          (message action payload error)
          after
          (deliver (message action payload error) before s.world)
      → (websocket_broadcast b action payload error s).world
        ≡ deliver (message action payload error) (before ++ first after) s.world
  unfolding websocket_broadcast
  websocket_broadcast-stops action payload error s before after split sent stopped =
      let m = message action payload error in
      ap (λ sockets. send_all b m sockets s.world) split
      ∙ send_all-sent m before after s.world sent
      ∙ send_all-stopped m after (deliver m before s.world) stopped
      ∙ sym (deliver-append m before (first after) s.world)
