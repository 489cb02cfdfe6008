-- ===== src/WebSocketServer/State.antt =====
-- The objects of sessions, the server with its client registry, the calls of its interface, and its
-- handlers.
use uni_serve_libhttp.Common.{
  ℕ, suc, ◌+◌, ◌%◌, ◌^◌, Bool, true, false, List, [], ◌∷◌, ◌++◌, Option, none, some, ◌==◌,
  if◌then◌else◌, Str, bytes, length, lookup, insert, erase, to_string,
}

-- `WebSocketServer::Session`. `reads` and `accepts` count the outstanding `async_read` and
-- `async_accept`, and `writes` are the messages of the outstanding `async_write`, oldest first. `accepted` are
-- those that `send` was called with, and `written` those whose write has succeeded, in order.
pub record Session : Type 0 where
  pub client_id : Str
  pub remote_address : Str
  pub send_queue : List Str
  pub accepts : ℕ
  pub reads : ℕ
  pub writes : List Str
  pub accepted : List Str
  pub written : List Str

-- `Session::doWrite`
unfoldable pub do_write : Session → Session
do_write s = elim s.send_queue [
  | [] ↦ s
  | message ∷ rest ↦ record s { writes = s.writes ++ (message ∷ []) }
]

-- `Session::send`
unfoldable pub send : Str → Session → Session
unfolding do_write
send message s =
    let queued : Session = record s {
      send_queue = s.send_queue ++ (message ∷ []);
      accepted = s.accepted ++ (message ∷ []);
    } in
    elim s.send_queue [ [] ↦ do_write queued | _ ↦ queued ]

-- `Session::doRead`
abbrev pub do_read : Session → Session
do_read s = record s { reads = suc s.reads }

-- The message at the front of a queue, if any.
abbrev pub front : List Str → List Str
front [] = []
front (m ∷ q) = m ∷ []

abbrev pub pop_front : List Str → List Str
pop_front [] = []
pop_front (m ∷ q) = q

-- `Session::onWrite` with no error.
unfoldable pub after_write : Session → Session
unfolding do_write
after_write s =
    let popped : Session = record s { send_queue = pop_front s.send_queue } in
    elim popped.send_queue [ [] ↦ popped | _ ↦ do_write popped ]

-- What a handler does: calls of the server and of `sendCallback`, and its end, with the state of the
-- application that it leaves. `R` has an element where there is a `sendCallback`.
pub data Program (W R : Type 0) : Type 0 where
  done : W → Program W R
  responds_then : R → Str → Program W R → Program W R
  send_to_client_then : Str → Str → (Bool → Program W R) → Program W R
  broadcast_then : Str → (ℕ → Program W R) → Program W R
  disconnect_client_then : Str → Program W R → Program W R
  get_client_count_then : (ℕ → Program W R) → Program W R

module _ (W : Type 0) where
  -- `WebSocketMessageHandler`: the client and its message.
  abbrev pub MessageHandler : Type 0
  MessageHandler = Str → Str → W → Program W Unit

  -- `WebSocketConnectHandler`: the client and its remote address.
  abbrev pub ConnectHandler : Type 0
  ConnectHandler = Str → Str → W → Program W ⊥

  -- `WebSocketDisconnectHandler`
  abbrev pub DisconnectHandler : Type 0
  DisconnectHandler = Str → W → Program W ⊥

-- `counter` is the static counter of `generateClientId`.
pub record Server (W : Type 0) : Type 0 where
  pub clients : List (Str × ℕ)
  pub sessions : ℕ → Session
  pub counter : ℕ
  pub message_handlers : List (Str × MessageHandler W)
  pub connect_handler : Option (ConnectHandler W)
  pub disconnect_handler : Option (DisconnectHandler W)
  pub world : W

abbrev pub update : (ℕ → Session) → ℕ → Session → (ℕ → Session)
update m h s k = if k == h then s else m k

module _ {W : Type 0} where
  -- A change of one session object.
  abbrev pub change : ℕ → (Session → Session) → Server W → Server W
  change h f v = record v { sessions = update v.sessions h (f (v.sessions h)) }

  unfoldable pub generate_client_id : Server W → Str × Server W
  generate_client_id v =
      let next = (v.counter + 1) % 2 ^ 64 in
      (bytes "client_" ++ to_string next, record v { counter = next })

  unfoldable pub add_client : Str → ℕ → Server W → Server W
  add_client client_id h v = record v { clients = insert client_id h v.clients }

  unfoldable pub remove_client : Str → Server W → Server W
  remove_client client_id v = record v { clients = erase client_id v.clients }

  unfoldable pub get_client : Str → Server W → Option ℕ
  get_client client_id v = lookup client_id v.clients

  unfoldable pub get_client_count : Server W → ℕ
  get_client_count v = length v.clients

  unfoldable pub send_to_client : Str → Str → Server W → Server W × Bool
  send_to_client client_id message v = elim (lookup client_id v.clients) [
    | none ↦ (v, false)
    | some h ↦ (change h (send message) v, true)
  ]

  -- The loop of `broadcast`.
  unfoldable pub send_each : Str → List (Str × ℕ) → ℕ → Server W → Server W × ℕ
  send_each message [] count v = (v, count)
  send_each message ((client_id, h) ∷ rest) count v =
      send_each message rest (count + 1) (change h (send message) v)

  unfoldable pub broadcast : Str → Server W → Server W × ℕ
  unfolding send_each
  broadcast message v = send_each message v.clients 0 v

  unfoldable pub disconnect_client : Str → Server W → Server W
  disconnect_client client_id v = elim (lookup client_id v.clients) [
    | none ↦ v
    | some h ↦ record v { clients = erase client_id v.clients }
  ]

  -- The calls of a handler, where `h` is the session whose `send` is the `sendCallback`.
  unfoldable pub perform : {R : Type 0} → ℕ → Program W R → Server W → Server W
  perform h (done w) v = record v { world = w }
  perform h (responds_then r message p) v = perform h p (change h (send message) v)
  perform h (send_to_client_then client_id message k) v =
      let (v', sent) = send_to_client client_id message v in perform h (k sent) v'
  perform h (broadcast_then message k) v =
      let (v', count) = broadcast message v in perform h (k count) v'
  perform h (disconnect_client_then client_id p) v = perform h p (disconnect_client client_id v)
  perform h (get_client_count_then k) v = perform h (k (get_client_count v)) v
