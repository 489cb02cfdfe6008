-- ===== src/WebSocketServer/Tests.antt =====
-- A server with one client, and the laws applied to it.
use uni_serve_libhttp.Common.{
  inl, Permᴰ, Str, true, List, ◌==◌, ℕ, ◌+◌, ◌≡◌, ◌≢◌, refl, false, [], ◌∷◌, none, some, arith,
  bytes, length, lookup, insert, str_eq, str_eq_iff, if◌then◌else◌,
}
use uni_serve_libhttp.WebSocketServer.{
  add_client, on_write, Session, Server, MessageHandler, done, responds_then, broadcast_then,
  send_to_client_then, get_client_count_then, received, perform, do_write, on_read, run_handlers,
  call_connect, send_to_client, send_each, send, broadcast, get_client, get_client_count,
  start_session, on_accept, change,
}
use uni_serve_libhttp.WebSocketServer.Discipline.Progress.{drain, drain_lem}
use uni_serve_libhttp.WebSocketServer.Registry.{IsRegistry, listed, broadcast_lem}
use uni_serve_libhttp.WebSocketServer.Ids.{id_at, id_at_inj}
use uni_serve_libhttp.WebSocketServer.Steps.{
  wrote, write_done, Reach, here, next, connection, accepted, broadcasts, accept_done,
  Reach-IsRegistry,
}
use uni_serve_libhttp.WebSocketServer.Notices.{told_twice}
use uni_serve_libhttp.WebSocketServer.Discipline.{IsDisciplined}
use uni_serve_libhttp.WebSocketServer.Discipline.Fifo.{AreFifo, Reach-AreFifo}
use uni_serve_libhttp.WebSocketServer.Discipline.Runs.{Reach-IsDisciplined}
use uni_serve_libhttp.WebSocketServer.Race.{send_all_of, overtaken_send, send_all_of-overtaken_send}
use uni_serve_libhttp.WebSocketServer.Order.{with_clients, Alike}
use uni_serve_libhttp.WebSocketServer.Order.Runs.{Reach-Alike}
use uni_serve_libhttp.WebSocketServer.Listener.{Listener, Event, create, run_events}
use uni_serve_libhttp.WebSocketServer.Listener as Listener
use uni_serve_libhttp.WebSocketServer.Listener.Serving.{IsServing, fatal, made, run_events-create}

-- The application counts the calls of its handlers.
abbrev echo : MessageHandler ℕ
echo id message w = responds_then tt message (done (w + 1))

abbrev gone : Str → ℕ → ℕ
gone id w = w + 100

abbrev no_session : Session
no_session = record {
  client_id = [];
  remote_address = [];
  send_queue = [];
  accepts = 0;
  reads = 0;
  writes = [];
  accepted = [];
  written = [];
}

abbrev fresh : Server ℕ
fresh = record {
  clients = [];
  sessions = λ h. no_session;
  counter = 0;
  message_handlers = (bytes "/chat", echo) ∷ [];
  connect_handler = none;
  disconnect_handler = some (λ id w. done (gone id w));
  world = 0;
}

abbrev busy_session : Session
busy_session = record no_session {
  client_id = bytes "client_1";
  reads = 1;
  send_queue = bytes "x" ∷ [];
  writes = bytes "x" ∷ [];
}

-- Session 5 is registered, with a read and a write outstanding.
abbrev busy : Server ℕ
busy = record fresh {
  clients = (bytes "client_1", 5) ∷ [];
  sessions = λ h. busy_session;
  counter = 1;
}

busy-IsRegistry : IsRegistry busy
busy-IsRegistry = record { dict = (tt, tt); named = (refl, tt) }

broadcast_lem_example :
    ((broadcast (bytes "m") busy).1 ≡ get_client_count busy)
    × ((broadcast (bytes "m") busy).0.clients ≡ busy.clients)
    × ((broadcast (bytes "m") busy).0.sessions 5
        ≡ (if listed 5 busy.clients then send (bytes "m") (busy.sessions 5) else busy.sessions 5))
broadcast_lem_example = broadcast_lem (bytes "m") busy 5 busy-IsRegistry

id_at_inj_example : id_at 0 fresh ≢ id_at 7 fresh
id_at_inj_example = id_at_inj 0 7 fresh (omega arith) (omega arith) (omega arith)

fresh-IsDisciplined : IsDisciplined fresh
fresh-IsDisciplined = record {
  exclusive = λ h. record { one = omega arith; writing = inl refl; quiet = inl refl };
  ready = tt;
}

connected :
    Reach fresh (on_accept 3 false (change 3 accept_done (start_session 3 (bytes "::1") fresh)))
unfolding start_session
connected =
    next (next here (connection 3 (bytes "::1") refl refl)) (accepted 3 false (omega arith) refl)

Reach-IsRegistry_example :
    IsRegistry (on_accept 3 false (change 3 accept_done (start_session 3 (bytes "::1") fresh)))
Reach-IsRegistry_example = Reach-IsRegistry refl connected

told_twice_example : (v' : Server ℕ) × Reach busy v' × (v'.world ≡ 0 + 100 + 100)
told_twice_example = told_twice busy 5 gone (bytes "x") [] refl (omega arith) refl

-- Then two messages for all, of which the first one is written.
abbrev greeted : Server ℕ
greeted = on_accept 3 false (change 3 accept_done (start_session 3 (bytes "::1") fresh))

abbrev told : Server ℕ
told = (broadcast (bytes "n") (broadcast (bytes "m") greeted).0).0

told_reached : Reach fresh told
told_reached = next (next connected (broadcasts (bytes "m") refl)) (broadcasts (bytes "n") refl)

chatted : Reach fresh (on_write 3 false (change 3 (write_done false) told))
unfolding start_session on_accept add_client call_connect insert broadcast send_each send do_write
chatted = next told_reached (wrote 3 false (bytes "m") [] refl refl)

drain_lem_example :
    let v' = drain 3 (length (told.sessions 3).send_queue) told in
    Reach told v'
    × ((v'.sessions 3).written ≡ (told.sessions 3).accepted)
    × ((v'.sessions 3).send_queue ≡ [])
unfolding start_session on_accept add_client call_connect insert broadcast send_each send do_write
drain_lem_example =
    drain_lem 3 told (Reach-AreFifo fresh-IsDisciplined (λ h. refl) told_reached) refl

told_two : length (told.sessions 3).send_queue ≡ 2
unfolding start_session on_accept add_client call_connect insert broadcast send_each send do_write
told_two = refl

Reach-AreFifo_example : AreFifo (on_write 3 false (change 3 (write_done false) told))
Reach-AreFifo_example = Reach-AreFifo fresh-IsDisciplined (λ h. refl) chatted

Reach-IsDisciplined_example : IsDisciplined (on_write 3 false (change 3 (write_done false) told))
Reach-IsDisciplined_example = Reach-IsDisciplined fresh-IsDisciplined chatted

-- Two registered sessions, in either order.
abbrev crowd : Server ℕ
crowd = record fresh {
  clients = (bytes "client_1", 5) ∷ ((bytes "client_2", 6) ∷ []);
  sessions =
      λ h. record no_session { client_id = if h == 5 then bytes "client_1" else bytes "client_2" };
  counter = 2;
}

-- A chat: a message handler broadcasts what it is told, and a connect handler sends to the new
-- client and counts the clients.
abbrev chat : Server ℕ
chat = record crowd {
  message_handlers = (bytes "/chat", λ id m w. broadcast_then m (λ count. done count)) ∷ [];
  connect_handler = some (λ id a w.
      send_to_client_then id (bytes "hello")
        (λ sent. get_client_count_then (λ count. done (if sent then count else 0))));
}

chat_counted : (on_read 5 (received (bytes "m")) chat).world ≡ 2
unfolding on_read run_handlers perform broadcast send_each
chat_counted = refl

chat_reached : ((on_read 5 (received (bytes "m")) chat).sessions 6).writes ≡ bytes "m" ∷ []
unfolding on_read run_handlers perform broadcast send_each send do_write
chat_reached = refl

chat_welcomed : (on_accept 6 false (record chat { clients = [] })).world ≡ 1
unfolding on_accept call_connect perform send_to_client get_client_count lookup insert str_eq
chat_welcomed = refl

abbrev turned : Server ℕ
turned = with_clients ((bytes "client_2", 6) ∷ ((bytes "client_1", 5) ∷ [])) crowd

crowd-IsRegistry : IsRegistry crowd
unfolding str_eq
crowd-IsRegistry = record {
  dict = (
    (λ e. absurd (ground (arith, (str_eq_iff (bytes "client_2") (bytes "client_1")).1 e)), tt),
    (tt, tt),
  );
  named = (refl, (refl, tt));
}

Reach-Alike_example :
    (w' : Server ℕ) × Reach turned w'
    × Alike (broadcast (bytes "m") crowd).0 w'
    × ((id : Str) → get_client id w' ≡ get_client id (broadcast (bytes "m") crowd).0)
    × (get_client_count w' ≡ get_client_count (broadcast (bytes "m") crowd).0)
    × ((message : Str)
        → (broadcast message w').0.sessions
          ≡ (broadcast message (broadcast (bytes "m") crowd).0).0.sessions)
    × ((message : Str)
        → (broadcast message w').1 ≡ (broadcast message (broadcast (bytes "m") crowd).0).1)
Reach-Alike_example =
    Reach-Alike crowd (broadcast (bytes "m") crowd).0 turned crowd-IsRegistry
      (turned.clients, Permᴰ.swap refl refl, refl) (next here (broadcasts (bytes "m") refl))

-- Two connections, of which the first one shakes hands, and a third one whose peer is gone.
abbrev arrivals : List (Event ℕ)
arrivals =
    Event.connects false (some (bytes "::1", 80))
    ∷ (Event.handshakes 0 false
        ∷ (Event.connects true none
            ∷ (Event.connects false (some (bytes "::1", 81))
                ∷ (Event.connects false none
                    ∷ (Event.connects false (some (bytes "::1", 82)) ∷ [])))))

run_events-create_example :
    (l : Listener ℕ) × (Listener.run (create fresh) ≡ some l)
    × IsServing fresh (run_events arrivals l)
    × IsRegistry (run_events arrivals l).server
    × ((run_events arrivals l).terminated ≡ fatal arrivals)
    × ((run_events arrivals l).opened ≡ made arrivals)
run_events-create_example = run_events-create fresh arrivals refl (λ h. refl)

made_two : made arrivals ≡ 2
unfolding made
made_two = refl

send_all_of-overtaken_send_example :
    let s' = send_all_of (bytes "y" ∷ (bytes "z" ∷ [])) (overtaken_send (bytes "m") busy_session) in
    (s'.writes ≡ []) × (s'.send_queue ≡ bytes "m" ∷ (bytes "y" ∷ (bytes "z" ∷ [])))
send_all_of-overtaken_send_example =
    send_all_of-overtaken_send (bytes "x") (bytes "m") (bytes "y" ∷ (bytes "z" ∷ [])) busy_session
      refl refl
