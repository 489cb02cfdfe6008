-- ===== src/WebSocketServer/Listener.antt =====
-- `WebSocketServer::Listener` of src/WebSocketServer.cpp with the server that it accepts connections
-- for: the server as it runs, as a function of what happens to it.
pub mod Unborn
pub mod Moves
pub mod Serving
use uni_serve_libhttp.Common.{
  ℕ, zero, suc, ◌+◌, Bool, true, false, List, [], ◌∷◌, ◌++◌, to_string, Option, none, some,
  if◌then◌else◌, ltb, Str, bytes,
}
use uni_serve_libhttp.WebSocketServer.{
  ReadResult, MessageHandler, ConnectHandler, DisconnectHandler, Server, change, send_to_client,
  broadcast, disconnect_client, start_session, on_accept, on_read, on_write, on_message, on_connect,
  on_disconnect,
}
use uni_serve_libhttp.WebSocketServer as WebSocketServer
use uni_serve_libhttp.WebSocketServer.Steps.{accept_done, read_done, write_done}

-- `accepts` counts the outstanding `async_accept` of the acceptor, and `opened` the `Session` objects
-- that were made, whose numbers are those below it. `terminated` says that an exception has left a
-- thread, which ends the process.
pub record Listener (W : Type 0) : Type 0 where
  pub acceptor_open : Bool
  pub accepts : ℕ
  pub opened : ℕ
  pub terminated : Bool
  pub server : Server W

-- What happens to a running server. A connection comes with an error or not, and with the remote
-- endpoint of its socket, `none` where `remote_endpoint` throws since the peer is gone.
pub data Event (W : Type 0) : Type 0 where
  connects : Bool → Option (Str × ℕ) → Event W
  handshakes : ℕ → Bool → Event W
  reads : ℕ → ReadResult → Event W
  writes : ℕ → Bool → Event W
  sends : Str → Str → Event W
  broadcasts : Str → Event W
  disconnects : Str → Event W
  sets_message : Str → MessageHandler W → Event W
  sets_connect : Option (ConnectHandler W) → Event W
  sets_disconnect : Option (DisconnectHandler W) → Event W

-- `remoteAddress_`, as the constructor of a session builds it.
unfoldable pub remote_address : Str × ℕ → Str
remote_address (address, port) = address ++ (bytes ":" ++ to_string port)

module _ {W : Type 0} where
  -- The constructor, behind an acceptor that could be set up.
  unfoldable pub create : Server W → Listener W
  create v = record {
    acceptor_open = true;
    accepts = 0;
    opened = 0;
    terminated = false;
    server = v;
  }

  unfoldable pub do_accept : Listener W → Listener W
  do_accept l = record l { accepts = l.accepts + 1 }

  -- `run`; `none` where it throws.
  unfoldable pub run : Listener W → Option (Listener W)
  unfolding do_accept
  run l = if l.acceptor_open then some (do_accept l) else none

  -- `make_shared<Session>(...)->start()`, for a socket whose remote endpoint is known.
  unfoldable pub open_session : Str × ℕ → Listener W → Listener W
  unfolding remote_address
  open_session endpoint l = record l {
    opened = l.opened + 1;
    server = start_session l.opened (remote_address endpoint) l.server;
  }

  -- `Listener::onAccept`: what the constructor of a session throws ends the process, since no thread
  -- of the server catches anything.
  unfoldable pub accept : Bool → Option (Str × ℕ) → Listener W → Listener W
  unfolding do_accept open_session
  accept true endpoint l = do_accept l
  accept false none l = record l { terminated = true }
  accept false (some endpoint) l = do_accept (open_session endpoint l)

  unfoldable pub complete_accept : Bool → Option (Str × ℕ) → ℕ → Listener W → Listener W
  unfolding accept
  complete_accept error endpoint zero l = l
  complete_accept error endpoint (suc n) l = accept error endpoint (record l { accepts = n })

  unfoldable pub complete_write : ℕ → Bool → List Str → Server W → Server W
  complete_write h error [] v = v
  complete_write h error (m ∷ rest) v = on_write h error (change h (write_done error) v)

  -- An operation completes where one is outstanding, and a call of the server's interface is made.
  unfoldable pub serve : Event W → Server W → Server W
  unfolding complete_write
  serve (connects error endpoint) v = v
  serve (handshakes h error) v =
      if ltb 0 (v.sessions h).accepts
      then WebSocketServer.on_accept h error (change h accept_done v)
      else v
  serve (reads h result) v =
      if ltb 0 (v.sessions h).reads then on_read h result (change h read_done v) else v
  serve (writes h error) v = complete_write h error (v.sessions h).writes v
  serve (sends id message) v = (send_to_client id message v).0
  serve (broadcasts message) v = (broadcast message v).0
  serve (disconnects id) v = disconnect_client id v
  serve (sets_message path f) v = on_message path f v
  serve (sets_connect f) v = on_connect f v
  serve (sets_disconnect f) v = on_disconnect f v

  unfoldable pub handle : Event W → Listener W → Listener W
  unfolding complete_accept serve
  handle (connects error endpoint) l = complete_accept error endpoint l.accepts l
  handle e l = record l { server = serve e l.server }

  unfoldable pub step : Event W → Listener W → Listener W
  unfolding handle
  step e l = if l.terminated then l else handle e l

  unfoldable pub run_events : List (Event W) → Listener W → Listener W
  run_events [] l = l
  run_events (e ∷ es) l = run_events es (step e l)
