-- ===== src/WebSocketClient/State.antt =====
-- The state of a client, the calls of its interface, and its callbacks.
use uni_serve_libhttp.Common.{
  ℕ, Bool, true, false, not, ◌&&◌, ◌||◌, List, [], ◌∷◌, ◌++◌, Option, none, some, if◌then◌else◌,
  Str,
}

-- What waits in the `io_context`: asynchronous operations, and posted functions.
pub data Op : Type 0 where
  resolve connect handshake read : Op
  write : Str → Op
  post_connect post_send post_close : Op

-- The result that a completion handler is called with: `ok` with the bytes of a read, the error
-- `websocket::error::closed` or another error, each with its message.
pub data Outcome : Type 0 where
  ok : Str → Outcome
  closed : Str → Outcome
  error : Str → Outcome

-- `io_thread`: not started, inside `ioc.run()`, or behind it.
pub data Thread : Type 0 where
  absent inside finished : Thread

-- What a callback does: it calls the client, looks at the results, and returns or throws a
-- `std::exception`, with the state of the application that it leaves.
pub data Program (W : Type 0) : Type 0 where
  done : W → Program W
  throws : W → Program W
  send_then : Str → (Bool → Program W) → Program W
  connect_then : ℕ → (Bool → Program W) → Program W
  disconnect_then : Program W → Program W
  is_connected_then : (Bool → Program W) → Program W
  set_auto_reconnect_then : Bool → ℕ → Program W → Program W

-- `WebSocketClient::Impl`. `written` is what was handed to `ws.async_write`, and `accepted` the
-- messages for which `send` has returned true, in order; `closes` counts the calls of `ws.close`.
pub record Client (W : Type 0) : Type 0 where
  pub host : Str
  pub port : Str
  pub path : Str
  pub io_thread : Thread
  pub ioc : List Op
  pub ioc_stopped : Bool
  pub written : List Str
  pub accepted : List Str
  pub closes : ℕ
  pub running : Bool
  pub message_callback : Option (Str → W → Program W)
  pub error_callback : Option (Str → W → Program W)
  pub connect_callback : Option (Bool → W → Program W)
  pub close_callback : Option (W → Program W)
  pub send_queue : List Str
  pub sending : Bool
  pub connected : Bool
  pub connecting : Bool
  pub stopping : Bool
  pub auto_reconnect : Bool
  pub reconnect_interval_ms : ℕ
  pub heartbeat_interval_ms : ℕ
  pub world : W

module _ {W : Type 0} where
  -- `resolver.async_resolve`, `ws.async_read`, `asio::post` and the like.
  abbrev pub enqueue : Op → Client W → Client W
  enqueue op c = record c { ioc = c.ioc ++ (op ∷ []) }

  unfoldable pub do_connect : Client W → Client W
  do_connect c =
      if c.connecting || c.connected
      then c
      else enqueue resolve (record c { connecting = true; connected = false })

  -- `WebSocketClient::connect`; the time limit is not used.
  unfoldable pub connect_to : ℕ → Client W → Client W × Bool
  unfolding do_connect
  connect_to timeout_ms c = if c.connecting || c.connected then (c, false) else (do_connect c, true)

  unfoldable pub disconnect : Client W → Client W
  disconnect c =
      if not c.connected && not c.connecting
      then c
      else enqueue post_close (record c { stopping = true })

  unfoldable pub send : Str → Client W → Client W × Bool
  send message c = if not c.connected then (c, false) else (
    enqueue post_send (record c {
      send_queue = c.send_queue ++ (message ∷ []);
      accepted = c.accepted ++ (message ∷ []);
    }),
    true,
  )

  unfoldable pub set_auto_reconnect : Bool → ℕ → Client W → Client W
  set_auto_reconnect enable interval_ms c = record c {
    auto_reconnect = enable;
    reconnect_interval_ms = interval_ms;
  }

  -- The calls of a callback, and whether it returns.
  unfoldable pub perform : Program W → Client W → Client W × Bool
  perform (done w) c = (record c { world = w }, true)
  perform (throws w) c = (record c { world = w }, false)
  perform (send_then message k) c = let (c', sent) = send message c in perform (k sent) c'
  perform (connect_then timeout_ms k) c =
      let (c', starts) = connect_to timeout_ms c in perform (k starts) c'
  perform (disconnect_then p) c = perform p (disconnect c)
  perform (is_connected_then k) c = perform (k c.connected) c
  perform (set_auto_reconnect_then enable interval_ms p) c =
      perform p (set_auto_reconnect enable interval_ms c)

  -- The call of a callback, where one is set.
  unfoldable pub call : {A : Type 0} → Option (A → W → Program W) → A → Client W → Client W × Bool
  unfolding perform
  call none a c = (c, true)
  call (some f) a c = perform (f a c.world) c

  unfoldable pub call_close : Option (W → Program W) → Client W → Client W × Bool
  unfolding perform
  call_close none c = (c, true)
  call_close (some f) c = perform (f c.world) c

  -- The loop around `ioc.run()` catches what a callback throws, and goes on while `running` is set.
  unfoldable pub catch_thread : Client W → Client W
  catch_thread c = if c.running then c else record c { io_thread = finished }

  -- What follows the call of a callback in a handler.
  unfoldable pub then_run : (Client W → Client W) → Client W × Bool → Client W
  unfolding catch_thread
  then_run rest (c, true) = rest c
  then_run rest (c, false) = catch_thread c
