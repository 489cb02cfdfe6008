-- ===== src/WebSocketClient.antt =====
-- inc/us/WebSocketClient.hpp and src/WebSocketClient.cpp: the client as a state machine over its
-- flags, its send queue and the operations that wait in its `io_context`. `W` is the state of the
-- application, which the callbacks change; they can call the client, and throw.
mod State
pub mod Kept
pub mod GivenUp
pub mod Runs
pub mod Sending
pub mod Flags
pub mod Lifetime
pub mod Quiet
pub mod Draining
pub mod Deaf
pub mod Base
mod Tests
use uni_serve_libhttp.Common.{
  ℕ, zero, suc, Bool, true, false, not, ◌&&◌, ◌||◌, List, [], ◌∷◌, ◌++◌, ◌+◌, Option, none, some,
  if◌then◌else◌, Str, bytes, take,
}
unfoldable pub use State.*

module _ {W : Type 0} where
  -- The reconnection that `onError` and `onClose` post, behind a pause.
  unfoldable pub reconnect : Client W → Client W
  reconnect c = if c.auto_reconnect && not c.stopping then enqueue post_connect c else c

  unfoldable pub on_error : Str → Client W → Client W
  unfolding reconnect call then_run
  on_error e c =
      then_run reconnect
        (call c.error_callback e (record c { connecting = false; connected = false }))

  unfoldable pub on_close : Client W → Client W
  unfolding reconnect call_close then_run
  on_close c = then_run reconnect (call_close c.close_callback (record c { connected = false }))

  unfoldable pub do_read : Client W → Client W
  do_read c = if c.connected then enqueue read c else c

  -- The front of the queue goes to `async_write`, where there is one.
  unfoldable pub write_front : List Str → Client W → Client W
  write_front [] c = c
  write_front (message ∷ rest) c =
      enqueue (write message)
        (record c { sending = true; send_queue = rest; written = c.written ++ (message ∷ []) })

  unfoldable pub do_send : Client W → Client W
  unfolding write_front
  do_send c = if not c.connected || c.sending then c else write_front c.send_queue c

  unfoldable pub on_resolve : Outcome → Client W → Client W
  unfolding on_error
  on_resolve (ok _) c = enqueue connect c
  on_resolve (closed e) c = on_error (bytes "Resolve failed: " ++ e) c
  on_resolve (error e) c = on_error (bytes "Resolve failed: " ++ e) c

  unfoldable pub on_connect : Outcome → Client W → Client W
  unfolding on_error
  on_connect (ok _) c = enqueue handshake c
  on_connect (closed e) c = on_error (bytes "Connection failed: " ++ e) c
  on_connect (error e) c = on_error (bytes "Connection failed: " ++ e) c

  unfoldable pub on_handshake : Outcome → Client W → Client W
  unfolding on_error do_read do_send call then_run
  on_handshake (ok _) c =
      then_run (λ c'. do_send (do_read c'))
        (call c.connect_callback true (record c { connecting = false; connected = true }))
  on_handshake (closed e) c =
      on_error (bytes "Handshake failed: " ++ e) (record c { connecting = false })
  on_handshake (error e) c =
      on_error (bytes "Handshake failed: " ++ e) (record c { connecting = false })

  unfoldable pub on_read : Outcome → Client W → Client W
  unfolding on_error on_close do_read call then_run
  on_read (ok message) c = then_run do_read (call c.message_callback message c)
  on_read (closed e) c = on_close c
  on_read (error e) c = on_error (bytes "Read failed: " ++ e) c

  unfoldable pub on_write : Outcome → Client W → Client W
  unfolding on_error do_send
  on_write (ok _) c = do_send (record c { sending = false })
  on_write (closed e) c = on_error (bytes "Write failed: " ++ e) (record c { sending = false })
  on_write (error e) c = on_error (bytes "Write failed: " ++ e) (record c { sending = false })

  -- The function that `disconnect` posts. What `ws.close` does to the stream comes back as outcomes
  -- of the operations that are outstanding.
  unfoldable pub close_now : Client W → Client W
  close_now c = record c { closes = c.closes + 1; connected = false; connecting = false }

  -- The call of the handler of an operation that completes.
  unfoldable pub handle : Op → Outcome → Client W → Client W
  unfolding on_resolve on_connect on_handshake on_read on_write do_connect do_send close_now
  handle resolve o c = on_resolve o c
  handle connect o c = on_connect o c
  handle handshake o c = on_handshake o c
  handle read o c = on_read o c
  handle (write message) o c = on_write o c
  handle post_connect o c = do_connect c
  handle post_send o c = do_send c
  handle post_close o c = close_now c

  -- `Impl::start`, from the constructor of `WebSocketClient`.
  unfoldable pub start : Client W → Client W
  start c = if c.running then c else record c { running = true; io_thread = inside }

  -- `Impl::stop`, from its destructor.
  unfoldable pub stop : Client W → Client W
  stop c =
      let flagged : Client W = record c { running = false; stopping = true } in
      elim c.io_thread [
        | absent ↦ flagged
        | _ ↦ record flagged { ioc_stopped = true; io_thread = absent }
      ]

  -- The first `size` bytes behind the pointer.
  unfoldable pub send_binary : Str → ℕ → Client W → Client W × Bool
  unfolding send
  send_binary buffer size c = if not c.connected then (c, false) else send (take size buffer) c

  unfoldable pub set_heartbeat_interval : ℕ → Client W → Client W
  set_heartbeat_interval interval_ms c = record c { heartbeat_interval_ms = interval_ms }

  -- The destructor, and then that of `Impl`.
  unfoldable pub destroy : Client W → Client W
  unfolding disconnect stop
  destroy c = stop (disconnect c)

-- A client as its constructor leaves it.
unfoldable pub new_client : {W : Type 0} → Str → Str → Str → W → Client W
unfolding start
new_client host port path w = start (record {
  host = host;
  port = port;
  path = path;
  io_thread = absent;
  ioc = [];
  ioc_stopped = false;
  written = [];
  accepted = [];
  closes = 0;
  running = false;
  message_callback = none;
  error_callback = none;
  connect_callback = none;
  close_callback = none;
  send_queue = [];
  sending = false;
  connected = false;
  connecting = false;
  stopping = false;
  auto_reconnect = false;
  reconnect_interval_ms = 3000;
  heartbeat_interval_ms = 30000;
  world = w;
})
