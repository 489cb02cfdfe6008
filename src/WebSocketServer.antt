-- ===== src/WebSocketServer.antt =====
-- inc/us/WebSocketServer.hpp and src/WebSocketServer.cpp: the sessions, the client registry and the
-- handlers. A session is named by the number of its object in the store `sessions`; `W` is the
-- state of the application, which its handlers change; they can call the server.
mod State
pub mod Kept
pub mod Queue
pub mod Registry
pub mod Ids
pub mod Steps
pub mod Discipline
pub mod Notices
pub mod Lifecycle
pub mod Order
pub mod Race
pub mod Listener
mod Tests
use uni_serve_libhttp.Common.{
  ℕ, suc, ◌+◌, ◌%◌, ◌^◌, Bool, true, false, List, [], ◌∷◌, ◌++◌, Option, none, some, ◌==◌,
  if◌then◌else◌, Str, bytes, length, lookup, insert, erase, to_string,
}
unfoldable pub use State.*

-- What `onRead` is called with.
pub data ReadResult : Type 0 where
  closed : ReadResult
  failed : ReadResult
  received : Str → ReadResult

module _ {W : Type 0} where
  unfoldable pub on_message : Str → MessageHandler W → Server W → Server W
  on_message path handler v = record v { message_handlers = insert path handler v.message_handlers }

  unfoldable pub on_connect : Option (ConnectHandler W) → Server W → Server W
  on_connect handler v = record v { connect_handler = handler }

  unfoldable pub on_disconnect : Option (DisconnectHandler W) → Server W → Server W
  on_disconnect handler v = record v { disconnect_handler = handler }

  -- `connectHandler_`, where one is set.
  unfoldable pub call_connect : Option (ConnectHandler W) → ℕ → Str → Str → Server W → Server W
  unfolding perform
  call_connect none h client_id address v = v
  call_connect (some f) h client_id address v = perform h (f client_id address v.world) v

  unfoldable pub call_disconnect : Option (DisconnectHandler W) → ℕ → Str → Server W → Server W
  unfolding perform
  call_disconnect none h client_id v = v
  call_disconnect (some f) h client_id v = perform h (f client_id v.world) v

  -- A new `Session` object `h` for a connection, and its `start`.
  unfoldable pub start_session : ℕ → Str → Server W → Server W
  unfolding generate_client_id
  start_session h address v =
      let (client_id, v') = generate_client_id v in
      record v' {
        sessions = update v'.sessions h (record {
          client_id = client_id;
          remote_address = address;
          send_queue = [];
          accepts = 1;
          reads = 0;
          writes = [];
          accepted = [];
          written = [];
        });
      }

  -- `Session::onAccept`; the flag says that there is an error.
  unfoldable pub on_accept : ℕ → Bool → Server W → Server W
  unfolding add_client call_connect
  on_accept h true v = v
  on_accept h false v =
      let s = v.sessions h in
      let added = add_client s.client_id h v in
      change h do_read (call_connect added.connect_handler h s.client_id s.remote_address added)

  -- What `onRead` and `onWrite` do about an error.
  unfoldable pub drop : ℕ → Server W → Server W
  unfolding remove_client call_disconnect
  drop h v =
      let client_id = (v.sessions h).client_id in
      let removed = remove_client client_id v in
      call_disconnect removed.disconnect_handler h client_id removed

  -- The loop over the message handlers, whatever the path of each.
  unfoldable pub run_handlers : ℕ → Str → List (Str × MessageHandler W) → Server W → Server W
  unfolding perform
  run_handlers h message [] v = v
  run_handlers h message ((path, f) ∷ fs) v =
      run_handlers h message fs (perform h (f (v.sessions h).client_id message v.world) v)

  unfoldable pub on_read : ℕ → ReadResult → Server W → Server W
  unfolding drop run_handlers
  on_read h closed v = drop h v
  on_read h failed v = drop h v
  on_read h (received message) v = change h do_read (run_handlers h message v.message_handlers v)

  -- `Session::onWrite`; the flag says that there is an error.
  unfoldable pub on_write : ℕ → Bool → Server W → Server W
  unfolding drop after_write
  on_write h true v = drop h v
  on_write h false v = change h after_write v
