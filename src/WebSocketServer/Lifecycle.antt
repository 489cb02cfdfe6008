-- ===== src/WebSocketServer/Lifecycle.antt =====
-- The life of a `WebSocketServer` object of src/WebSocketServer.cpp: its constructor, the acceptor of
-- its listener, `start` and `stop`.
pub mod Calls
mod Tests
use uni_serve_libhttp.Common.{
  ℕ, zero, suc, ◌+◌, ◌==◌, Bool, true, false, not, List, ◌++◌, Option, none, some, if◌then◌else◌,
  Str, bytes,
}

-- What the operating system answers during a call: the errors of the acceptor's operations, and
-- whether a thread can be created beside `n` others.
pub record System : Type 0 where
  pub opens : Option Str
  pub sets_option : Option Str
  pub binds : ℕ → Option Str
  pub listens : Option Str
  pub spawns : ℕ → Bool

-- `threads_created` are the threads of `impl_->threads_` that were not joined; `listening` says
-- whether there is a listener.
pub record WebSocketServer : Type 0 where
  pub port : ℕ
  pub threads : ℕ
  pub running : Bool
  pub ioc_stopped : Bool
  pub listening : Bool
  pub threads_created : ℕ

unfoldable pub new_server : ℕ → ℕ → WebSocketServer
new_server port threads = record {
  port = port;
  threads = threads;
  running = false;
  ioc_stopped = false;
  listening = false;
  threads_created = 0;
}

-- One step of the constructor of `Listener`: the message of the exception that it throws about an
-- error, or what the further steps throw.
unfoldable pub refuse : Str → Option Str → Option Str → Option Str
refuse what (some e) further = some (what ++ e)
refuse what none further = further

-- The constructor of `Listener`: the message of the exception, if it throws.
unfoldable pub create_listener : System → ℕ → Option Str
create_listener sys port = refuse (bytes "Failed to open acceptor: ") sys.opens (
    refuse (bytes "Failed to set reuse address: ") sys.sets_option (
      refuse (bytes "Failed to bind to endpoint: ") (sys.binds port)
        (refuse (bytes "Failed to listen: ") sys.listens none)))

-- The loop that creates the threads, with the exception of one that cannot be created.
unfoldable pub create_threads : System → ℕ → WebSocketServer → WebSocketServer × Option Str
create_threads sys zero v = (v, none)
create_threads sys (suc n) v =
    let rest = create_threads sys n (record v { threads_created = v.threads_created + 1 }) in
    if sys.spawns v.threads_created then rest else (v, some (bytes "thread"))

-- The last statement of `start`, where nothing has thrown.
unfoldable pub set_running : WebSocketServer × Option Str → WebSocketServer × Option Str
set_running (v, some e) = (v, some e)
set_running (v, none) = (record v { running = true }, none)

unfoldable pub after_create : System → Option Str → WebSocketServer → WebSocketServer × Option Str
after_create sys (some e) v = (v, some e)
after_create sys none v = set_running (create_threads sys v.threads (record v { listening = true }))

-- `start`, with the exception that it throws.
unfoldable pub start : System → WebSocketServer → WebSocketServer × Option Str
start sys v = if v.running then (v, none) else after_create sys (create_listener sys v.port) v

unfoldable pub stop : WebSocketServer → WebSocketServer
stop v =
    if not v.running
    then v
    else record v { ioc_stopped = true; threads_created = 0; running = false }

unfoldable pub is_running : WebSocketServer → Bool
is_running v = v.running

unfoldable pub get_port : WebSocketServer → ℕ
get_port v = v.port

-- The destructor: `stop`, and then the members; `none` where a thread is destroyed that is joinable
-- still, which ends the process.
unfoldable pub destroy : WebSocketServer → Option WebSocketServer
unfolding stop
destroy v = let stopped = stop v in if stopped.threads_created == 0 then some stopped else none
