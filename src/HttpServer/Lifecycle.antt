-- ===== src/HttpServer/Lifecycle.antt =====
-- The life of an `HttpServer` object of src/HttpServer.cpp: its constructors, `start` and `stop`, the
-- acceptor that its listener opens, and its list of sessions.
pub mod Calls
pub mod Sessions
mod Tests
use uni_serve_libhttp.Common.{
  ℕ, zero, suc, ◌+◌, Bool, true, false, not, ◌&&◌, List, [], ◌∷◌, ◌++◌, Option, none, some, ◌==◌,
  if◌then◌else◌, Str, bytes, filter,
}

-- What the libraries and the operating system answer during a call. An operation of an acceptor
-- gives its error; `spawns n` says whether a thread can be created beside `n` others.
pub record System : Type 0 where
  pub is_address : Str → Bool
  pub opens : Option Str
  pub binds : Str → ℕ → Option Str
  pub listens : Option Str
  pub spawns : ℕ → Bool
  pub loads_certificate : Str → Str → Bool

-- `listener` says whether the listener is one with TLS. `worker_threads` counts the threads that
-- were created and not joined; `sessions` holds the numbers of the sessions, weakly.
pub record HttpServer : Type 0 where
  pub address : Str
  pub port : ℕ
  pub threads : ℕ
  pub running : Bool
  pub ssl_enabled : Bool
  pub cert_file : Str
  pub key_file : Str
  pub ssl_ctx : Bool
  pub ioc_stopped : Bool
  pub listener : Option Bool
  pub worker_threads : ℕ
  pub sessions : List ℕ

-- The constructor without TLS.
unfoldable pub new_http : Str → ℕ → ℕ → HttpServer
new_http address port threads = record {
  address = address;
  port = port;
  threads = threads;
  running = false;
  ssl_enabled = false;
  cert_file = [];
  key_file = [];
  ssl_ctx = false;
  ioc_stopped = false;
  listener = none;
  worker_threads = 0;
  sessions = [];
}

-- `none` where it throws `SSLInitException`.
unfoldable pub init_ssl_context : System → HttpServer → Option HttpServer
init_ssl_context sys v =
    if not v.ssl_enabled
    then some v
    else if sys.loads_certificate v.cert_file v.key_file
    then some (record v { ssl_ctx = true })
    else none

-- The constructor with TLS.
unfoldable pub new_https : System → Str → ℕ → Str → Str → ℕ → Option HttpServer
unfolding new_http init_ssl_context
new_https sys address port cert_file key_file threads =
    init_ssl_context sys (record (new_http address port threads) {
      ssl_enabled = true;
      cert_file = cert_file;
      key_file = key_file;
    })

-- The error code behind `initAcceptor`. That of `set_option` is left out: `bind` overwrites it.
unfoldable pub acceptor_error : System → Str → ℕ → Option Str
acceptor_error sys address port = elim sys.opens [
  | some e ↦ some e
  | none ↦ elim (sys.binds address port) [ some e ↦ some e | none ↦ sys.listens ]
]

-- `Listener::initAcceptor`: the message of the `HttpListenerException`, if it throws.
unfoldable pub init_acceptor : System → Str → ℕ → Option Str
unfolding acceptor_error
init_acceptor sys address port = elim (acceptor_error sys address port) [
  | none ↦ none
  | some e ↦ some (bytes "Listener error: " ++ (e ++ (10 ∷ [])))
]

-- The loop that creates the threads, with the message of the exception of the thread that cannot be
-- created, if any.
unfoldable pub start_threads : System → ℕ → HttpServer → HttpServer × Option Str
start_threads sys zero v = (v, none)
start_threads sys (suc n) v =
    let rest = start_threads sys n (record v { worker_threads = v.worker_threads + 1 }) in
    if sys.spawns v.worker_threads then rest else (v, some (bytes "thread"))

-- What follows the listener's constructor in the `try` block of `start`.
unfoldable pub after_listener : System → Option Str → HttpServer → HttpServer × Option Str
after_listener sys (some e) v = (v, some e)
after_listener sys none v =
    start_threads sys v.threads
      (record v { listener = some (v.ssl_enabled && v.ssl_ctx); running = true })

-- The `try` block, with the exception that leaves it.
unfoldable pub try_start : System → HttpServer → HttpServer × Option Str
try_start sys v =
    if not (sys.is_address v.address)
    then (v, some (bytes "make_address"))
    else after_listener sys (init_acceptor sys v.address v.port) v

-- Its `catch` block.
unfoldable pub catch_start : HttpServer × Option Str → HttpServer
catch_start (v, none) = v
catch_start (v, some e) = record v { running = false }

unfoldable pub start : System → HttpServer → HttpServer
start sys v = if v.running then v else catch_start (try_start sys v)

-- `alive` says which sessions have not been destroyed.
unfoldable pub add_session : (ℕ → Bool) → ℕ → HttpServer → HttpServer
add_session alive h v = record v { sessions = filter alive v.sessions ++ (h ∷ []) }

unfoldable pub remove_session : (ℕ → Bool) → ℕ → HttpServer → HttpServer
remove_session alive h v = record v { sessions = filter (λ j. alive j && not (j == h)) v.sessions }

-- The loop over the sessions does nothing with them.
unfoldable pub close_all_sessions : HttpServer → HttpServer
close_all_sessions v = record v { sessions = [] }

unfoldable pub stop : HttpServer → HttpServer
unfolding close_all_sessions
stop v = if not v.running then v else record (close_all_sessions (record v { running = false })) {
  ioc_stopped = true;
  worker_threads = 0;
  listener = none;
}

-- The getters.
unfoldable pub is_running : HttpServer → Bool
is_running v = v.running

unfoldable pub get_port : HttpServer → ℕ
get_port v = v.port

unfoldable pub get_address : HttpServer → Str
get_address v = v.address

unfoldable pub is_ssl_enabled : HttpServer → Bool
is_ssl_enabled v = v.ssl_enabled

-- `ioc_->run()`, and whether it lets the calling thread run handlers. Where nothing is outstanding,
-- since there is no listener, it stops the `io_context` and returns.
unfoldable pub run_ioc : HttpServer → HttpServer × Bool
run_ioc v =
    if v.ioc_stopped
    then (v, false)
    else elim v.listener [ none ↦ (record v { ioc_stopped = true }, false) | some tls ↦ (v, true) ]

unfoldable pub run : System → HttpServer → HttpServer × Bool
unfolding run_ioc
run sys v = run_ioc (start sys v)

-- The destructor: `stop`, and then the members; `none` where a thread is destroyed that is joinable
-- still, which ends the process.
unfoldable pub destroy : HttpServer → Option HttpServer
unfolding stop
destroy v = let stopped = stop v in if stopped.worker_threads == 0 then some stopped else none
