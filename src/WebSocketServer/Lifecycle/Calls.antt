-- ===== src/WebSocketServer/Lifecycle/Calls.antt =====
-- The server over any calls of `start` and `stop`, and what `start` throws.
use uni_serve_libhttp.Common.{
  ℕ, zero, suc, ◌+◌, ◌≡◌, refl, ap, ◌∙◌, true, false, List, [], ◌∷◌, Option, none, some,
  if◌then◌else◌, arith, All, Str, bytes, ◌++◌, Option-cases, inl, inr, subst,
}
use uni_serve_libhttp.WebSocketServer.Lifecycle.{
  System, WebSocketServer, new_server, refuse, create_listener, create_threads, set_running,
  after_create, start, stop, destroy,
}

pub data Call : Type 0 where
  starts : System → Call
  stops : Call

pub apply : Call → WebSocketServer → WebSocketServer
apply (starts sys) v = (start sys v).0
apply stops v = stop v

pub run_calls : List Call → WebSocketServer → WebSocketServer
run_calls [] v = v
run_calls (c ∷ cs) v = run_calls cs (apply c v)

-- Whether every thread can be created.
abbrev pub CanSpawn : Call → Type 0
CanSpawn (starts sys) = (n : ℕ) → sys.spawns n ≡ true
CanSpawn stops = Unit

-- A running server has its threads and a listener, and another one has no threads.
pub record IsLifecycle (v : WebSocketServer) : Type 0 where
  pub workers : v.threads_created ≡ (if v.running then v.threads else 0)
  pub listened : v.running ≡ true → v.listening ≡ true

create_threads-all :
    (sys : System) (n : ℕ) (v : WebSocketServer)
    → ((n : ℕ) → sys.spawns n ≡ true)
    → create_threads sys n v ≡ (record v { threads_created = v.threads_created + n }, none)
unfolding create_threads
create_threads-all sys zero v h = ground arith
create_threads-all sys (suc n) v h = ground (
  arith,
  h v.threads_created,
  create_threads-all sys n (record v { threads_created = v.threads_created + 1 }) h,
)

after_create-IsLifecycle :
    (sys : System) (e : Option Str) (v : WebSocketServer)
    → ((n : ℕ) → sys.spawns n ≡ true)
    → v.running ≡ false
    → IsLifecycle v
    → IsLifecycle (after_create sys e v).0
unfolding after_create set_running
after_create-IsLifecycle sys (some e) v h r l = l
after_create-IsLifecycle sys none v h r l =
    rw (create_threads-all sys v.threads (record v { listening = true }) h)
      (record { workers = ground arith; listened = λ p. refl })

start-IsLifecycle :
    (sys : System) (v : WebSocketServer)
    → ((n : ℕ) → sys.spawns n ≡ true)
    → IsLifecycle v
    → IsLifecycle (start sys v).0
unfolding start
start-IsLifecycle sys v h l =
    ground (arith, after_create-IsLifecycle sys (create_listener sys v.port) v h)

stop-IsLifecycle : (v : WebSocketServer) → IsLifecycle v → IsLifecycle (stop v)
unfolding stop
stop-IsLifecycle v l = ground arith

-- The destructor finds every thread joined.
destroy-IsLifecycle : (v : WebSocketServer) → IsLifecycle v → destroy v ≡ some (stop v)
unfolding destroy stop
destroy-IsLifecycle v l = ground (arith, l.workers)

-- Over any calls of `start` and `stop`, whether or not the port can be listened on, and as long as
-- threads can be created: a running server has a listener and all its threads, and a server that is
-- not running has no thread; and the destructor stops the server and finds no thread unjoined.
pub run_calls-new_server :
    (port threads : ℕ) (cs : List Call)
    → All CanSpawn cs
    → let v = run_calls cs (new_server port threads) in IsLifecycle v × (destroy v ≡ some (stop v))
unfolding run_calls apply new_server
run_calls-new_server port threads cs h =
    let l = go cs (new_server port threads) h (record { workers = refl; listened = λ p. cc }) in
    (l, destroy-IsLifecycle (run_calls cs (new_server port threads)) l)
  where
    go :
        (cs : List Call) (v : WebSocketServer)
        → All CanSpawn cs
        → IsLifecycle v
        → IsLifecycle (run_calls cs v)
    go [] v h l = l
    go (starts sys ∷ cs) v (h, hs) l = go cs (start sys v).0 hs (start-IsLifecycle sys v h l)
    go (stops ∷ cs) v (h, hs) l = go cs (stop v) hs (stop-IsLifecycle v l)

-- What comes of the acceptor's operations, which are made in this order: the first one that fails
-- gives the message of an exception.
pub data IsSetUp (sys : System) (port : ℕ) : Option Str → Type 0 where
  not_open :
      (e : Str)
      → sys.opens ≡ some e
      → IsSetUp sys port (some (bytes "Failed to open acceptor: " ++ e))
  not_reusable :
      (e : Str)
      → sys.opens ≡ none
      → sys.sets_option ≡ some e
      → IsSetUp sys port (some (bytes "Failed to set reuse address: " ++ e))
  not_bound :
      (e : Str)
      → sys.opens ≡ none
      → sys.sets_option ≡ none
      → sys.binds port ≡ some e
      → IsSetUp sys port (some (bytes "Failed to bind to endpoint: " ++ e))
  not_listening :
      (e : Str)
      → sys.opens ≡ none
      → sys.sets_option ≡ none
      → sys.binds port ≡ none
      → sys.listens ≡ some e
      → IsSetUp sys port (some (bytes "Failed to listen: " ++ e))
  listens :
      sys.opens ≡ none
      → sys.sets_option ≡ none
      → sys.binds port ≡ none
      → sys.listens ≡ none
      → IsSetUp sys port none

create_listener-IsSetUp : (sys : System) (port : ℕ) → IsSetUp sys port (create_listener sys port)
unfolding create_listener refuse
create_listener-IsSetUp sys port = elim (Option-cases sys.opens) [
  | inr (e, p) ↦ subst (IsSetUp sys port) (ground arith) (not_open e p)
  | inl p ↦ elim (Option-cases sys.sets_option) [
    | inr (e, q) ↦ subst (IsSetUp sys port) (ground arith) (not_reusable e p q)
    | inl q ↦ elim (Option-cases (sys.binds port)) [
      | inr (e, r) ↦ subst (IsSetUp sys port) (ground arith) (not_bound e p q r)
      | inl r ↦ elim (Option-cases sys.listens) [
        | inr (e, l) ↦ subst (IsSetUp sys port) (ground arith) (not_listening e p q r l)
        | inl l ↦ subst (IsSetUp sys port) (ground arith) (listens p q r l)
      ]
    ]
  ]
]

-- What a start is to leave, by what the constructor of the listener throws.
abbrev pub started : Option Str → WebSocketServer → WebSocketServer
started (some e) v = v
started none v = record v {
  listening = true;
  running = true;
  threads_created = v.threads_created + v.threads;
}

after_create-started :
    (sys : System) (e : Option Str) (v : WebSocketServer)
    → ((n : ℕ) → sys.spawns n ≡ true)
    → after_create sys e v ≡ (started e v, e)
unfolding after_create set_running
after_create-started sys (some e) v h = refl
after_create-started sys none v h =
    rw (create_threads-all sys v.threads (record v { listening = true }) h) refl

-- A `start` of a server that is not running, with threads that can be created, throws exactly where
-- an operation of the acceptor fails, which are opening, setting the option, binding and listening,
-- in this order; the first one that fails gives the message, which names it, and its error. Then the
-- server is as it was, and otherwise it runs with a listener and its threads.
pub start-started :
    (sys : System) (v : WebSocketServer)
    → ((n : ℕ) → sys.spawns n ≡ true)
    → v.running ≡ false
    → (thrown : Option Str) × IsSetUp sys v.port thrown × (start sys v ≡ (started thrown v, thrown))
unfolding start
start-started sys v h r = (
  create_listener sys v.port,
  create_listener-IsSetUp sys v.port,
  ap (λ x. if x then (v, none) else after_create sys (create_listener sys v.port) v) r
      ∙ after_create-started sys (create_listener sys v.port) v h,
)
