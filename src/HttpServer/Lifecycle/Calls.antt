-- ===== src/HttpServer/Lifecycle/Calls.antt =====
-- The server over any calls of `start`, `run` and `stop`.
use uni_serve_libhttp.Common.{
  ℕ, zero, suc, ◌+◌, ◌<◌, ◌==◌, ◌≡◌, refl, ap, ◌∙◌, true, false, ◌&&◌, List, [], ◌∷◌, Option, none,
  some, bytes, if◌then◌else◌, arith, All, Str, Option-cases, inl, inr,
}
use uni_serve_libhttp.HttpServer.Lifecycle.{
  System, HttpServer, init_acceptor, start_threads, try_start, after_listener, catch_start, start,
  stop, close_all_sessions, run_ioc, run, destroy,
}

pub data Call : Type 0 where
  starts runs : System → Call
  stops : Call

pub apply : Call → HttpServer → HttpServer
apply (starts sys) v = start sys v
apply (runs sys) v = (run sys v).0
apply stops v = stop v

pub run_calls : List Call → HttpServer → HttpServer
run_calls [] v = v
run_calls (c ∷ cs) v = run_calls cs (apply c v)

-- Whether every thread can be created.
abbrev pub CanSpawn : Call → Type 0
CanSpawn (starts sys) = (n : ℕ) → sys.spawns n ≡ true
CanSpawn (runs sys) = (n : ℕ) → sys.spawns n ≡ true
CanSpawn stops = Unit

-- A running server has its listener and its threads; another one has neither.
pub record IsLifecycle (v : HttpServer) : Type 0 where
  pub workers : v.worker_threads ≡ (if v.running then v.threads else 0)
  pub listening : v.listener ≡ (if v.running then some (v.ssl_enabled && v.ssl_ctx) else none)

start_threads-all :
    (sys : System) (n : ℕ) (v : HttpServer)
    → ((n : ℕ) → sys.spawns n ≡ true)
    → start_threads sys n v ≡ (record v { worker_threads = v.worker_threads + n }, none)
unfolding start_threads
start_threads-all sys zero v h = ground arith
start_threads-all sys (suc n) v h = ground (
  arith,
  h v.worker_threads,
  start_threads-all sys n (record v { worker_threads = v.worker_threads + 1 }) h,
)

after_listener-IsLifecycle :
    (sys : System) (e : Option Str) (v : HttpServer)
    → ((n : ℕ) → sys.spawns n ≡ true)
    → v.running ≡ false
    → IsLifecycle v
    → IsLifecycle (catch_start (after_listener sys e v))
unfolding after_listener catch_start
after_listener-IsLifecycle sys (some e) v h r l = ground arith
after_listener-IsLifecycle sys none v h r l =
    rw
      (start_threads-all sys v.threads
        (record v { listener = some (v.ssl_enabled && v.ssl_ctx); running = true }) h)
      (record { workers = ground arith; listening = refl })

start-IsLifecycle :
    (sys : System) (v : HttpServer)
    → ((n : ℕ) → sys.spawns n ≡ true)
    → IsLifecycle v
    → IsLifecycle (start sys v)
unfolding start try_start catch_start
start-IsLifecycle sys v h l =
    ground (arith, after_listener-IsLifecycle sys (init_acceptor sys v.address v.port) v h)

stop-IsLifecycle : (v : HttpServer) → IsLifecycle v → IsLifecycle (stop v)
unfolding stop close_all_sessions
stop-IsLifecycle v l = ground arith

stop_idles : (v : HttpServer) → (stop v).running ≡ false
unfolding stop close_all_sessions
stop_idles v = ground arith

run_ioc-IsLifecycle : (v : HttpServer) → IsLifecycle v → IsLifecycle (run_ioc v).0
unfolding run_ioc
run_ioc-IsLifecycle v l = elim (Option-cases v.listener) [
  | inl e ↦ ground (arith, e, l.workers, l.listening)
  | inr (tls, e) ↦ ground (arith, e, l.workers, l.listening)
]

run_ioc_stopped : (v : HttpServer) → v.ioc_stopped ≡ true → run_ioc v ≡ (v, false)
unfolding run_ioc
run_ioc_stopped v e = ground arith

-- The destructor finds every thread joined.
destroy-IsLifecycle : (v : HttpServer) → IsLifecycle v → destroy v ≡ some (stop v)
unfolding destroy
destroy-IsLifecycle v l = ground (arith, (stop-IsLifecycle v l).workers, stop_idles v)

-- From a server as its constructors leave it, over any calls of `start`, `run` and `stop`, whether
-- or not the address and the port can be listened on, and as long as threads can be created: a
-- running server has its listener, with TLS exactly where that is enabled and set up, and all its
-- worker threads; a server that is not running has neither; and the destructor stops the server and
-- finds no thread unjoined.
pub run_calls-IsLifecycle :
    (v : HttpServer) (cs : List Call)
    → v.running ≡ false
    → v.worker_threads ≡ 0
    → v.listener ≡ none
    → All CanSpawn cs
    → IsLifecycle (run_calls cs v) × (destroy (run_calls cs v) ≡ some (stop (run_calls cs v)))
unfolding run_calls apply run
run_calls-IsLifecycle v cs r w n h =
    let l : IsLifecycle (run_calls cs v) = go cs v h (ground arith) in
    (l, destroy-IsLifecycle (run_calls cs v) l)
  where
    go :
        (cs : List Call) (v : HttpServer)
        → All CanSpawn cs
        → IsLifecycle v
        → IsLifecycle (run_calls cs v)
    go [] v h l = l
    go (starts sys ∷ cs) v (h, hs) l = go cs (start sys v) hs (start-IsLifecycle sys v h l)
    go (runs sys ∷ cs) v (h, hs) l =
        go cs (run_ioc (start sys v)).0 hs
          (run_ioc-IsLifecycle (start sys v) (start-IsLifecycle sys v h l))
    go (stops ∷ cs) v (h, hs) l = go cs (stop v) hs (stop-IsLifecycle v l)

start_threads-ioc_stopped :
    (sys : System) (n : ℕ) (v : HttpServer) → (start_threads sys n v).0.ioc_stopped ≡ v.ioc_stopped
unfolding start_threads
start_threads-ioc_stopped sys zero v = refl
start_threads-ioc_stopped sys (suc n) v =
    ground
      (arith, start_threads-ioc_stopped sys n (record v { worker_threads = v.worker_threads + 1 }))

catch_start-ioc_stopped :
    (p : HttpServer × Option Str) → (catch_start p).ioc_stopped ≡ p.0.ioc_stopped
unfolding catch_start
catch_start-ioc_stopped (v, none) = refl
catch_start-ioc_stopped (v, some e) = refl

after_listener-ioc_stopped :
    (sys : System) (e : Option Str) (v : HttpServer)
    → (after_listener sys e v).0.ioc_stopped ≡ v.ioc_stopped
unfolding after_listener
after_listener-ioc_stopped sys (some e) v = refl
after_listener-ioc_stopped sys none v =
    start_threads-ioc_stopped sys v.threads
      (record v { listener = some (v.ssl_enabled && v.ssl_ctx); running = true })

start-ioc_stopped : (sys : System) (v : HttpServer) → (start sys v).ioc_stopped ≡ v.ioc_stopped
unfolding start try_start
start-ioc_stopped sys v = ground (
  arith,
  catch_start-ioc_stopped (try_start sys v),
  after_listener-ioc_stopped sys (init_acceptor sys v.address v.port) v,
)

-- A running server that is stopped keeps its `io_context` stopped over any further calls of `start`,
-- `run` and `stop`, also where a second `start` succeeds; a call of `run` then serves nothing.
pub run_calls-ioc_stopped :
    (v : HttpServer) (cs : List Call)
    → v.running ≡ true
    → ((run_calls (stops ∷ cs) v).ioc_stopped ≡ true)
      × ((sys : System) → (run sys (run_calls (stops ∷ cs) v)).1 ≡ false)
unfolding run_calls apply stop run
run_calls-ioc_stopped v cs r =
    let stopped = go cs (stop v) (ground arith) in
    (
      stopped,
      λ sys.
          ap (λ p. p.1)
            (run_ioc_stopped (start sys (run_calls cs (stop v)))
              (start-ioc_stopped sys (run_calls cs (stop v)) ∙ stopped)),
    )
  where
    kept : (u : HttpServer) → u.ioc_stopped ≡ true → (run_ioc u).0.ioc_stopped ≡ true
    kept u e = ap (λ p. p.0.ioc_stopped) (run_ioc_stopped u e) ∙ e

    go :
        (cs : List Call) (u : HttpServer)
        → u.ioc_stopped ≡ true
        → (run_calls cs u).ioc_stopped ≡ true
    go [] u e = e
    go (starts sys ∷ cs) u e = go cs (start sys u) (ground (arith, start-ioc_stopped sys u))
    go (runs sys ∷ cs) u e =
        go cs (run_ioc (start sys u)).0 (kept (start sys u) (start-ioc_stopped sys u ∙ e))
    go (stops ∷ cs) u e = go cs (stop u) (ground arith)

start_threads-some :
    (sys : System) (k n : ℕ) (v : HttpServer)
    → ((j : ℕ) → j < v.worker_threads + k → sys.spawns j ≡ true)
    → sys.spawns (v.worker_threads + k) ≡ false
    → k < n
    → start_threads sys n v
      ≡ (record v { worker_threads = v.worker_threads + k }, some (bytes "thread"))
unfolding start_threads
start_threads-some sys k zero v h f l = absurd (omega (arith, l))
start_threads-some sys zero (suc n) v h f l = ground arith
start_threads-some sys (suc k) (suc n) v h f l = ground (
  arith,
  h v.worker_threads (omega arith),
  start_threads-some sys k n (record v { worker_threads = v.worker_threads + 1 }),
)

after_listener-unjoined :
    (sys : System) (v : HttpServer) (k : ℕ)
    → v.worker_threads ≡ 0
    → ((j : ℕ) → j < k → sys.spawns j ≡ true)
    → sys.spawns k ≡ false
    → k < v.threads
    → ((catch_start (after_listener sys none v)).running ≡ false)
      × ((catch_start (after_listener sys none v)).worker_threads ≡ k)
unfolding after_listener catch_start
after_listener-unjoined sys v k w h f l =
    let u : HttpServer = record v {
      listener = some (v.ssl_enabled && v.ssl_ctx);
      running = true;
    } in
    rw
      (start_threads-some sys k v.threads u (λ j m. h j (omega (arith, m, w)))
        (ap sys.spawns (omega (arith, w)) ∙ f) l)
      (refl, omega (arith, w))

start-unjoined :
    (sys : System) (v : HttpServer) (k : ℕ)
    → v.running ≡ false
    → v.worker_threads ≡ 0
    → sys.is_address v.address ≡ true
    → init_acceptor sys v.address v.port ≡ none
    → ((j : ℕ) → j < k → sys.spawns j ≡ true)
    → sys.spawns k ≡ false
    → k < v.threads
    → ((start sys v).running ≡ false) × ((start sys v).worker_threads ≡ k)
unfolding start try_start after_listener
start-unjoined sys v k r w a i h f l = rw (r, a, i) (after_listener-unjoined sys v k w h f l)

stop_idle : (v : HttpServer) → v.running ≡ false → stop v ≡ v
unfolding stop
stop_idle v r = rw r refl

-- Where `start` can create some of its threads and not all, the server is not running, and `stop`
-- does nothing any more: the threads that were created are not joined, and where there are any, the
-- destructor ends the process.
pub stop-start-unjoined :
    (sys : System) (v : HttpServer) (k : ℕ)
    → v.running ≡ false
    → v.worker_threads ≡ 0
    → sys.is_address v.address ≡ true
    → init_acceptor sys v.address v.port ≡ none
    → ((j : ℕ) → j < k → sys.spawns j ≡ true)
    → sys.spawns k ≡ false
    → k < v.threads
    → ((stop (start sys v)).running ≡ false)
      × ((stop (start sys v)).worker_threads ≡ k)
      × (destroy (start sys v) ≡ (if k == 0 then some (start sys v) else none))
unfolding destroy
stop-start-unjoined sys v k r w a i h f l =
    let started = start-unjoined sys v k r w a i h f l in
    rw (stop_idle (start sys v) started.0) (started.0, started.1, ground (arith, started.1))
