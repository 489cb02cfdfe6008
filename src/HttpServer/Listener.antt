-- ===== src/HttpServer/Listener.antt =====
-- `HttpServer::Listener` of src/HttpServer.cpp, the connections that it has accepted, and the worker
-- threads that run the handlers of both.
mod Exceptions
pub mod Serving
pub mod Isolation
mod Tests
use uni_serve_libhttp.Common.{
  ℕ, zero, suc, ◌-◌, ◌+◌, Bool, true, false, not, ◌&&◌, List, [], ◌∷◌, ◌++◌, Option, none, some,
  if◌then◌else◌, ltb, get_elem?, set,
}
use uni_serve_libhttp.HttpServer.Beast.{Beast}
use uni_serve_libhttp.HttpServer.Routes.{Router}
use uni_serve_libhttp.HttpServer.Request.{
  Exception, std_exception, other, Handler, Middleware, Externals,
}
use uni_serve_libhttp.HttpServer.Session.{Outcome, Session, new_session, complete}
use uni_serve_libhttp.HttpServer.Session

-- `accepts` counts the outstanding `async_accept`, and `sessions` are the connections in the order
-- of their acceptance, also those that have ended. `workers` are the threads inside `ioc_->run()`;
-- `terminated` says that an exception has ended the process. `world` is the one state of the
-- application, which a session sees while its handler runs.
pub record Listener (b : Beast) (W : Type 0) : Type 0 where
  pub ssl_enabled : Bool
  pub ssl_ctx : Bool
  pub acceptor_open : Bool
  pub accepts : ℕ
  pub sessions : List (Session b W)
  pub workers : ℕ
  pub terminated : Bool
  pub world : W

-- What happens to a running server: an accept completes, with or without an error, or the oldest
-- operation of a connection does.
pub data Event (b : Beast) : Type 0 where
  accepted : Bool → Event b
  completes : ℕ → Outcome b → Event b

module _ {b : Beast} {W : Type 0} where
  -- The two constructors, behind an `initAcceptor` that does not throw.
  unfoldable pub new_listener : Bool → ℕ → W → Listener b W
  new_listener ssl threads w = record {
    ssl_enabled = ssl;
    ssl_ctx = ssl;
    acceptor_open = true;
    accepts = 0;
    sessions = [];
    workers = threads;
    terminated = false;
    world = w;
  }

  unfoldable pub do_accept : Listener b W → Listener b W
  do_accept l = record l { accepts = l.accepts + 1 }

  unfoldable pub run : Listener b W → Listener b W
  unfolding do_accept
  run l = if l.acceptor_open then do_accept l else l

  -- A new `Session` for a socket, and its `run`.
  unfoldable pub open_session : Listener b W → Session b W
  open_session l =
      if l.ssl_enabled && l.ssl_ctx
      then Session.run (new_session true l.world)
      else Session.run (new_session false l.world)

  -- The handler of `async_accept`; the flag says that there is an error.
  unfoldable pub on_accept : Bool → Listener b W → Listener b W
  unfolding do_accept open_session
  on_accept true l = do_accept l
  on_accept false l = do_accept (record l { sessions = l.sessions ++ (open_session l ∷ []) })

  -- The `catch` block of a worker thread, behind which the thread ends.
  unfoldable pub catch_worker : Option Exception → Listener b W → Listener b W
  catch_worker none l = l
  catch_worker (some (std_exception what)) l = record l { workers = l.workers - 1 }
  catch_worker (some other) l = record l { terminated = true }

  -- An `async_accept` completes where one is outstanding.
  unfoldable pub complete_accept : Bool → ℕ → Listener b W → Listener b W
  complete_accept error zero l = l
  complete_accept error (suc n) l = on_accept error (record l { accepts = n })

  -- The session as its handler finds it, in the state that the application is in.
  abbrev pub entered : Listener b W → Session b W → Session b W
  entered l s = record s { world = l.world; thrown = none }

  -- What a handler of the session at a position leaves behind.
  unfoldable pub leave : ℕ → Session b W → Listener b W → Listener b W
  unfolding catch_worker
  leave i s l = catch_worker s.thrown (record l { sessions = set l.sessions i s; world = s.world })

  -- Handlers run only in a worker thread of a living process.
  abbrev pub can_run : Listener b W → Bool
  can_run l = not l.terminated && ltb 0 l.workers

  module _ (x : Externals W) (t : Router (Handler b W) (Middleware b W)) where
    unfoldable pub complete_session :
        ℕ → Outcome b → Option (Session b W) → Listener b W → Listener b W
    complete_session i o none l = l
    complete_session i o (some s) l = leave i (complete x t s.pending o (entered l s)) l

    unfoldable pub handle : Event b → Listener b W → Listener b W
    handle (accepted error) l = complete_accept error l.accepts l
    handle (completes i o) l = complete_session i o (get_elem? l.sessions i) l

    unfoldable pub step : Event b → Listener b W → Listener b W
    step e l = if can_run l then handle e l else l

    unfoldable pub run_events : List (Event b) → Listener b W → Listener b W
    run_events [] l = l
    run_events (e ∷ es) l = run_events es (step e l)
