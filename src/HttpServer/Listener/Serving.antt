-- ===== src/HttpServer/Listener/Serving.antt =====
-- What holds of a listener, its connections and its worker threads at every point of every run.
use uni_serve_libhttp.Common.{
  ℕ, zero, suc, ◌≡◌, refl, subst, sym, Bool, true, false, ◌&&◌, List, [], ◌∷◌, Option, none, some,
  get_elem?, All, All-append, All-set, All-get_elem?, arith,
}
use uni_serve_libhttp.HttpServer.Beast.{Beast, IsBeast}
use uni_serve_libhttp.HttpServer.Routes.{Router}
use uni_serve_libhttp.HttpServer.Request.{Handler, Middleware, Externals}
use uni_serve_libhttp.HttpServer.Session.{Outcome, Session, complete}
use uni_serve_libhttp.HttpServer.Session.Phases.{IsPhase, complete-IsPhase, run-IsPhase}
use uni_serve_libhttp.HttpServer.Listener.{
  Listener, Event, accepted, completes, new_listener, do_accept, run, open_session, on_accept,
  complete_accept, entered, leave, complete_session, handle, step, run_events,
}
use uni_serve_libhttp.HttpServer.Listener.Exceptions.{
  leave-none, NeverThrows, ThrowsStandard, ThrowsStandard-NeverThrows, thrown-complete,
}

module _ {b : Beast} {W : Type 0} where
  -- One accept is outstanding, every connection is where it can be, and no thread is lost.
  pub record IsServing (ssl : Bool) (threads : ℕ) (l : Listener b W) : Type 0 where
    pub secure : (l.ssl_enabled && l.ssl_ctx) ≡ ssl
    pub accepting : l.accepts ≡ 1
    pub connections : All (IsPhase ssl) l.sessions
    pub staffed : l.workers ≡ threads
    pub alive : l.terminated ≡ false

  open_session-IsPhase :
      (ssl : Bool) (l : Listener b W)
      → (l.ssl_enabled && l.ssl_ctx) ≡ ssl
      → IsPhase ssl (open_session l)
  unfolding open_session
  open_session-IsPhase true l e = rw e (run-IsPhase true l.world)
  open_session-IsPhase false l e = rw e (run-IsPhase false l.world)

  complete_accept-IsServing :
      (ssl : Bool) (threads : ℕ) (error : Bool) (n : ℕ) (l : Listener b W)
      → l.accepts ≡ n
      → IsServing ssl threads l
      → IsServing ssl threads (complete_accept error n l)
  unfolding complete_accept on_accept do_accept
  complete_accept-IsServing ssl threads error zero l e v = v
  complete_accept-IsServing ssl threads true (suc n) l e v = record {
    secure = v.secure;
    accepting = omega (arith, v.accepting, e);
    connections = v.connections;
    staffed = v.staffed;
    alive = v.alive;
  }
  complete_accept-IsServing ssl threads false (suc n) l e v = record {
    secure = v.secure;
    accepting = omega (arith, v.accepting, e);
    connections =
        All-append (IsPhase ssl) l.sessions _ v.connections
          (open_session-IsPhase ssl (record l { accepts = n }) v.secure, tt);
    staffed = v.staffed;
    alive = v.alive;
  }

  leave-IsServing :
      (ssl : Bool) (threads i : ℕ) (s : Session b W) (l : Listener b W)
      → s.thrown ≡ none
      → IsPhase ssl s
      → IsServing ssl threads l
      → IsServing ssl threads (leave i s l)
  leave-IsServing ssl threads i s l e p v =
      subst (IsServing ssl threads) (sym (leave-none i s l e)) (record {
        secure = v.secure;
        accepting = v.accepting;
        connections = All-set (IsPhase ssl) l.sessions i s v.connections p;
        staffed = v.staffed;
        alive = v.alive;
      })

  module _ (x : Externals W) (t : Router (Handler b W) (Middleware b W)) (a : NeverThrows b x t)
      (ssl : Bool) (threads : ℕ) where
    complete_session-IsServing :
        (i : ℕ) (o : Outcome b) (l : Listener b W) (m : Option (Session b W))
        → get_elem? l.sessions i ≡ m
        → IsServing ssl threads l
        → IsServing ssl threads (complete_session x t i o m l)
    unfolding complete_session
    complete_session-IsServing i o l none e v = v
    complete_session-IsServing i o l (some s) e v =
        let p = All-get_elem? (IsPhase ssl) l.sessions i s v.connections e in
        leave-IsServing ssl threads i (complete x t s.pending o (entered l s)) l
          (thrown-complete x t s.pending o (entered l s) a)
          (complete-IsPhase x t ssl s.pending o (entered l s) refl
            (record { kind = p.kind; stream = p.stream; waiting = p.waiting }))
          v

    handle-IsServing :
        (e : Event b) (l : Listener b W)
        → IsServing ssl threads l
        → IsServing ssl threads (handle x t e l)
    unfolding handle
    handle-IsServing (accepted error) l v =
        complete_accept-IsServing ssl threads error l.accepts l refl v
    handle-IsServing (completes i o) l v =
        complete_session-IsServing i o l (get_elem? l.sessions i) refl v

    pub run_events-IsServing :
        (es : List (Event b)) (l : Listener b W)
        → IsServing ssl threads l
        → IsServing ssl threads (run_events x t es l)
    unfolding run_events step
    run_events-IsServing [] l v = v
    run_events-IsServing (e ∷ es) l v =
        run_events-IsServing es (step x t e l) (ground (arith, handle-IsServing e l v))

  -- From a new listener that runs, with or without TLS and with any number of threads, and whatever
  -- connections come, succeed and fail in whatever order: as long as the application throws nothing
  -- but `std::exception`s, one accept is outstanding at any time, no thread ends, the process is not
  -- ended, and each connection has an open socket exactly while it has an operation outstanding,
  -- its only one, over TLS exactly where the listener has TLS.
  pub run_events-new_listener :
      (l : IsBeast b) (x : Externals W) (t : Router (Handler b W) (Middleware b W)) (ssl : Bool)
      (threads : ℕ) (w : W) (es : List (Event b))
      → ThrowsStandard b x t
      → IsServing ssl threads (run_events x t es (run (new_listener ssl threads w)))
  unfolding run new_listener do_accept
  run_events-new_listener l x t ssl threads w es h =
      run_events-IsServing x t (ThrowsStandard-NeverThrows b x t l h) ssl threads es _ (record {
        secure = ground arith;
        accepting = refl;
        connections = tt;
        staffed = refl;
        alive = refl;
      })
