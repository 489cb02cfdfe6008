-- ===== src/HttpServer/Session/Phases.antt =====
-- Where a connection can be, at every point of every run.
use uni_serve_libhttp.Common.{◌≡◌, refl, Bool, true, false, List, [], ◌∷◌, if◌then◌else◌, arith}
use uni_serve_libhttp.HttpServer.Beast.{Beast}
use uni_serve_libhttp.HttpServer.Routes.{Router}
use uni_serve_libhttp.HttpServer.Request.{
  Result, ok, throws, Handler, Middleware, Externals, process_request,
}
use uni_serve_libhttp.HttpServer.Session.{
  plain, tls, Op, handshake, read, write, Outcome, fails, succeeds, reads, Session, new_session,
  close, do_read, do_write, do_ssl_handshake, run, on_handshake, on_write, answer, release,
  handle_read, handle, complete, run_all,
}

module _ {b : Beast} where
  -- Whether an operation runs over the right stream of a connection with or without TLS.
  abbrev pub IsOver : Bool → Op b → Type 0
  IsOver ssl handshake = ssl ≡ true
  IsOver ssl (read stream) = stream ≡ (if ssl then tls else plain)
  IsOver ssl (write stream response) = stream ≡ (if ssl then tls else plain)

  -- At most one operation is outstanding, over the right stream of an open socket.
  abbrev pub IsHeld : Bool → Bool → List (Op b) → Type 0
  IsHeld ssl is_open [] = Unit
  IsHeld ssl is_open (op ∷ []) = (is_open ≡ true) × IsOver ssl op
  IsHeld ssl is_open (op ∷ (op' ∷ ops)) = ⊥

  -- Besides, the socket is closed where nothing is outstanding.
  abbrev pub IsPending : Bool → Bool → List (Op b) → Type 0
  IsPending ssl is_open [] = is_open ≡ false
  IsPending ssl is_open (op ∷ ops) = IsHeld ssl is_open (op ∷ ops)

module _ {b : Beast} {W : Type 0} where
  pub record IsHandled (ssl : Bool) (s : Session b W) : Type 0 where
    pub kind : s.ssl_enabled ≡ ssl
    pub stream : s.ssl_stream ≡ ssl
    pub held : IsHeld ssl s.is_open s.pending

  -- Between two handlers: a socket is open exactly while an operation is outstanding, which is then
  -- the only one, and runs over TLS exactly where the server has TLS.
  pub record IsPhase (ssl : Bool) (s : Session b W) : Type 0 where
    pub kind : s.ssl_enabled ≡ ssl
    pub stream : s.ssl_stream ≡ ssl
    pub waiting : IsPending ssl s.is_open s.pending

  -- Inside a handler, before it starts an operation.
  pub record IsBusy (ssl : Bool) (s : Session b W) : Type 0 where
    pub kind : s.ssl_enabled ≡ ssl
    pub stream : s.ssl_stream ≡ ssl
    pub none_pending : s.pending ≡ []
    pub open_now : s.is_open ≡ true

  close-IsHandled : (ssl : Bool) (s : Session b W) → IsBusy ssl s → IsHandled ssl (close s)
  unfolding close
  close-IsHandled ssl s v = ground arith

  idle-IsHandled : (ssl : Bool) (s : Session b W) → IsBusy ssl s → IsHandled ssl s
  idle-IsHandled ssl s v = record { kind = v.kind; stream = v.stream; held = rw v.none_pending tt }

  do_read-IsHandled : (ssl : Bool) (s : Session b W) → IsBusy ssl s → IsHandled ssl (do_read s)
  unfolding do_read
  do_read-IsHandled true s v = ground arith
  do_read-IsHandled false s v = ground arith

  do_write-IsHandled :
      (ssl : Bool) (r : b.Response) (s : Session b W) → IsBusy ssl s → IsHandled ssl (do_write r s)
  unfolding do_write
  do_write-IsHandled true r s v = ground arith
  do_write-IsHandled false r s v = ground arith

  release-IsPhase : (ssl : Bool) (s : Session b W) → IsHandled ssl s → IsPhase ssl (release s)
  unfolding release close
  release-IsPhase ssl s v = ground arith

  answer-IsHandled :
      (ssl : Bool) (r : Result b.Response × W) (s : Session b W)
      → IsBusy ssl s
      → IsHandled ssl (answer r s)
  unfolding answer
  answer-IsHandled ssl (ok r, w) s v =
      let moved : Session b W = record s { world = w } in
      do_write-IsHandled ssl r moved (record {
        kind = v.kind;
        stream = v.stream;
        none_pending = v.none_pending;
        open_now = v.open_now;
      })
  answer-IsHandled ssl (throws e, w) s v = record {
    kind = v.kind;
    stream = v.stream;
    held = rw v.none_pending tt;
  }

  on_write-IsHandled :
      (ssl : Bool) (r : b.Response) (o : Outcome b) (s : Session b W)
      → IsBusy ssl s
      → IsHandled ssl (on_write r o s)
  unfolding on_write
  on_write-IsHandled ssl r fails s v = idle-IsHandled ssl s v
  on_write-IsHandled ssl r succeeds s v =
      ground (arith, close-IsHandled ssl s v, do_read-IsHandled ssl s v)
  on_write-IsHandled ssl r (reads q) s v =
      ground (arith, close-IsHandled ssl s v, do_read-IsHandled ssl s v)

  on_handshake-IsHandled :
      (ssl : Bool) (o : Outcome b) (s : Session b W)
      → IsBusy ssl s
      → IsHandled ssl (on_handshake o s)
  unfolding on_handshake
  on_handshake-IsHandled ssl fails s v = idle-IsHandled ssl s v
  on_handshake-IsHandled ssl _ s v = do_read-IsHandled ssl s v

  pub run-IsPhase : (ssl : Bool) (w : W) → IsPhase ssl (run (new_session {b = b} ssl w))
  unfolding run new_session do_read do_ssl_handshake
  run-IsPhase true w = record { kind = refl; stream = refl; waiting = (refl, refl) }
  run-IsPhase false w = record { kind = refl; stream = refl; waiting = (refl, refl) }

  module _ (x : Externals W) (t : Router (Handler b W) (Middleware b W)) where
    handle-IsHandled :
        (ssl : Bool) (op : Op b) (o : Outcome b) (s : Session b W)
        → IsBusy ssl s
        → IsHandled ssl (handle x t op o s)
    unfolding handle handle_read
    handle-IsHandled ssl handshake o s v = on_handshake-IsHandled ssl o s v
    handle-IsHandled ssl (read st) fails s v = idle-IsHandled ssl s v
    handle-IsHandled ssl (read st) succeeds s v = idle-IsHandled ssl s v
    handle-IsHandled ssl (read st) (reads q) s v =
        answer-IsHandled ssl (process_request b x t q s.world) s v
    handle-IsHandled ssl (write st r) o s v = on_write-IsHandled ssl r o s v

    pub complete-IsPhase :
        (ssl : Bool) (ops : List (Op b)) (o : Outcome b) (s : Session b W)
        → s.pending ≡ ops
        → IsPhase ssl s
        → IsPhase ssl (complete x t ops o s)
    unfolding complete
    complete-IsPhase ssl [] o s e v = v
    complete-IsPhase ssl (op ∷ []) o s e v =
        let busy : Session b W = record s { pending = [] } in
        release-IsPhase ssl (handle x t op o busy) (
          handle-IsHandled ssl op o busy (record {
            kind = v.kind;
            stream = v.stream;
            none_pending = refl;
            open_now = ground arith;
          }))
    complete-IsPhase ssl (op ∷ (op' ∷ ops)) o s e v = absurd (ground arith)

    -- At every point of every connection, with any requests, failures and exceptions: the socket is
    -- open exactly while an operation is outstanding, which is then the only one, and it runs over
    -- TLS exactly where the server has TLS.
    pub run_all-IsPhase :
        (ssl : Bool) (w : W) (os : List (Outcome b))
        → IsPhase ssl (run_all x t os (run (new_session ssl w)))
    unfolding run_all
    run_all-IsPhase ssl w os = go os (run (new_session ssl w)) (run-IsPhase ssl w)
      where
        go :
            (os : List (Outcome b)) (s : Session b W)
            → IsPhase ssl s
            → IsPhase ssl (run_all x t os s)
        go [] s v = v
        go (o ∷ os) s v =
            go os (complete x t s.pending o s) (complete-IsPhase ssl s.pending o s refl v)
