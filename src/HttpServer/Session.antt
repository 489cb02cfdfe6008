-- ===== src/HttpServer/Session.antt =====
-- `HttpServer::Session` of src/HttpServer.cpp: one connection, from its first read or TLS handshake
-- to the close of its socket.
pub mod Fields
pub mod Exchange
pub mod Phases
mod Tests
use uni_serve_libhttp.Common.{
  Bool, true, false, not, ◌&&◌, List, [], ◌∷◌, ◌++◌, Option, none, some, if◌then◌else◌,
}
use uni_serve_libhttp.HttpServer.Beast.{Beast}
use uni_serve_libhttp.HttpServer.Routes.{Router}
use uni_serve_libhttp.HttpServer.Request.{
  Exception, Result, ok, throws, Handler, Middleware, Externals, process_request,
}

-- `socket_`, or `*ssl_stream_`.
pub data Stream : Type 0 where
  plain tls : Stream

-- The outstanding operations; a write holds its response.
pub data Op (b : Beast) : Type 0 where
  handshake : Op b
  read : Stream → Op b
  write : Stream → b.Response → Op b

-- What an operation completes with: an error, success, or success with a request.
pub data Outcome (b : Beast) : Type 0 where
  fails succeeds : Outcome b
  reads : b.Request → Outcome b

-- `written` is what was handed to `http::async_write`, in order; `thrown` is the exception that left
-- a completion handler.
pub record Session (b : Beast) (W : Type 0) : Type 0 where
  pub ssl_enabled : Bool
  pub ssl_stream : Bool
  pub is_open : Bool
  pub pending : List (Op b)
  pub written : List b.Response
  pub thrown : Option Exception
  pub world : W

module _ {b : Beast} {W : Type 0} where
  -- The constructors: without TLS, and with it.
  unfoldable pub new_session : Bool → W → Session b W
  new_session ssl w = record {
    ssl_enabled = ssl;
    ssl_stream = ssl;
    is_open = true;
    pending = [];
    written = [];
    thrown = none;
    world = w;
  }

  unfoldable pub close : Session b W → Session b W
  close s =
      if s.ssl_enabled && s.ssl_stream
      then record s { is_open = false }
      else if s.is_open
      then record s { is_open = false }
      else s

  abbrev pub enqueue : Op b → Session b W → Session b W
  enqueue op s = record s { pending = s.pending ++ (op ∷ []) }

  unfoldable pub do_ssl_handshake : Session b W → Session b W
  do_ssl_handshake s = enqueue handshake s

  unfoldable pub do_read : Session b W → Session b W
  do_read s = if s.ssl_enabled && s.ssl_stream then enqueue (read tls) s else enqueue (read plain) s

  unfoldable pub do_write : b.Response → Session b W → Session b W
  do_write response s =
      let sent : Session b W = record s { written = s.written ++ (response ∷ []) } in
      if s.ssl_enabled && s.ssl_stream
      then enqueue (write tls response) sent
      else enqueue (write plain response) sent

  unfoldable pub run : Session b W → Session b W
  unfolding do_ssl_handshake do_read
  run s = if s.ssl_enabled then do_ssl_handshake s else do_read s

  unfoldable pub on_handshake : Outcome b → Session b W → Session b W
  unfolding do_read
  on_handshake fails s = s
  on_handshake succeeds s = do_read s
  on_handshake (reads req) s = do_read s

  -- `write_callback`
  unfoldable pub on_write : b.Response → Outcome b → Session b W → Session b W
  unfolding close do_read
  on_write response fails s = s
  on_write response _ s = if not (b.view response).keep_alive then close s else do_read s

  -- The end of `processRequest`.
  unfoldable pub answer : Result b.Response × W → Session b W → Session b W
  unfolding do_write
  answer (ok response, w) s = do_write response (record s { world = w })
  answer (throws e, w) s = record s { thrown = some e; world = w }

  -- The object is destroyed, and its socket closed, once no operation holds it.
  unfoldable pub release : Session b W → Session b W
  unfolding close
  release s = elim s.pending [ [] ↦ close s | _ ↦ s ]

  module _ (x : Externals W) (t : Router (Handler b W) (Middleware b W)) where
    unfoldable pub handle_read : Outcome b → Session b W → Session b W
    unfolding answer
    handle_read fails s = s
    handle_read succeeds s = s
    handle_read (reads req) s = answer (process_request b x t req s.world) s

    unfoldable pub handle : Op b → Outcome b → Session b W → Session b W
    unfolding on_handshake on_write handle_read
    handle handshake o s = on_handshake o s
    handle (read stream) o s = handle_read o s
    handle (write stream response) o s = on_write response o s

    -- The completion of the oldest outstanding operation.
    unfoldable pub complete : List (Op b) → Outcome b → Session b W → Session b W
    unfolding release
    complete [] o s = s
    complete (op ∷ rest) o s = release (handle op o (record s { pending = rest }))

    unfoldable pub run_all : List (Outcome b) → Session b W → Session b W
    run_all [] s = s
    run_all (o ∷ os) s = run_all os (complete s.pending o s)
