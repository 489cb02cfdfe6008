-- ===== src/HttpServer/Session/Fields.antt =====
-- What the operations of a connection do to its fields.
use uni_serve_libhttp.Common.{◌≡◌, refl, ◌&&◌, List, [], ◌∷◌, ◌++◌, if◌then◌else◌, arith}
use uni_serve_libhttp.HttpServer.Beast.{Beast}
use uni_serve_libhttp.HttpServer.Session.{
  Stream, plain, tls, Op, read, write, Session, close, do_read, do_write, release,
}

module _ {b : Beast} {W : Type 0} where
  -- The stream that a session reads and writes on.
  abbrev pub stream_of : Session b W → Stream
  stream_of s = if s.ssl_enabled && s.ssl_stream then tls else plain

  pub pending-do_write :
      (r : b.Response) (s : Session b W)
      → (do_write r s).pending ≡ s.pending ++ (write (stream_of s) r ∷ [])
  unfolding do_write
  pending-do_write r s = ground arith

  pub written-do_write :
      (r : b.Response) (s : Session b W) → (do_write r s).written ≡ s.written ++ (r ∷ [])
  unfolding do_write
  written-do_write r s = ground arith

  pub world-do_write : (r : b.Response) (s : Session b W) → (do_write r s).world ≡ s.world
  unfolding do_write
  world-do_write r s = ground arith

  pub pending-do_read :
      (s : Session b W) → (do_read s).pending ≡ s.pending ++ (read (stream_of s) ∷ [])
  unfolding do_read
  pending-do_read s = ground arith

  pub written-do_read : (s : Session b W) → (do_read s).written ≡ s.written
  unfolding do_read
  written-do_read s = ground arith

  pub world-do_read : (s : Session b W) → (do_read s).world ≡ s.world
  unfolding do_read
  world-do_read s = ground arith

  pub pending-close : (s : Session b W) → (close s).pending ≡ s.pending
  unfolding close
  pending-close s = ground arith

  pub written-close : (s : Session b W) → (close s).written ≡ s.written
  unfolding close
  written-close s = ground arith

  pub world-close : (s : Session b W) → (close s).world ≡ s.world
  unfolding close
  world-close s = ground arith

  pub release_held :
      (op : Op b) (ops : List (Op b)) (s : Session b W) → s.pending ≡ op ∷ ops → release s ≡ s
  unfolding release
  release_held op ops s e = rw e refl

  pub written-release : (s : Session b W) → (release s).written ≡ s.written
  unfolding release
  written-release s = ground (arith, written-close s)

  pub world-release : (s : Session b W) → (release s).world ≡ s.world
  unfolding release
  world-release s = ground (arith, world-close s)

  pub pending-release : (s : Session b W) → (release s).pending ≡ s.pending
  unfolding release
  pending-release s = ground (arith, pending-close s)
