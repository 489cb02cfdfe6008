-- ===== src/HttpServer/Listener/Exceptions.antt =====
-- Which exceptions leave a handler of a connection.
use uni_serve_libhttp.Common.{ℕ, ◌≡◌, ◌≢◌, refl, ap, ◌∙◌, List, [], ◌∷◌, none, set, arith}
use uni_serve_libhttp.HttpServer.Beast.{Beast, IsBeast}
use uni_serve_libhttp.HttpServer.Routes.{Router}
use uni_serve_libhttp.HttpServer.Request.{
  Result, ok, throws, other, Handler, Middleware, Externals, handle_request, process_request,
}
use uni_serve_libhttp.HttpServer.Request.Laws.{
  IsProcessed, returned, failed, lost, process_request-IsProcessed,
}
use uni_serve_libhttp.HttpServer.Session.{
  Op, handshake, read, write, Outcome, fails, succeeds, reads, Session, new_session, close, do_read,
  do_write, on_handshake, on_write, answer, release, handle_read, complete,
}
use uni_serve_libhttp.HttpServer.Session
use uni_serve_libhttp.HttpServer.Listener.{Listener, catch_worker, leave}

module _ (b : Beast) {W : Type 0} (x : Externals W)
    (t : Router (Handler b W) (Middleware b W)) where
  -- Every request is answered by a response.
  abbrev pub NeverThrows : Type 0
  NeverThrows =
      (q : b.Request) (w : W)
      → (r : b.Response) × (w' : W) × (process_request b x t q w ≡ (ok r, w'))

  -- The application throws nothing but `std::exception`s.
  abbrev pub ThrowsStandard : Type 0
  ThrowsStandard = (q : b.Request) (w w' : W) → handle_request b x t q w ≢ (throws other, w')

  answered :
      (q : b.Request) (l : IsBeast b) (o p : Result b.Response × W)
      → IsProcessed l x t q o p
      → ((w' : W) → o ≢ (throws other, w'))
      → (r : b.Response) × (w' : W) × (p ≡ (ok r, w'))
  answered q l _ _ (returned r w) n = (r, w, refl)
  answered q l _ _ (failed what r w v) n = (r, w, refl)
  answered q l _ _ (lost w) n = absurd (n w refl)

  pub ThrowsStandard-NeverThrows : IsBeast b → ThrowsStandard → NeverThrows
  ThrowsStandard-NeverThrows l h q w =
      answered q l (handle_request b x t q w) (process_request b x t q w)
        (process_request-IsProcessed l x t q w) (h q w)

module _ {b : Beast} {W : Type 0} where
  -- A handler that nothing leaves costs no thread.
  pub leave-none :
      (i : ℕ) (s : Session b W) (l : Listener b W)
      → s.thrown ≡ none
      → leave i s l ≡ record l { sessions = set l.sessions i s; world = s.world }
  unfolding leave catch_worker
  leave-none i s l e =
      ap (λ o. catch_worker o (record l { sessions = set l.sessions i s; world = s.world })) e

  thrown-close : (s : Session b W) → (close s).thrown ≡ s.thrown
  unfolding close
  thrown-close s = ground arith

  thrown-do_read : (s : Session b W) → (do_read s).thrown ≡ s.thrown
  unfolding do_read
  thrown-do_read s = ground arith

  thrown-do_write : (r : b.Response) (s : Session b W) → (do_write r s).thrown ≡ s.thrown
  unfolding do_write
  thrown-do_write r s = ground arith

  thrown-release : (s : Session b W) → (release s).thrown ≡ s.thrown
  unfolding release
  thrown-release s = ground (arith, thrown-close s)

  thrown-on_write :
      (r : b.Response) (o : Outcome b) (s : Session b W) → (on_write r o s).thrown ≡ s.thrown
  unfolding on_write
  thrown-on_write r fails s = refl
  thrown-on_write r succeeds s = ground (arith, thrown-close s, thrown-do_read s)
  thrown-on_write r (reads q) s = ground (arith, thrown-close s, thrown-do_read s)

  module _ (x : Externals W) (t : Router (Handler b W) (Middleware b W)) where
    thrown-handle :
        (op : Op b) (o : Outcome b) (s : Session b W)
        → NeverThrows b x t
        → (Session.handle x t op o s).thrown ≡ s.thrown
    unfolding Session.handle on_handshake handle_read answer
    thrown-handle handshake fails s a = refl
    thrown-handle handshake succeeds s a = thrown-do_read s
    thrown-handle handshake (reads q) s a = thrown-do_read s
    thrown-handle (read st) fails s a = refl
    thrown-handle (read st) succeeds s a = refl
    thrown-handle (read st) (reads q) s a =
        let (r, w', e) = a q s.world in
        ap (λ p. (answer p s).thrown) e ∙ thrown-do_write r (record s { world = w' })
    thrown-handle (write st r) o s a = thrown-on_write r o s

    -- No exception leaves a handler of a session.
    pub thrown-complete :
        (ops : List (Op b)) (o : Outcome b) (s : Session b W)
        → NeverThrows b x t
        → (complete x t ops o s).thrown ≡ s.thrown
    unfolding complete
    thrown-complete [] o s a = refl
    thrown-complete (op ∷ rest) o s a =
        let u : Session b W = record s { pending = rest } in
        thrown-release (Session.handle x t op o u) ∙ thrown-handle op o u a
