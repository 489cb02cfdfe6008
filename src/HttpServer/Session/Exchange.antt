-- ===== src/HttpServer/Session/Exchange.antt =====
-- A connection on which nothing fails, against what its requests are owed.
use mathlib.Core.List.{append_assoc, append-nil}
use uni_serve_libhttp.Common.{
  ◌≡◌, refl, ap, ◌∙◌, sym, Bool, true, false, List, [], ◌∷◌, ◌++◌, some, if◌then◌else◌,
}
use uni_serve_libhttp.HttpServer.Beast.{Beast}
use uni_serve_libhttp.HttpServer.Routes.{Router}
use uni_serve_libhttp.HttpServer.Request.{
  Result, ok, throws, Handler, Middleware, Externals, process_request,
}
use uni_serve_libhttp.HttpServer.Session.{
  Stream, read, write, Outcome, succeeds, reads, Session, close, do_read, do_write, on_write,
  answer, release, handle_read, handle, complete, run_all,
}
use uni_serve_libhttp.HttpServer.Session.Fields.{
  stream_of, pending-do_write, written-do_write, world-do_write, pending-do_read, written-do_read,
  world-do_read, pending-close, written-close, world-close, release_held, written-release,
  world-release, pending-release,
}

module _ {b : Beast} where
  -- Each request is read, and what it is answered with is written.
  pub exchanges : List b.Request → List (Outcome b)
  exchanges [] = []
  exchanges (q ∷ qs) = reads q ∷ (succeeds ∷ exchanges qs)

-- The responses to a list of requests, and the state of the application behind them.
pub record Answers (b : Beast) (W : Type 0) : Type 0 where
  pub responses : List b.Response
  pub after : W

module _ {b : Beast} {W : Type 0} where
  -- The response to a request, and then those to the further ones, unless it ends the connection or
  -- there is none.
  abbrev pub answers_after : Result b.Response × W → (W → Answers b W) → Answers b W
  answers_after (throws e, w) rest = record { responses = []; after = w }
  answers_after (ok r, w) rest =
      let further = rest w in
      if (b.view r).keep_alive
      then record { responses = r ∷ further.responses; after = further.after }
      else record { responses = r ∷ []; after = w }

  -- What a session has done since it had handed over the responses `before`.
  pub record IsDone (before : List b.Response) (s : Session b W) (a : Answers b W) : Type 0 where
    pub sent : s.written ≡ before ++ a.responses
    pub reached : s.world ≡ a.after

  module _ (x : Externals W) (t : Router (Handler b W) (Middleware b W)) where
    pub answers : List b.Request → W → Answers b W
    answers [] w = record { responses = []; after = w }
    answers (q ∷ qs) w = answers_after (process_request b x t q w) (answers qs)

    -- Nothing happens on a connection with nothing outstanding.
    run_all-nothing :
        (os : List (Outcome b)) (s : Session b W) → s.pending ≡ [] → run_all x t os s ≡ s
    unfolding run_all complete
    run_all-nothing [] s e = refl
    run_all-nothing (o ∷ os) s e =
        ap (λ ops. run_all x t os (complete x t ops o s)) e ∙ run_all-nothing os s e

    -- What the further requests get, if there are any.
    abbrev further : Bool → (W → Answers b W) → W → Answers b W
    further true rest w = rest w
    further false rest w = record { responses = []; after = w }

    -- What a session that reads is owed for the outcomes `os`.
    abbrev IsOwed : List (Outcome b) → (W → Answers b W) → Type 0
    IsOwed os rest =
        (s : Session b W) (st : Stream)
        → s.pending ≡ read st ∷ []
        → IsDone s.written (run_all x t os s) (rest s.world)

    IsDone-written :
        (u z : Session b W) (before : List b.Response) (v : W) (rest : W → Answers b W)
        → u.written ≡ before
        → u.world ≡ v
        → IsDone u.written z (rest u.world)
        → IsDone before z (rest v)
    IsDone-written u z before v rest e f d = record {
      sent =
          d.sent
          ∙ (ap (λ l. l ++ (rest u.world).responses) e ∙ ap (λ y. before ++ (rest y).responses) f);
      reached = d.reached ∙ ap (λ y. (rest y).after) f;
    }

    IsDone-run_all :
        (os : List (Outcome b)) (u : Session b W) (before : List b.Response) (v : W)
        → u.pending ≡ []
        → u.written ≡ before
        → u.world ≡ v
        → IsDone before (run_all x t os u) (record { responses = []; after = v })
    IsDone-run_all os u before v e f g =
        rw (run_all-nothing os u e) (record { sent = f ∙ sym (append-nil before); reached = g })

    -- After a write of a response that keeps the connection alive, and of one that does not.
    on_write-IsDone :
        (keep : Bool) (os : List (Outcome b)) (rest : W → Answers b W) (r : b.Response)
        (s : Session b W)
        → (b.view r).keep_alive ≡ keep
        → s.pending ≡ []
        → IsOwed os rest
        → IsDone s.written
            (run_all x t os (release (on_write r succeeds s)))
            (further keep rest s.world)
    unfolding on_write
    on_write-IsDone true os rest r s k e ih =
        let u : Session b W = do_read s in
        let p : u.pending ≡ read (stream_of s) ∷ [] =
          pending-do_read s ∙ ap (λ l. l ++ (read (stream_of s) ∷ [])) e in
        rw (k, release_held _ _ u p)
          (IsDone-written u (run_all x t os u) s.written s.world rest (written-do_read s)
            (world-do_read s) (ih u (stream_of s) p))
    on_write-IsDone false os rest r s k e ih =
        let u : Session b W = release (close s) in
        rw k (
          IsDone-run_all os u s.written s.world (pending-release (close s) ∙ (pending-close s ∙ e))
            (written-release (close s) ∙ written-close s) (world-release (close s) ∙ world-close s))

    complete_write :
        (os : List (Outcome b)) (rest : W → Answers b W) (r : b.Response) (st : Stream)
        (s : Session b W)
        → s.pending ≡ write st r ∷ []
        → IsOwed os rest
        → IsDone s.written
            (run_all x t (succeeds ∷ os) s)
            (further (b.view r).keep_alive rest s.world)
    unfolding run_all complete handle
    complete_write os rest r st s e ih =
        rw e
          (on_write-IsDone (b.view r).keep_alive os rest r (record s { pending = [] }) refl refl ih)

    IsDone-answers_after :
        (keep : Bool) (u z : Session b W) (before : List b.Response) (r : b.Response) (v : W)
        (rest : W → Answers b W)
        → u.written ≡ before ++ (r ∷ [])
        → u.world ≡ v
        → IsDone u.written z (further keep rest u.world)
        → IsDone before z (
            if keep
            then record { responses = r ∷ (rest v).responses; after = (rest v).after }
            else record { responses = r ∷ []; after = v })
    IsDone-answers_after true u z before r v rest e f d =
        let moved = IsDone-written u z (before ++ (r ∷ [])) v rest e f d in
        record {
          sent = moved.sent ∙ append_assoc before (r ∷ []) (rest v).responses;
          reached = moved.reached;
        }
    IsDone-answers_after false u z before r v rest e f d = record {
      sent = d.sent ∙ (append-nil u.written ∙ e);
      reached = d.reached ∙ f;
    }

    -- The answer to a request, and what follows it.
    after_answer :
        (p : Result b.Response × W) (os : List (Outcome b)) (rest : W → Answers b W)
        (s : Session b W)
        → s.pending ≡ []
        → IsOwed os rest
        → IsDone s.written
            (run_all x t (succeeds ∷ os) (release (answer p s)))
            (answers_after p rest)
    unfolding answer
    after_answer (throws e, w) os rest s n ih =
        let u : Session b W = record s { thrown = some e; world = w } in
        IsDone-run_all (succeeds ∷ os) (release u) s.written w (pending-release u ∙ n)
          (written-release u) (world-release u)
    after_answer (ok r, w) os rest s n ih =
        let u : Session b W = record s { world = w } in
        let p : (do_write r u).pending ≡ write (stream_of u) r ∷ [] =
          pending-do_write r u ∙ ap (λ l. l ++ (write (stream_of u) r ∷ [])) n in
        let d = complete_write os rest r (stream_of u) (do_write r u) p ih in
        rw (release_held _ _ (do_write r u) p) (
          IsDone-answers_after (b.view r).keep_alive (do_write r u)
            (run_all x t (succeeds ∷ os) (do_write r u)) s.written r w rest (written-do_write r u)
            (world-do_write r u) d)

    -- A session that waits for a request hands to the socket, for requests that arrive and
    -- responses that are written without an error, the answers to these requests in order, up to
    -- the first one that does not keep the connection alive or the first exception that leaves a
    -- handler, and none behind it.
    pub run_all-exchanges :
        (qs : List b.Request) (s : Session b W) (st : Stream)
        → s.pending ≡ read st ∷ []
        → IsDone s.written (run_all x t (exchanges qs) s) (answers qs s.world)
    unfolding run_all exchanges answers complete handle handle_read
    run_all-exchanges [] s st e = record { sent = sym (append-nil s.written); reached = refl }
    run_all-exchanges (q ∷ qs) s st e = rw e (
        after_answer (process_request b x t q s.world) (exchanges qs) (answers qs)
          (record s { pending = [] }) refl (run_all-exchanges qs))
