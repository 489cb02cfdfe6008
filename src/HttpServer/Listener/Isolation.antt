-- ===== src/HttpServer/Listener/Isolation.antt =====
-- A connection among others, against the same connection by itself.
use uni_serve_libhttp.Common.{
  ℕ, zero, suc, ◌≡◌, ◌≢◌, refl, ap, ◌∙◌, sym, subst, Bool, true, false, List, [], ◌∷◌, Option, none,
  some, inl, inr, ◌==◌, ==_iff, Bool-cases, if◌then◌else◌, get_elem?, get_elem?-append,
  get_elem?-set_self, get_elem?-set_ne, arith,
}
use uni_serve_libhttp.HttpServer.Beast.{Beast}
use uni_serve_libhttp.HttpServer.Routes.{Router}
use uni_serve_libhttp.HttpServer.Request.{
  Result, ok, Handler, Middleware, Externals, process_request,
}
use uni_serve_libhttp.HttpServer.Session.{
  Op, handshake, read, write, Outcome, fails, succeeds, reads, Session, close, do_read, do_write,
  on_handshake, on_write, answer, release, handle_read, complete, run_all,
}
use uni_serve_libhttp.HttpServer.Session
use uni_serve_libhttp.HttpServer.Listener.{
  Listener, Event, accepted, completes, do_accept, on_accept, complete_accept, entered, leave,
  can_run, complete_session, handle, step, run_events,
}
use uni_serve_libhttp.HttpServer.Listener.Exceptions.{leave-none, NeverThrows, thrown-complete}

module _ {b : Beast} where
  -- The outcomes of one connection, in their order.
  abbrev pub outcomes_of : ℕ → List (Event b) → List (Outcome b)
  outcomes_of i [] = []
  outcomes_of i (accepted error ∷ es) = outcomes_of i es
  outcomes_of i (completes j o ∷ es) =
      let rest = outcomes_of i es in if j == i then o ∷ rest else rest

module _ (b : Beast) {W : Type 0} (x : Externals W)
    (t : Router (Handler b W) (Middleware b W)) where
  -- An application that answers every request, in any state, with a response that the request alone
  -- decides; what becomes of its state is its own affair.
  abbrev pub Replies : (b.Request → b.Response) → Type 0
  Replies reply = (q : b.Request) (w : W) → (process_request b x t q w).0 ≡ ok (reply q)

module _ {b : Beast} {W : Type 0} where
  -- A connection whose copy of the application's state is another one.
  abbrev pub told : W → Session b W → Session b W
  told w s = record s { world = w }

  told-do_read : (w : W) (s : Session b W) → do_read (told w s) ≡ told w (do_read s)
  unfolding do_read
  told-do_read w s = ground arith

  told-do_write :
      (r : b.Response) (w : W) (s : Session b W) → do_write r (told w s) ≡ told w (do_write r s)
  unfolding do_write
  told-do_write r w s = ground arith

  told-close : (w : W) (s : Session b W) → close (told w s) ≡ told w (close s)
  unfolding close
  told-close w s = ground arith

  told-release : (w : W) (s : Session b W) → release (told w s) ≡ told w (release s)
  unfolding release
  told-release w s = ground (arith, told-close w s)

  told-on_write :
      (r : b.Response) (o : Outcome b) (w : W) (s : Session b W)
      → on_write r o (told w s) ≡ told w (on_write r o s)
  unfolding on_write
  told-on_write r fails w s = refl
  told-on_write r succeeds w s = ground (arith, told-close w s, told-do_read w s)
  told-on_write r (reads q) w s = ground (arith, told-close w s, told-do_read w s)

  answer-ok :
      (p : Result b.Response × W) (r : b.Response) (s : Session b W)
      → p.0 ≡ ok r
      → answer p s ≡ told p.1 (do_write r s)
  unfolding answer
  answer-ok (o, w) r s e = ap (λ o. answer (o, w) s) e ∙ told-do_write r w s

  -- The connection `s` stands at a position, but for its copy of the application's state.
  record IsAt (i : ℕ) (s : Session b W) (l : Listener b W) : Type 0 where
    unthrown : s.thrown ≡ none
    running : can_run l ≡ true
    copy : W
    found : get_elem? l.sessions i ≡ some (told copy s)

  entered_told :
      (l : Listener b W) (w : W) (s : Session b W)
      → s.thrown ≡ none
      → entered l (told w s) ≡ told l.world s
  entered_told l w s f = ground arith

module _ (b : Beast) {W : Type 0} (x : Externals W) (t : Router (Handler b W) (Middleware b W))
    (reply : b.Request → b.Response) (h : Replies b x t reply) where
  Replies-NeverThrows : NeverThrows b x t
  Replies-NeverThrows q w =
      (reply q, (process_request b x t q w).1, ap (λ o. (o, (process_request b x t q w).1)) (h q w))

  -- What a connection is left as in one state of the application, and in another one.
  abbrev IsToldOf : Session b W → Session b W → Type 0
  IsToldOf u v = (w : W) × (u ≡ told w v)

  told-answer :
      (q : b.Request) (w : W) (s : Session b W)
      → IsToldOf
          (answer (process_request b x t q w) (told w s))
          (answer (process_request b x t q s.world) s)
  told-answer q w s =
      let p = process_request b x t q w in
      (
        p.1,
        answer-ok p (reply q) (told w s) (h q w)
            ∙ (ap (told p.1) (told-do_write (reply q) w s)
                ∙ ap (told p.1)
                    (sym (answer-ok (process_request b x t q s.world) (reply q) s (h q s.world)))),
      )

  told-handle :
      (op : Op b) (o : Outcome b) (w : W) (s : Session b W)
      → IsToldOf (Session.handle x t op o (told w s)) (Session.handle x t op o s)
  unfolding Session.handle on_handshake handle_read
  told-handle handshake fails w s = (w, refl)
  told-handle handshake succeeds w s = (w, told-do_read w s)
  told-handle handshake (reads q) w s = (w, told-do_read w s)
  told-handle (read st) fails w s = (w, refl)
  told-handle (read st) succeeds w s = (w, refl)
  told-handle (read st) (reads q) w s = told-answer q w s
  told-handle (write st r) o w s = (w, told-on_write r o w s)

  told-complete :
      (ops : List (Op b)) (o : Outcome b) (w : W) (s : Session b W)
      → IsToldOf (complete x t ops o (told w s)) (complete x t ops o s)
  unfolding complete
  told-complete [] o w s = (w, refl)
  told-complete (op ∷ rest) o w s =
      let u : Session b W = record s { pending = rest } in
      let (w', e) = told-handle op o w u in
      (w', ap release e ∙ told-release w' (Session.handle x t op o u))

  complete_accept-IsAt :
      (error : Bool) (n : ℕ) (i : ℕ) (s : Session b W) (l : Listener b W)
      → IsAt i s l
      → IsAt i s (complete_accept error n l)
  unfolding complete_accept on_accept do_accept
  complete_accept-IsAt error zero i s l v = v
  complete_accept-IsAt true (suc n) i s l v = record {
    unthrown = v.unthrown;
    running = v.running;
    copy = v.copy;
    found = v.found;
  }
  complete_accept-IsAt false (suc n) i s l v = record {
    unthrown = v.unthrown;
    running = v.running;
    copy = v.copy;
    found = get_elem?-append l.sessions _ i (told v.copy s) v.found;
  }

  -- The connection at `j` completes an operation.
  abbrev after : ℕ → Outcome b → Session b W → Listener b W → Listener b W
  after j o u l = leave j (complete x t u.pending o (entered l u)) l

  after-IsAt_self :
      (o : Outcome b) (i : ℕ) (s : Session b W) (l : Listener b W) (v : IsAt i s l)
      → IsAt i (complete x t s.pending o s) (after i o (told v.copy s) l)
  after-IsAt_self o i s l v =
      let s' = complete x t s.pending o s in
      let (w', e) = told-complete s.pending o l.world s in
      let thrown = thrown-complete x t s.pending o s Replies-NeverThrows ∙ v.unthrown in
      let left = ap (complete x t s.pending o) (entered_told l v.copy s v.unthrown) ∙ e in
      subst (λ u. IsAt i s' (leave i u l)) (sym left)
        (subst (IsAt i s') (sym (leave-none i (told w' s') l thrown)) (record {
          unthrown = thrown;
          running = v.running;
          copy = w';
          found = get_elem?-set_self l.sessions i (told v.copy s) (told w' s') v.found;
        }))

  after-IsAt_ne :
      (j : ℕ) (o : Outcome b) (u : Session b W) (i : ℕ) (s : Session b W) (l : Listener b W)
      → j ≢ i
      → IsAt i s l
      → IsAt i s (after j o u l)
  after-IsAt_ne j o u i s l n v =
      let u' = complete x t u.pending o (entered l u) in
      let thrown = thrown-complete x t u.pending o (entered l u) Replies-NeverThrows in
      subst (IsAt i s) (sym (leave-none j u' l thrown)) (record {
        unthrown = v.unthrown;
        running = v.running;
        copy = v.copy;
        found = get_elem?-set_ne l.sessions j i u' n ∙ v.found;
      })

  -- What is to become of the connection at `i` when the one at `j` completes `o`.
  abbrev next_of : ℕ → ℕ → Outcome b → Session b W → Session b W
  next_of i j o s = if j == i then complete x t s.pending o s else s

  complete_session-IsAt_ne :
      (j : ℕ) (o : Outcome b) (m : Option (Session b W)) (i : ℕ) (s : Session b W)
      (l : Listener b W)
      → j ≢ i
      → IsAt i s l
      → IsAt i s (complete_session x t j o m l)
  unfolding complete_session
  complete_session-IsAt_ne j o none i s l n v = v
  complete_session-IsAt_ne j o (some u) i s l n v = after-IsAt_ne j o u i s l n v

  complete_session-IsAt_self :
      (o : Outcome b) (i : ℕ) (s : Session b W) (l : Listener b W) (v : IsAt i s l)
      → IsAt i (complete x t s.pending o s) (complete_session x t i o (some (told v.copy s)) l)
  unfolding complete_session
  complete_session-IsAt_self o i s l v = after-IsAt_self o i s l v

  complete_session-IsAt :
      (j : ℕ) (o : Outcome b) (i : ℕ) (s : Session b W) (l : Listener b W)
      → IsAt i s l
      → IsAt i (next_of i j o s) (complete_session x t j o (get_elem? l.sessions j) l)
  complete_session-IsAt j o i s l v = elim (Bool-cases (j == i)) [
    | inl same ↦
        let s' = complete x t s.pending o s in
        let left = λ (k : ℕ). complete_session x t k o (get_elem? l.sessions k) l in
        let p : i ≡ j = sym ((==_iff j i).0 same) in
        subst (λ c. IsAt i (if c then s' else s) (left j)) (sym same)
          (subst (λ k. IsAt i s' (left k)) p
            (subst (λ m. IsAt i s' (complete_session x t i o m l)) (sym v.found)
              (complete_session-IsAt_self o i s l v)))
    | inr apart ↦
        let left = complete_session x t j o (get_elem? l.sessions j) l in
        subst (λ c. IsAt i (if c then complete x t s.pending o s else s) left) (sym apart)
          (complete_session-IsAt_ne j o (get_elem? l.sessions j) i s l (ground arith) v)
  ]

  run_all-if :
      (mine : Bool) (o : Outcome b) (os : List (Outcome b)) (s : Session b W)
      → run_all x t os (if mine then complete x t s.pending o s else s)
        ≡ run_all x t (if mine then o ∷ os else os) s
  unfolding run_all
  run_all-if true o os s = refl
  run_all-if false o os s = refl

  run_events-IsAt :
      (es : List (Event b)) (i : ℕ) (s : Session b W) (l : Listener b W)
      → IsAt i s l
      → IsAt i (run_all x t (outcomes_of i es) s) (run_events x t es l)
  unfolding run_events run_all step handle
  run_events-IsAt [] i s l v = v
  run_events-IsAt (accepted error ∷ es) i s l v =
      rw v.running (run_events-IsAt es i s _ (complete_accept-IsAt error l.accepts i s l v))
  run_events-IsAt (completes j o ∷ es) i s l v =
      subst (λ s'. IsAt i s' (run_events x t (completes j o ∷ es) l))
        (run_all-if (j == i) o (outcomes_of i es) s)
        (rw v.running
          (run_events-IsAt es i (next_of i j o s) _ (complete_session-IsAt j o i s l v)))

  -- Connections do not disturb one another, where the application answers every request in any state
  -- with a response, and throws nothing that leaves it, and the request alone decides the response,
  -- although requests may change the state. In any run of a server with a thread left, whatever
  -- accepts and operations of other connections come in between, a connection is left as its own
  -- outcomes alone leave it, in everything but its copy of the application's state: the socket, the
  -- operation that is outstanding, and the responses written, in order.
  pub run_events-run_all :
      (es : List (Event b)) (i : ℕ) (s : Session b W) (l : Listener b W)
      → can_run l ≡ true
      → s.thrown ≡ none
      → get_elem? l.sessions i ≡ some s
      → (w : W) × (get_elem? (run_events x t es l).sessions i
          ≡ some (told w (run_all x t (outcomes_of i es) s)))
  run_events-run_all es i s l r n e =
      let v =
        run_events-IsAt es i s l
          (record { unthrown = n; running = r; copy = s.world; found = e }) in
      (v.copy, v.found)
