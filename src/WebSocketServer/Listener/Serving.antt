-- ===== src/WebSocketServer/Listener/Serving.antt =====
-- The listener and its server over any events.
use uni_serve_libhttp.Common.{
  ℕ, zero, suc, ◌+◌, ◌≤◌, ◌≡◌, refl, sym, ap, subst, inl, inr, Bool, true, false, List, [], ◌∷◌,
  Option, none, some, arith, Str, if◌then◌else◌, Bool-cases, ◌||◌,
}
use uni_serve_libhttp.WebSocketServer.{Server}
use uni_serve_libhttp.WebSocketServer.Registry.{listed, IsRegistry}
use uni_serve_libhttp.WebSocketServer.Steps.{connection, Reach, here, next, Reach-IsRegistry}
use uni_serve_libhttp.WebSocketServer.Listener.{
  Listener, Event, create, do_accept, run, remote_address, open_session, accept, complete_accept,
  serve, handle, step, run_events,
}
use uni_serve_libhttp.WebSocketServer.Listener.Moves.{Moves, serve-Moves, serve-IsUnborn}
use uni_serve_libhttp.WebSocketServer.Listener.Unborn.{IsUnborn, start_session-IsUnborn}

module _ {W : Type 0} where
  -- Whether a connection comes whose peer is gone when the session asks for its address.
  unfoldable pub fatal : List (Event W) → Bool
  fatal [] = false
  fatal (Event.connects false none ∷ es) = true
  fatal (_ ∷ es) = fatal es

  -- How many connections come before that.
  unfoldable pub made : List (Event W) → ℕ
  made [] = 0
  made (Event.connects false none ∷ es) = 0
  made (Event.connects false (some endpoint) ∷ es) = 1 + made es
  made (_ ∷ es) = made es

  -- The server came to its state by steps of its own from `v`; the sessions that were not made yet are unknown to it; one accept
  -- is outstanding as long as the process lives.
  pub record IsServing (v : Server W) (l : Listener W) : Type 0 where
    pub reached : Reach v l.server
    pub unborn : (h : ℕ) → l.opened ≤ h → IsUnborn h l.server
    pub accepting : l.accepts ≡ (if l.terminated then 0 else 1)

  Moves-Reach : (v w w' : Server W) → Reach v w → Moves w w' → Reach v w'
  Moves-Reach v w w' r (inl e) = subst (Reach v) (sym e) r
  Moves-Reach v w w' r (inr s) = next r s

  open_session-IsServing :
      (v : Server W) (endpoint : Str × ℕ) (l : Listener W)
      → Reach v l.server
      → ((h : ℕ) → l.opened ≤ h → IsUnborn h l.server)
      → l.accepts ≡ 0
      → l.terminated ≡ false
      → IsServing v (do_accept (open_session endpoint l))
  unfolding do_accept open_session
  open_session-IsServing v endpoint l r u a t = record {
    reached =
        next r
          (connection l.opened (remote_address endpoint) (u l.opened (omega arith)).unlisted refl);
    unborn = λ h p.
        start_session-IsUnborn h l.opened (remote_address endpoint) l.server
          (λ e. omega (arith, e, p)) (u h (omega (arith, p)));
    accepting = ground (arith, a, t);
  }

  serve-IsServing :
      (v : Server W) (e : Event W) (l : Listener W)
      → IsServing v l
      → IsServing v (record l { server = serve e l.server })
  serve-IsServing v e l s = record {
    reached = Moves-Reach v l.server (serve e l.server) s.reached (serve-Moves e l.server);
    unborn = λ h p. serve-IsUnborn h e l.server (s.unborn h p);
    accepting = s.accepting;
  }

  complete_accept-IsServing :
      (v : Server W) (error : Bool) (endpoint : Option (Str × ℕ)) (n : ℕ) (l : Listener W)
      → l.accepts ≡ n
      → l.terminated ≡ false
      → IsServing v l
      → IsServing v (complete_accept error endpoint n l)
  unfolding complete_accept accept do_accept
  complete_accept-IsServing v error endpoint zero l e t s = s
  complete_accept-IsServing v true endpoint (suc n) l e t s = record {
    reached = s.reached;
    unborn = s.unborn;
    accepting = ground (arith, s.accepting, e, t);
  }
  complete_accept-IsServing v false none (suc n) l e t s = record {
    reached = s.reached;
    unborn = s.unborn;
    accepting = ground (arith, s.accepting, e, t);
  }
  complete_accept-IsServing v false (some endpoint) (suc n) l e t s =
      open_session-IsServing v endpoint (record l { accepts = n }) s.reached s.unborn
        (ground (arith, s.accepting, e, t)) t

  handle-IsServing :
      (v : Server W) (e : Event W) (l : Listener W)
      → l.terminated ≡ false
      → IsServing v l
      → IsServing v (handle e l)
  unfolding handle
  handle-IsServing v (Event.connects error endpoint) l t s =
      complete_accept-IsServing v error endpoint l.accepts l refl t s
  handle-IsServing v e l t s = serve-IsServing v e l s

  fatal-cons : (e : Event W) (es : List (Event W)) → fatal (e ∷ es) ≡ (fatal (e ∷ []) || fatal es)
  unfolding fatal
  fatal-cons (Event.connects false none) es = refl
  fatal-cons (Event.connects false (some endpoint)) es = refl
  fatal-cons (Event.connects true endpoint) es = refl
  fatal-cons _ es = refl

  made-cons :
      (e : Event W) (es : List (Event W))
      → made (e ∷ es) ≡ made (e ∷ []) + (if fatal (e ∷ []) then 0 else made es)
  unfolding made fatal
  made-cons (Event.connects false none) es = refl
  made-cons (Event.connects false (some endpoint)) es = omega arith
  made-cons (Event.connects true endpoint) es = omega arith
  made-cons _ es = omega arith

  handle_lem :
      (e : Event W) (l : Listener W)
      → l.accepts ≡ 1
      → l.terminated ≡ false
      → ((handle e l).terminated ≡ fatal (e ∷ []))
        × ((handle e l).opened ≡ l.opened + made (e ∷ []))
  unfolding handle complete_accept accept do_accept open_session fatal made
  handle_lem (Event.connects false none) l a t = ground arith
  handle_lem (Event.connects false (some endpoint)) l a t = ground arith
  handle_lem (Event.connects true endpoint) l a t = ground arith
  handle_lem _ l a t = ground arith

  run_events_terminated :
      (es : List (Event W)) (l : Listener W) → l.terminated ≡ true → run_events es l ≡ l
  unfolding run_events step
  run_events_terminated [] l t = refl
  run_events_terminated (e ∷ es) l t = ground (arith, run_events_terminated es l t)

  step_alive : (e : Event W) (l : Listener W) → l.terminated ≡ false → step e l ≡ handle e l
  unfolding step
  step_alive e l t = ground arith

  -- What is left of a listener in the state `v`, after `es`.
  abbrev Served : Server W → Listener W → List (Event W) → Listener W → Type 0
  Served v l es l' = IsServing v l' × (l'.terminated ≡ fatal es) × (l'.opened ≡ l.opened + made es)

  Served-cons :
      (v : Server W) (e : Event W) (es : List (Event W)) (l h w : Listener W)
      → (h.terminated ≡ fatal (e ∷ [])) × (h.opened ≡ l.opened + made (e ∷ []))
      → h.terminated ≡ false
      → Served v h es w
      → Served v l (e ∷ es) w
  Served-cons v e es l h w f b (k, t, o) =
      (k, ground (arith, fatal-cons e es, f, b, t), ground (arith, made-cons e es, f, b, o))

  Served-end :
      (v : Server W) (e : Event W) (es : List (Event W)) (l h : Listener W)
      → (h.terminated ≡ fatal (e ∷ [])) × (h.opened ≡ l.opened + made (e ∷ []))
      → h.terminated ≡ true
      → IsServing v h
      → Served v l (e ∷ es) h
  Served-end v e es l h f b k =
      (k, ground (arith, fatal-cons e es, f, b), ground (arith, made-cons e es, f, b))

  run_events-Served :
      (v : Server W) (es : List (Event W)) (l : Listener W)
      → l.terminated ≡ false
      → IsServing v l
      → Served v l es (run_events es l)
  unfolding run_events fatal made
  run_events-Served v [] l t s = (s, t, omega arith)
  run_events-Served v (e ∷ es) l t s =
      let h = handle e l in
      let facts = handle_lem e l (ground (arith, s.accepting, t)) t in
      let k : IsServing v h = handle-IsServing v e l t s in
      subst (λ x. Served v l (e ∷ es) (run_events es x)) (sym (step_alive e l t))
        (elim (Bool-cases h.terminated) [
          | inl b ↦
              subst (Served v l (e ∷ es)) (sym (run_events_terminated es h b))
                (Served-end v e es l h facts b k)
          | inr b ↦ Served-cons v e es l h (run_events es h) facts b (run_events-Served v es h b k)
        ])

  -- A listener whose acceptor is open runs, for a server with no clients and no sessions; then,
  -- whatever connections, completions, failures and calls come in whatever order: every state of
  -- the server is one that its own steps lead to, with every client registered once, under the id
  -- of its session, and with no handshake and no registration of a session that was not made; a
  -- session object is made for each connection that comes without an error, and one accept stays
  -- outstanding, up to the first connection whose peer is gone when its address is asked for, which
  -- ends the process.
  pub run_events-create :
      (v : Server W) (es : List (Event W))
      → v.clients ≡ []
      → ((h : ℕ) → (v.sessions h).accepts ≡ 0)
      → (l : Listener W) × (run (create v) ≡ some l)
        × IsServing v (run_events es l)
        × IsRegistry (run_events es l).server
        × ((run_events es l).terminated ≡ fatal es)
        × ((run_events es l).opened ≡ made es)
  unfolding run create do_accept
  run_events-create v es c n =
      let l : Listener W = do_accept (create v) in
      let s : IsServing v l = record {
        reached = here;
        unborn = λ h p. record { accepts = n h; unlisted = ap (listed h) c };
        accepting = refl;
      } in
      let (k, t, o) = run_events-Served v es l refl s in
      (l, refl, k, Reach-IsRegistry c k.reached, t, omega (arith, o))
