-- ===== src/WebSocketServer/Discipline/Runs.antt =====
-- The discipline of the streams over any run of a server.
use uni_serve_libhttp.Common.{
  ℕ, ◌<◌, ◌≡◌, refl, Bool, true, false, List, [], ◌∷◌, arith, Str, inl, inr,
}
use uni_serve_libhttp.WebSocketServer.{
  Session, ReadResult, closed, failed, received, Server, update, change, after_write, start_session,
  add_client, call_connect, run_handlers, on_accept, on_read, on_write, broadcast, on_message,
  on_connect, on_disconnect,
}
use uni_serve_libhttp.WebSocketServer.Kept.{call_connect-kept, run_handlers-kept}
use uni_serve_libhttp.WebSocketServer.Registry.{listed}
use uni_serve_libhttp.WebSocketServer.Steps.{
  Step, connection, accepted, read, wrote, sends, broadcasts, disconnects, message_handler,
  connect_handler, disconnect_handler, Reach, here, next, accept_done, read_done, write_done,
}
use uni_serve_libhttp.WebSocketServer.Discipline.{
  IsExclusive, accept_done-IsExclusive, read_done-IsExclusive, write_done_lem,
  write_done-IsExclusive, after_write-accepts, after_write-IsExclusive, AreReady, AreReady-insert,
  IsDisciplined,
}
use uni_serve_libhttp.WebSocketServer.Discipline.Handling.{
  change-IsDisciplined, send_each-IsHandling, send_to_client-IsHandling,
  disconnect_client-IsHandling, IsHandling, IsHandling-IsKept, read_next-IsDisciplined,
  drop-IsDisciplined,
}

-- A new object for a session that is not registered disturbs no entry.
AreReady-update_other :
    (sessions : ℕ → Session) (h : ℕ) (s : Session) (m : List (Str × ℕ))
    → listed h m ≡ false
    → AreReady sessions m
    → AreReady (update sessions h s) m
AreReady-update_other sessions h s [] e n = tt
AreReady-update_other sessions h s ((k, j) ∷ m) e (n, ns) =
    (ground arith, AreReady-update_other sessions h s m (ground arith) ns)

-- An object that `start` has left with its handshake.
new_IsExclusive :
    (client_id address : Str)
    → IsExclusive (record {
      client_id = client_id;
      remote_address = address;
      send_queue = [];
      accepts = 1;
      reads = 0;
      writes = [];
      accepted = [];
      written = [];
    })
new_IsExclusive client_id address = record {
  one = omega arith;
  writing = inl refl;
  quiet = inr (refl, refl);
}

module _ {W : Type 0} where
  start_session-IsDisciplined :
      (h : ℕ) (address : Str) (v : Server W)
      → listed h v.clients ≡ false
      → IsDisciplined v
      → IsDisciplined (start_session h address v)
  unfolding start_session
  start_session-IsDisciplined h address v l d = record {
    exclusive = λ j. grind (arith, d.exclusive j, new_IsExclusive _ address);
    ready = AreReady-update_other v.sessions h _ v.clients l d.ready;
  }

  on_accept-IsDisciplined :
      (h : ℕ) (error : Bool) (v : Server W)
      → 0 < (v.sessions h).accepts
      → IsDisciplined v
      → IsDisciplined (on_accept h error (change h accept_done v))
  unfolding on_accept add_client
  on_accept-IsDisciplined h true v p d =
      change-IsDisciplined h accept_done v (accept_done-IsExclusive (v.sessions h) (d.exclusive h))
        (omega arith) d
  on_accept-IsDisciplined h false v p d =
      let u = change h accept_done v in
      let k : IsDisciplined u =
        change-IsDisciplined h accept_done v
          (accept_done-IsExclusive (v.sessions h) (d.exclusive h)) (omega arith) d in
      let id = (u.sessions h).client_id in
      let address = (u.sessions h).remote_address in
      let done : (u.sessions h).accepts ≡ 0 = grind (arith, d.exclusive h) in
      read_next-IsDisciplined h (call_connect u.connect_handler h id address (add_client id h u)) (
        call_connect-kept (IsHandling h 0 0) h (IsHandling-IsKept h 0) u.connect_handler id address
          (add_client id h u)
          (record {
            disciplined = record {
              exclusive = k.exclusive;
              ready = AreReady-insert u.sessions id h u.clients done k.ready;
            };
            accepting = done;
            reading = grind (arith, d.exclusive h);
          }))

  read_done-IsHandling :
      (h : ℕ) (v : Server W)
      → 0 < (v.sessions h).reads
      → IsDisciplined v
      → IsHandling h 0 0 (change h read_done v)
  read_done-IsHandling h v p d = record {
    disciplined =
        change-IsDisciplined h read_done v (read_done-IsExclusive (v.sessions h) (d.exclusive h))
          (omega arith) d;
    accepting = grind (arith, d.exclusive h);
    reading = grind (arith, d.exclusive h);
  }

  on_read-IsDisciplined :
      (h : ℕ) (result : ReadResult) (v : Server W)
      → IsHandling h 0 0 v
      → IsDisciplined (on_read h result v)
  unfolding on_read
  on_read-IsDisciplined h closed v k = drop-IsDisciplined h 0 v k
  on_read-IsDisciplined h failed v k = drop-IsDisciplined h 0 v k
  on_read-IsDisciplined h (received message) v k =
      read_next-IsDisciplined h (run_handlers h message v.message_handlers v) (
        run_handlers-kept (IsHandling h 0 0) h (IsHandling-IsKept h 0) message v.message_handlers v
          k)

  on_write-IsDisciplined :
      (h : ℕ) (error : Bool) (v : Server W)
      → (v.sessions h).writes ≡ []
      → (v.sessions h).accepts ≡ 0
      → IsDisciplined v
      → IsDisciplined (on_write h error v)
  unfolding on_write
  on_write-IsDisciplined h true v e a d =
      drop-IsDisciplined h (v.sessions h).reads v
        (record { disciplined = d; accepting = a; reading = refl })
  on_write-IsDisciplined h false v e a d =
      change-IsDisciplined h after_write v
        (after_write-IsExclusive (v.sessions h) e a (d.exclusive h))
        (omega (arith, after_write-accepts (v.sessions h))) d

  wrote-IsDisciplined :
      (h : ℕ) (error : Bool) (m : Str) (rest : List Str) (v : Server W)
      → (v.sessions h).writes ≡ m ∷ rest
      → IsDisciplined v
      → IsDisciplined (on_write h error (change h (write_done error) v))
  wrote-IsDisciplined h error m rest v e d =
      let (single, ready) = write_done_lem (v.sessions h) m rest e (d.exclusive h) in
      on_write-IsDisciplined h error (change h (write_done error) v) (grind arith) (grind arith) (
        change-IsDisciplined h (write_done error) v
          (write_done-IsExclusive error (v.sessions h) m rest e (d.exclusive h)) (omega arith) d)

  -- Calls of the interface, seen from any one session.
  first-IsHandling :
      (v : Server W) → IsDisciplined v → IsHandling 0 (v.sessions 0).accepts (v.sessions 0).reads v
  first-IsHandling v d = record { disciplined = d; accepting = refl; reading = refl }

  Step-IsDisciplined : {v v' : Server W} → Step v v' → IsDisciplined v → IsDisciplined v'
  unfolding on_message on_connect on_disconnect broadcast
  Step-IsDisciplined {v} (connection h address l e) d =
      rw e (start_session-IsDisciplined h address v l d)
  Step-IsDisciplined {v} (accepted h error p e) d = rw e (on_accept-IsDisciplined h error v p d)
  Step-IsDisciplined {v} (read h result p e) d =
      rw e (on_read-IsDisciplined h result (change h read_done v) (read_done-IsHandling h v p d))
  Step-IsDisciplined {v} (wrote h error m rest p e) d =
      rw e (wrote-IsDisciplined h error m rest v p d)
  Step-IsDisciplined {v} (sends id message e) d =
      rw e (send_to_client-IsHandling 0 _ _ id message v (first-IsHandling v d)).disciplined
  Step-IsDisciplined {v} (broadcasts message e) d =
      rw e
        (send_each-IsHandling 0 _ _ message v.clients 0 v d.ready
          (first-IsHandling v d)).disciplined
  Step-IsDisciplined {v} (disconnects id e) d =
      rw e (disconnect_client-IsHandling 0 _ _ id v (first-IsHandling v d)).disciplined
  Step-IsDisciplined (message_handler path f e) d =
      rw e (record { exclusive = d.exclusive; ready = d.ready })
  Step-IsDisciplined (connect_handler f e) d =
      rw e (record { exclusive = d.exclusive; ready = d.ready })
  Step-IsDisciplined (disconnect_handler f e) d =
      rw e (record { exclusive = d.exclusive; ready = d.ready })

  -- Where that is so of every session, it remains so, whatever connections, completions, failures and
  -- calls come in whatever order, and whatever the handlers call: a session has one handshake or one
  -- read outstanding at most, and one write at most, which is that of the message at the front of its
  -- queue; and as long as its handshake is outstanding, it is not registered, and nothing is queued
  -- or written.
  pub Reach-IsDisciplined : {v v' : Server W} → IsDisciplined v → Reach v v' → IsDisciplined v'
  Reach-IsDisciplined d here = d
  Reach-IsDisciplined d (next r st) = Step-IsDisciplined st (Reach-IsDisciplined d r)
