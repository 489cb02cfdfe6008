-- ===== src/WebSocketServer/Discipline/Fifo.antt =====
-- The order of the messages of each session, over any run of a server.
use uni_serve_libhttp.Common.{
  ℕ, ◌+◌, ◌≡◌, inl, inr, Bool, true, false, List, [], ◌∷◌, arith, Str, lookup, Option-cases,
}
use uni_serve_libhttp.WebSocketServer.{
  Session, ReadResult, closed, failed, received, Server, update, change, send, do_read, front,
  send_to_client, send_each, broadcast, disconnect_client, start_session, add_client, remove_client,
  call_connect, run_handlers, on_accept, drop, on_read, on_write, on_message, on_connect,
  on_disconnect,
}
use uni_serve_libhttp.WebSocketServer.Queue.{IsFifo, send-IsFifo, after_write-IsFifo}
use uni_serve_libhttp.WebSocketServer.Kept.{
  IsKept, call_connect-kept, call_disconnect-kept, run_handlers-kept,
}
use uni_serve_libhttp.WebSocketServer.Steps.{
  Step, connection, accepted, read, wrote, sends, broadcasts, disconnects, message_handler,
  connect_handler, disconnect_handler, Reach, here, next, accept_done, read_done, write_done,
}
use uni_serve_libhttp.WebSocketServer.Discipline.{IsExclusive, IsDisciplined}
use uni_serve_libhttp.WebSocketServer.Discipline.Runs.{Reach-IsDisciplined}

module _ {W : Type 0} where
  -- In each session, what was written and what is queued make up what `send` was called with.
  abbrev pub AreFifo : Server W → Type 0
  AreFifo v = (h : ℕ) → IsFifo (v.sessions h)

  update-AreFifo :
      (h : ℕ) (s : Session) (v : Server W)
      → IsFifo s
      → AreFifo v
      → (j : ℕ) → IsFifo (update v.sessions h s j)
  update-AreFifo h s v e k j = ground (arith, e, k j)

  change-AreFifo :
      (h : ℕ) (f : Session → Session) (v : Server W)
      → IsFifo (f (v.sessions h))
      → AreFifo v
      → AreFifo (change h f v)
  change-AreFifo h f v e k = update-AreFifo h (f (v.sessions h)) v e k

  send-AreFifo : (h : ℕ) (m : Str) (v : Server W) → AreFifo v → AreFifo (change h (send m) v)
  send-AreFifo h m v k = change-AreFifo h (send m) v (send-IsFifo m (v.sessions h) (k h)) k

  send_each-AreFifo :
      (message : Str) (m : List (Str × ℕ)) (n : ℕ) (v : Server W)
      → AreFifo v
      → AreFifo (send_each message m n v).0
  unfolding send_each
  send_each-AreFifo message [] n v k = k
  send_each-AreFifo message ((i, h) ∷ m) n v k =
      send_each-AreFifo message m (n + 1) (change h (send message) v) (send-AreFifo h message v k)

  send_to_client-AreFifo :
      (id message : Str) (v : Server W) → AreFifo v → AreFifo (send_to_client id message v).0
  unfolding send_to_client
  send_to_client-AreFifo id message v k = elim (Option-cases (lookup id v.clients)) [
    | inl e ↦ rw (e, send_to_client) k
    | inr (h, e) ↦ rw (e, send_to_client) (send-AreFifo h message v k)
  ]

  disconnect_client-AreFifo :
      (id : Str) (v : Server W) → AreFifo v → AreFifo (disconnect_client id v)
  unfolding disconnect_client
  disconnect_client-AreFifo id v k = elim (Option-cases (lookup id v.clients)) [
    | inl e ↦ rw (e, disconnect_client) k
    | inr (h, e) ↦ rw (e, disconnect_client) k
  ]

  AreFifo-IsKept : (h : ℕ) → IsKept AreFifo h
  unfolding broadcast
  AreFifo-IsKept h = record {
    responds = send-AreFifo h;
    sends = send_to_client-AreFifo;
    broadcasts = λ message v k. send_each-AreFifo message v.clients 0 v k;
    disconnects = disconnect_client-AreFifo;
    told = λ w v k. k;
  }

  drop-AreFifo : (h : ℕ) (v : Server W) → AreFifo v → AreFifo (drop h v)
  unfolding drop remove_client
  drop-AreFifo h v k =
      let id = (v.sessions h).client_id in
      call_disconnect-kept AreFifo h (AreFifo-IsKept h) v.disconnect_handler id (remove_client id v)
        k

  on_accept-AreFifo :
      (h : ℕ) (error : Bool) (v : Server W) → AreFifo v → AreFifo (on_accept h error v)
  unfolding on_accept add_client
  on_accept-AreFifo h true v k = k
  on_accept-AreFifo h false v k =
      let id = (v.sessions h).client_id in
      let address = (v.sessions h).remote_address in
      let added = add_client id h v in
      let told =
        call_connect-kept AreFifo h (AreFifo-IsKept h) v.connect_handler id address added k in
      change-AreFifo h do_read (call_connect v.connect_handler h id address added) (told h) told

  on_read-AreFifo :
      (h : ℕ) (result : ReadResult) (v : Server W) → AreFifo v → AreFifo (on_read h result v)
  unfolding on_read
  on_read-AreFifo h closed v k = drop-AreFifo h v k
  on_read-AreFifo h failed v k = drop-AreFifo h v k
  on_read-AreFifo h (received message) v k =
      let told = run_handlers-kept AreFifo h (AreFifo-IsKept h) message v.message_handlers v k in
      change-AreFifo h do_read (run_handlers h message v.message_handlers v) (told h) told

  wrote-AreFifo :
      (h : ℕ) (error : Bool) (m : Str) (rest : List Str) (v : Server W)
      → (v.sessions h).writes ≡ m ∷ rest
      → IsExclusive (v.sessions h)
      → AreFifo v
      → AreFifo (on_write h error (change h (write_done error) v))
  unfolding on_write
  wrote-AreFifo h true m rest v e x k =
      drop-AreFifo h (change h (write_done true) v) (change-AreFifo h (write_done true) v (k h) k)
  wrote-AreFifo h false m rest v e x k =
      λ j. grind (arith, k j, after_write-IsFifo (v.sessions h) (front_written x) (k h))
    where
      front_written :
          IsExclusive (v.sessions h) → (v.sessions h).writes ≡ front (v.sessions h).send_queue
      front_written x = ground (arith, x.writing)

  start_session-AreFifo :
      (h : ℕ) (address : Str) (v : Server W) → AreFifo v → AreFifo (start_session h address v)
  unfolding start_session
  start_session-AreFifo h address v k j = ground (arith, k j)

  Step-AreFifo : {v v' : Server W} → Step v v' → IsDisciplined v → AreFifo v → AreFifo v'
  unfolding on_message on_connect on_disconnect broadcast
  Step-AreFifo {v} (connection h address l e) d k = rw e (start_session-AreFifo h address v k)
  Step-AreFifo {v} (accepted h error p e) d k =
      rw e (
        on_accept-AreFifo h error (change h accept_done v) (change-AreFifo h accept_done v (k h) k))
  Step-AreFifo {v} (read h result p e) d k =
      rw e (on_read-AreFifo h result (change h read_done v) (change-AreFifo h read_done v (k h) k))
  Step-AreFifo {v} (wrote h error m rest p e) d k =
      rw e (wrote-AreFifo h error m rest v p (d.exclusive h) k)
  Step-AreFifo {v} (sends id message e) d k = rw e (send_to_client-AreFifo id message v k)
  Step-AreFifo {v} (broadcasts message e) d k = rw e (send_each-AreFifo message v.clients 0 v k)
  Step-AreFifo {v} (disconnects id e) d k = rw e (disconnect_client-AreFifo id v k)
  Step-AreFifo (message_handler path f e) d k = rw e k
  Step-AreFifo (connect_handler f e) d k = rw e k
  Step-AreFifo (disconnect_handler f e) d k = rw e k

  -- Where every session has its operations in order, and its messages too, it remains so in every
  -- state that the server comes to, whatever connections, completions, failures and calls come, and
  -- whatever the handlers call: the messages of a session whose writes have succeeded, followed by
  -- those that are queued, are those that `send` was called with for it, in order. None is lost,
  -- written twice or overtaken.
  pub Reach-AreFifo : {v v' : Server W} → IsDisciplined v → AreFifo v → Reach v v' → AreFifo v'
  Reach-AreFifo d k here = k
  Reach-AreFifo d k (next r st) = Step-AreFifo st (Reach-IsDisciplined d r) (Reach-AreFifo d k r)
