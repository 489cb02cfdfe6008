-- ===== src/WebSocketServer/Steps.antt =====
-- The server as it runs: calls of its API and completions of asynchronous operations, in any order.
use uni_serve_libhttp.Common.{
  if◌then◌else◌, ◌++◌, ℕ, ◌-◌, ◌+◌, ◌<◌, ◌≡◌, refl, Bool, true, false, List, [], ◌∷◌, Option, arith,
  Str, insert-IsDict, erase-IsDict, lookup, Option-cases, inl, inr,
}
use uni_serve_libhttp.WebSocketServer.{
  Session, ReadResult, closed, failed, received, MessageHandler, Server, change, send, do_read,
  after_write, front, pop_front, send_to_client, send_each, broadcast, disconnect_client,
  start_session, on_accept, drop, add_client, remove_client, call_connect, run_handlers, on_read,
  on_write, on_message, on_connect, on_disconnect, ConnectHandler, DisconnectHandler,
}
use uni_serve_libhttp.WebSocketServer.Kept.{
  IsKept, call_connect-kept, call_disconnect-kept, run_handlers-kept,
}
use uni_serve_libhttp.WebSocketServer.Registry.{
  Named-insert, Named-erase, Named-update_other, listed, IsRegistry, Named-update, send-client_id,
}

-- A completion takes its operation off the session, and calls the handler.
abbrev pub accept_done : Session → Session
accept_done s = record s { accepts = s.accepts - 1 }

abbrev pub read_done : Session → Session
read_done s = record s { reads = s.reads - 1 }

-- The flag says that there is an error.
abbrev pub write_done : Bool → Session → Session
write_done error s = record s {
  writes = pop_front s.writes;
  written = if error then s.written else s.written ++ front s.writes;
}

after_write-client_id : (s : Session) → (after_write s).client_id ≡ s.client_id
unfolding after_write
after_write-client_id s = ground arith

module _ {W : Type 0} where
  pub data Step (v v' : Server W) : Type 0 where
    connection :
        (h : ℕ) (address : Str)
        → listed h v.clients ≡ false
        → v' ≡ start_session h address v
        → Step v v'
    accepted :
        (h : ℕ) (error : Bool)
        → 0 < (v.sessions h).accepts
        → v' ≡ on_accept h error (change h accept_done v)
        → Step v v'
    read :
        (h : ℕ) (result : ReadResult)
        → 0 < (v.sessions h).reads
        → v' ≡ on_read h result (change h read_done v)
        → Step v v'
    wrote :
        (h : ℕ) (error : Bool) (m : Str) (rest : List Str)
        → (v.sessions h).writes ≡ m ∷ rest
        → v' ≡ on_write h error (change h (write_done error) v)
        → Step v v'
    sends : (id message : Str) → v' ≡ (send_to_client id message v).0 → Step v v'
    broadcasts : (message : Str) → v' ≡ (broadcast message v).0 → Step v v'
    disconnects : (id : Str) → v' ≡ disconnect_client id v → Step v v'
    message_handler : (path : Str) (f : MessageHandler W) → v' ≡ on_message path f v → Step v v'
    connect_handler : (f : Option (ConnectHandler W)) → v' ≡ on_connect f v → Step v v'
    disconnect_handler : (f : Option (DisconnectHandler W)) → v' ≡ on_disconnect f v → Step v v'

  pub data Reach (v : Server W) : Server W → Type 0 where
    here : Reach v v
    next : {t u : Server W} → Reach v t → Step t u → Reach v u

  change-IsRegistry :
      (h : ℕ) (f : Session → Session) (v : Server W)
      → (f (v.sessions h)).client_id ≡ (v.sessions h).client_id
      → IsRegistry v
      → IsRegistry (change h f v)
  change-IsRegistry h f v e r = record {
    dict = r.dict;
    named = Named-update v.sessions h (f (v.sessions h)) v.clients e r.named;
  }

  start_session-IsRegistry :
      (h : ℕ) (address : Str) (v : Server W)
      → listed h v.clients ≡ false
      → IsRegistry v
      → IsRegistry (start_session h address v)
  unfolding start_session
  start_session-IsRegistry h address v l r = record {
    dict = r.dict;
    named = Named-update_other v.sessions h _ v.clients l r.named;
  }

  send-IsRegistry :
      (h : ℕ) (m : Str) (v : Server W) → IsRegistry v → IsRegistry (change h (send m) v)
  send-IsRegistry h m v r = change-IsRegistry h (send m) v (send-client_id m (v.sessions h)) r

  send_each-IsRegistry :
      (message : Str) (m : List (Str × ℕ)) (n : ℕ) (v : Server W)
      → IsRegistry v
      → IsRegistry (send_each message m n v).0
  unfolding send_each
  send_each-IsRegistry message [] n v r = r
  send_each-IsRegistry message ((k, h) ∷ m) n v r =
      send_each-IsRegistry message m (n + 1) (change h (send message) v)
        (send-IsRegistry h message v r)

  send_to_client-IsRegistry :
      (id message : Str) (v : Server W) → IsRegistry v → IsRegistry (send_to_client id message v).0
  unfolding send_to_client
  send_to_client-IsRegistry id message v r = elim (Option-cases (lookup id v.clients)) [
    | inl e ↦ rw (e, send_to_client) r
    | inr (h, e) ↦ rw (e, send_to_client) (send-IsRegistry h message v r)
  ]

  disconnect_client-IsRegistry :
      (id : Str) (v : Server W) → IsRegistry v → IsRegistry (disconnect_client id v)
  unfolding disconnect_client
  disconnect_client-IsRegistry id v r = elim (Option-cases (lookup id v.clients)) [
    | inl e ↦ rw (e, disconnect_client) r
    | inr (h, e) ↦
        rw (e, disconnect_client)
          (record {
            dict = erase-IsDict id v.clients r.dict;
            named = Named-erase v.sessions id v.clients r.named;
          })
  ]

  -- What handlers call keeps the registry.
  IsRegistry-IsKept : (h : ℕ) → IsKept {W = W} IsRegistry h
  unfolding broadcast
  IsRegistry-IsKept h = record {
    responds = send-IsRegistry h;
    sends = send_to_client-IsRegistry;
    broadcasts = λ message v r. send_each-IsRegistry message v.clients 0 v r;
    disconnects = disconnect_client-IsRegistry;
    told = λ w v r. record { dict = r.dict; named = r.named };
  }

  drop-IsRegistry : (h : ℕ) (v : Server W) → IsRegistry v → IsRegistry (drop h v)
  unfolding drop remove_client
  drop-IsRegistry h v r =
      let id = (v.sessions h).client_id in
      call_disconnect-kept IsRegistry h (IsRegistry-IsKept h) v.disconnect_handler id
        (remove_client id v)
        (record {
          dict = erase-IsDict id v.clients r.dict;
          named = Named-erase v.sessions id v.clients r.named;
        })

  on_accept-IsRegistry :
      (h : ℕ) (error : Bool) (v : Server W) → IsRegistry v → IsRegistry (on_accept h error v)
  unfolding on_accept add_client
  on_accept-IsRegistry h true v r = r
  on_accept-IsRegistry h false v r =
      let id = (v.sessions h).client_id in
      let address = (v.sessions h).remote_address in
      let added = add_client id h v in
      change-IsRegistry h do_read (call_connect v.connect_handler h id address added) refl (
        call_connect-kept IsRegistry h (IsRegistry-IsKept h) v.connect_handler id address added
          (record {
            dict = insert-IsDict id h v.clients r.dict;
            named = Named-insert v.sessions id h v.clients refl r.named;
          }))

  on_read-IsRegistry :
      (h : ℕ) (result : ReadResult) (v : Server W) → IsRegistry v → IsRegistry (on_read h result v)
  unfolding on_read
  on_read-IsRegistry h closed v r = drop-IsRegistry h v r
  on_read-IsRegistry h failed v r = drop-IsRegistry h v r
  on_read-IsRegistry h (received message) v r =
      change-IsRegistry h do_read (run_handlers h message v.message_handlers v) refl
        (run_handlers-kept IsRegistry h (IsRegistry-IsKept h) message v.message_handlers v r)

  on_write-IsRegistry :
      (h : ℕ) (error : Bool) (v : Server W) → IsRegistry v → IsRegistry (on_write h error v)
  unfolding on_write
  on_write-IsRegistry h true v r = drop-IsRegistry h v r
  on_write-IsRegistry h false v r =
      change-IsRegistry h after_write v (after_write-client_id (v.sessions h)) r

  pub Step-IsRegistry : {v v' : Server W} → Step v v' → IsRegistry v → IsRegistry v'
  unfolding broadcast on_message on_connect on_disconnect
  Step-IsRegistry {v} (connection h address l e) r = rw e (start_session-IsRegistry h address v l r)
  Step-IsRegistry {v} (accepted h error p e) r =
      rw e (on_accept-IsRegistry h error _ (change-IsRegistry h accept_done v refl r))
  Step-IsRegistry {v} (read h result p e) r =
      rw e (on_read-IsRegistry h result _ (change-IsRegistry h read_done v refl r))
  Step-IsRegistry {v} (wrote h error m rest p e) r =
      rw e (on_write-IsRegistry h error _ (change-IsRegistry h (write_done error) v refl r))
  Step-IsRegistry {v} (sends id message e) r = rw e (send_to_client-IsRegistry id message v r)
  Step-IsRegistry {v} (broadcasts message e) r = rw e (send_each-IsRegistry message v.clients 0 v r)
  Step-IsRegistry {v} (disconnects id e) r = rw e (disconnect_client-IsRegistry id v r)
  Step-IsRegistry (message_handler path f e) r = rw e (record { dict = r.dict; named = r.named })
  Step-IsRegistry (connect_handler f e) r = rw e (record { dict = r.dict; named = r.named })
  Step-IsRegistry (disconnect_handler f e) r = rw e (record { dict = r.dict; named = r.named })

  -- From a server with no clients, whatever connections, completions, failures and calls come in
  -- whatever order, every client is registered once, under the id of its session.
  pub Reach-IsRegistry : {v v' : Server W} → v.clients ≡ [] → Reach v v' → IsRegistry v'
  Reach-IsRegistry {v} e here = record { dict = rw e tt; named = rw e tt }
  Reach-IsRegistry e (next r st) = Step-IsRegistry st (Reach-IsRegistry e r)
