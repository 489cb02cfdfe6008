-- ===== src/WebSocketServer/Listener/Unborn.antt =====
-- Session objects that were not made yet.
use uni_serve_libhttp.Common.{
  ℕ, ◌+◌, ◌≤◌, ◌≡◌, ◌≢◌, refl, inl, inr, Bool, true, false, List, [], ◌∷◌, arith, Str, lookup,
  insert, erase, Option-cases,
}
use uni_serve_libhttp.WebSocketServer.{
  Session, ReadResult, closed, failed, received, Server, change, send, do_read, after_write,
  send_to_client, send_each, broadcast, disconnect_client, start_session, on_accept, drop,
  add_client, remove_client, call_connect, run_handlers, on_read, on_write,
}
use uni_serve_libhttp.WebSocketServer.Kept.{
  IsKept, call_connect-kept, call_disconnect-kept, run_handlers-kept,
}
use uni_serve_libhttp.WebSocketServer.Registry.{listed}
use uni_serve_libhttp.WebSocketServer.Discipline.{send-accepts_reads, after_write-accepts}

listed-insert :
    (h j : ℕ) (k : Str) (m : List (Str × ℕ))
    → j ≢ h
    → listed h m ≡ false
    → listed h (insert k j m) ≡ false
unfolding insert
listed-insert h j k [] n l = ground arith
listed-insert h j k ((i, g) ∷ m) n l = ground (arith, listed-insert h j k m n)

listed-erase :
    (h : ℕ) (k : Str) (m : List (Str × ℕ)) → listed h m ≡ false → listed h (erase k m) ≡ false
unfolding erase
listed-erase h k [] l = refl
listed-erase h k ((i, g) ∷ m) l = ground (arith, listed-erase h k m)

module _ {W : Type 0} where
  -- The session has no handshake to come, and is not registered.
  pub record IsUnborn (h : ℕ) (v : Server W) : Type 0 where
    pub accepts : (v.sessions h).accepts ≡ 0
    pub unlisted : listed h v.clients ≡ false

  -- A change that starts no handshake.
  pub change-IsUnborn :
      (h j : ℕ) (f : Session → Session) (v : Server W)
      → (f (v.sessions j)).accepts ≤ (v.sessions j).accepts
      → IsUnborn h v
      → IsUnborn h (change j f v)
  change-IsUnborn h j f v e u = record { accepts = grind (arith, u.accepts); unlisted = u.unlisted }

  send-IsUnborn :
      (h j : ℕ) (m : Str) (v : Server W) → IsUnborn h v → IsUnborn h (change j (send m) v)
  send-IsUnborn h j m v =
      change-IsUnborn h j (send m) v (omega (arith, send-accepts_reads m (v.sessions j)))

  send_each-IsUnborn :
      (h : ℕ) (message : Str) (m : List (Str × ℕ)) (n : ℕ) (v : Server W)
      → IsUnborn h v
      → IsUnborn h (send_each message m n v).0
  unfolding send_each
  send_each-IsUnborn h message [] n v u = u
  send_each-IsUnborn h message ((k, j) ∷ m) n v u =
      send_each-IsUnborn h message m (n + 1) (change j (send message) v)
        (send-IsUnborn h j message v u)

  pub send_to_client-IsUnborn :
      (h : ℕ) (id message : Str) (v : Server W)
      → IsUnborn h v
      → IsUnborn h (send_to_client id message v).0
  unfolding send_to_client
  send_to_client-IsUnborn h id message v u = elim (Option-cases (lookup id v.clients)) [
    | inl e ↦ rw (e, send_to_client) u
    | inr (j, e) ↦ rw (e, send_to_client) (send-IsUnborn h j message v u)
  ]

  pub broadcast-IsUnborn :
      (h : ℕ) (message : Str) (v : Server W) → IsUnborn h v → IsUnborn h (broadcast message v).0
  unfolding broadcast
  broadcast-IsUnborn h message v u = send_each-IsUnborn h message v.clients 0 v u

  pub disconnect_client-IsUnborn :
      (h : ℕ) (id : Str) (v : Server W) → IsUnborn h v → IsUnborn h (disconnect_client id v)
  unfolding disconnect_client
  disconnect_client-IsUnborn h id v u = elim (Option-cases (lookup id v.clients)) [
    | inl e ↦ rw (e, disconnect_client) u
    | inr (j, e) ↦
        rw (e, disconnect_client)
          (record { accepts = u.accepts; unlisted = listed-erase h id v.clients u.unlisted })
  ]

  IsUnborn-IsKept : (h j : ℕ) → IsKept (IsUnborn h) j
  IsUnborn-IsKept h j = record {
    responds = send-IsUnborn h j;
    sends = send_to_client-IsUnborn h;
    broadcasts = broadcast-IsUnborn h;
    disconnects = disconnect_client-IsUnborn h;
    told = λ w v u. record { accepts = u.accepts; unlisted = u.unlisted };
  }

  drop-IsUnborn : (h j : ℕ) (v : Server W) → IsUnborn h v → IsUnborn h (drop j v)
  unfolding drop remove_client
  drop-IsUnborn h j v u =
      let id = (v.sessions j).client_id in
      call_disconnect-kept (IsUnborn h) j (IsUnborn-IsKept h j) v.disconnect_handler id
        (remove_client id v)
        (record { accepts = u.accepts; unlisted = listed-erase h id v.clients u.unlisted })

  pub on_accept-IsUnborn :
      (h j : ℕ) (error : Bool) (v : Server W)
      → j ≢ h
      → IsUnborn h v
      → IsUnborn h (on_accept j error v)
  unfolding on_accept add_client
  on_accept-IsUnborn h j true v n u = u
  on_accept-IsUnborn h j false v n u =
      let id = (v.sessions j).client_id in
      let address = (v.sessions j).remote_address in
      let added = add_client id j v in
      change-IsUnborn h j do_read (call_connect v.connect_handler j id address added) (omega arith)
        (call_connect-kept (IsUnborn h) j (IsUnborn-IsKept h j) v.connect_handler id address added
          (record { accepts = u.accepts; unlisted = listed-insert h j id v.clients n u.unlisted }))

  pub on_read-IsUnborn :
      (h j : ℕ) (result : ReadResult) (v : Server W)
      → IsUnborn h v
      → IsUnborn h (on_read j result v)
  unfolding on_read
  on_read-IsUnborn h j closed v u = drop-IsUnborn h j v u
  on_read-IsUnborn h j failed v u = drop-IsUnborn h j v u
  on_read-IsUnborn h j (received message) v u =
      change-IsUnborn h j do_read (run_handlers j message v.message_handlers v) (omega arith)
        (run_handlers-kept (IsUnborn h) j (IsUnborn-IsKept h j) message v.message_handlers v u)

  pub on_write-IsUnborn :
      (h j : ℕ) (error : Bool) (v : Server W) → IsUnborn h v → IsUnborn h (on_write j error v)
  unfolding on_write
  on_write-IsUnborn h j true v u = drop-IsUnborn h j v u
  on_write-IsUnborn h j false v u =
      change-IsUnborn h j after_write v (omega (arith, after_write-accepts (v.sessions j))) u

  -- A new session leaves the further ones as they are.
  pub start_session-IsUnborn :
      (h j : ℕ) (address : Str) (v : Server W)
      → j ≢ h
      → IsUnborn h v
      → IsUnborn h (start_session j address v)
  unfolding start_session
  start_session-IsUnborn h j address v n u = record {
    accepts = grind (arith, u.accepts);
    unlisted = u.unlisted;
  }
