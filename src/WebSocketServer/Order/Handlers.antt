-- ===== src/WebSocketServer/Order/Handlers.antt =====
-- Handlers and completions where servers differ in the order of `clients_` only.
use uni_serve_libhttp.Common.{
  ℕ, ◌≡◌, refl, sym, ap, subst, Bool, true, false, List, [], ◌∷◌, Option, none, some, Str, Permᴰ,
  lookup, insert, erase, IsDict, insert-perm, erase-perm, length-perm, insert-IsDict, erase-IsDict,
  Option-cases, inl, inr,
}
use uni_serve_libhttp.WebSocketServer.{
  Program, done, responds_then, send_to_client_then, broadcast_then, disconnect_client_then,
  get_client_count_then, MessageHandler, ConnectHandler, DisconnectHandler, Session, ReadResult,
  closed, failed, received, Server, change, send, send_to_client, broadcast, get_client_count,
  disconnect_client, do_read, add_client, remove_client, perform, call_connect, call_disconnect,
  on_accept, drop, run_handlers, on_read, on_write,
}
use uni_serve_libhttp.WebSocketServer.Registry.{send_each-clients}
use uni_serve_libhttp.WebSocketServer.Kept.{IsKept, perform-kept}
use uni_serve_libhttp.WebSocketServer.Order.{
  with_clients, Alike, broadcast-Alike, broadcast-count, send_to_client-Alike, send_to_client-sent,
  disconnect_client-Alike,
}

module _ {W : Type 0} where
  -- No client is registered twice.
  abbrev IsOnce : Server W → Type 0
  IsOnce v = IsDict v.clients

  sends-IsOnce :
      (id message : Str) (v : Server W) → IsOnce v → IsOnce (send_to_client id message v).0
  unfolding send_to_client
  sends-IsOnce id message v r = elim (Option-cases (lookup id v.clients)) [
    | inl e ↦ rw (e, send_to_client) r
    | inr (h, e) ↦ rw (e, send_to_client) r
  ]

  disconnects-IsOnce : (id : Str) (v : Server W) → IsOnce v → IsOnce (disconnect_client id v)
  unfolding disconnect_client
  disconnects-IsOnce id v r = elim (Option-cases (lookup id v.clients)) [
    | inl e ↦ rw (e, disconnect_client) r
    | inr (h, e) ↦ rw (e, disconnect_client) (erase-IsDict id v.clients r)
  ]

  IsOnce-IsKept : (h : ℕ) → IsKept IsOnce h
  unfolding broadcast
  IsOnce-IsKept h = record {
    responds = λ message v r. r;
    sends = sends-IsOnce;
    broadcasts = λ message v r. subst IsDict (sym (send_each-clients message v.clients 0 v)) r;
    disconnects = disconnects-IsOnce;
    told = λ w v r. r;
  }

  -- Where a program goes on alike from servers that are alike, it leaves alike ones.
  abbrev Unordered : (Server W → Server W) → Type 0
  Unordered f =
      (m : List (Str × ℕ)) (v : Server W)
      → IsOnce v
      → Permᴰ v.clients m
      → Alike (f v) (f (with_clients m v))

  Unordered-next :
      (f : Server W → Server W) (v v' : Server W)
      → Unordered f
      → IsOnce v
      → Alike v v'
      → Alike (f v) (f v')
  Unordered-next f v v' u r (m, d, e) = subst (λ x. Alike (f v) (f x)) (sym e) (u m v r d)

  -- The same, for what goes on with an answer that is the same.
  Unordered-answered :
      {X : Type 0} (k : X → Server W → Server W) (x x' : X) (v v' : Server W)
      → x' ≡ x
      → Unordered (k x)
      → IsOnce v
      → Alike v v'
      → Alike (k x v) (k x' v')
  Unordered-answered k x x' v v' e u r a =
      subst (λ y. Alike (k x v) (k y v')) (sym e) (Unordered-next (k x) v v' u r a)

  pub perform-Unordered : {R : Type 0} (h : ℕ) (p : Program W R) → Unordered (perform h p)
  unfolding perform get_client_count
  perform-Unordered h (done w) m v r d = (m, d, refl)
  perform-Unordered h (responds_then x message p) m v r d =
      perform-Unordered h p m (change h (send message) v) r d
  perform-Unordered h (send_to_client_then id message k) m v r d =
      Unordered-answered (λ sent. perform h (k sent)) _ _ _ _
        (send_to_client-sent id message m v r d)
        (perform-Unordered h (k (send_to_client id message v).1)) (sends-IsOnce id message v r)
        (send_to_client-Alike id message m v r d)
  perform-Unordered h (broadcast_then message k) m v r d =
      Unordered-answered (λ count. perform h (k count)) _ _ _ _ (broadcast-count message m v d)
        (perform-Unordered h (k (broadcast message v).1)) ((IsOnce-IsKept h).broadcasts message v r)
        (broadcast-Alike message m v d)
  perform-Unordered h (disconnect_client_then id p) m v r d =
      Unordered-next (perform h p) _ _ (perform-Unordered h p) (disconnects-IsOnce id v r)
        (disconnect_client-Alike id m v r d)
  perform-Unordered h (get_client_count_then k) m v r d =
      Unordered-answered (λ count. perform h (k count)) _ _ v _ (sym (length-perm d))
        (perform-Unordered h (k (get_client_count v))) r (m, d, refl)

  call_connect-Unordered :
      (f : Option (ConnectHandler W)) (h : ℕ) (id address : Str)
      → Unordered (call_connect f h id address)
  unfolding call_connect
  call_connect-Unordered none h id address m v r d = (m, d, refl)
  call_connect-Unordered (some f) h id address m v r d =
      perform-Unordered h (f id address v.world) m v r d

  call_disconnect-Unordered :
      (f : Option (DisconnectHandler W)) (h : ℕ) (id : Str) → Unordered (call_disconnect f h id)
  unfolding call_disconnect
  call_disconnect-Unordered none h id m v r d = (m, d, refl)
  call_disconnect-Unordered (some f) h id m v r d = perform-Unordered h (f id v.world) m v r d

  run_handlers-Unordered :
      (h : ℕ) (message : Str) (fs : List (Str × MessageHandler W))
      → Unordered (run_handlers h message fs)
  unfolding run_handlers
  run_handlers-Unordered h message [] m v r d = (m, d, refl)
  run_handlers-Unordered h message ((path, f) ∷ fs) m v r d =
      let p = f (v.sessions h).client_id message v.world in
      Unordered-next (run_handlers h message fs) _ _ (run_handlers-Unordered h message fs)
        (perform-kept IsOnce h (IsOnce-IsKept h) p v r) (perform-Unordered h p m v r d)

  change-Alike :
      (h : ℕ) (f : Session → Session) (v v' : Server W)
      → Alike v v'
      → Alike (change h f v) (change h f v')
  change-Alike h f v v' (m, d, e) = (m, d, ap (change h f) e)

  pub on_accept-Unordered : (h : ℕ) (error : Bool) → Unordered (on_accept h error)
  unfolding on_accept add_client
  on_accept-Unordered h true m v r d = (m, d, refl)
  on_accept-Unordered h false m v r d =
      let id = (v.sessions h).client_id in
      let address = (v.sessions h).remote_address in
      change-Alike h do_read _ _ (
        call_connect-Unordered v.connect_handler h id address (insert id h m) (add_client id h v)
          (insert-IsDict id h v.clients r) (insert-perm id h d r))

  drop-Unordered : (h : ℕ) → Unordered (drop h)
  unfolding drop remove_client
  drop-Unordered h m v r d =
      let id = (v.sessions h).client_id in
      call_disconnect-Unordered v.disconnect_handler h id (erase id m) (remove_client id v)
        (erase-IsDict id v.clients r) (erase-perm id d r)

  pub on_read-Unordered : (h : ℕ) (result : ReadResult) → Unordered (on_read h result)
  unfolding on_read
  on_read-Unordered h closed m v r d = drop-Unordered h m v r d
  on_read-Unordered h failed m v r d = drop-Unordered h m v r d
  on_read-Unordered h (received message) m v r d =
      change-Alike h do_read _ _ (run_handlers-Unordered h message v.message_handlers m v r d)

  pub on_write-Unordered : (h : ℕ) (error : Bool) → Unordered (on_write h error)
  unfolding on_write
  on_write-Unordered h true m v r d = drop-Unordered h m v r d
  on_write-Unordered h false m v r d = (m, d, refl)
