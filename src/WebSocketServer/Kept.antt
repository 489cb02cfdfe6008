-- ===== src/WebSocketServer/Kept.antt =====
-- What the calls of a server and the `send` of the session `h` keep, a handler that is called for
-- `h` keeps too, whatever it calls.
use uni_serve_libhttp.Common.{ℕ, List, [], ◌∷◌, Option, none, some, Str}
use uni_serve_libhttp.WebSocketServer.{
  Program, done, responds_then, send_to_client_then, broadcast_then, disconnect_client_then,
  get_client_count_then, MessageHandler, ConnectHandler, DisconnectHandler, Server, change, send,
  send_to_client, broadcast, disconnect_client, get_client_count, perform, call_connect,
  call_disconnect, run_handlers,
}

module _ {W : Type 0} (P : Server W → Type 0) (h : ℕ) where
  pub record IsKept : Type 0 where
    pub responds : (message : Str) (v : Server W) → P v → P (change h (send message) v)
    pub sends : (id message : Str) (v : Server W) → P v → P (send_to_client id message v).0
    pub broadcasts : (message : Str) (v : Server W) → P v → P (broadcast message v).0
    pub disconnects : (id : Str) (v : Server W) → P v → P (disconnect_client id v)
    pub told : (w : W) (v : Server W) → P v → P (record v { world = w })

module _ {W : Type 0} (P : Server W → Type 0) (h : ℕ) (k : IsKept P h) where
  pub perform-kept : {R : Type 0} (p : Program W R) (v : Server W) → P v → P (perform h p v)
  unfolding perform
  perform-kept (done w) v e = k.told w v e
  perform-kept (responds_then r m p) v e = perform-kept p (change h (send m) v) (k.responds m v e)
  perform-kept (send_to_client_then id m f) v e =
      perform-kept (f (send_to_client id m v).1) (send_to_client id m v).0 (k.sends id m v e)
  perform-kept (broadcast_then m f) v e =
      perform-kept (f (broadcast m v).1) (broadcast m v).0 (k.broadcasts m v e)
  perform-kept (disconnect_client_then id p) v e =
      perform-kept p (disconnect_client id v) (k.disconnects id v e)
  perform-kept (get_client_count_then f) v e = perform-kept (f (get_client_count v)) v e

  pub call_connect-kept :
      (f : Option (ConnectHandler W)) (id address : Str) (v : Server W)
      → P v
      → P (call_connect f h id address v)
  unfolding call_connect
  call_connect-kept none id address v e = e
  call_connect-kept (some f) id address v e = perform-kept (f id address v.world) v e

  pub call_disconnect-kept :
      (f : Option (DisconnectHandler W)) (id : Str) (v : Server W)
      → P v
      → P (call_disconnect f h id v)
  unfolding call_disconnect
  call_disconnect-kept none id v e = e
  call_disconnect-kept (some f) id v e = perform-kept (f id v.world) v e

  pub run_handlers-kept :
      (message : Str) (fs : List (Str × MessageHandler W)) (v : Server W)
      → P v
      → P (run_handlers h message fs v)
  unfolding run_handlers
  run_handlers-kept message [] v e = e
  run_handlers-kept message ((path, f) ∷ fs) v e =
      let p = f (v.sessions h).client_id message v.world in
      run_handlers-kept message fs (perform h p v) (perform-kept p v e)
