-- ===== src/WebSocketClient/Kept.antt =====
-- What the calls of a client keep, its callbacks keep too, whatever they call and whether or not
-- they throw.
use uni_serve_libhttp.Common.{ℕ, Bool, true, false, Option, none, some, Str}
use uni_serve_libhttp.WebSocketClient.{
  Program, done, throws, send_then, connect_then, disconnect_then, is_connected_then,
  set_auto_reconnect_then, Client, connect_to, disconnect, send, set_auto_reconnect, perform, call,
  call_close, catch_thread, then_run,
}

module _ {W : Type 0} (P : Client W → Type 0) where
  pub record IsKept : Type 0 where
    pub sends : (message : Str) (c : Client W) → P c → P (send message c).0
    pub connects : (timeout_ms : ℕ) (c : Client W) → P c → P (connect_to timeout_ms c).0
    pub disconnects : (c : Client W) → P c → P (disconnect c)
    pub reconnects :
        (enable : Bool) (interval_ms : ℕ) (c : Client W)
        → P c
        → P (set_auto_reconnect enable interval_ms c)
    pub told : (w : W) (c : Client W) → P c → P (record c { world = w })
    pub caught : (c : Client W) → P c → P (catch_thread c)

module _ {W : Type 0} (P : Client W → Type 0) (k : IsKept P) where
  pub perform-kept : (p : Program W) (c : Client W) → P c → P (perform p c).0
  unfolding perform
  perform-kept (done w) c h = k.told w c h
  perform-kept (throws w) c h = k.told w c h
  perform-kept (send_then m f) c h = perform-kept (f (send m c).1) (send m c).0 (k.sends m c h)
  perform-kept (connect_then t f) c h =
      perform-kept (f (connect_to t c).1) (connect_to t c).0 (k.connects t c h)
  perform-kept (disconnect_then p) c h = perform-kept p (disconnect c) (k.disconnects c h)
  perform-kept (is_connected_then f) c h = perform-kept (f c.connected) c h
  perform-kept (set_auto_reconnect_then b n p) c h =
      perform-kept p (set_auto_reconnect b n c) (k.reconnects b n c h)

  pub call-kept :
      {A : Type 0} (f : Option (A → W → Program W)) (a : A) (c : Client W) → P c → P (call f a c).0
  unfolding call
  call-kept none a c h = h
  call-kept (some f) a c h = perform-kept (f a c.world) c h

  pub call_close-kept : (f : Option (W → Program W)) (c : Client W) → P c → P (call_close f c).0
  unfolding call_close
  call_close-kept none c h = h
  call_close-kept (some f) c h = perform-kept (f c.world) c h

  pub then_run-kept :
      (rest : Client W → Client W) (x : Client W × Bool)
      → ((c : Client W) → P c → P (rest c))
      → P x.0
      → P (then_run rest x)
  unfolding then_run
  then_run-kept rest (c, true) r h = r c h
  then_run-kept rest (c, false) r h = k.caught c h
