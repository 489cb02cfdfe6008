-- ===== src/WebSocketClient/Quiet.antt =====
-- Callbacks that start no connection.
use uni_serve_libhttp.Common.{Bool, false, Option, none, some, ◌≡◌, refl, sym, subst, arith, Str}
use uni_serve_libhttp.WebSocketClient.{
  Program, done, throws, send_then, connect_then, disconnect_then, is_connected_then,
  set_auto_reconnect_then, perform, call, send, disconnect, Client,
}

-- A program that neither connects nor sets the automatic reconnection.
abbrev pub IsQuiet : {W : Type 0} → Program W → Type 0
IsQuiet (done w) = Unit
IsQuiet (throws w) = Unit
IsQuiet (send_then m k) = (sent : Bool) → IsQuiet (k sent)
IsQuiet (connect_then t k) = ⊥
IsQuiet (disconnect_then p) = IsQuiet p
IsQuiet (is_connected_then k) = (connected : Bool) → IsQuiet (k connected)
IsQuiet (set_auto_reconnect_then b n p) = ⊥

module _ {W : Type 0} where
  -- The callback, if set, is quiet in any state of the application.
  abbrev pub IsQuietCallback : Option (Str → W → Program W) → Type 0
  IsQuietCallback none = Unit
  IsQuietCallback (some f) = (e : Str) (w : W) → IsQuiet (f e w)

  send_idle : (m : Str) (c : Client W) → c.connected ≡ false → send m c ≡ (c, false)
  unfolding send
  send_idle m c e = ground arith

  disconnect_idle : (c : Client W) → c.connected ≡ false → c.connecting ≡ false → disconnect c ≡ c
  unfolding disconnect
  disconnect_idle c e f = ground arith

  -- While the client is neither connected nor connecting, a quiet program does nothing to it.
  perform-IsQuiet :
      (p : Program W) (c : Client W)
      → IsQuiet p
      → c.connected ≡ false
      → c.connecting ≡ false
      → (w : W) × ((perform p c).0 ≡ record c { world = w })
  unfolding perform
  perform-IsQuiet (done w) c q e f = (w, refl)
  perform-IsQuiet (throws w) c q e f = (w, refl)
  perform-IsQuiet (send_then m k) c q e f =
      subst (λ x. (w : W) × ((perform (k x.1) x.0).0 ≡ record c { world = w }))
        (sym (send_idle m c e)) (perform-IsQuiet (k false) c (q false) e f)
  perform-IsQuiet (connect_then t k) c q e f = absurd q
  perform-IsQuiet (disconnect_then p) c q e f =
      subst (λ x. (w : W) × ((perform p x).0 ≡ record c { world = w }))
        (sym (disconnect_idle c e f)) (perform-IsQuiet p c q e f)
  perform-IsQuiet (is_connected_then k) c q e f =
      perform-IsQuiet (k c.connected) c (q c.connected) e f
  perform-IsQuiet (set_auto_reconnect_then b n p) c q e f = absurd q

  pub call-IsQuiet :
      (g : Option (Str → W → Program W)) (e : Str) (c : Client W)
      → IsQuietCallback g
      → c.connected ≡ false
      → c.connecting ≡ false
      → (w : W) × ((call g e c).0 ≡ record c { world = w })
  unfolding call
  call-IsQuiet none e c q i j = (c.world, refl)
  call-IsQuiet (some f) e c q i j = perform-IsQuiet (f e c.world) c (q e c.world) i j
