-- ===== src/WebSocketClient/Lifetime.antt =====
-- Runs in which the client does not do what its user asked for.
use uni_serve_libhttp.Common.{◌≡◌, refl, ◌∙◌, true, false, ◌||◌, ◌+◌, List, [], ◌∷◌, arith, Str}
use uni_serve_libhttp.WebSocketClient.{
  post_close, ok, inside, finished, Client, call, catch_thread, do_connect, do_read, do_send,
  on_handshake, handle, connect_to, disconnect, send, set_auto_reconnect, set_heartbeat_interval,
  new_client,
}
use uni_serve_libhttp.WebSocketClient.Kept.{IsKept, call-kept, then_run-kept}
use uni_serve_libhttp.WebSocketClient.GivenUp.{
  reconnections, reconnections-append, IsGivenUp, run-IsGivenUp,
}
use uni_serve_libhttp.WebSocketClient.Runs.{
  Event, completes, returns, connects, disconnects, sends, pick, run_op, complete, leave, step, run,
}

module _ {W : Type 0} where
  -- A client whose thread has left `ioc.run()`.
  pub record IsDead (w : W) (c : Client W) : Type 0 where
    pub left : c.io_thread ≡ finished
    pub silent : c.connected ≡ false
    pub untold : c.world ≡ w

  step-IsDead : (w : W) (e : Event W) (c : Client W) → IsDead w c → IsDead w (step e c)
  unfolding step complete leave connect_to do_connect disconnect send set_auto_reconnect
      set_heartbeat_interval
  step-IsDead w (completes n o) c v = ground arith
  step-IsDead w returns c v = ground arith
  step-IsDead w connects c v = ground arith
  step-IsDead w disconnects c v = ground arith
  step-IsDead w (sends m) c v = ground arith
  step-IsDead w _ c v = record { left = v.left; silent = v.silent; untold = v.untold }

  run-IsDead : (w : W) (es : List (Event W)) (c : Client W) → IsDead w c → IsDead w (run es c)
  unfolding run
  run-IsDead w [] c v = v
  run-IsDead w (e ∷ es) c v = run-IsDead w es (step e c) (step-IsDead w e c v)

  -- The constructor starts the thread with nothing for it to do. Where `ioc.run()` returns before
  -- the first call of `connect`, the client never connects and calls no callback, whatever calls
  -- follow.
  pub run-new_client-IsDead :
      (host port path : Str) (w : W) (es : List (Event W))
      → IsDead w (run (returns ∷ es) (new_client host port path w))
  unfolding run step leave new_client
  run-new_client-IsDead host port path w es =
      run-IsDead w es _ (record { left = refl; silent = refl; untold = refl })

  IsConnected-IsKept : IsKept (λ (c : Client W). c.connected ≡ true)
  unfolding connect_to do_connect disconnect send set_auto_reconnect catch_thread
  IsConnected-IsKept = record {
    sends = λ m c v. ground arith;
    connects = λ t c v. ground arith;
    disconnects = λ c v. ground arith;
    reconnects = λ b n c v. v;
    told = λ w c v. v;
    caught = λ c v. ground arith;
  }

  do_send-connected : (c : Client W) → (do_send c).connected ≡ c.connected
  unfolding do_send
  do_send-connected c = ground arith

  do_read-connected : (c : Client W) → (do_read c).connected ≡ c.connected
  unfolding do_read
  do_read-connected c = ground arith

  connected-on_handshake : (b : Str) (c : Client W) → (on_handshake (ok b) c).connected ≡ true
  unfolding on_handshake
  connected-on_handshake b c =
      then_run-kept (λ c'. c'.connected ≡ true) IsConnected-IsKept (λ c'. do_send (do_read c'))
        (call c.connect_callback true (record c { connecting = false; connected = true }))
        (λ c' h. do_send-connected (do_read c') ∙ (do_read-connected c' ∙ h))
        (call-kept (λ c'. c'.connected ≡ true) IsConnected-IsKept c.connect_callback true
          (record c { connecting = false; connected = true }) refl)

  -- A client at rest, its thread waiting for work.
  abbrev pub resting : Client W → Client W
  resting c = record c { io_thread = inside; ioc = []; connecting = false; connected = false }

  -- `connect`, then `disconnect`; the posted close runs before the resolver answers, and the
  -- resolver, the connection and the handshake succeed.
  abbrev pub overtaken : Str → List (Event W)
  overtaken b =
      connects
      ∷ (disconnects
          ∷ (completes 1 (ok b)
              ∷ (completes 0 (ok b) ∷ (completes 0 (ok b) ∷ (completes 0 (ok b) ∷ [])))))

  -- A connection asked for by a client at rest and given up while it is being made: where the
  -- posted close runs before the resolver answers, the client ends up connected all the same.
  pub disconnect_overtaken :
      (c : Client W) (b : Str) → (run (overtaken b) (resting c)).connected ≡ true
  unfolding run step complete pick run_op connect_to disconnect handle
  disconnect_overtaken c b =
      connected-on_handshake b (record (resting c) { closes = c.closes + 1; stopping = true })

  -- A client that is told to disconnect while it is connecting or connected, with no reconnection
  -- posted at that time, never posts one again, whatever follows: connecting anew and enabling
  -- automatic reconnection do not bring it back.
  pub run-disconnects-IsGivenUp :
      (c : Client W) (es : List (Event W))
      → (c.connected || c.connecting) ≡ true
      → reconnections c.ioc ≡ 0
      → IsGivenUp (run (disconnects ∷ es) c)
  unfolding run step disconnect
  run-disconnects-IsGivenUp c es b n =
      run-IsGivenUp es (disconnect c) (ground (arith, reconnections-append c.ioc post_close))
