-- ===== src/WebSocketClient/Deaf.antt =====
-- A client whose message callback has thrown.
use uni_serve_libhttp.Common.{
  ℕ, zero, suc, ◌≡◌, refl, sym, subst, Bool, true, false, List, [], ◌∷◌, ◌++◌, Option, none, some,
  arith, Str,
}
use uni_serve_libhttp.WebSocketClient.{
  Op, resolve, connect, handshake, post_connect, post_close, read, write, post_send, ok, Thread,
  absent, inside, finished, Program, done, throws, send_then, connect_then, disconnect_then,
  is_connected_then, set_auto_reconnect_then, Client, send, connect_to, set_auto_reconnect,
  set_heartbeat_interval, perform, call, catch_thread, then_run, do_read, write_front, do_send,
  closed, error, on_read, on_write, handle,
}
use uni_serve_libhttp.WebSocketClient.Runs.{
  Event, completes, returns, connects, sends, sets_reconnect, sets_heartbeat, sets_message,
  sets_error, sets_connect, sets_close, disconnects, pick, run_op, complete, leave, step, run,
}

-- Only what sends messages waits.
abbrev pub IsSend : Op → Type 0
IsSend (write m) = Unit
IsSend post_send = Unit
IsSend _ = ⊥

abbrev pub IsSending : List Op → Type 0
IsSending [] = Unit
IsSending (op ∷ ops) = IsSend op × IsSending ops

IsSending-append : (ops new : List Op) → IsSending ops → IsSending new → IsSending (ops ++ new)
IsSending-append [] new h k = k
IsSending-append (op ∷ ops) new (g, h) k = (g, IsSending-append ops new h k)

-- What is taken from operations that send, if anything.
abbrev IsPicked : Option (Op × List Op) → Type 0
IsPicked none = Unit
IsPicked (some (op, rest)) = IsSend op × IsSending rest

pick-IsPicked : (n : ℕ) (ops : List Op) → IsSending ops → IsPicked (pick n ops)
unfolding pick
pick-IsPicked n [] h = tt
pick-IsPicked zero (op ∷ ops) h = h
pick-IsPicked (suc n) (op ∷ ops) (g, h) = put_back (pick n ops) (pick-IsPicked n ops h)
  where
    put_back :
        (p : Option (Op × List Op))
        → IsPicked p
        → IsPicked (elim p [ none ↦ none | some (x, rest) ↦ some (x, op ∷ rest) ])
    put_back none k = tt
    put_back (some (x, rest)) (k, l) = (k, (g, l))

-- A program that throws in the end, whatever its calls answer, and does not disconnect.
abbrev pub IsThrowing : {W : Type 0} → Program W → Type 0
IsThrowing (done w) = ⊥
IsThrowing (throws w) = Unit
IsThrowing (send_then m k) = (sent : Bool) → IsThrowing (k sent)
IsThrowing (connect_then t k) = (starts : Bool) → IsThrowing (k starts)
IsThrowing (disconnect_then p) = ⊥
IsThrowing (is_connected_then k) = (connected : Bool) → IsThrowing (k connected)
IsThrowing (set_auto_reconnect_then b n p) = IsThrowing p

-- Nothing fails, and nobody disconnects.
abbrev pub IsSmooth : {W : Type 0} → List (Event W) → Type 0
IsSmooth [] = Unit
IsSmooth (disconnects ∷ es) = ⊥
IsSmooth (completes n (ok s) ∷ es) = IsSmooth es
IsSmooth (completes n _ ∷ es) = ⊥
IsSmooth (_ ∷ es) = IsSmooth es

module _ {W : Type 0} where
  -- Connected, with nothing to come but messages that go out.
  pub record IsDeaf (c : Client W) : Type 0 where
    pub connected : c.connected ≡ true
    pub sending : IsSending c.ioc

  send-IsDeaf : (m : Str) (c : Client W) → IsDeaf c → IsDeaf (send m c).0
  unfolding send
  send-IsDeaf m c v =
      ground (arith, IsSending-append c.ioc (post_send ∷ []) v.sending (tt, tt), v.connected)

  connect_to-IsDeaf : (t : ℕ) (c : Client W) → IsDeaf c → IsDeaf (connect_to t c).0
  unfolding connect_to
  connect_to-IsDeaf t c v = ground (arith, v.connected)

  -- The program throws, and until then keeps the client deaf.
  perform-IsThrowing :
      (p : Program W) (c : Client W)
      → IsThrowing p
      → IsDeaf c
      → ((perform p c).1 ≡ false) × IsDeaf (perform p c).0
  unfolding perform set_auto_reconnect
  perform-IsThrowing (done w) c h v = absurd h
  perform-IsThrowing (throws w) c h v =
      (refl, record { connected = v.connected; sending = v.sending })
  perform-IsThrowing (send_then m k) c h v =
      perform-IsThrowing (k (send m c).1) (send m c).0 (h (send m c).1) (send-IsDeaf m c v)
  perform-IsThrowing (connect_then t k) c h v =
      perform-IsThrowing (k (connect_to t c).1) (connect_to t c).0 (h (connect_to t c).1)
        (connect_to-IsDeaf t c v)
  perform-IsThrowing (disconnect_then p) c h v = absurd h
  perform-IsThrowing (is_connected_then k) c h v =
      perform-IsThrowing (k c.connected) c (h c.connected) v
  perform-IsThrowing (set_auto_reconnect_then b n p) c h v =
      perform-IsThrowing p (set_auto_reconnect b n c) h
        (record { connected = v.connected; sending = v.sending })

  write_front-IsDeaf : (q : List Str) (c : Client W) → IsDeaf c → IsDeaf (write_front q c)
  unfolding write_front
  write_front-IsDeaf [] c v = v
  write_front-IsDeaf (m ∷ q) c v = record {
    connected = v.connected;
    sending = IsSending-append c.ioc (write m ∷ []) v.sending (tt, tt);
  }

  do_send-IsDeaf : (c : Client W) → IsDeaf c → IsDeaf (do_send c)
  unfolding do_send
  do_send-IsDeaf c v = ground (arith, write_front-IsDeaf c.send_queue c v)

  handle-IsDeaf :
      (op : Op) (s : Str) (c : Client W) → IsSend op → IsDeaf c → IsDeaf (handle op (ok s) c)
  unfolding handle on_write
  handle-IsDeaf (write m) s c h v =
      do_send-IsDeaf (record c { sending = false })
        (record { connected = v.connected; sending = v.sending })
  handle-IsDeaf post_send s c h v = do_send-IsDeaf c v
  handle-IsDeaf resolve s c h v = absurd h
  handle-IsDeaf connect s c h v = absurd h
  handle-IsDeaf handshake s c h v = absurd h
  handle-IsDeaf read s c h v = absurd h
  handle-IsDeaf post_connect s c h v = absurd h
  handle-IsDeaf post_close s c h v = absurd h

  run_op-IsDeaf :
      (s : Str) (p : Option (Op × List Op)) (c : Client W)
      → IsPicked p
      → IsDeaf c
      → IsDeaf (run_op (ok s) p c)
  unfolding run_op
  run_op-IsDeaf s none c h v = v
  run_op-IsDeaf s (some (op, rest)) c (g, h) v =
      handle-IsDeaf op s (record c { ioc = rest }) g
        (record { connected = v.connected; sending = h })

  complete-IsDeaf :
      (t : Thread) (s : Str) (n : ℕ) (c : Client W) → IsDeaf c → IsDeaf (complete t n (ok s) c)
  unfolding complete
  complete-IsDeaf inside s n c v =
      run_op-IsDeaf s (pick n c.ioc) c (pick-IsPicked n c.ioc v.sending) v
  complete-IsDeaf absent s n c v = v
  complete-IsDeaf finished s n c v = v

  leave-IsDeaf : (t : Thread) (q : List Op) (c : Client W) → IsDeaf c → IsDeaf (leave t q c)
  unfolding leave
  leave-IsDeaf inside [] c v = record { connected = v.connected; sending = v.sending }
  leave-IsDeaf inside (op ∷ q) c v = v
  leave-IsDeaf absent q c v = v
  leave-IsDeaf finished q c v = v

  run-IsDeaf : (es : List (Event W)) (c : Client W) → IsSmooth es → IsDeaf c → IsDeaf (run es c)
  unfolding run step set_auto_reconnect set_heartbeat_interval
  run-IsDeaf [] c h v = v
  run-IsDeaf (completes n (ok s) ∷ es) c h v =
      run-IsDeaf es _ h (complete-IsDeaf c.io_thread s n c v)
  run-IsDeaf (completes n (closed e) ∷ es) c h v = absurd h
  run-IsDeaf (completes n (error e) ∷ es) c h v = absurd h
  run-IsDeaf (returns ∷ es) c h v = run-IsDeaf es _ h (leave-IsDeaf c.io_thread c.ioc c v)
  run-IsDeaf (connects ∷ es) c h v = run-IsDeaf es _ h (connect_to-IsDeaf 5000 c v)
  run-IsDeaf (disconnects ∷ es) c h v = absurd h
  run-IsDeaf (sends m ∷ es) c h v = run-IsDeaf es _ h (send-IsDeaf m c v)
  run-IsDeaf (sets_reconnect b n ∷ es) c h v =
      run-IsDeaf es _ h (record { connected = v.connected; sending = v.sending })
  run-IsDeaf (sets_heartbeat n ∷ es) c h v =
      run-IsDeaf es _ h (record { connected = v.connected; sending = v.sending })
  run-IsDeaf (sets_message f ∷ es) c h v =
      run-IsDeaf es _ h (record { connected = v.connected; sending = v.sending })
  run-IsDeaf (sets_error f ∷ es) c h v =
      run-IsDeaf es _ h (record { connected = v.connected; sending = v.sending })
  run-IsDeaf (sets_connect f ∷ es) c h v =
      run-IsDeaf es _ h (record { connected = v.connected; sending = v.sending })
  run-IsDeaf (sets_close f ∷ es) c h v =
      run-IsDeaf es _ h (record { connected = v.connected; sending = v.sending })

  -- Whatever a handler would do next, it does not behind a callback that throws.
  then_run-IsDeaf :
      (rest : Client W → Client W) (x : Client W × Bool)
      → x.1 ≡ false
      → IsDeaf x.0
      → IsDeaf (then_run rest x)
  unfolding then_run catch_thread
  then_run-IsDeaf rest (c, true) e v = absurd (ground arith)
  then_run-IsDeaf rest (c, false) e v = ground (arith, v.connected, v.sending)

  throws-IsDeaf :
      (c : Client W) (f : Str → W → Program W) (m : Str)
      → c.message_callback ≡ some f
      → IsThrowing (f m c.world)
      → IsDeaf c
      → IsDeaf (on_read (ok m) c)
  unfolding on_read call
  throws-IsDeaf c f m q h v =
      let (thrown, deaf) = perform-IsThrowing (f m c.world) c h v in
      subst (λ g. IsDeaf (then_run do_read (call g m c))) (sym q)
        (then_run-IsDeaf do_read (perform (f m c.world) c) thrown deaf)

  -- A connected client that waits for a message, and otherwise at most sends, has a message callback
  -- that throws at the message, whatever else it does but disconnecting. Once the message has come,
  -- the client stays connected, but what waits only sends, no read among it: it does not read again,
  -- whatever calls and completions follow, as long as nobody disconnects and no completion fails.
  pub run-throws-IsDeaf :
      (c : Client W) (f : Str → W → Program W) (m : Str) (ops : List Op) (es : List (Event W))
      → c.io_thread ≡ inside
      → c.message_callback ≡ some f
      → c.ioc ≡ read ∷ ops
      → c.connected ≡ true
      → IsSending ops
      → IsThrowing (f m c.world)
      → IsSmooth es
      → IsDeaf (run (completes 0 (ok m) ∷ es) c)
  unfolding run step complete pick run_op handle
  run-throws-IsDeaf c f m ops es t q i e h k l = run-IsDeaf es (step (completes 0 (ok m)) c) l (
      subst (λ t. IsDeaf (complete t 0 (ok m) c)) (sym t)
        (subst (λ i. IsDeaf (run_op (ok m) (pick 0 i) c)) (sym i)
          (throws-IsDeaf (record c { ioc = ops }) f m q k (record { connected = e; sending = h }))))
