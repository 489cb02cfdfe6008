-- ===== src/WebSocketClient/Sending.antt =====
-- The order of the messages, from `send` to the socket.
use mathlib.Core.List.{append_assoc, append-nil}
use uni_serve_libhttp.Common.{
  ℕ, ◌≡◌, refl, sym, ap, ◌∙◌, true, false, List, [], ◌∷◌, ◌++◌, arith, Str, if◌then◌else◌,
  Option-cases, inl, inr,
}
use uni_serve_libhttp.WebSocketClient.{
  Op, resolve, connect, handshake, read, write, post_connect, post_send, Outcome, ok, closed, error,
  Thread, absent, inside, finished, Client, catch_thread, do_connect, reconnect, on_error, on_close,
  do_read, write_front, do_send, on_resolve, on_connect, on_handshake, on_read, on_write, close_now,
  handle, connect_to, disconnect, send, set_auto_reconnect, set_heartbeat_interval,
}
use uni_serve_libhttp.WebSocketClient.Kept.{IsKept, call-kept, call_close-kept, then_run-kept}
use uni_serve_libhttp.WebSocketClient.Runs.{
  Event, completes, returns, connects, disconnects, sends, pick, run_op, complete, leave, step, run,
}

module _ {W : Type 0} where
  -- The messages handed to the socket, and those that still wait.
  abbrev pub line : Client W → List Str
  line c = c.written ++ c.send_queue

  -- `accepted` grows exactly by the messages for which `send` returns true.
  accepted-send :
      (m : Str) (c : Client W)
      → (send m c).0.accepted ≡ (if (send m c).1 then c.accepted ++ (m ∷ []) else c.accepted)
  unfolding send
  accepted-send m c = ground arith

  -- From a client with the messages `l` in its line and `a` accepted on, as many have been accepted
  -- as have joined the line, in order.
  record IsInLine (l a : List Str) (c : Client W) : Type 0 where
    new : List Str
    taken : c.accepted ≡ a ++ new
    lined : line c ≡ l ++ new

  IsInLine-same :
      (l a : List Str) (c c' : Client W)
      → c'.accepted ≡ c.accepted
      → line c' ≡ line c
      → IsInLine l a c
      → IsInLine l a c'
  IsInLine-same l a c c' e f v = record { new = v.new; taken = e ∙ v.taken; lined = f ∙ v.lined }

  line-write_front :
      (q : List Str) (c : Client W) → c.send_queue ≡ q → line (write_front q c) ≡ line c
  unfolding write_front
  line-write_front [] c e = refl
  line-write_front (m ∷ rest) c e =
      append_assoc c.written (m ∷ []) rest ∙ ap (◌++◌ c.written) (sym e)

  accepted-write_front : (q : List Str) (c : Client W) → (write_front q c).accepted ≡ c.accepted
  unfolding write_front
  accepted-write_front [] c = refl
  accepted-write_front (m ∷ rest) c = refl

  line-do_send : (c : Client W) → line (do_send c) ≡ line c
  unfolding do_send
  line-do_send c = ground (arith, line-write_front c.send_queue c refl)

  accepted-do_send : (c : Client W) → (do_send c).accepted ≡ c.accepted
  unfolding do_send
  accepted-do_send c = ground (arith, accepted-write_front c.send_queue c)

  module _ (l a : List Str) where
    do_send-IsInLine : (c : Client W) → IsInLine l a c → IsInLine l a (do_send c)
    do_send-IsInLine c v = IsInLine-same l a c (do_send c) (accepted-do_send c) (line-do_send c) v

    do_read-IsInLine : (c : Client W) → IsInLine l a c → IsInLine l a (do_read c)
    unfolding do_read
    do_read-IsInLine c v = IsInLine-same l a c (do_read c) (ground arith) (ground arith) v

    reconnect-IsInLine : (c : Client W) → IsInLine l a c → IsInLine l a (reconnect c)
    unfolding reconnect
    reconnect-IsInLine c v = IsInLine-same l a c (reconnect c) (ground arith) (ground arith) v

    do_connect-IsInLine : (c : Client W) → IsInLine l a c → IsInLine l a (do_connect c)
    unfolding do_connect
    do_connect-IsInLine c v = IsInLine-same l a c (do_connect c) (ground arith) (ground arith) v

    send-IsInLine : (m : Str) (c : Client W) → IsInLine l a c → IsInLine l a (send m c).0
    unfolding send
    send-IsInLine m c v = record {
      new = v.new ++ (if c.connected then m ∷ [] else []);
      taken = ground (arith, v.taken, append-nil v.new, append_assoc a v.new (m ∷ []));
      lined = ground (
        arith,
        v.lined,
        append-nil v.new,
        append_assoc l v.new (m ∷ []),
        append_assoc c.written c.send_queue (m ∷ []),
      );
    }

    IsInLine-IsKept : IsKept (IsInLine l a)
    unfolding connect_to do_connect disconnect set_auto_reconnect catch_thread
    IsInLine-IsKept = record {
      sends = send-IsInLine;
      connects = λ t c v. IsInLine-same l a c (connect_to t c).0 (ground arith) (ground arith) v;
      disconnects = λ c v. IsInLine-same l a c (disconnect c) (ground arith) (ground arith) v;
      reconnects = λ b n c v. IsInLine-same l a c (set_auto_reconnect b n c) refl refl v;
      told = λ w c v. IsInLine-same l a c (record c { world = w }) refl refl v;
      caught = λ c v. IsInLine-same l a c (catch_thread c) (ground arith) (ground arith) v;
    }

    on_error-IsInLine : (e : Str) (c : Client W) → IsInLine l a c → IsInLine l a (on_error e c)
    unfolding on_error
    on_error-IsInLine e c v =
        then_run-kept (IsInLine l a) IsInLine-IsKept reconnect _ reconnect-IsInLine (
          call-kept (IsInLine l a) IsInLine-IsKept c.error_callback e
            (record c { connecting = false; connected = false })
            (record { new = v.new; taken = v.taken; lined = v.lined }))

    on_close-IsInLine : (c : Client W) → IsInLine l a c → IsInLine l a (on_close c)
    unfolding on_close
    on_close-IsInLine c v =
        then_run-kept (IsInLine l a) IsInLine-IsKept reconnect _ reconnect-IsInLine (
          call_close-kept (IsInLine l a) IsInLine-IsKept c.close_callback
            (record c { connected = false })
            (record { new = v.new; taken = v.taken; lined = v.lined }))

    handle-IsInLine :
        (op : Op) (o : Outcome) (c : Client W) → IsInLine l a c → IsInLine l a (handle op o c)
    unfolding handle on_resolve on_connect on_handshake on_read on_write close_now
    handle-IsInLine handshake (ok b) c v =
        then_run-kept (IsInLine l a) IsInLine-IsKept (λ c'. do_send (do_read c')) _
          (λ c' h. do_send-IsInLine (do_read c') (do_read-IsInLine c' h))
          (call-kept (IsInLine l a) IsInLine-IsKept c.connect_callback true
            (record c { connecting = false; connected = true })
            (record { new = v.new; taken = v.taken; lined = v.lined }))
    handle-IsInLine handshake (closed e) c v =
        on_error-IsInLine _ (record c { connecting = false })
          (record { new = v.new; taken = v.taken; lined = v.lined })
    handle-IsInLine handshake (error e) c v =
        on_error-IsInLine _ (record c { connecting = false })
          (record { new = v.new; taken = v.taken; lined = v.lined })
    handle-IsInLine (write m) (ok b) c v =
        do_send-IsInLine (record c { sending = false })
          (record { new = v.new; taken = v.taken; lined = v.lined })
    handle-IsInLine (write m) (closed e) c v =
        on_error-IsInLine _ (record c { sending = false })
          (record { new = v.new; taken = v.taken; lined = v.lined })
    handle-IsInLine (write m) (error e) c v =
        on_error-IsInLine _ (record c { sending = false })
          (record { new = v.new; taken = v.taken; lined = v.lined })
    handle-IsInLine read (ok m) c v =
        then_run-kept (IsInLine l a) IsInLine-IsKept do_read _ do_read-IsInLine
          (call-kept (IsInLine l a) IsInLine-IsKept c.message_callback m c v)
    handle-IsInLine read (closed e) c v = on_close-IsInLine c v
    handle-IsInLine read (error e) c v = on_error-IsInLine _ c v
    handle-IsInLine resolve (closed e) c v = on_error-IsInLine _ c v
    handle-IsInLine resolve (error e) c v = on_error-IsInLine _ c v
    handle-IsInLine connect (closed e) c v = on_error-IsInLine _ c v
    handle-IsInLine connect (error e) c v = on_error-IsInLine _ c v
    handle-IsInLine post_connect o c v = do_connect-IsInLine c v
    handle-IsInLine post_send o c v = do_send-IsInLine c v
    handle-IsInLine _ _ c v = record { new = v.new; taken = v.taken; lined = v.lined }

    complete-IsInLine :
        (t : Thread) (n : ℕ) (o : Outcome) (c : Client W)
        → IsInLine l a c
        → IsInLine l a (complete t n o c)
    unfolding complete run_op
    complete-IsInLine inside n o c v = elim (Option-cases (pick n c.ioc)) [
      | inl e ↦ rw (e, run_op) v
      | inr ((op, rest), e) ↦
          rw (e, run_op)
            (handle-IsInLine op o (record c { ioc = rest })
              (record { new = v.new; taken = v.taken; lined = v.lined }))
    ]
    complete-IsInLine absent n o c v = v
    complete-IsInLine finished n o c v = v

    step-IsInLine : (e : Event W) (c : Client W) → IsInLine l a c → IsInLine l a (step e c)
    unfolding step leave set_auto_reconnect set_heartbeat_interval
    step-IsInLine (completes n o) c v = complete-IsInLine c.io_thread n o c v
    step-IsInLine returns c v = IsInLine-same l a c (step returns c) (ground arith) (ground arith) v
    step-IsInLine connects c v = IsInLine-IsKept.connects 5000 c v
    step-IsInLine disconnects c v = IsInLine-IsKept.disconnects c v
    step-IsInLine (sends m) c v = send-IsInLine m c v
    step-IsInLine _ c v = record { new = v.new; taken = v.taken; lined = v.lined }

    run-IsInLine : (es : List (Event W)) (c : Client W) → IsInLine l a c → IsInLine l a (run es c)
    unfolding run
    run-IsInLine [] c v = v
    run-IsInLine (e ∷ es) c v = run-IsInLine es (step e c) (step-IsInLine e c v)

  -- In every run, with callbacks that send too: the messages handed to the socket, followed by those
  -- that still wait, are those of the start followed by exactly the messages for which `send` has
  -- returned true since, in order; so none is lost, sent twice or overtaken before it reaches the
  -- socket, reconnections and callbacks that throw included.
  pub line-run :
      (es : List (Event W)) (c : Client W)
      → (new : List Str) × ((run es c).accepted ≡ c.accepted ++ new)
        × (line (run es c) ≡ line c ++ new)
  line-run es c =
      let v = run-IsInLine (line c) c.accepted es c (record {
        new = [];
        taken = sym (append-nil c.accepted);
        lined = sym (append-nil (line c));
      }) in
      (v.new, v.taken, v.lined)
