-- ===== src/WebSocketClient/GivenUp.antt =====
-- A client that is stopping, with no reconnection posted.
use uni_serve_libhttp.Common.{
  ℕ, zero, suc, ◌+◌, ◌≡◌, true, false, List, [], ◌∷◌, ◌++◌, some, arith, Str, Option-cases, inl,
  inr,
}
use uni_serve_libhttp.WebSocketClient.{
  Op, resolve, connect, handshake, read, write, post_connect, post_send, post_close, Outcome, ok,
  closed, error, Thread, absent, inside, finished, Client, catch_thread, do_connect, reconnect,
  on_error, on_close, do_read, write_front, do_send, on_resolve, on_connect, on_handshake, on_read,
  on_write, close_now, handle, connect_to, disconnect, send, set_auto_reconnect,
  set_heartbeat_interval,
}
use uni_serve_libhttp.WebSocketClient.Kept.{IsKept, call-kept, call_close-kept, then_run-kept}
use uni_serve_libhttp.WebSocketClient.Runs.{
  Event, completes, returns, connects, disconnects, sends, pick, run_op, complete, leave, step, run,
}

-- How many reconnections are posted.
abbrev pub reconnections : List Op → ℕ
reconnections [] = 0
reconnections (post_connect ∷ ops) = 1 + reconnections ops
reconnections (op ∷ ops) = reconnections ops

pub reconnections-append :
    (xs : List Op) (op : Op)
    → reconnections (xs ++ (op ∷ [])) ≡ reconnections xs + reconnections (op ∷ [])
reconnections-append [] op = omega arith
reconnections-append (x ∷ xs) op = ground (arith, reconnections-append xs op)

reconnections-pick :
    (n : ℕ) (ops : List Op) (op : Op) (rest : List Op)
    → pick n ops ≡ some (op, rest)
    → reconnections ops ≡ reconnections (op ∷ []) + reconnections rest
unfolding pick
reconnections-pick n [] op rest e = cc
reconnections-pick zero (x ∷ ops) op rest e = ground arith
reconnections-pick (suc n) (x ∷ ops) op rest e = elim (Option-cases (pick n ops)) [
  | inl f ↦ absurd (ground arith)
  | inr ((y, left), f) ↦ ground (arith, reconnections-pick n ops y left f)
]

module _ {W : Type 0} where
  -- `stopping` is set, and no reconnection is posted.
  pub record IsGivenUp (c : Client W) : Type 0 where
    pub stopped : c.stopping ≡ true
    pub unposted : reconnections c.ioc ≡ 0

  write_front-IsGivenUp : (q : List Str) (c : Client W) → IsGivenUp c → IsGivenUp (write_front q c)
  unfolding write_front
  write_front-IsGivenUp [] c v = v
  write_front-IsGivenUp (m ∷ rest) c v = ground (arith, reconnections-append c.ioc (write m))

  do_send-IsGivenUp : (c : Client W) → IsGivenUp c → IsGivenUp (do_send c)
  unfolding do_send
  do_send-IsGivenUp c v = ground (arith, write_front-IsGivenUp c.send_queue c)

  IsGivenUp-IsKept : IsKept IsGivenUp
  unfolding connect_to do_connect disconnect send set_auto_reconnect catch_thread
  IsGivenUp-IsKept = record {
    sends = λ m c v. ground (arith, reconnections-append c.ioc post_send);
    connects = λ t c v. ground (arith, reconnections-append c.ioc resolve);
    disconnects = λ c v. ground (arith, reconnections-append c.ioc post_close);
    reconnects = λ b n c v. record { stopped = v.stopped; unposted = v.unposted };
    told = λ w c v. record { stopped = v.stopped; unposted = v.unposted };
    caught = λ c v. ground arith;
  }

  reconnect-IsGivenUp : (c : Client W) → IsGivenUp c → IsGivenUp (reconnect c)
  unfolding reconnect
  reconnect-IsGivenUp c v = ground arith

  do_read-IsGivenUp : (c : Client W) → IsGivenUp c → IsGivenUp (do_read c)
  unfolding do_read
  do_read-IsGivenUp c v = ground (arith, reconnections-append c.ioc read)

  on_error-IsGivenUp : (e : Str) (c : Client W) → IsGivenUp c → IsGivenUp (on_error e c)
  unfolding on_error
  on_error-IsGivenUp e c v =
      then_run-kept IsGivenUp IsGivenUp-IsKept reconnect _ reconnect-IsGivenUp (
        call-kept IsGivenUp IsGivenUp-IsKept c.error_callback e
          (record c { connecting = false; connected = false })
          (record { stopped = v.stopped; unposted = v.unposted }))

  on_close-IsGivenUp : (c : Client W) → IsGivenUp c → IsGivenUp (on_close c)
  unfolding on_close
  on_close-IsGivenUp c v =
      then_run-kept IsGivenUp IsGivenUp-IsKept reconnect _ reconnect-IsGivenUp (
        call_close-kept IsGivenUp IsGivenUp-IsKept c.close_callback (record c { connected = false })
          (record { stopped = v.stopped; unposted = v.unposted }))

  handle-IsGivenUp :
      (op : Op) (o : Outcome) (c : Client W) → IsGivenUp c → IsGivenUp (handle op o c)
  unfolding handle on_resolve on_connect on_handshake on_read on_write do_connect close_now
  handle-IsGivenUp resolve (ok b) c v = ground (arith, reconnections-append c.ioc connect)
  handle-IsGivenUp connect (ok b) c v = ground (arith, reconnections-append c.ioc handshake)
  handle-IsGivenUp handshake (ok b) c v =
      then_run-kept IsGivenUp IsGivenUp-IsKept (λ c'. do_send (do_read c')) _
        (λ c' h. do_send-IsGivenUp (do_read c') (do_read-IsGivenUp c' h))
        (call-kept IsGivenUp IsGivenUp-IsKept c.connect_callback true
          (record c { connecting = false; connected = true })
          (record { stopped = v.stopped; unposted = v.unposted }))
  handle-IsGivenUp read (ok m) c v =
      then_run-kept IsGivenUp IsGivenUp-IsKept do_read _ do_read-IsGivenUp
        (call-kept IsGivenUp IsGivenUp-IsKept c.message_callback m c v)
  handle-IsGivenUp read (closed e) c v = on_close-IsGivenUp c v
  handle-IsGivenUp (write m) (ok b) c v =
      do_send-IsGivenUp (record c { sending = false })
        (record { stopped = v.stopped; unposted = v.unposted })
  handle-IsGivenUp post_connect o c v = ground (arith, reconnections-append c.ioc resolve)
  handle-IsGivenUp post_send o c v = do_send-IsGivenUp c v
  handle-IsGivenUp post_close o c v = record { stopped = v.stopped; unposted = v.unposted }
  handle-IsGivenUp handshake (closed e) c v =
      on_error-IsGivenUp _ (record c { connecting = false })
        (record { stopped = v.stopped; unposted = v.unposted })
  handle-IsGivenUp handshake (error e) c v =
      on_error-IsGivenUp _ (record c { connecting = false })
        (record { stopped = v.stopped; unposted = v.unposted })
  handle-IsGivenUp (write m) (closed e) c v =
      on_error-IsGivenUp _ (record c { sending = false })
        (record { stopped = v.stopped; unposted = v.unposted })
  handle-IsGivenUp (write m) (error e) c v =
      on_error-IsGivenUp _ (record c { sending = false })
        (record { stopped = v.stopped; unposted = v.unposted })
  handle-IsGivenUp read (error e) c v = on_error-IsGivenUp _ c v
  handle-IsGivenUp resolve (closed e) c v = on_error-IsGivenUp _ c v
  handle-IsGivenUp resolve (error e) c v = on_error-IsGivenUp _ c v
  handle-IsGivenUp connect (closed e) c v = on_error-IsGivenUp _ c v
  handle-IsGivenUp connect (error e) c v = on_error-IsGivenUp _ c v

  complete-IsGivenUp :
      (t : Thread) (n : ℕ) (o : Outcome) (c : Client W) → IsGivenUp c → IsGivenUp (complete t n o c)
  unfolding complete run_op
  complete-IsGivenUp inside n o c v = elim (Option-cases (pick n c.ioc)) [
    | inl e ↦ rw (e, run_op) v
    | inr ((op, rest), e) ↦
        rw (e, run_op)
          (handle-IsGivenUp op o (record c { ioc = rest })
            (record {
              stopped = v.stopped;
              unposted = omega (arith, reconnections-pick n c.ioc op rest e, v.unposted);
            }))
  ]
  complete-IsGivenUp absent n o c v = v
  complete-IsGivenUp finished n o c v = v

  leave-IsGivenUp :
      (t : Thread) (q : List Op) (c : Client W) → IsGivenUp c → IsGivenUp (leave t q c)
  unfolding leave
  leave-IsGivenUp inside [] c v = record { stopped = v.stopped; unposted = v.unposted }
  leave-IsGivenUp inside (op ∷ q) c v = v
  leave-IsGivenUp absent q c v = v
  leave-IsGivenUp finished q c v = v

  step-IsGivenUp : (e : Event W) (c : Client W) → IsGivenUp c → IsGivenUp (step e c)
  unfolding step connect_to do_connect disconnect send set_auto_reconnect set_heartbeat_interval
  step-IsGivenUp (completes n o) c v = complete-IsGivenUp c.io_thread n o c v
  step-IsGivenUp returns c v = leave-IsGivenUp c.io_thread c.ioc c v
  step-IsGivenUp connects c v = ground (arith, reconnections-append c.ioc resolve)
  step-IsGivenUp disconnects c v = ground (arith, reconnections-append c.ioc post_close)
  step-IsGivenUp (sends m) c v = ground (arith, reconnections-append c.ioc post_send)
  step-IsGivenUp _ c v = record { stopped = v.stopped; unposted = v.unposted }

  pub run-IsGivenUp : (es : List (Event W)) (c : Client W) → IsGivenUp c → IsGivenUp (run es c)
  unfolding run
  run-IsGivenUp [] c v = v
  run-IsGivenUp (e ∷ es) c v = run-IsGivenUp es (step e c) (step-IsGivenUp e c v)
