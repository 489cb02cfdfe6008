-- ===== src/WebSocketClient/Flags.antt =====
-- What the flags say, at every point of every run.
use uni_serve_libhttp.Common.{
  ℕ, zero, suc, ◌+◌, ◌≡◌, refl, true, false, ◌&&◌, List, [], ◌∷◌, ◌++◌, some, arith, Str,
  if◌then◌else◌, Option-cases, inl, inr,
}
use uni_serve_libhttp.WebSocketClient.{
  Op, resolve, connect, handshake, read, write, post_connect, post_send, post_close, Outcome, ok,
  closed, error, Thread, absent, inside, finished, Client, enqueue, do_connect, reconnect, on_error,
  on_close, do_read, write_front, do_send, on_resolve, on_connect, on_handshake, on_read, on_write,
  handle, connect_to, disconnect, send, set_auto_reconnect, set_heartbeat_interval, start,
  new_client, catch_thread,
}
use uni_serve_libhttp.WebSocketClient.Kept.{IsKept, call-kept, call_close-kept, then_run-kept}
use uni_serve_libhttp.WebSocketClient.Runs.{
  Event, completes, returns, connects, disconnects, sends, pick, run_op, complete, leave, step, run,
}

abbrev pub is_write : Op → ℕ
is_write (write m) = 1
is_write _ = 0

-- How many writes are outstanding.
abbrev pub writes : List Op → ℕ
writes [] = 0
writes (op ∷ ops) = is_write op + writes ops

writes-append : (xs : List Op) (op : Op) → writes (xs ++ (op ∷ [])) ≡ writes xs + is_write op
writes-append [] op = omega arith
writes-append (x ∷ xs) op = omega (arith, writes-append xs op)

-- What `pick` takes out is all that is missing afterwards.
writes-pick :
    (n : ℕ) (ops : List Op) (op : Op) (rest : List Op)
    → pick n ops ≡ some (op, rest)
    → writes ops ≡ is_write op + writes rest
unfolding pick
writes-pick n [] op rest e = cc
writes-pick zero (x ∷ ops) op rest e = ground arith
writes-pick (suc n) (x ∷ ops) op rest e = elim (Option-cases (pick n ops)) [
  | inl f ↦ absurd (ground arith)
  | inr ((y, left), f) ↦ ground (arith, writes-pick n ops y left f)
]

module _ {W : Type 0} where
  -- Not connecting and connected at once; and one write outstanding while `sending` is set, else
  -- none. `extra` counts a write that has just completed.
  pub record IsSoundWith (extra : ℕ) (c : Client W) : Type 0 where
    pub phase : (c.connecting && c.connected) ≡ false
    pub single : extra + writes c.ioc ≡ (if c.sending then 1 else 0)

  abbrev pub IsSound : Client W → Type 0
  IsSound c = IsSoundWith 0 c

  enqueue-IsSound : (op : Op) (c : Client W) → is_write op ≡ 0 → IsSound c → IsSound (enqueue op c)
  enqueue-IsSound op c e v = record {
    phase = v.phase;
    single = omega (arith, writes-append c.ioc op, v.single);
  }

  do_connect-IsSound : (c : Client W) → IsSound c → IsSound (do_connect c)
  unfolding do_connect
  do_connect-IsSound c v = ground (arith, writes-append c.ioc resolve)

  reconnect-IsSound : (c : Client W) → IsSound c → IsSound (reconnect c)
  unfolding reconnect
  reconnect-IsSound c v = ground (arith, writes-append c.ioc post_connect)

  IsSound-IsKept : IsKept IsSound
  unfolding connect_to disconnect send set_auto_reconnect catch_thread
  IsSound-IsKept = record {
    sends = λ m c v. ground (arith, writes-append c.ioc post_send);
    connects = λ t c v. ground (arith, do_connect-IsSound c v);
    disconnects = λ c v. ground (arith, writes-append c.ioc post_close);
    reconnects = λ b n c v. record { phase = v.phase; single = v.single };
    told = λ w c v. record { phase = v.phase; single = v.single };
    caught = λ c v. ground arith;
  }

  on_error-IsSound : (e : Str) (c : Client W) → IsSound c → IsSound (on_error e c)
  unfolding on_error
  on_error-IsSound e c v = then_run-kept IsSound IsSound-IsKept reconnect _ reconnect-IsSound (
      call-kept IsSound IsSound-IsKept c.error_callback e
        (record c { connecting = false; connected = false })
        (record { phase = refl; single = v.single }))

  on_close-IsSound : (c : Client W) → IsSound c → IsSound (on_close c)
  unfolding on_close
  on_close-IsSound c v = then_run-kept IsSound IsSound-IsKept reconnect _ reconnect-IsSound (
      call_close-kept IsSound IsSound-IsKept c.close_callback (record c { connected = false })
        (record { phase = ground arith; single = v.single }))

  do_read-IsSound : (c : Client W) → IsSound c → IsSound (do_read c)
  unfolding do_read
  do_read-IsSound c v = ground (arith, writes-append c.ioc read)

  write_front-IsSound :
      (q : List Str) (c : Client W) → c.sending ≡ false → IsSound c → IsSound (write_front q c)
  unfolding write_front
  write_front-IsSound [] c e v = v
  write_front-IsSound (m ∷ rest) c e v = ground (arith, writes-append c.ioc (write m))

  do_send-IsSound : (c : Client W) → IsSound c → IsSound (do_send c)
  unfolding do_send
  do_send-IsSound c v = ground (arith, write_front-IsSound c.send_queue c)

  on_handshake-IsSound : (o : Outcome) (c : Client W) → IsSound c → IsSound (on_handshake o c)
  unfolding on_handshake
  on_handshake-IsSound (ok b) c v =
      then_run-kept IsSound IsSound-IsKept (λ c'. do_send (do_read c')) _
        (λ c' h. do_send-IsSound (do_read c') (do_read-IsSound c' h))
        (call-kept IsSound IsSound-IsKept c.connect_callback true
          (record c { connecting = false; connected = true })
          (record { phase = refl; single = v.single }))
  on_handshake-IsSound (closed e) c v =
      on_error-IsSound _ (record c { connecting = false })
        (record { phase = refl; single = v.single })
  on_handshake-IsSound (error e) c v =
      on_error-IsSound _ (record c { connecting = false })
        (record { phase = refl; single = v.single })

  on_read-IsSound : (o : Outcome) (c : Client W) → IsSound c → IsSound (on_read o c)
  unfolding on_read
  on_read-IsSound (ok m) c v =
      then_run-kept IsSound IsSound-IsKept do_read _ do_read-IsSound
        (call-kept IsSound IsSound-IsKept c.message_callback m c v)
  on_read-IsSound (closed e) c v = on_close-IsSound c v
  on_read-IsSound (error e) c v = on_error-IsSound _ c v

  -- The write that completes is the one that `sending` stood for.
  on_write-IsSound : (o : Outcome) (c : Client W) → IsSoundWith 1 c → IsSound (on_write o c)
  unfolding on_write
  on_write-IsSound o c v =
      let done : Client W = record c { sending = false } in
      let sound : IsSound done = record { phase = v.phase; single = ground (arith, v.single) } in
      elim o as (λ x. IsSound (on_write x c)) [
        | ok b ↦ do_send-IsSound done sound
        | closed e ↦ on_error-IsSound _ done sound
        | error e ↦ on_error-IsSound _ done sound
      ]

  on_resolve-IsSound : (o : Outcome) (c : Client W) → IsSound c → IsSound (on_resolve o c)
  unfolding on_resolve
  on_resolve-IsSound (ok b) c v = enqueue-IsSound connect c refl v
  on_resolve-IsSound (closed e) c v = on_error-IsSound _ c v
  on_resolve-IsSound (error e) c v = on_error-IsSound _ c v

  on_connect-IsSound : (o : Outcome) (c : Client W) → IsSound c → IsSound (on_connect o c)
  unfolding on_connect
  on_connect-IsSound (ok b) c v = enqueue-IsSound handshake c refl v
  on_connect-IsSound (closed e) c v = on_error-IsSound _ c v
  on_connect-IsSound (error e) c v = on_error-IsSound _ c v

  handle-IsSound :
      (op : Op) (o : Outcome) (c : Client W) → IsSoundWith (is_write op) c → IsSound (handle op o c)
  unfolding handle
  handle-IsSound resolve o c v = on_resolve-IsSound o c v
  handle-IsSound connect o c v = on_connect-IsSound o c v
  handle-IsSound handshake o c v = on_handshake-IsSound o c v
  handle-IsSound read o c v = on_read-IsSound o c v
  handle-IsSound (write m) o c v = on_write-IsSound o c v
  handle-IsSound post_connect o c v = do_connect-IsSound c v
  handle-IsSound post_send o c v = do_send-IsSound c v
  handle-IsSound post_close o c v = record { phase = refl; single = v.single }

  complete-IsSound :
      (t : Thread) (n : ℕ) (o : Outcome) (c : Client W) → IsSound c → IsSound (complete t n o c)
  unfolding complete run_op
  complete-IsSound inside n o c v = elim (Option-cases (pick n c.ioc)) [
    | inl e ↦ rw (e, run_op) v
    | inr ((op, rest), e) ↦
        rw (e, run_op)
          (handle-IsSound op o (record c { ioc = rest })
            (record {
              phase = v.phase;
              single = omega (arith, writes-pick n c.ioc op rest e, v.single);
            }))
  ]
  complete-IsSound absent n o c v = v
  complete-IsSound finished n o c v = v

  leave-IsSound : (t : Thread) (q : List Op) (c : Client W) → IsSound c → IsSound (leave t q c)
  unfolding leave
  leave-IsSound inside [] c v = record { phase = v.phase; single = v.single }
  leave-IsSound inside (op ∷ q) c v = v
  leave-IsSound absent q c v = v
  leave-IsSound finished q c v = v

  step-IsSound : (e : Event W) (c : Client W) → IsSound c → IsSound (step e c)
  unfolding step connect_to disconnect send set_auto_reconnect set_heartbeat_interval
  step-IsSound (completes n o) c v = complete-IsSound c.io_thread n o c v
  step-IsSound returns c v = leave-IsSound c.io_thread c.ioc c v
  step-IsSound connects c v = ground (arith, do_connect-IsSound c v)
  step-IsSound disconnects c v = ground (arith, writes-append c.ioc post_close)
  step-IsSound (sends m) c v = ground (arith, writes-append c.ioc post_send)
  step-IsSound _ c v = record { phase = v.phase; single = v.single }

  -- In every run from a new client: it is never connecting and connected at once; and exactly one
  -- write is outstanding while `sending` is set, and none while it is not.
  pub run-IsSound :
      (host port path : Str) (w : W) (es : List (Event W))
      → IsSound (run es (new_client host port path w))
  unfolding run new_client start
  run-IsSound host port path w es = go es (new_client host port path w) first
    where
      first : IsSound (new_client host port path w)
      first = record { phase = refl; single = refl }

      go : (es : List (Event W)) (c : Client W) → IsSound c → IsSound (run es c)
      go [] c v = v
      go (e ∷ es) c v = go es (step e c) (step-IsSound e c v)
