-- ===== src/WebSocketClient/Draining.antt =====
-- How the thread of a client ends when its network is gone.
use uni_serve_libhttp.Common.{
  Bool, true, ℕ, zero, suc, ◌+◌, ◌≤◌, ◌≡◌, refl, ap, sym, subst, false, not, ◌&&◌, List, [], ◌∷◌,
  ◌++◌, arith, Str,
}
use uni_serve_libhttp.WebSocketClient.{
  call, catch_thread, then_run, Op, resolve, connect, handshake, read, write, post_close,
  post_connect, post_send, error, inside, finished, Client, do_connect, reconnect, on_error,
  write_front, do_send, on_resolve, on_connect, on_handshake, on_read, on_write, close_now, handle,
}
use uni_serve_libhttp.WebSocketClient.Quiet.{IsQuietCallback, call-IsQuiet}
use uni_serve_libhttp.WebSocketClient.Runs.{
  Event, completes, returns, pick, run_op, complete, leave, step, run,
}

-- How many completions an operation can lead to, where everything fails.
abbrev pub weight_of : Op → ℕ
weight_of post_connect = 2
weight_of post_send = 2
weight_of _ = 1

abbrev pub weight : List Op → ℕ
weight [] = 0
weight (op ∷ ops) = weight_of op + weight ops

weight-append : (xs : List Op) (op : Op) → weight (xs ++ (op ∷ [])) ≡ weight xs + weight_of op
weight-append [] op = omega arith
weight-append (x ∷ xs) op = omega (arith, weight-append xs op)

module _ {W : Type 0} where
  -- `n` times, the operation that waits longest fails.
  pub failures : ℕ → Str → List (Event W)
  failures zero e = []
  failures (suc n) e = completes 0 (error e) ∷ failures n e

  -- Inside `ioc.run()`, to which the thread returns behind an exception, with no reconnection to
  -- come.
  record IsEnding (c : Client W) : Type 0 where
    running : c.io_thread ≡ inside
    again : c.running ≡ true
    quiet : IsQuietCallback c.error_callback
    no_reconnect : (c.auto_reconnect && not c.stopping) ≡ false

  weight-write_front :
      (q : List Str) (c : Client W) → weight (write_front q c).ioc ≤ weight c.ioc + 1
  unfolding write_front
  weight-write_front [] c = omega arith
  weight-write_front (m ∷ q) c = omega (arith, weight-append c.ioc (write m))

  write_front-IsEnding : (q : List Str) (c : Client W) → IsEnding c → IsEnding (write_front q c)
  unfolding write_front
  write_front-IsEnding [] c v = v
  write_front-IsEnding (m ∷ q) c v = record {
    running = v.running;
    again = v.again;
    quiet = v.quiet;
    no_reconnect = v.no_reconnect;
  }

  -- Behind the error callback, the client is the same but for the state of the application.
  then_run-IsEnding :
      (c : Client W) (w : W) (x : Client W × Bool)
      → x.0 ≡ record c { world = w }
      → IsEnding c
      → (weight (then_run reconnect x).ioc ≡ weight c.ioc) × IsEnding (then_run reconnect x)
  unfolding then_run reconnect catch_thread
  then_run-IsEnding c w (d, b) e v =
      subst
        (λ d.
          (weight (then_run reconnect (d, b)).ioc ≡ weight c.ioc)
          × IsEnding (then_run reconnect (d, b)))
        (sym e) (told b)
    where
      told :
          (b : Bool)
          → (weight (then_run reconnect (record c { world = w }, b)).ioc ≡ weight c.ioc)
            × IsEnding (then_run reconnect (record c { world = w }, b))
      told true = rw (v.no_reconnect) (
        refl,
        record {
          running = v.running;
          again = v.again;
          quiet = v.quiet;
          no_reconnect = v.no_reconnect;
        },
      )
      told false = rw (v.again) (
        refl,
        record {
          running = v.running;
          again = refl;
          quiet = v.quiet;
          no_reconnect = v.no_reconnect;
        },
      )

  on_error-IsEnding :
      (e : Str) (c : Client W)
      → IsEnding c
      → (weight (on_error e c).ioc ≡ weight c.ioc) × IsEnding (on_error e c)
  unfolding on_error
  on_error-IsEnding e c v =
      let lost : Client W = record c { connecting = false; connected = false } in
      let ending : IsEnding lost = record {
        running = v.running;
        again = v.again;
        quiet = v.quiet;
        no_reconnect = v.no_reconnect;
      } in
      let (w, told) = call-IsQuiet c.error_callback e lost v.quiet refl refl in
      then_run-IsEnding lost w (call c.error_callback e lost) told ending

  -- A handler of a failed operation starts less than was taken off.
  abbrev IsLess : Op → Client W → Client W → Type 0
  IsLess op c d = (weight d.ioc + 1 ≤ weight_of op + weight c.ioc) × IsEnding d

  failed-IsLess :
      (op : Op) (e : Str) (c d : Client W)
      → weight c.ioc ≡ weight d.ioc
      → IsEnding c
      → IsLess op d (on_error e c)
  failed-IsLess op e c d q v =
      let (same, ending) = on_error-IsEnding e c v in (ground (arith, same, q), ending)

  handle-IsLess :
      (op : Op) (e : Str) (c : Client W) → IsEnding c → IsLess op c (handle op (error e) c)
  unfolding handle on_resolve on_connect on_handshake on_read on_write do_connect do_send close_now
  handle-IsLess post_connect e c v = ground (arith, weight-append c.ioc resolve)
  handle-IsLess post_send e c v =
      ground (arith, weight-write_front c.send_queue c, write_front-IsEnding c.send_queue c v)
  handle-IsLess post_close e c v = (
    omega arith,
    record { running = v.running; again = v.again; quiet = v.quiet; no_reconnect = v.no_reconnect },
  )
  handle-IsLess resolve e c v = failed-IsLess resolve _ c c refl v
  handle-IsLess connect e c v = failed-IsLess connect _ c c refl v
  handle-IsLess read e c v = failed-IsLess read _ c c refl v
  handle-IsLess handshake e c v =
      failed-IsLess handshake _ (record c { connecting = false }) c refl
        (record {
          running = v.running;
          again = v.again;
          quiet = v.quiet;
          no_reconnect = v.no_reconnect;
        })
  handle-IsLess (write m) e c v =
      failed-IsLess (write m) _ (record c { sending = false }) c refl
        (record {
          running = v.running;
          again = v.again;
          quiet = v.quiet;
          no_reconnect = v.no_reconnect;
        })

  -- What a failing completion is to leave of the weight `suc n`.
  abbrev IsLighter : ℕ → Client W → Type 0
  IsLighter n c = (weight c.ioc ≤ n) × IsEnding c

  run_op-failed :
      (ops : List Op) (e : Str) (n : ℕ) (c : Client W)
      → c.ioc ≡ ops
      → weight ops ≤ suc n
      → IsEnding c
      → IsLighter n (run_op (error e) (pick 0 ops) c)
  unfolding run_op pick
  run_op-failed [] e n c q h v = (omega (arith, ap weight q), v)
  run_op-failed (op ∷ ops) e n c q h v =
      let rest : Client W = record c { ioc = ops } in
      let ending : IsEnding rest = record {
        running = v.running;
        again = v.again;
        quiet = v.quiet;
        no_reconnect = v.no_reconnect;
      } in
      (omega (arith, (handle-IsLess op e rest ending).0, h), (handle-IsLess op e rest ending).1)

  complete-failed :
      (e : Str) (n : ℕ) (c : Client W)
      → weight c.ioc ≤ suc n
      → IsEnding c
      → IsLighter n (step (completes 0 (error e)) c)
  unfolding step complete
  complete-failed e n c h v =
      subst (λ t. IsLighter n (complete t 0 (error e) c)) (sym v.running)
        (run_op-failed c.ioc e n c refl h v)

  leave_empty :
      (c : Client W) → c.io_thread ≡ inside → c.ioc ≡ [] → (step returns c).io_thread ≡ finished
  unfolding step leave
  leave_empty c t q = rw (t, q, leave) refl

  -- A client inside `ioc.run()` that is not to reconnect ends its thread once its network is gone,
  -- whether or not its error callback throws, as long as that neither connects nor sets the automatic
  -- reconnection: whatever the client waits for, failing completions of what waits longest, one for
  -- each operation that is outstanding and two for each posted connect or send, leave nothing in its
  -- `io_context`, and `ioc.run()` returns.
  pub run-failures :
      (c : Client W) (e : Str)
      → c.io_thread ≡ inside
      → c.running ≡ true
      → (c.auto_reconnect && not c.stopping) ≡ false
      → IsQuietCallback c.error_callback
      → (run (failures (weight c.ioc) e ++ (returns ∷ [])) c).io_thread ≡ finished
  unfolding run failures
  run-failures c e t g a q =
      go (weight c.ioc) c (omega arith)
        (record { running = t; again = g; quiet = q; no_reconnect = a })
    where
      empty_of_weight : (ops : List Op) → weight ops ≤ 0 → ops ≡ []
      empty_of_weight [] h = refl
      empty_of_weight (op ∷ ops) h = absurd (ground arith)

      go :
          (n : ℕ) (c : Client W)
          → weight c.ioc ≤ n
          → IsEnding c
          → (run (failures n e ++ (returns ∷ [])) c).io_thread ≡ finished
      go zero c h v = leave_empty c v.running (empty_of_weight c.ioc h)
      go (suc n) c h v =
          let (h', v') = complete-failed e n c h v in go n (step (completes 0 (error e)) c) h' v'
