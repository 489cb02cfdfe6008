-- ===== src/WebSocketClient/Runs.antt =====
-- A client as it runs: calls of its interface, completions, and the end of its thread, in any order.
use uni_serve_libhttp.Common.{ℕ, zero, suc, Bool, List, [], ◌∷◌, Option, none, some, Str}
use uni_serve_libhttp.WebSocketClient.{
  Op, Program, Outcome, Thread, absent, inside, finished, Client, handle, connect_to, disconnect,
  send, set_auto_reconnect, set_heartbeat_interval,
}

-- `completes n o`: the operation at position `n` in the `io_context` completes with `o`, whichever
-- it is; `returns`: `ioc.run()` returns, which it does where nothing waits, and the thread ends.
pub data Event (W : Type 0) : Type 0 where
  completes : ℕ → Outcome → Event W
  returns : Event W
  connects disconnects : Event W
  sends : Str → Event W
  sets_reconnect : Bool → ℕ → Event W
  sets_heartbeat : ℕ → Event W
  sets_message : Option (Str → W → Program W) → Event W
  sets_error : Option (Str → W → Program W) → Event W
  sets_connect : Option (Bool → W → Program W) → Event W
  sets_close : Option (W → Program W) → Event W

-- The operation at a position, and what is left without it.
unfoldable pub pick : ℕ → List Op → Option (Op × List Op)
pick n [] = none
pick zero (op ∷ ops) = some (op, ops)
pick (suc n) (op ∷ ops) = elim (pick n ops) [ none ↦ none | some (x, rest) ↦ some (x, op ∷ rest) ]

module _ {W : Type 0} where
  unfoldable pub run_op : Outcome → Option (Op × List Op) → Client W → Client W
  run_op o none c = c
  run_op o (some (op, rest)) c = handle op o (record c { ioc = rest })

  -- Handlers run only while the thread is inside `ioc.run()`.
  unfoldable pub complete : Thread → ℕ → Outcome → Client W → Client W
  complete inside n o c = run_op o (pick n c.ioc) c
  complete absent n o c = c
  complete finished n o c = c

  unfoldable pub leave : Thread → List Op → Client W → Client W
  leave inside [] c = record c { io_thread = finished }
  leave _ _ c = c

  unfoldable pub step : Event W → Client W → Client W
  unfolding leave complete run_op
  step (completes n o) c = complete c.io_thread n o c
  step returns c = leave c.io_thread c.ioc c
  step connects c = (connect_to 5000 c).0
  step disconnects c = disconnect c
  step (sends m) c = (send m c).0
  step (sets_reconnect b n) c = set_auto_reconnect b n c
  step (sets_heartbeat n) c = set_heartbeat_interval n c
  step (sets_message f) c = record c { message_callback = f }
  step (sets_error f) c = record c { error_callback = f }
  step (sets_connect f) c = record c { connect_callback = f }
  step (sets_close f) c = record c { close_callback = f }

  unfoldable pub run : List (Event W) → Client W → Client W
  run [] c = c
  run (e ∷ es) c = run es (step e c)
