-- ===== src/WebSocketClient/Tests.antt =====
-- Clients in concrete runs, and the laws applied to them.
use uni_serve_libhttp.Common.{
  ℕ, suc, ◌≡◌, refl, true, List, [], ◌∷◌, ◌++◌, none, some, bytes, Str, if◌then◌else◌,
}
use uni_serve_libhttp.WebSocketClient.{
  Program, done, throws, send_then, ok, closed, error, read, write, post_send, inside, finished,
  Client, new_client, send, connect_to, handle,
}
use uni_serve_libhttp.WebSocketClient.Runs.{
  Event, completes, returns, connects, disconnects, sends, sets_reconnect, sets_message, sets_close,
  pick, step, run,
}
use uni_serve_libhttp.WebSocketClient.Flags.{IsSound, run-IsSound}
use uni_serve_libhttp.WebSocketClient.Sending.{line, line-run}
use uni_serve_libhttp.WebSocketClient.GivenUp.{IsGivenUp}
use uni_serve_libhttp.WebSocketClient.Deaf.{IsDeaf, run-throws-IsDeaf}
use uni_serve_libhttp.WebSocketClient.Lifetime.{
  IsDead, run-new_client-IsDead, resting, overtaken, disconnect_overtaken,
  run-disconnects-IsGivenUp,
}
use uni_serve_libhttp.WebSocketClient.Draining.{failures, weight, run-failures}
use uni_serve_libhttp.WebSocketClient.Base.{websocket_client}
use uni_serve_libhttp.WebSocketClient.Base.Contract.{IsContract, impl, websocket_client-IsContract}

-- The application counts the connections that end.
abbrev echo_client : Client ℕ
echo_client = new_client (bytes "localhost") (bytes "9002") (bytes "/chat") 0

abbrev connection_made : List (Event ℕ)
connection_made =
    connects ∷ (completes 0 (ok []) ∷ (completes 0 (ok []) ∷ (completes 0 (ok []) ∷ [])))

-- Two messages are sent; the first one is written, then the connection ends.
abbrev conversation : List (Event ℕ)
conversation =
    connection_made
    ++ (sends (bytes "a")
        ∷ (sends (bytes "b")
            ∷ (completes 1 (ok [])
                ∷ (completes 2 (ok [])
                    ∷ (sets_close (some (λ w. done (suc w))) ∷ (completes 0 (closed []) ∷ []))))))

conversation_written : (run conversation echo_client).written ≡ bytes "a" ∷ (bytes "b" ∷ [])
unfolding run step send connect_to new_client pick handle
conversation_written = refl

conversation_closed : (run conversation echo_client).world ≡ 1
unfolding run step send connect_to new_client pick handle
conversation_closed = refl

run-IsSound_example :
    IsSound (run conversation (new_client (bytes "localhost") (bytes "9002") (bytes "/chat") 0))
run-IsSound_example = run-IsSound (bytes "localhost") (bytes "9002") (bytes "/chat") 0 conversation

-- An echo: the message callback sends what it is told. The message is sent behind the one that the
-- application sends first.
abbrev echoing : List (Event ℕ)
echoing =
    connection_made
    ++ (sets_message (some (λ m w. send_then m (λ sent. done (if sent then suc w else w))))
        ∷ (sends (bytes "a")
            ∷ (completes 0 (ok (bytes "b")) ∷ (completes 0 (ok []) ∷ (completes 2 (ok []) ∷ [])))))

echo_written : (run echoing echo_client).written ≡ bytes "a" ∷ (bytes "b" ∷ [])
unfolding run step send connect_to new_client pick handle
echo_written = refl

echo_world : (run echoing echo_client).world ≡ 1
unfolding run step send connect_to new_client pick handle
echo_world = refl

line-run_example :
    (new : List Str) × ((run echoing echo_client).accepted ≡ echo_client.accepted ++ new)
    × (line (run echoing echo_client) ≡ line echo_client ++ new)
line-run_example = line-run echoing echo_client

run-new_client-IsDead_example : IsDead 0 (
    run
      (returns ∷ connection_made)
      (new_client (bytes "localhost") (bytes "9002") (bytes "/chat") 0))
run-new_client-IsDead_example =
    run-new_client-IsDead (bytes "localhost") (bytes "9002") (bytes "/chat") 0 connection_made

disconnect_overtaken_example : (run (overtaken []) (resting echo_client)).connected ≡ true
disconnect_overtaken_example = disconnect_overtaken echo_client []

run-disconnects-IsGivenUp_example : IsGivenUp (
    run
      (disconnects ∷ (sets_reconnect true 10 ∷ (connects ∷ (completes 0 (error []) ∷ []))))
      (record echo_client { connecting = true }))
unfolding new_client
run-disconnects-IsGivenUp_example =
    run-disconnects-IsGivenUp (record echo_client { connecting = true })
      (sets_reconnect true 10 ∷ (connects ∷ (completes 0 (error []) ∷ []))) refl refl

-- A connected client with a read, a write and a posted send to come.
abbrev busy_client : Client ℕ
busy_client = record echo_client {
  io_thread = inside;
  ioc = read ∷ (write (bytes "a") ∷ (post_send ∷ []));
  connected = true;
  error_callback = some (λ e w. throws w);
}

run-failures_example :
    (run
      (failures (weight busy_client.ioc) (bytes "reset") ++ (returns ∷ []))
      busy_client).io_thread
    ≡ finished
unfolding new_client
run-failures_example = run-failures busy_client (bytes "reset") refl refl refl (λ e w. tt)

-- A message callback that sends, and throws at every message.
abbrev picky : Str → ℕ → Program ℕ
picky m w = send_then (bytes "bad") (λ sent. throws (suc w))

abbrev picky_client : Client ℕ
picky_client = record busy_client {
  ioc = read ∷ (write (bytes "a") ∷ []);
  message_callback = some picky;
}

abbrev afterwards : List (Event ℕ)
afterwards =
    completes 0 (ok [])
    ∷ (connects
        ∷ (sends (bytes "hello")
            ∷ (completes 0 (ok []) ∷ (completes 0 (ok []) ∷ (sets_message none ∷ [])))))

run-throws-IsDeaf_example : IsDeaf (run (completes 0 (ok (bytes "m")) ∷ afterwards) picky_client)
unfolding new_client
run-throws-IsDeaf_example =
    run-throws-IsDeaf picky_client picky (bytes "m") (write (bytes "a") ∷ []) afterwards refl refl
      refl refl (tt, tt) (λ sent. tt) tt

websocket_client-IsContract_example : IsContract (websocket_client {W = ℕ}) impl
websocket_client-IsContract_example = websocket_client-IsContract
