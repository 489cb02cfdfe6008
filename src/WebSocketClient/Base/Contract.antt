-- ===== src/WebSocketClient/Base/Contract.antt =====
-- What a user of a `WebSocketClientBase` may rely on between two completions, and that
-- `WebSocketClient` keeps it.
use mathlib.Core.List.{append-nil}
use uni_serve_libhttp.WebSocketClient.Base.Calls.{
  Call, message_callback, error_callback, connect_callback, close_callback, connects, disconnects,
  sends, sends_binary, auto_reconnect, heartbeat, verify_certificate, certificate_file,
  private_key_file, authority_file, Ask, to_connect, to_send, to_close, messages_of, asks_of,
  connecting_after, Inside,
}
use uni_serve_libhttp.Common.{
  ℕ, ◌≡◌, refl, sym, Bool, true, false, List, [], ◌∷◌, Str, take, arith, ◌⊎◌, map, ◌++◌, not, ◌||◌,
  if◌then◌else◌,
}
use uni_serve_libhttp.WebSocketClient.{
  Op, resolve, connect, handshake, read, write, post_connect, post_send, post_close, Client,
  do_connect, connect_to, disconnect, send, send_binary, set_auto_reconnect, set_heartbeat_interval,
}
use uni_serve_libhttp.WebSocketClient.Base.{
  WebSocketClientBase, websocket_client, set_message_callback, set_error_callback,
  set_connect_callback, set_close_callback, is_connected, get_host, get_port, get_path, is_secure,
  set_verify_certificate, set_certificate_file, set_private_key_file,
  set_certificate_authority_file,
}

module _ {W S : Type 0} (base : WebSocketClientBase W S) where
  abbrev pub apply : Call W → S → S
  apply (message_callback f) s = base.set_message_callback f s
  apply (error_callback f) s = base.set_error_callback f s
  apply (connect_callback f) s = base.set_connect_callback f s
  apply (close_callback f) s = base.set_close_callback f s
  apply (connects timeout_ms) s = (base.connect timeout_ms s).0
  apply disconnects s = base.disconnect s
  apply (sends message) s = (base.send message s).0
  apply (sends_binary buffer size) s = (base.send_binary buffer size s).0
  apply (auto_reconnect enable interval_ms) s = base.set_auto_reconnect enable interval_ms s
  apply (heartbeat interval_ms) s = base.set_heartbeat_interval interval_ms s
  apply (verify_certificate verify) s = base.set_verify_certificate verify s
  apply (certificate_file file) s = base.set_certificate_file file s
  apply (private_key_file file) s = base.set_private_key_file file s
  apply (authority_file file) s = base.set_certificate_authority_file file s

  -- The calls only ask: whether the client is connected, where to, and whether over TLS, changes at
  -- completions, if ever.
  pub record IsContract (inside : Inside S) : Type 0 where
    pub connected : (call : Call W) (s : S) → base.is_connected (apply call s) ≡ base.is_connected s
    pub host : (call : Call W) (s : S) → base.get_host (apply call s) ≡ base.get_host s
    pub port : (call : Call W) (s : S) → base.get_port (apply call s) ≡ base.get_port s
    pub path : (call : Call W) (s : S) → base.get_path (apply call s) ≡ base.get_path s
    pub secure : (call : Call W) (s : S) → base.is_secure (apply call s) ≡ base.is_secure s
    -- A connection is started exactly where there is none and none is being made.
    pub starts :
        (timeout_ms : ℕ) (s : S)
        → (base.connect timeout_ms s).1 ≡ not (base.is_connected s || inside.is_connecting s)
    pub connecting :
        (call : Call W) (s : S)
        → inside.is_connecting (apply call s)
          ≡ connecting_after call (base.is_connected s) (inside.is_connecting s)
    -- A message is taken exactly while the client is connected, and then it is the last of those
    -- that wait; no other call touches these.
    pub taken : (message : Str) (s : S) → (base.send message s).1 ≡ base.is_connected s
    pub taken_binary :
        (buffer : Str) (size : ℕ) (s : S) → (base.send_binary buffer size s).1 ≡ base.is_connected s
    pub queued :
        (call : Call W) (s : S)
        → inside.queued (apply call s)
          ≡ inside.queued s ++ (if base.is_connected s then messages_of call else [])
    pub asked :
        (call : Call W) (s : S)
        → inside.asked (apply call s)
          ≡ inside.asked s ++ asks_of call (base.is_connected s) (inside.is_connecting s)
    -- What is refused changes nothing.
    pub refused :
        (message : Str) (s : S) → (base.is_connected s ≡ true) ⊎ (base.send message s ≡ (s, false))
    pub refused_connection :
        (timeout_ms : ℕ) (s : S)
        → ((base.connect timeout_ms s).1 ≡ true) ⊎ (base.connect timeout_ms s ≡ (s, false))
    pub binary :
        (buffer : Str) (size : ℕ) (s : S)
        → base.send_binary buffer size s ≡ base.send (take size buffer) s

module _ {W S : Type 0} (base : WebSocketClientBase W S) (inside : Inside S)
    (k : IsContract base inside) where
  -- A user that sends messages one after the other, and the answers that it gets.
  send_each : List Str → S → S × List Bool
  send_each [] s = (s, [])
  send_each (m ∷ ms) s =
      let (s', taken) = base.send m s in let (s'', rest) = send_each ms s' in (s'', taken ∷ rest)

  -- Whoever implements the interface: between completions, a user's messages are all taken, or all
  -- refused.
  send_each-answers :
      (ms : List Str) (s : S) → (send_each ms s).1 ≡ map (λ m. base.is_connected s) ms
  unfolding send_each
  send_each-answers [] s = refl
  send_each-answers (m ∷ ms) s =
      grind (arith, k.taken m s, k.connected (sends m) s, send_each-answers ms (base.send m s).0)

-- What waits in an `io_context`, as the requests of calls.
abbrev pub asks_in : List Op → List Ask
asks_in [] = []
asks_in (resolve ∷ ops) = to_connect ∷ asks_in ops
asks_in (post_send ∷ ops) = to_send ∷ asks_in ops
asks_in (post_close ∷ ops) = to_close ∷ asks_in ops
asks_in (_ ∷ ops) = asks_in ops

asks_in-append :
    (ops : List Op) (op : Op) → asks_in (ops ++ (op ∷ [])) ≡ asks_in ops ++ asks_in (op ∷ [])
asks_in-append [] op = refl
asks_in-append (resolve ∷ ops) op = ground (arith, asks_in-append ops op)
asks_in-append (connect ∷ ops) op = ground (arith, asks_in-append ops op)
asks_in-append (handshake ∷ ops) op = ground (arith, asks_in-append ops op)
asks_in-append (read ∷ ops) op = ground (arith, asks_in-append ops op)
asks_in-append (write m ∷ ops) op = ground (arith, asks_in-append ops op)
asks_in-append (post_connect ∷ ops) op = ground (arith, asks_in-append ops op)
asks_in-append (post_send ∷ ops) op = ground (arith, asks_in-append ops op)
asks_in-append (post_close ∷ ops) op = ground (arith, asks_in-append ops op)

module _ {W : Type 0} where
  -- Before and after a call, the client is in the same connection state and has the same target.
  abbrev Same : Client W → Client W → Type 0
  Same c c' =
      (c'.connected ≡ c.connected) × (c'.host ≡ c.host) × (c'.port ≡ c.port) × (c'.path ≡ c.path)

  apply-Same : (call : Call W) (c : Client W) → Same c (apply websocket_client call c)
  unfolding connect_to do_connect disconnect send send_binary set_auto_reconnect
      set_heartbeat_interval set_message_callback set_error_callback set_connect_callback
      set_close_callback set_verify_certificate set_certificate_file set_private_key_file
      set_certificate_authority_file
  apply-Same _ c = ground arith

  -- The flag, the queue, and the `io_context` of `Impl`.
  abbrev pub impl : Inside (Client W)
  impl = record {
    is_connecting = λ c. c.connecting;
    queued = λ c. c.send_queue;
    asked = λ c. asks_in c.ioc;
  }

  apply-queued :
      (call : Call W) (c : Client W)
      → (apply websocket_client call c).send_queue
        ≡ c.send_queue ++ (if c.connected then messages_of call else [])
  unfolding connect_to do_connect disconnect send send_binary set_auto_reconnect
      set_heartbeat_interval set_message_callback set_error_callback set_connect_callback
      set_close_callback set_verify_certificate set_certificate_file set_private_key_file
      set_certificate_authority_file
  apply-queued (sends m) c = ground (arith, append-nil c.send_queue)
  apply-queued (sends_binary buffer size) c = ground (arith, append-nil c.send_queue)
  apply-queued (connects t) c = ground (arith, append-nil c.send_queue)
  apply-queued disconnects c = ground (arith, append-nil c.send_queue)
  apply-queued _ c = ground (arith, append-nil c.send_queue)

  apply-asked :
      (call : Call W) (c : Client W)
      → asks_in (apply websocket_client call c).ioc
        ≡ asks_in c.ioc ++ asks_of call c.connected c.connecting
  unfolding connect_to do_connect disconnect send send_binary set_auto_reconnect
      set_heartbeat_interval set_message_callback set_error_callback set_connect_callback
      set_close_callback set_verify_certificate set_certificate_file set_private_key_file
      set_certificate_authority_file
  apply-asked (sends m) c =
      ground (arith, append-nil (asks_in c.ioc), asks_in-append c.ioc post_send)
  apply-asked (sends_binary buffer size) c =
      ground (arith, append-nil (asks_in c.ioc), asks_in-append c.ioc post_send)
  apply-asked (connects t) c =
      ground (arith, append-nil (asks_in c.ioc), asks_in-append c.ioc resolve)
  apply-asked disconnects c =
      ground (arith, append-nil (asks_in c.ioc), asks_in-append c.ioc post_close)
  apply-asked _ c = sym (append-nil (asks_in c.ioc))

  apply-connecting :
      (call : Call W) (c : Client W)
      → (apply websocket_client call c).connecting ≡ connecting_after call c.connected c.connecting
  unfolding connect_to do_connect disconnect send send_binary set_auto_reconnect
      set_heartbeat_interval set_message_callback set_error_callback set_connect_callback
      set_close_callback set_verify_certificate set_certificate_file set_private_key_file
      set_certificate_authority_file
  apply-connecting (connects t) c = ground arith
  apply-connecting _ c = ground arith

  -- `WebSocketClient` keeps the contract of its interface, where what stands behind it are its flag
  -- `connecting`, its send queue, and the resolutions, sends and closes that wait in its
  -- `io_context`. No call changes by itself whether it is connected, its host, port and path, and
  -- whether it is secure. `connect` returns true exactly where the client is neither connected nor
  -- connecting, and then it is connecting, with one resolution more; a connect that returns false
  -- changes nothing. A message is taken exactly while the client is connected, and then it is queued
  -- behind the others, with one send more posted; one that is refused changes nothing, and binary
  -- data is sent as the message of its bytes. `disconnect` posts a close exactly where the client is
  -- connected or connecting. No other call queues or posts anything, or sets `connecting`.
  pub websocket_client-IsContract : IsContract (websocket_client {W = W}) impl
  unfolding is_connected get_host get_port get_path is_secure connect_to do_connect disconnect send
      send_binary set_auto_reconnect set_heartbeat_interval set_message_callback set_error_callback
      set_connect_callback set_close_callback set_verify_certificate set_certificate_file
      set_private_key_file set_certificate_authority_file
  websocket_client-IsContract = record {
    connected = λ call s. (apply-Same call s).0;
    host = λ call s. (apply-Same call s).1;
    port = λ call s. (apply-Same call s).2;
    path = λ call s. (apply-Same call s).3;
    secure = λ call s. refl;
    starts = λ timeout_ms s. ground arith;
    connecting = λ call s. apply-connecting call s;
    taken = λ message s. ground arith;
    taken_binary = λ buffer size s. ground arith;
    queued = λ call s. apply-queued call s;
    asked = λ call s. apply-asked call s;
    refused = λ message s. ground arith;
    refused_connection = λ timeout_ms s. ground arith;
    binary = λ buffer size s. ground arith;
  }
