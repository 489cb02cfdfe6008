-- ===== src/WebSocketClient/Base/Calls.antt =====
-- The calls of a `WebSocketClientBase` that can change it, and what they are to come to.
use uni_serve_libhttp.Common.{ℕ, Bool, true, false, List, [], ◌∷◌, Str, take}
use uni_serve_libhttp.WebSocketClient.Base.{
  MessageCallback, ErrorCallback, ConnectCallback, CloseCallback,
}

-- A call of the interface that can change the object.
pub data Call (W : Type 0) : Type 0 where
  message_callback : MessageCallback W → Call W
  error_callback : ErrorCallback W → Call W
  connect_callback : ConnectCallback W → Call W
  close_callback : CloseCallback W → Call W
  connects : ℕ → Call W
  disconnects : Call W
  sends : Str → Call W
  sends_binary : Str → ℕ → Call W
  auto_reconnect : Bool → ℕ → Call W
  heartbeat : ℕ → Call W
  verify_certificate : Bool → Call W
  certificate_file private_key_file authority_file : Str → Call W

-- What a call asks of the thread of an object: to start a connection, to send the next message, to
-- end the connection.
pub data Ask : Type 0 where
  to_connect to_send to_close : Ask

module _ {W : Type 0} where
  -- The messages of a call.
  abbrev pub messages_of : Call W → List Str
  messages_of (sends message) = message ∷ []
  messages_of (sends_binary buffer size) = take size buffer ∷ []
  messages_of _ = []

  -- What a call is to ask for, by whether the object is connected, and whether it is connecting.
  abbrev pub asks_of : Call W → Bool → Bool → List Ask
  asks_of (connects timeout_ms) false false = to_connect ∷ []
  asks_of disconnects true connecting = to_close ∷ []
  asks_of disconnects false true = to_close ∷ []
  asks_of (sends message) true connecting = to_send ∷ []
  asks_of (sends_binary buffer size) true connecting = to_send ∷ []
  asks_of _ connected connecting = []

  -- Whether the object is connecting behind a call.
  abbrev pub connecting_after : Call W → Bool → Bool → Bool
  connecting_after (connects timeout_ms) false connecting = true
  connecting_after _ connected connecting = connecting

-- What stands behind the interface: whether a connection is being made, the messages that were taken
-- and not yet handed to the socket, and what was asked of the thread and is still to be done.
pub record Inside (S : Type 0) : Type 0 where
  pub is_connecting : S → Bool
  pub queued : S → List Str
  pub asked : S → List Ask
