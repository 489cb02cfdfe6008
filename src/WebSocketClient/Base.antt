-- ===== src/WebSocketClient/Base.antt =====
-- inc/us/WebSocketClientBase.hpp: the interface of all WebSocket clients, as the operations of an
-- object of type `S`, and what `WebSocketClient` makes of it.
pub mod Calls
pub mod Contract
use uni_serve_libhttp.Common.{ℕ, Bool, true, false, Option, Str}
use uni_serve_libhttp.WebSocketClient.{
  Program, Client, connect_to, disconnect, send, send_binary, set_auto_reconnect,
  set_heartbeat_interval,
}
use uni_serve_libhttp.WebSocketClient

module _ (W : Type 0) where
  -- `MessageCallback` and `ErrorCallback`; an empty `std::function` is `none`.
  abbrev pub MessageCallback : Type 0
  MessageCallback = Option (Str → W → Program W)

  abbrev pub ErrorCallback : Type 0
  ErrorCallback = Option (Str → W → Program W)

  abbrev pub ConnectCallback : Type 0
  ConnectCallback = Option (Bool → W → Program W)

  abbrev pub CloseCallback : Type 0
  CloseCallback = Option (W → Program W)

pub record WebSocketClientBase (W S : Type 0) : Type 0 where
  pub set_message_callback : MessageCallback W → S → S
  pub set_error_callback : ErrorCallback W → S → S
  pub set_connect_callback : ConnectCallback W → S → S
  pub set_close_callback : CloseCallback W → S → S
  pub connect : ℕ → S → S × Bool
  pub disconnect : S → S
  pub is_connected : S → Bool
  pub send : Str → S → S × Bool
  pub send_binary : Str → ℕ → S → S × Bool
  pub set_auto_reconnect : Bool → ℕ → S → S
  pub set_heartbeat_interval : ℕ → S → S
  pub get_host : S → Str
  pub get_port : S → Str
  pub get_path : S → Str
  pub is_secure : S → Bool
  pub set_verify_certificate : Bool → S → S
  pub set_certificate_file : Str → S → S
  pub set_private_key_file : Str → S → S
  pub set_certificate_authority_file : Str → S → S

module _ {W : Type 0} where
  unfoldable pub set_message_callback : MessageCallback W → Client W → Client W
  set_message_callback callback c = record c { message_callback = callback }

  unfoldable pub set_error_callback : ErrorCallback W → Client W → Client W
  set_error_callback callback c = record c { error_callback = callback }

  unfoldable pub set_connect_callback : ConnectCallback W → Client W → Client W
  set_connect_callback callback c = record c { connect_callback = callback }

  unfoldable pub set_close_callback : CloseCallback W → Client W → Client W
  set_close_callback callback c = record c { close_callback = callback }

  unfoldable pub is_connected : Client W → Bool
  is_connected c = c.connected

  unfoldable pub get_host : Client W → Str
  get_host c = c.host

  unfoldable pub get_port : Client W → Str
  get_port c = c.port

  unfoldable pub get_path : Client W → Str
  get_path c = c.path

  -- The client has no TLS, and ignores what is said of certificates.
  unfoldable pub is_secure : Client W → Bool
  is_secure c = false

  unfoldable pub set_verify_certificate : Bool → Client W → Client W
  set_verify_certificate verify c = c

  unfoldable pub set_certificate_file : Str → Client W → Client W
  set_certificate_file cert_file c = c

  unfoldable pub set_private_key_file : Str → Client W → Client W
  set_private_key_file key_file c = c

  unfoldable pub set_certificate_authority_file : Str → Client W → Client W
  set_certificate_authority_file ca_file c = c

  -- `WebSocketClient` as a `WebSocketClientBase`.
  abbrev pub websocket_client : WebSocketClientBase W (Client W)
  websocket_client = record {
    set_message_callback = set_message_callback;
    set_error_callback = set_error_callback;
    set_connect_callback = set_connect_callback;
    set_close_callback = set_close_callback;
    connect = connect_to;
    disconnect = disconnect;
    is_connected = is_connected;
    send = send;
    send_binary = send_binary;
    set_auto_reconnect = set_auto_reconnect;
    set_heartbeat_interval = set_heartbeat_interval;
    get_host = get_host;
    get_port = get_port;
    get_path = get_path;
    is_secure = is_secure;
    set_verify_certificate = set_verify_certificate;
    set_certificate_file = set_certificate_file;
    set_private_key_file = set_private_key_file;
    set_certificate_authority_file = set_certificate_authority_file;
  }
