-- ===== src/HttpClient.antt =====
-- inc/us/HttpClient.hpp: the client over libcurl. libcurl is not part of the repository: a transfer
-- is a parameter, which gets the options of the handle and says what the callbacks are called with.
pub mod Headers
pub mod Requests
pub mod Memory
mod Tests
use uni_serve_libhttp.Common.{
  ℕ, suc, Bool, true, false, not, ◌&&◌, ◌||◌, List, [], ◌∷◌, ◌++◌, Option, none, some, ◌==◌,
  if◌then◌else◌, Str, bytes, empty, find, take, drop, length, insert,
}

pub data HttpMethod : Type 0 where
  get post put delete patch head options : HttpMethod

-- A call of `curl_easy_setopt`. The two callbacks and what they get are fixed.
pub data Setting : Type 0 where
  url custom_request : Str → Setting
  http_get post_request no_body header_callbacks write_callbacks : Setting
  post_fields : Str → Setting
  post_field_size timeout connect_timeout : ℕ → Setting
  http_header : List Str → Setting

-- `HttpClient`. `settings` are the options of `curl_`, in the order of the calls that set them.
pub record HttpClient : Type 0 where
  pub settings : List Setting
  pub headers : List Str
  pub response_headers : List (Str × Str)
  pub response_code : ℕ

-- What a transfer calls: `header_callback` or `write_callback`, with the bytes at its pointer.
pub data Delivery : Type 0 where
  header body : Str → Delivery

-- `curl_easy_perform`: its calls in order, the text of its error, if any, and the response code.
pub record Transfer (W : Type 0) : Type 0 where
  pub deliveries : List Delivery
  pub error : Option Str
  pub code : ℕ
  pub world : W

-- The text in front of the first NUL, as `c_str()` is read.
unfoldable pub c_string : Str → Str
c_string [] = []
c_string (c ∷ s) = if c == 0 then [] else c ∷ c_string s

-- The constructor; `none` where it throws, which is where `curl_easy_init` fails.
unfoldable pub new_client : Bool → Option HttpClient
new_client initialized =
    if initialized
    then some (record { settings = []; headers = []; response_headers = []; response_code = 0 })
    else none

unfoldable pub set_header : Str → HttpClient → HttpClient
set_header line c = record c { headers = c.headers ++ (c_string line ∷ []) }

unfoldable pub clear_headers : HttpClient → HttpClient
clear_headers c = record c { headers = [] }

-- The two options that give a request its data.
unfoldable pub data_settings : Str → List Setting
data_settings data_text =
    if empty data_text
    then []
    else post_fields data_text ∷ (post_field_size (length data_text) ∷ [])

-- `set_http_method`
unfoldable pub method_settings : HttpMethod → Str → List Setting
unfolding data_settings
method_settings get data_text = http_get ∷ []
method_settings post data_text = post_request ∷ data_settings data_text
method_settings put data_text = custom_request (bytes "PUT") ∷ data_settings data_text
method_settings delete data_text = custom_request (bytes "DELETE") ∷ []
method_settings patch data_text = custom_request (bytes "PATCH") ∷ data_settings data_text
method_settings head data_text = no_body ∷ []
method_settings options data_text = custom_request (bytes "OPTIONS") ∷ []

-- `" \t"` and `" \t\r\n"`
abbrev pub is_blank : ℕ → Bool
is_blank c = c == 32 || c == 9

abbrev pub is_blank_or_eol : ℕ → Bool
is_blank_or_eol c = is_blank c || c == 13 || c == 10

-- `s.erase(0, s.find_first_not_of(set))`
unfoldable pub trim_left : (ℕ → Bool) → Str → Str
trim_left set [] = []
trim_left set (c ∷ s) = let rest = trim_left set s in if set c then rest else c ∷ s

-- `s.erase(s.find_last_not_of(set) + 1)`
unfoldable pub trim_right : (ℕ → Bool) → Str → Str
trim_right set [] = []
trim_right set (c ∷ s) = let rest = trim_right set s in if empty rest && set c then [] else c ∷ rest

-- The last test of `header_callback`.
unfoldable pub store : Str → Str → HttpClient → HttpClient
store key value c =
    if not (empty key) && not (empty value)
    then record c { response_headers = insert key value c.response_headers }
    else c

unfoldable pub header_callback : Str → HttpClient → HttpClient
unfolding store trim_left trim_right
header_callback header_line c = elim (find b':' header_line) [
  | none ↦ c
  | some colon_pos ↦
      store (trim_right is_blank (trim_left is_blank (take colon_pos header_line)))
        (trim_right is_blank_or_eol (trim_left is_blank (drop (suc colon_pos) header_line))) c
]

unfoldable pub write_callback : Str → Str → Str
write_callback bytes_read response = response ++ bytes_read

-- The calls of a transfer, over the client and `full_response`.
unfoldable pub deliver : List Delivery → HttpClient → Str → HttpClient × Str
deliver [] c response = (c, response)
deliver (header line ∷ ds) c response = deliver ds (header_callback line c) response
deliver (body text ∷ ds) c response = deliver ds c (write_callback text response)

-- An exception that leaves a request: the `std::runtime_error` of a transfer that fails, with its
-- message, what the call of an empty `std::function` throws, or what the callback throws.
pub data Thrown : Type 0 where
  runtime_error : Str → Thrown
  bad_function_call : Thrown
  from_callback : Str → Thrown

-- What a request leaves: the client, the exception that it throws, and the state of the application
-- and of the network.
pub record Requested (W : Type 0) : Type 0 where
  pub client : HttpClient
  pub thrown : Option Thrown
  pub world : W

-- The callback, `none` where it is empty. With the state that it leaves, it says whether it throws.
abbrev pub Callback : Type 0 → Type 0
Callback W = Option (Str → W → W × Option Str)

module _ {W : Type 0} where
  abbrev pub after_callback : W × Option Str → W × Option Thrown
  after_callback (w, none) = (w, none)
  after_callback (w, some e) = (w, some (from_callback e))

  unfoldable pub call_back : Callback W → Str → W → W × Option Thrown
  call_back none text w = (w, some bad_function_call)
  call_back (some f) text w = after_callback (f text w)

-- The options of the handle when the transfer starts.
unfoldable pub request_settings : HttpMethod → Str → Str → List Str → List Setting
request_settings method address data_text headers =
    (url (c_string address) ∷ method_settings method data_text)
    ++ (http_header headers
        ∷ (header_callbacks ∷ (write_callbacks ∷ (timeout 30 ∷ (connect_timeout 10 ∷ [])))))

module _ {W : Type 0} where
  -- What follows `curl_easy_perform`.
  unfoldable pub finish : Callback W → Option Str → ℕ → W → HttpClient × Str → Requested W
  unfolding call_back
  finish callback (some e) code w (c, full_response) = record {
    client = c;
    thrown = some (runtime_error (bytes "CURL error: " ++ e));
    world = w;
  }
  finish callback none code w (c, full_response) =
      let (w', thrown) =
        if not (empty full_response) then call_back callback full_response w else (w, none) in
      record { client = record c { response_code = code }; thrown = thrown; world = w' }

module _ {W : Type 0} (perform : List Setting → W → Transfer W) where
  unfoldable pub request_stream_sync :
      HttpMethod → Str → Str → Callback W → HttpClient → W → Requested W
  unfolding finish request_settings
  request_stream_sync method address data_text callback c w =
      let set_up : HttpClient = record c {
        settings = request_settings method address data_text c.headers;
        response_headers = [];
        response_code = 0;
      } in
      let transfer = perform set_up.settings w in
      finish callback transfer.error transfer.code transfer.world
        (deliver transfer.deliveries set_up [])

  unfoldable pub get_stream_sync : Str → Callback W → HttpClient → W → Requested W
  get_stream_sync address callback c w = request_stream_sync get address [] callback c w

  unfoldable pub post_stream_sync : Str → Str → Callback W → HttpClient → W → Requested W
  post_stream_sync address data_text callback c w =
      request_stream_sync post address data_text callback c w

  unfoldable pub put_stream_sync : Str → Str → Callback W → HttpClient → W → Requested W
  put_stream_sync address data_text callback c w =
      request_stream_sync put address data_text callback c w

  unfoldable pub delete_stream_sync : Str → Callback W → HttpClient → W → Requested W
  delete_stream_sync address callback c w = request_stream_sync delete address [] callback c w
