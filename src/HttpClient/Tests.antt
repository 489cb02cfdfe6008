-- ===== src/HttpClient/Tests.antt =====
-- A transfer with two header lines and two pieces of a body, and the laws applied to it.
use uni_serve_libhttp.Common.{
  ℕ, suc, ◌+◌, ◌==◌, ◌≡◌, refl, List, [], ◌∷◌, ◌++◌, none, some, if◌then◌else◌, str_eq, bytes,
  insert, arith,
}
use uni_serve_libhttp.HttpClient.{
  bad_function_call, Callback, deliver, write_callback, post, Setting, HttpClient, header, body,
  Transfer, header_callback, request_settings, request_stream_sync,
}
use uni_serve_libhttp.HttpClient.Headers.{header_callback_lem}
use uni_serve_libhttp.HttpClient.Requests.{IsRequested, request_stream_sync-IsRequested}
use uni_serve_libhttp.HttpClient.Memory.{
  Memory, construct, destroy, sets_header, clears_headers, requests, run_calls,
}
use uni_serve_libhttp.HttpClient.Memory as Memory
use uni_serve_libhttp.HttpClient.Memory.Safety.{destroy-run_calls}

abbrev used : HttpClient
used = record {
  settings = [];
  headers = bytes "Accept: */*" ∷ [];
  response_headers = (bytes "Old", bytes "field") ∷ [];
  response_code = 404;
}

-- The network counts the transfers.
abbrev transfer : List Setting → ℕ → Transfer ℕ
transfer settings w = record {
  deliveries =
      header (bytes "HTTP/1.1 200 OK")
      ∷ (header (bytes "Server: us") ∷ (body (bytes "he") ∷ (body (bytes "y") ∷ [])));
  error = none;
  code = 200;
  world = suc w;
}

-- A callback that throws where the body is not the one that it knows.
abbrev tell : Callback ℕ
tell = some (λ text w. (w + 100, if str_eq text (bytes "hey") then none else some text))

told_once :
    (request_stream_sync transfer post (bytes "http://h/") (bytes "d") tell used 0).world ≡ 101
unfolding request_stream_sync deliver write_callback header_callback str_eq
told_once = refl

empty_callback :
    (request_stream_sync transfer post (bytes "http://h/") (bytes "d") none used 0).thrown
    ≡ some bad_function_call
unfolding request_stream_sync deliver write_callback header_callback
empty_callback = refl

header_callback_lem_example :
    (header_callback
        (([] ++ (bytes "Server" ++ [])) ++ (b':' ∷ (bytes " " ++ (bytes "us" ++ (13 ∷ (10 ∷ []))))))
        used
      ≡ record used {
        response_headers = insert (bytes "Server") (bytes "us") used.response_headers;
      })
    × (header_callback (bytes "HTTP/1.1 200 OK") used ≡ used)
    × (header_callback ([] ++ (b':' ∷ bytes "x")) used ≡ used)
    × (header_callback (bytes "X-Empty" ++ (b':' ∷ (32 ∷ (13 ∷ (10 ∷ []))))) used ≡ used)
header_callback_lem_example =
    header_callback_lem [] (bytes "Server") [] (bytes " ") (bytes "us") (13 ∷ (10 ∷ []))
      (bytes "HTTP/1.1 200 OK") (bytes "x") (bytes "X-Empty") (32 ∷ (13 ∷ (10 ∷ []))) used tt tt
      (refl, tt) (refl, (refl, tt)) (ground arith) refl refl refl refl (ground arith) (ground arith)
      (refl, (refl, (refl, tt)))

request_stream_sync-IsRequested_example :
    IsRequested tell
      (bytes "Accept: */*" ∷ [])
      (transfer
        (request_settings post (bytes "http://h/") (bytes "d") (bytes "Accept: */*" ∷ []))
        0)
      (request_stream_sync transfer post (bytes "http://h/") (bytes "d") tell used 0)
request_stream_sync-IsRequested_example =
    request_stream_sync-IsRequested transfer post (bytes "http://h/") (bytes "d") tell used 0

-- A heap where five objects were allocated, of which one is live.
abbrev heap : Memory
heap = record { live = λ k. k == 3; http_header = λ k. none; allocated = 5; faults = 0 }

abbrev life : List Memory.Call
life = sets_header ∷ (sets_header ∷ (requests ∷ (clears_headers ∷ (requests ∷ (sets_header ∷ [])))))

destroy-run_calls_example :
    ((k : ℕ) → (destroy (run_calls life (construct heap))).live k ≡ heap.live k)
    × ((destroy (run_calls life (construct heap))).faults ≡ heap.faults)
destroy-run_calls_example = destroy-run_calls heap life (λ k l. ground (arith, l))
