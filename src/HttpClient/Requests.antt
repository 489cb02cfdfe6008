-- ===== src/HttpClient/Requests.antt =====
-- What a request does, whatever the client did before.
use mathlib.Core.List.{append_assoc, append-nil}
use uni_serve_libhttp.Common.{
  ◌≡◌, refl, ap, ◌∙◌, sym, not, List, [], ◌∷◌, ◌++◌, Option, none, some, if◌then◌else◌, Str, bytes,
  empty, find, arith, Option-cases, inl, inr,
}
use uni_serve_libhttp.HttpClient.{
  HttpMethod, Setting, HttpClient, Delivery, header, body, Transfer, Thrown, runtime_error,
  Callback, call_back, Requested, store, header_callback, write_callback, deliver, request_settings,
  finish, request_stream_sync,
}

-- The header lines of a transfer, and its body, put together from its pieces.
abbrev pub header_lines : List Delivery → List Str
header_lines [] = []
header_lines (header line ∷ ds) = line ∷ header_lines ds
header_lines (body text ∷ ds) = header_lines ds

abbrev pub body_of : List Delivery → Str
body_of [] = []
body_of (header line ∷ ds) = body_of ds
body_of (body text ∷ ds) = text ++ body_of ds

-- A client that has stored some fields, and nothing else.
abbrev pub bare : List (Str × Str) → HttpClient
bare m = record { settings = []; headers = []; response_headers = m; response_code = 0 }

-- The fields that some lines store.
pub fields_of : List Str → List (Str × Str) → List (Str × Str)
fields_of [] m = m
fields_of (line ∷ lines) m = fields_of lines (header_callback line (bare m)).response_headers

store-bare :
    (key value : Str) (c : HttpClient)
    → store key value c
      ≡ record c { response_headers = (store key value (bare c.response_headers)).response_headers }
unfolding store
store-bare key value c = ground arith

header_callback-bare :
    (line : Str) (c : HttpClient)
    → header_callback line c ≡ record c {
      response_headers = (header_callback line (bare c.response_headers)).response_headers;
    }
unfolding header_callback
header_callback-bare line c = elim (Option-cases (find b':' line)) [
  | inl e ↦ rw (e, header_callback) refl
  | inr (i, e) ↦ rw (e, header_callback) (store-bare _ _ c)
]

deliver_lem :
    (ds : List Delivery) (c : HttpClient) (response : Str)
    → deliver ds c response ≡ (
      record c { response_headers = fields_of (header_lines ds) c.response_headers },
      response ++ body_of ds,
    )
unfolding deliver fields_of write_callback
deliver_lem [] c response = ap (λ s. (c, s)) (sym (append-nil response))
deliver_lem (header line ∷ ds) c response =
    deliver_lem ds (header_callback line c) response
    ∙ ap
        (λ d. (
          record d { response_headers = fields_of (header_lines ds) d.response_headers },
          response ++ body_of ds,
        ))
        (header_callback-bare line c)
deliver_lem (body text ∷ ds) c response =
    deliver_lem ds c (response ++ text)
    ∙ ap (λ s. (record c { response_headers = fields_of (header_lines ds) c.response_headers }, s))
        (append_assoc response text (body_of ds))

module _ {W : Type 0} where
  -- The application is told a body once, and nothing of an empty one; what the callback throws.
  abbrev pub told : Callback W → Str → W → W × Option Thrown
  told callback [] w = (w, none)
  told callback (c ∷ s) w = call_back callback (c ∷ s) w

  -- Without an error, the response code, and the body told, with what the callback throws; with one,
  -- its exception, and neither.
  abbrev pub IsOutcome : Callback W → Option Str → Transfer W → Requested W → Type 0
  IsOutcome callback none tr r =
      (r.client.response_code ≡ tr.code)
      × ((r.world, r.thrown) ≡ told callback (body_of tr.deliveries) tr.world)
  IsOutcome callback (some e) tr r =
      (r.thrown ≡ some (runtime_error (bytes "CURL error: " ++ e)))
      × (r.client.response_code ≡ 0)
      × (r.world ≡ tr.world)

  pub record IsRequested (callback : Callback W) (headers : List Str) (tr : Transfer W)
      (r : Requested W) : Type 0 where
    pub kept : r.client.headers ≡ headers
    pub fields : r.client.response_headers ≡ fields_of (header_lines tr.deliveries) []
    pub outcome : IsOutcome callback tr.error tr r

  told-if :
      (callback : Callback W) (s : Str) (w : W)
      → (if not (empty s) then call_back callback s w else (w, none)) ≡ told callback s w
  told-if callback [] w = refl
  told-if callback (c ∷ s) w = refl

  finish-IsRequested :
      (callback : Callback W) (error : Option Str) (tr : Transfer W) (c : HttpClient)
      → tr.error ≡ error
      → c.response_code ≡ 0
      → c.response_headers ≡ []
      → IsRequested callback c.headers tr
          (finish callback error tr.code tr.world (deliver tr.deliveries c []))
  unfolding finish
  finish-IsRequested callback none tr c e z f = rw (deliver_lem tr.deliveries c []) (record {
    kept = refl;
    fields = ap (fields_of (header_lines tr.deliveries)) f;
    outcome = rw e (refl, told-if callback (body_of tr.deliveries) tr.world);
  })
  finish-IsRequested callback (some m) tr c e z f = rw (deliver_lem tr.deliveries c []) (record {
    kept = refl;
    fields = ap (fields_of (header_lines tr.deliveries)) f;
    outcome = rw e (refl, z, refl);
  })

  -- A request starts one transfer, whose options depend on the request and on the headers set, and
  -- on nothing that earlier requests did. Afterwards the fields stored are those of its own header
  -- lines. Where the transfer succeeds, its response code is kept, and the callback is called once
  -- with the whole body, or not at all where the body is empty; what it throws, or what an empty
  -- one throws when it is called, leaves the request with all that kept. Where the transfer fails,
  -- an exception with its error is thrown, the response code is 0, and the callback is not called.
  pub request_stream_sync-IsRequested :
      (perform : List Setting → W → Transfer W) (method : HttpMethod) (address data_text : Str)
      (callback : Callback W) (c : HttpClient) (w : W)
      → IsRequested callback c.headers
          (perform (request_settings method address data_text c.headers) w)
          (request_stream_sync perform method address data_text callback c w)
  unfolding request_stream_sync
  request_stream_sync-IsRequested perform method address data_text callback c w =
      let settings = request_settings method address data_text c.headers in
      let set_up : HttpClient = record c {
        settings = settings;
        response_headers = [];
        response_code = 0;
      } in
      let tr = perform settings w in finish-IsRequested callback tr.error tr set_up refl refl refl
