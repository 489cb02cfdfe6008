-- ===== src/HttpServer/Request/Laws.antt =====
-- The answer to every request, middlewares and failures included.
use uni_serve_libhttp.Common.{
  ℕ, ◌≡◌, ◌≢◌, ◌⊎◌, refl, ap, ◌∙◌, inl, inr, false, List, [], ◌∷◌, ◌++◌, Option, none, some, arith,
  Str, bytes, leb, Option-cases,
}
use uni_serve_libhttp.HttpServer.Beast.{Beast, IsBeast, AllowsBody}
use uni_serve_libhttp.HttpServer.Query.{Params, split_target, parse_query_params}
use uni_serve_libhttp.HttpServer.Routes.{Router, find_route}
use uni_serve_libhttp.HttpServer.Request.{
  Result, ok, throws, std_exception, other, Handler, Middleware, Externals, content_type_of, finish,
  prepare_response, with_body, with_type, call_middleware, run_middlewares, after_middleware,
  catch_handler, static_file, serve_file, respond, conclude, handle_request, error_response,
  catch_request, process_request,
}
use uni_serve_libhttp.HttpServer.Request.Chain.{Passes, run-append, run-Passes}
use uni_serve_libhttp.HttpServer.Request.Answer.{
  IsAnswer, by_handler, by_failure, escaped, by_file, missing, type_or, finish-view, view-with_body,
}

module _ {b : Beast} (l : IsBeast b) where
  view-with_type :
      (o : Option Str) (r : b.Response)
      → b.view (with_type b o r)
        ≡ record (b.view r) { content_type = type_or (b.view r).content_type o }
  view-with_type none r = refl
  view-with_type (some t) r = l.view-set_content_type t r

  finish-with_body :
      (c : ℕ) (s : Str) (r : b.Response)
      → AllowsBody c
      → (r' : b.Response) × (finish b (with_body b c s r) ≡ ok r')
        × (b.view r' ≡ record (b.view r) { status = c; body = s })
  finish-with_body c s r a = finish-view l (with_body b c s r) _ (view-with_body l c s r) a

  -- The answer to a request whose handling throws: status 500 as plain text, and a connection that
  -- persists by the request's version alone, whatever the request says of it.
  pub error_response-view :
      (req : b.Request)
      → (r : b.Response) × (error_response b req ≡ ok r)
        × (b.view r ≡ record {
          status = 500;
          content_type = bytes "text/plain";
          body = bytes "500 Internal Server Error\n";
          keep_alive = leb 11 (b.version req);
        })
  unfolding error_response
  error_response-view req =
      let blank = b.set_version (b.version req) b.response in
      let failed = b.set_result 500 blank in
      let typed = b.set_content_type (bytes "text/plain") failed in
      finish-view l (b.set_body (bytes "500 Internal Server Error\n") typed) _
        (cc (
          l.view-set_body (bytes "500 Internal Server Error\n") typed,
          l.view-set_content_type (bytes "text/plain") failed,
          l.view-set_result 500 blank,
          l.view-response (b.version req),
        ))
        (omega arith)

module _ {b : Beast} (l : IsBeast b) {W : Type 0} (x : Externals W)
    (t : Router (Handler b W) (Middleware b W)) where
  catch_handler-IsAnswer :
      (req : b.Request) (path : Str) (params : Params) (r : b.Response) (w : W) (h : Handler b W)
      → find_route t (b.method_string req) path ≡ some h
      → (o : Result b.Response × W) → h req params w ≡ o
      → IsAnswer b x t req path params r w (catch_handler b r o).0 (catch_handler b r o).1
  unfolding catch_handler
  catch_handler-IsAnswer req path params r w h e (ok r', w') f = by_handler h r' w' e f
  catch_handler-IsAnswer req path params r w h e (throws (std_exception what), w') f =
      let (r', g, v) =
        finish-with_body l 500 (bytes "500 Internal Server Error\n") r (omega arith) in
      rw g (by_failure h what r' w' e f v)
  catch_handler-IsAnswer req path params r w h e (throws other, w') f = escaped h w' e f

  static_file-some :
      (path : Str) (w : W) (content : Str)
      → static_file b x t path w ≡ some content
      → (t.static_directory ≢ []) × (x.read_file w (t.static_directory ++ path) ≡ some content)
  unfolding static_file
  static_file-some path w content e = ground arith

  static_file_of_read :
      (path : Str) (w : W) (content : Str)
      → t.static_directory ≢ []
      → x.read_file w (t.static_directory ++ path) ≡ some content
      → static_file b x t path w ≡ some content
  unfolding static_file
  static_file_of_read path w content d e = ground arith

  static_file-none :
      (path : Str) (w : W)
      → static_file b x t path w ≡ none
      → (t.static_directory ≡ []) ⊎ (x.read_file w (t.static_directory ++ path) ≡ none)
  unfolding static_file
  static_file-none path w e = ground arith

  serve_file-view :
      (path content : Str) (r : b.Response)
      → (r' : b.Response) × (serve_file b x t path content r ≡ ok r')
        × (b.view r' ≡ record (b.view r) {
          status = 200;
          content_type =
              type_or
                (b.view r).content_type
                (content_type_of x.ends_with (t.static_directory ++ path));
          body = content;
        })
  unfolding serve_file
  serve_file-view path content r =
      let o = content_type_of x.ends_with (t.static_directory ++ path) in
      finish-view l (with_type b o (with_body b 200 content r)) _
        (cc (view-with_type l o (with_body b 200 content r), view-with_body l 200 content r))
        (omega arith)

  respond-IsAnswer :
      (req : b.Request) (path : Str) (params : Params) (r : b.Response) (w : W)
      → IsAnswer b x t req path params r w
          (respond b x t req path params r w).0
          (respond b x t req path params r w).1
  unfolding respond
  respond-IsAnswer req path params r w =
      elim (Option-cases (find_route t (b.method_string req) path)) [
        | inr (h, e) ↦
            rw (e, respond) (catch_handler-IsAnswer req path params r w h e (h req params w) refl)
        | inl e ↦ elim (Option-cases (static_file b x t path w)) [
          | inr (content, f) ↦
              let (r', g, v) = serve_file-view path content r in
              let (set_up, opened) = static_file-some path w content f in
              rw (e, f, g, respond) (by_file content r' e set_up opened v)
          | inl f ↦
              let (r', g, v) = finish-with_body l 404 (bytes "404 Not Found\n") r (omega arith) in
              rw (e, f, g, respond) (missing r' e (static_file-none path w f) v)
        ]
      ]

  -- The path that the routes see, and the parameters that the application sees.
  abbrev pub path_of : b.Request → Str
  path_of req = (split_target (b.target req)).0

  abbrev pub params_of : b.Request → Params
  params_of req = parse_query_params x.split (split_target (b.target req)).1

  -- Once every middleware has let a request through, the answer is the registered handler's, or
  -- 500 where that throws a `std::exception`, or without a handler the file that the path names
  -- behind the static directory, with status 200, or else 404. The last three keep the
  -- `keep_alive` that the middlewares left, and the content type too unless the file's extension
  -- is known; and none fails in `prepare_payload`.
  pub handle_request-IsAnswer :
      (req : b.Request) (w : W) (r : b.Response) (w' : W)
      → Passes b req (params_of req) t.middlewares (prepare_response b req) w r w'
      → IsAnswer b x t req
          (path_of req)
          (params_of req)
          r
          w'
          (handle_request b x t req w).0
          (handle_request b x t req w).1
  unfolding handle_request conclude
  handle_request-IsAnswer req w r w' h =
      rw
        (run-Passes b req (params_of req) t.middlewares (prepare_response b req) r w w' h, conclude)
        (respond-IsAnswer req (path_of req) (params_of req) r w')

  -- The first middleware that returns false ends the handling: its response is finished and
  -- returned, and neither the middlewares behind it nor the routes nor the files are consulted.
  pub handle_request-stops :
      (before after : List (Option (Middleware b W))) (m : Option (Middleware b W))
      (req : b.Request) (w w₁ w₂ : W) (r₁ r₂ : b.Response)
      → t.middlewares ≡ before ++ (m ∷ after)
      → Passes b req (params_of req) before (prepare_response b req) w r₁ w₁
      → call_middleware b m req r₁ (params_of req) w₁ ≡ (ok (false, r₂), w₂)
      → handle_request b x t req w ≡ (finish b r₂, w₂)
  unfolding handle_request run_middlewares conclude
  handle_request-stops before after m req w w₁ w₂ r₁ r₂ e h f =
      let reached =
        run-append b req (params_of req) before (m ∷ after) (prepare_response b req) r₁ w w₁ h in
      let stopped =
        reached ∙ ap (after_middleware b (run_middlewares b req (params_of req) after)) f in
      ap
        (λ ms.
          conclude b x t req (path_of req) (params_of req)
            (run_middlewares b req (params_of req) ms (prepare_response b req) w))
        e
      ∙ ap (conclude b x t req (path_of req) (params_of req)) stopped

  -- `processRequest` against `handleRequest`.
  pub data IsProcessed (req : b.Request)
      : Result b.Response × W → Result b.Response × W → Type 0 where
    returned : (r : b.Response) (w : W) → IsProcessed req (ok r, w) (ok r, w)
    failed :
        (what : Str) (r : b.Response) (w : W)
        → b.view r ≡ record {
          status = 500;
          content_type = bytes "text/plain";
          body = bytes "500 Internal Server Error\n";
          keep_alive = leb 11 (b.version req);
        }
        → IsProcessed req (throws (std_exception what), w) (ok r, w)
    lost : (w : W) → IsProcessed req (throws other, w) (throws other, w)

  catch_request-IsProcessed :
      (req : b.Request) (o : Result b.Response × W) → IsProcessed req o (catch_request b req o)
  unfolding catch_request
  catch_request-IsProcessed req (ok r, w) = returned r w
  catch_request-IsProcessed req (throws (std_exception what), w) =
      let (r, e, v) = error_response-view l req in rw e (failed what r w v)
  catch_request-IsProcessed req (throws other, w) = lost w

  -- Whatever the application does, a request is answered: with the response of `handleRequest`, or
  -- with status 500 where that throws a `std::exception`; only another exception of the
  -- application gets past. The 500 response ignores what the request says of its connection.
  pub process_request-IsProcessed :
      (req : b.Request) (w : W)
      → IsProcessed req (handle_request b x t req w) (process_request b x t req w)
  unfolding process_request
  process_request-IsProcessed req w = catch_request-IsProcessed req (handle_request b x t req w)

  -- A target that climbs out of the static directory is served like any other: where no
  -- middleware stops it and no route takes it, the file behind the directory's name and the whole
  -- path, ".." included, is sent with status 200.
  pub handle_request_climbs :
      (req : b.Request) (w : W) (r : b.Response) (w' : W) (rest content : Str)
      → path_of req ≡ bytes "/../" ++ rest
      → Passes b req (params_of req) t.middlewares (prepare_response b req) w r w'
      → find_route t (b.method_string req) (path_of req) ≡ none
      → t.static_directory ≢ []
      → x.read_file w' (t.static_directory ++ (bytes "/../" ++ rest)) ≡ some content
      → (r' : b.Response) × (handle_request b x t req w ≡ (ok r', w'))
        × ((b.view r').status ≡ 200)
        × ((b.view r').body ≡ content)
  unfolding handle_request conclude respond
  handle_request_climbs req w r w' rest content p h n d f =
      let (r', g, v) = serve_file-view (path_of req) content r in
      let named = static_file_of_read (path_of req) w' content d (rw p f) in
      let passed =
        run-Passes b req (params_of req) t.middlewares (prepare_response b req) r w w' h in
      (r', rw (passed, n, named, g, conclude, respond), ap (λ u. u.status) v, ap (λ u. u.body) v)
