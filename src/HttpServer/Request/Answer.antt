-- ===== src/HttpServer/Request/Answer.antt =====
-- What a client is promised, in terms of the route tables, the files and the application's calls.
use uni_serve_libhttp.Common.{ℕ, ◌≡◌, ◌≢◌, ◌⊎◌, ◌∙◌, [], ◌++◌, Option, none, some, Str, bytes}
use uni_serve_libhttp.HttpServer.Beast.{View, Beast, IsBeast, AllowsBody}
use uni_serve_libhttp.HttpServer.Query.{Params}
use uni_serve_libhttp.HttpServer.Routes.{Router, find_route}
use uni_serve_libhttp.HttpServer.Request.{
  Result, ok, throws, std_exception, other, Handler, Middleware, Externals, content_type_of, finish,
  prepare_response, with_body,
}

-- The media type of a served file; the type that stood there before, where the extension is none
-- of those known.
abbrev pub type_or : Str → Option Str → Str
type_or old none = old
type_or old (some t) = t

module _ (b : Beast) {W : Type 0} (x : Externals W) (t : Router (Handler b W) (Middleware b W))
    (req : b.Request) (path : Str) (params : Params) (r : b.Response) (w : W) where
  -- The answer to a request that the middlewares let through with response `r` and state `w`.
  pub data IsAnswer : Result b.Response → W → Type 0 where
    by_handler :
        (h : Handler b W) (r' : b.Response) (w' : W)
        → find_route t (b.method_string req) path ≡ some h
        → h req params w ≡ (ok r', w')
        → IsAnswer (ok r') w'
    by_failure :
        (h : Handler b W) (what : Str) (r' : b.Response) (w' : W)
        → find_route t (b.method_string req) path ≡ some h
        → h req params w ≡ (throws (std_exception what), w')
        → b.view r' ≡ record (b.view r) { status = 500; body = bytes "500 Internal Server Error\n" }
        → IsAnswer (ok r') w'
    escaped :
        (h : Handler b W) (w' : W)
        → find_route t (b.method_string req) path ≡ some h
        → h req params w ≡ (throws other, w')
        → IsAnswer (throws other) w'
    by_file :
        (content : Str) (r' : b.Response)
        → find_route t (b.method_string req) path ≡ none
        → t.static_directory ≢ []
        → x.read_file w (t.static_directory ++ path) ≡ some content
        → b.view r' ≡ record (b.view r) {
          status = 200;
          content_type =
              type_or
                (b.view r).content_type
                (content_type_of x.ends_with (t.static_directory ++ path));
          body = content;
        }
        → IsAnswer (ok r') w
    missing :
        (r' : b.Response)
        → find_route t (b.method_string req) path ≡ none
        → (t.static_directory ≡ []) ⊎ (x.read_file w (t.static_directory ++ path) ≡ none)
        → b.view r' ≡ record (b.view r) { status = 404; body = bytes "404 Not Found\n" }
        → IsAnswer (ok r') w

module _ {b : Beast} (l : IsBeast b) where
  -- A response with a body is finished as it is, where its status allows one.
  pub finish-view :
      (r : b.Response) (v : View)
      → b.view r ≡ v
      → AllowsBody v.status
      → (r' : b.Response) × (finish b r ≡ ok r') × (b.view r' ≡ v)
  unfolding finish
  finish-view r v e a = let (r', f, g) = l.prepared r (rw e a) in (r', rw (f, finish), g ∙ e)

  pub view-with_body :
      (c : ℕ) (s : Str) (r : b.Response)
      → b.view (with_body b c s r) ≡ record (b.view r) { status = c; body = s }
  view-with_body c s r = rw (l.view-set_body s (b.set_result c r), l.view-set_result c r)

  pub view-prepare_response :
      (req : b.Request)
      → b.view (prepare_response b req) ≡ record {
        status = 200;
        content_type = bytes "text/plain";
        body = [];
        keep_alive = b.keep_alive req;
      }
  unfolding prepare_response
  view-prepare_response req =
      let typed = b.set_content_type (bytes "text/plain") (
        b.set_server (bytes "Boost.Beast HttpServer") (b.set_version (b.version req) b.response)) in
      cc (
        l.view-set_keep_alive (b.keep_alive req) typed,
        l.view-set_content_type (bytes "text/plain") (
            b.set_server (bytes "Boost.Beast HttpServer")
              (b.set_version (b.version req) b.response)),
        l.view-set_server (bytes "Boost.Beast HttpServer")
            (b.set_version (b.version req) b.response),
        l.view-response (b.version req),
      )
