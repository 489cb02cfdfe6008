-- ===== src/HttpServer/Request.antt =====
-- `HttpServer::handleRequest`, and the part of `Session::processRequest` that answers where it
-- throws. Handlers and middlewares are functions of the application; `W` is its state, which they
-- may change, together with the files that a read meets.
pub mod Chain
pub mod Answer
pub mod ContentType
pub mod Laws
mod Tests
use uni_serve_libhttp.Common.{
  ℕ, Bool, true, false, List, [], ◌∷◌, ◌++◌, Option, none, some, if◌then◌else◌, Str, bytes, empty,
}
use uni_serve_libhttp.HttpServer.Beast.{Beast}
use uni_serve_libhttp.HttpServer.Query.{Params, split_target, parse_query_params}
use uni_serve_libhttp.HttpServer.Routes.{Router, find_route}

-- What a `catch (const std::exception&)` catches, and everything else.
pub data Exception : Type 0 where
  std_exception : Str → Exception
  other : Exception

pub data Result (A : Type 0) : Type 0 where
  ok : A → Result A
  throws : Exception → Result A

-- The names of the media types by file extension, in the order of the tests.
module _ (ends_with : Str → Str → Bool) where
  unfoldable pub content_type_of : Str → Option Str
  content_type_of file_path =
      if ends_with file_path (bytes ".html")
      then some (bytes "text/html")
      else if ends_with file_path (bytes ".css")
      then some (bytes "text/css")
      else if ends_with file_path (bytes ".js")
      then some (bytes "application/javascript")
      else if ends_with file_path (bytes ".json")
      then some (bytes "application/json")
      else if ends_with file_path (bytes ".png")
      then some (bytes "image/png")
      else if ends_with file_path (bytes ".jpg")
      then some (bytes "image/jpeg")
      else if ends_with file_path (bytes ".jpeg")
      then some (bytes "image/jpeg")
      else none

module _ (b : Beast) (W : Type 0) where
  open b use {Request, Response}

  -- `HttpRequestHandler`
  abbrev pub Handler : Type 0
  Handler = Request → Params → W → Result Response × W

  -- `MiddlewareHandler`: the response is passed by reference.
  abbrev pub Middleware : Type 0
  Middleware = Request → Response → Params → W → Result (Bool × Response) × W

-- The external functions: `boost::split`, `ends_with`, and the content of a file that opens.
pub record Externals (W : Type 0) : Type 0 where
  pub split : ℕ → Str → List Str
  pub ends_with : Str → Str → Bool
  pub read_file : W → Str → Option Str

module _ (b : Beast) where
  open b use {Request, Response}

  -- `response.prepare_payload(); return response;`
  unfoldable pub finish : Response → Result Response
  finish response = elim (b.prepare_payload response) [
    | none ↦ throws (std_exception (bytes "invalid response body"))
    | some response' ↦ ok response'
  ]

  -- The response before the middlewares see it.
  unfoldable pub prepare_response : Request → Response
  prepare_response req = b.set_keep_alive (b.keep_alive req) (
      b.set_content_type (bytes "text/plain")
        (b.set_server (bytes "Boost.Beast HttpServer") (b.set_version (b.version req) b.response)))

  -- A response with another status and body.
  abbrev pub with_body : ℕ → Str → Response → Response
  with_body status body response = b.set_body body (b.set_result status response)

  abbrev pub with_type : Option Str → Response → Response
  with_type none response = response
  with_type (some t) response = b.set_content_type t response

  -- The answer of `processRequest` where `handleRequest` throws; its own `prepare_payload` is
  -- outside the `try`.
  unfoldable pub error_response : Request → Result Response
  error_response req = finish (
      b.set_body (bytes "500 Internal Server Error\n") (
        b.set_content_type (bytes "text/plain")
          (b.set_result 500 (b.set_version (b.version req) b.response))))

module _ (b : Beast) {W : Type 0} where
  open b use {Request, Response}

  -- A call of a `std::function`: an empty one throws `std::bad_function_call`.
  abbrev pub call_middleware : Option (Middleware b W) → Middleware b W
  call_middleware none req response params w =
      (throws (std_exception (bytes "bad_function_call")), w)
  call_middleware (some m) req response params w = m req response params w

  -- What the loop does with the outcome of one call; `true` says that the request is handled.
  unfoldable pub after_middleware :
      (Response → W → Result (Bool × Response) × W)
      → Result (Bool × Response) × W
      → Result (Bool × Response) × W
  after_middleware rest (throws e, w) = (throws e, w)
  after_middleware rest (ok (true, response), w) = rest response w
  after_middleware rest (ok (false, response), w) = (ok (true, response), w)

  unfoldable pub run_middlewares :
      Request
      → Params
      → List (Option (Middleware b W))
      → Response
      → W
      → Result (Bool × Response) × W
  unfolding after_middleware
  run_middlewares req params [] response w = (ok (false, response), w)
  run_middlewares req params (m ∷ ms) response w =
      after_middleware (run_middlewares req params ms) (call_middleware m req response params w)

  -- `try { return handler(req, query_params); } catch (const std::exception& e) { ... }`
  unfoldable pub catch_handler : Response → Result Response × W → Result Response × W
  catch_handler response (ok response', w) = (ok response', w)
  catch_handler response (throws (std_exception what), w) =
      (finish b (with_body b 500 (bytes "500 Internal Server Error\n") response), w)
  catch_handler response (throws other, w) = (throws other, w)

  -- The handler of `processRequest`.
  unfoldable pub catch_request : Request → Result Response × W → Result Response × W
  catch_request req (ok response, w) = (ok response, w)
  catch_request req (throws (std_exception what), w) = (error_response b req, w)
  catch_request req (throws other, w) = (throws other, w)

  module _ (x : Externals W) (t : Router (Handler b W) (Middleware b W)) where
    -- The file that a path without a handler names, where a directory is set and the file opens.
    unfoldable pub static_file : Str → W → Option Str
    static_file target_path w =
        if empty t.static_directory then none else x.read_file w (t.static_directory ++ target_path)

    unfoldable pub serve_file : Str → Str → Response → Result Response
    serve_file target_path content response = finish b (
        with_type b (content_type_of x.ends_with (t.static_directory ++ target_path))
          (with_body b 200 content response))

    -- What follows the middlewares.
    unfoldable pub respond : Request → Str → Params → Response → W → Result Response × W
    respond req target_path params response w =
        elim (find_route t (b.method_string req) target_path) [
          | some handler ↦ catch_handler response (handler req params w)
          | none ↦ elim (static_file target_path w) [
            | some content ↦ (serve_file target_path content response, w)
            | none ↦ (finish b (with_body b 404 (bytes "404 Not Found\n") response), w)
          ]
        ]

    -- Either a middleware has answered, or the routes do.
    unfoldable pub conclude :
        Request → Str → Params → Result (Bool × Response) × W → Result Response × W
    conclude req target_path params (throws e, w) = (throws e, w)
    conclude req target_path params (ok (true, response), w) = (finish b response, w)
    conclude req target_path params (ok (false, response), w) =
        respond req target_path params response w

    unfoldable pub handle_request : Request → W → Result Response × W
    handle_request req w =
        let (target_path, query_string) = split_target (b.target req) in
        let query_params = parse_query_params x.split query_string in
        conclude req target_path query_params
          (run_middlewares req query_params t.middlewares (prepare_response b req) w)

    -- The response that `processRequest` hands to `doWrite`.
    unfoldable pub process_request : Request → W → Result Response × W
    unfolding catch_request
    process_request req w = catch_request req (handle_request req w)
