-- ===== src/HttpServer/Service/Tests.antt =====
-- A site with two registrations and a gate, and a request on a connection.
use uni_serve_libhttp.Common.{◌≡◌, refl, false, true, List, [], ◌∷◌, ◌++◌, none, some, bytes, arith}
use uni_serve_libhttp.HttpServer.Site.{
  messages, externals, Files, files, hello, open_gate, get_of, start_of,
}
use uni_serve_libhttp.HttpServer.Beast.{View}
use uni_serve_libhttp.HttpServer.Routes.{Router, no_routes}
use uni_serve_libhttp.HttpServer.Routes.Selection.{Registration, get, post, here, there}
use uni_serve_libhttp.HttpServer.Routes.Tables.{register_all, register_all-extended, extended}
use uni_serve_libhttp.HttpServer.Routes.Registered.{use_all}
use uni_serve_libhttp.HttpServer.Request.{Handler, Middleware, prepare_response}
use uni_serve_libhttp.HttpServer.Session.{plain, read, write, reads, Session, complete}
use uni_serve_libhttp.HttpServer.Session.Fields.{stream_of}
use uni_serve_libhttp.HttpServer.Service.{with_query, complete-registered}

abbrev waiting : Session messages Files
waiting = record {
  ssl_enabled = false;
  ssl_stream = false;
  is_open = true;
  pending = read plain ∷ [];
  written = [];
  thrown = none;
  world = files;
}

abbrev hello_route : Registration (Handler messages Files)
hello_route = record { method = get; path = bytes "/hi"; handler = some hello }

abbrev routes : List (Registration (Handler messages Files))
routes = record { method = post; path = bytes "/hi"; handler = none } ∷ (hello_route ∷ [])

-- The tables that the two registrations leave.
abbrev tables : Router (Handler messages Files) (Middleware messages Files)
tables = extended routes no_routes

abbrev greeting : View
greeting = record {
  status = 200;
  content_type = bytes "text/html";
  body = bytes "hi";
  keep_alive = true;
}

routed_tables : register_all routes no_routes ≡ some tables
routed_tables = register_all-extended routes no_routes

complete-registered_example :
    let s' =
      complete externals
        (use_all (some open_gate ∷ []) tables)
        waiting.pending
        (reads (get_of (bytes "/hi?a=b")))
        waiting in
    (s'.written ≡ [] ++ (greeting ∷ []))
    × (s'.pending ≡ write (stream_of waiting) greeting ∷ [])
    × (s'.world ≡ files)
unfolding prepare_response
complete-registered_example =
    complete-registered messages externals routes (some open_gate ∷ []) tables
      (get_of (bytes "/hi?a=b")) (bytes "/hi") (bytes "a=b") hello_route hello
      (start_of (get_of (bytes "/hi?a=b"))) greeting files files waiting plain routed_tables
      (with_query (bytes "a=b")) (ground arith)
      (there (λ h. ground (arith, h.0)) (here (refl, ground arith, refl))) refl
      (start_of (get_of (bytes "/hi?a=b")), files, refl, (refl, refl)) refl refl
