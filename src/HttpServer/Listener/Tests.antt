-- ===== src/HttpServer/Listener/Tests.antt =====
-- Two connections of one server at fixed inputs, and the laws applied to them.
use uni_serve_libhttp.Common.{
  ◌≡◌, refl, ap, sym, ◌∙◌, Str, find?, false, true, List, [], ◌∷◌, none, some, bytes, get_elem?,
  arith,
}
use uni_serve_libhttp.HttpServer.Beast.{View}
use uni_serve_libhttp.HttpServer.Site.{
  Message, messages, messages-IsBeast, externals, Files, files, get_of,
}
use uni_serve_libhttp.HttpServer.Routes.{Router, no_routes, find_route, find_entry, handlers_of}
use uni_serve_libhttp.HttpServer.Request.{
  Result, ok, throws, other, Handler, Middleware, handle_request, process_request, respond,
  static_file, finish, prepare_response, conclude, run_middlewares, catch_request,
}
use uni_serve_libhttp.HttpServer.Session.{plain, read, fails, succeeds, reads, Session, run_all}
use uni_serve_libhttp.HttpServer.Listener.{
  Listener, Event, accepted, completes, new_listener, run, run_events,
}
use uni_serve_libhttp.HttpServer.Listener.Exceptions.{ThrowsStandard}
use uni_serve_libhttp.HttpServer.Listener.Serving.{IsServing, run_events-new_listener}
use uni_serve_libhttp.HttpServer.Listener.Isolation.{outcomes_of, told, run_events-run_all}

-- A server without handlers and files answers every request with 404.
abbrev nothing_here : Router (Handler messages Files) (Middleware messages Files)
nothing_here = no_routes

abbrev not_found : Message → View
not_found q = record {
  status = 404;
  content_type = bytes "text/plain";
  body = bytes "404 Not Found\n";
  keep_alive = q.keep_alive;
}

no_route : (method path : Str) → find_route nothing_here method path ≡ none
unfolding find_route handlers_of find_entry find?
no_route method path = ground arith

respond_404 :
    (q : Message) (path : Str) (params : List (Str × Str)) (w : Files)
    → respond messages externals nothing_here q path params (prepare_response messages q) w
      ≡ (ok (not_found q), w)
unfolding respond static_file finish prepare_response
respond_404 q path params w = rw (no_route q.method path, respond)

handle_request_404 :
    (q : Message) (w : Files)
    → handle_request messages externals nothing_here q w ≡ (ok (not_found q), w)
unfolding handle_request conclude run_middlewares
handle_request_404 q w = respond_404 q _ _ w

process_request_404 :
    (q : Message) (w : Files)
    → process_request messages externals nothing_here q w ≡ (ok (not_found q), w)
unfolding process_request catch_request
process_request_404 q w = ap (catch_request messages q) (handle_request_404 q w)

standard_only : ThrowsStandard messages externals nothing_here
standard_only q w w' e = ok-ne-throws (sym (handle_request_404 q w) ∙ e)
  where
    ok-ne-throws :
        {r : View} {u u' : Files} → ◌≡◌ {A = Result View × Files} (ok r, u) (throws other, u') → ⊥
    ok-ne-throws h = cc

-- Two connections are accepted, one after an error; the first one gets an answer, and the second one
-- breaks.
abbrev traffic : List (Event messages)
traffic =
    accepted true
    ∷ (accepted false
        ∷ (accepted false
            ∷ (completes 0 (reads (get_of (bytes "/a")))
                ∷ (completes 1 fails ∷ (completes 0 succeeds ∷ [])))))

run_events-new_listener_example :
    IsServing false 2
      (run_events externals nothing_here traffic (run (new_listener {b = messages} false 2 files)))
run_events-new_listener_example =
    run_events-new_listener messages-IsBeast externals nothing_here false 2 files traffic
      standard_only

abbrev waiting : Session messages Files
waiting = record {
  ssl_enabled = false;
  ssl_stream = false;
  is_open = true;
  pending = read plain ∷ [];
  written = [];
  thrown = none;
  world = files;
}

-- Two waiting connections.
abbrev pair : Listener messages Files
pair = record {
  ssl_enabled = false;
  ssl_ctx = false;
  acceptor_open = true;
  accepts = 1;
  sessions = waiting ∷ (waiting ∷ []);
  workers = 1;
  terminated = false;
  world = files;
}

run_events-run_all_example :
    (w : Files) × (get_elem? (run_events externals nothing_here traffic pair).sessions 1
      ≡ some (told w (run_all externals nothing_here (outcomes_of 1 traffic) waiting)))
run_events-run_all_example =
    run_events-run_all messages externals nothing_here not_found
      (λ q w. ap (λ p. p.0) (process_request_404 q w)) traffic 1 waiting pair refl refl refl
