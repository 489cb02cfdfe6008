-- ===== src/HttpServer/Service.antt =====
-- The parts of the HTTP server together: from `get`, `post`, `put` and `del` and from `use` to the
-- response on the socket of a connection.
mod Tests
use uni_serve_libhttp.Common.{
  ℕ, ◌≡◌, refl, ap, sym, ◌∙◌, subst, List, [], ◌∷◌, ◌++◌, Option, none, some, Str, Lacks, false,
  true,
}
use uni_serve_libhttp.HttpServer.Beast.{Beast}
use uni_serve_libhttp.HttpServer.Query.{Params, split_target, parse_query_params}
use uni_serve_libhttp.HttpServer.Query.Laws.{split_target-append}
use uni_serve_libhttp.HttpServer.Routes.{Router, no_routes, find_route}
use uni_serve_libhttp.HttpServer.Routes.Selection.{Registration, IsExactFor, First}
use uni_serve_libhttp.HttpServer.Routes.Tables.{register_all}
use uni_serve_libhttp.HttpServer.Routes.Registered.{find_route-First, use_all, find_route-use_all}
use uni_serve_libhttp.HttpServer.Request.{
  Result, ok, Handler, Middleware, Externals, prepare_response, catch_handler, respond, conclude,
  handle_request, catch_request, process_request, run_middlewares,
}
use uni_serve_libhttp.HttpServer.Request.Chain.{Passes, run-Passes}
use uni_serve_libhttp.HttpServer.Session.{
  Stream, Op, read, write, reads, Session, complete, answer, do_write, release, handle_read, handle,
}
use uni_serve_libhttp.HttpServer.Session.Fields.{
  stream_of, pending-do_write, written-do_write, world-do_write, release_held,
}

-- A request target with a path and a query, or with a path alone, whose query is empty then.
pub data IsTarget (path : Str) : Str → Str → Type 0 where
  no_query : IsTarget path [] path
  with_query : (query : Str) → IsTarget path query (path ++ (b'?' ∷ query))

split_target-IsTarget :
    (path query target : Str)
    → IsTarget path query target
    → Lacks b'?' path
    → split_target target ≡ (path, query)
split_target-IsTarget path _ _ no_query n = (split_target-append path [] n).0
split_target-IsTarget path _ _ (with_query query) n = (split_target-append path query n).1

module _ (b : Beast) {W : Type 0} (x : Externals W) where
  respond-registered :
      (t : Router (Handler b W) (Middleware b W)) (req : b.Request) (path : Str) (params : Params)
      (h : Handler b W) (r₀ r : b.Response) (w₀ w' : W)
      → find_route t (b.method_string req) path ≡ some h
      → h req params w₀ ≡ (ok r, w')
      → respond b x t req path params r₀ w₀ ≡ (ok r, w')
  unfolding respond catch_handler
  respond-registered t req path params h r₀ r w₀ w' f a =
      rw (f, respond) (ap (catch_handler b r₀) a)

  handle_request-registered :
      (t : Router (Handler b W) (Middleware b W)) (req : b.Request) (path query : Str)
      (h : Handler b W) (r₀ r : b.Response) (w w₀ w' : W)
      → split_target (b.target req) ≡ (path, query)
      → Passes b req
          (parse_query_params x.split query)
          t.middlewares
          (prepare_response b req)
          w
          r₀
          w₀
      → find_route t (b.method_string req) path ≡ some h
      → h req (parse_query_params x.split query) w₀ ≡ (ok r, w')
      → handle_request b x t req w ≡ (ok r, w')
  unfolding handle_request conclude
  handle_request-registered t req path query h r₀ r w w₀ w' s p f a =
      let params = parse_query_params x.split query in
      ap
        (λ (u : Str × Str). conclude b x t req u.0 (parse_query_params x.split u.1) (
          run_middlewares b req (parse_query_params x.split u.1) t.middlewares
            (prepare_response b req) w))
        s
      ∙ (ap (conclude b x t req path params)
            (run-Passes b req params t.middlewares (prepare_response b req) r₀ w w₀ p)
          ∙ respond-registered t req path params h r₀ r w₀ w' f a)

  -- A session hands a response that the application gives to its socket.
  complete-processed :
      (t : Router (Handler b W) (Middleware b W)) (req : b.Request) (st : Stream) (s : Session b W)
      (r : b.Response) (w' : W)
      → s.pending ≡ read st ∷ []
      → process_request b x t req s.world ≡ (ok r, w')
      → let s' = complete x t s.pending (reads req) s in
        (s'.written ≡ s.written ++ (r ∷ []))
        × (s'.pending ≡ write (stream_of s) r ∷ [])
        × (s'.world ≡ w')
  unfolding complete handle handle_read answer
  complete-processed t req st s r w' e p =
      let u : Session b W = record s { pending = []; world = w' } in
      let held = release_held (write (stream_of s) r) [] (do_write r u) (pending-do_write r u) in
      rw (e, p)
        (
          ap (λ v. v.written) held ∙ written-do_write r u,
          ap (λ v. v.pending) held ∙ pending-do_write r u,
          ap (λ v. v.world) held ∙ world-do_write r u,
        )

  -- With any registrations and then any middlewares: a request on a waiting connection for a path
  -- that is registered for its method without a wildcard, with a query or without one, is answered,
  -- once every middleware lets it through, by the first such registration's handler, which gets the
  -- parsed query. Where that handler returns a response and throws nothing, the response is handed
  -- to the socket, and the application is left as the handler leaves it.
  pub complete-registered :
      (rs : List (Registration (Handler b W))) (ms : List (Option (Middleware b W)))
      (t : Router (Handler b W) (Middleware b W)) (req : b.Request) (path query : Str)
      (reg : Registration (Handler b W)) (h : Handler b W) (r₀ r : b.Response) (w₀ w' : W)
      (s : Session b W) (st : Stream)
      → register_all rs no_routes ≡ some t
      → IsTarget path query (b.target req)
      → Lacks b'?' path
      → First (IsExactFor (b.method_string req) path) reg rs
      → reg.handler ≡ some h
      → Passes b req (parse_query_params x.split query) ms (prepare_response b req) s.world r₀ w₀
      → h req (parse_query_params x.split query) w₀ ≡ (ok r, w')
      → s.pending ≡ read st ∷ []
      → let s' = complete x (use_all ms t) s.pending (reads req) s in
        (s'.written ≡ s.written ++ (r ∷ []))
        × (s'.pending ≡ write (stream_of s) r ∷ [])
        × (s'.world ≡ w')
  unfolding process_request catch_request
  complete-registered rs ms t req path query reg h r₀ r w₀ w' s st e g n f k p a d =
      let (used, found) = find_route-use_all rs ms t (b.method_string req) path e in
      let routed = found ∙ (find_route-First rs t (b.method_string req) path reg e f ∙ k) in
      let parted = split_target-IsTarget path query (b.target req) g n in
      let passed =
        subst
          (λ l.
            Passes b req (parse_query_params x.split query) l (prepare_response b req) s.world r₀
              w₀)
          (sym used) p in
      let handled =
        handle_request-registered (use_all ms t) req path query h r₀ r s.world w₀ w' parted passed
          routed a in
      complete-processed (use_all ms t) req st s r w' d (ap (catch_request b req) handled)
