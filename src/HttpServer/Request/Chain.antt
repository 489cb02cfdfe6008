-- ===== src/HttpServer/Request/Chain.antt =====
-- The middleware chain as a relation: a prefix of it that lets a request through.
use uni_serve_libhttp.Common.{◌≡◌, true, false, List, [], ◌∷◌, ◌++◌, Option}
use uni_serve_libhttp.HttpServer.Beast.{Beast}
use uni_serve_libhttp.HttpServer.Query.{Params}
use uni_serve_libhttp.HttpServer.Request.{ok, Middleware, call_middleware, run_middlewares}

module _ (b : Beast) {W : Type 0} (req : b.Request) (params : Params) where
  -- Every middleware of the list goes on, each with the response and the state of the one before;
  -- the last leaves `r'` and `w'`.
  abbrev pub Passes : List (Option (Middleware b W)) → b.Response → W → b.Response → W → Type 0
  Passes [] r w r' w' = (r ≡ r') × (w ≡ w')
  Passes (m ∷ ms) r w r' w' =
      (r₁ : b.Response) × (w₁ : W) × (call_middleware b m req r params w ≡ (ok (true, r₁), w₁))
      × Passes ms r₁ w₁ r' w'

  -- The loop reaches what stands behind such a prefix.
  pub run-append :
      (before after : List (Option (Middleware b W))) (r r' : b.Response) (w w' : W)
      → Passes before r w r' w'
      → run_middlewares b req params (before ++ after) r w
        ≡ run_middlewares b req params after r' w'
  unfolding run_middlewares
  run-append [] after r r' w w' (e, f) = rw (e, f)
  run-append (m ∷ before) after r r' w w' (r₁, w₁, e, h) =
      rw (e, run_middlewares) (run-append before after r₁ r' w₁ w' h)

  pub run-Passes :
      (ms : List (Option (Middleware b W))) (r r' : b.Response) (w w' : W)
      → Passes ms r w r' w'
      → run_middlewares b req params ms r w ≡ (ok (false, r'), w')
  unfolding run_middlewares
  run-Passes [] r r' w w' (e, f) = rw (e, f)
  run-Passes (m ∷ ms) r r' w w' (r₁, w₁, e, h) =
      rw (e, run_middlewares) (run-Passes ms r₁ r' w₁ w' h)
