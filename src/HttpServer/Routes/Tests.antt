-- ===== src/HttpServer/Routes/Tests.antt =====
-- Route tables at fixed registrations, and the law applied to them.
use uni_serve_libhttp.Common.{ℕ, ◌≡◌, List, [], ◌∷◌, some, Str, bytes}
use uni_serve_libhttp.HttpServer.Routes.{Router, no_routes, find_route}
use uni_serve_libhttp.HttpServer.Routes.Selection.{Registration, get, post, Selects}
use uni_serve_libhttp.HttpServer.Routes.Tables.{register_all}
use uni_serve_libhttp.HttpServer.Routes.Laws.{find_route-Selects}

abbrev three_routes : List (Registration ℕ)
three_routes =
    record { method = get; path = bytes "/a*"; handler = some 1 }
    ∷ (record { method = post; path = bytes "/ab"; handler = some 2 }
        ∷ (record { method = get; path = bytes "/ab"; handler = some 3 } ∷ []))

find_route-Selects_example :
    (t : Router ℕ ℕ) × (register_all three_routes no_routes ≡ some t)
    × ((method path : Str) → Selects three_routes method path (find_route t method path))
find_route-Selects_example = find_route-Selects ℕ three_routes
