-- ===== src/HttpServer/Status/Tests.antt =====
-- Texts at fixed inputs.
use uni_serve_libhttp.Common.{◌≡◌, refl, [], ◌∷◌, bytes, none, true, false}
use uni_serve_libhttp.HttpServer.Status.{write, route_lines, print_all_header_fields}

routes_test :
    write (
      route_lines {H = Unit} (bytes "GET") (
        record { path = bytes "/a/*"; pattern = none; handler = none; is_wildcard = true }
        ∷ record { path = bytes "/b"; pattern = none; handler = none; is_wildcard = false }
        ∷ []))
    ≡ bytes "    GET /a/* (wildcard)\n    GET /b\n"
unfolding write route_lines
routes_test = refl

fields_test :
    print_all_header_fields ((bytes "Host", bytes "x") ∷ []) ≡ bytes "Name: Host, Value: x\n"
unfolding print_all_header_fields
fields_test = refl
