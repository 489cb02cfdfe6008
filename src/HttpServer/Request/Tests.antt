-- ===== src/HttpServer/Request/Tests.antt =====
-- Requests at fixed inputs, and the laws applied to them.
use uni_serve_libhttp.Common.{◌≡◌, refl, [], ◌∷◌, none, some, bytes, str_eq, lookup, find, find?}
use uni_serve_libhttp.HttpServer.Query.{split_target}
use uni_serve_libhttp.HttpServer.Routes.{find_route}
use uni_serve_libhttp.HttpServer.Request.{
  ok, finish, prepare_response, handle_request, process_request,
}
use uni_serve_libhttp.HttpServer.Request.Answer.{IsAnswer}
use uni_serve_libhttp.HttpServer.Request.Laws.{
  IsProcessed, path_of, params_of, handle_request-IsAnswer, handle_request-stops,
  handle_request_climbs, process_request-IsProcessed,
}
use uni_serve_libhttp.HttpServer.Beast.{View}
use uni_serve_libhttp.HttpServer.Site.{
  messages, messages-IsBeast, externals, open_gate, shut_gate, site, files, get_of, start_of,
}

handle_request_climbs_example :
    (r : View) × (handle_request messages externals
        (site (some open_gate ∷ []))
        (get_of (bytes "/../key?a"))
        files
      ≡ (ok r, files))
    × (r.status ≡ 200)
    × (r.body ≡ bytes "secret")
unfolding prepare_response split_target find find_route lookup find? str_eq
handle_request_climbs_example =
    handle_request_climbs messages-IsBeast externals (site (some open_gate ∷ []))
      (get_of (bytes "/../key?a")) files (start_of (get_of (bytes "/../key?a"))) files (bytes "key")
      (bytes "secret") refl (start_of (get_of (bytes "/../key?a")), files, refl, (refl, refl)) refl
      (λ e. cc) refl

handle_request-stops_example :
    handle_request messages externals
      (site (some open_gate ∷ (some shut_gate ∷ [])))
      (get_of (bytes "/hi"))
      files
    ≡ (finish messages (record (start_of (get_of (bytes "/hi"))) { status = 401 }), files)
unfolding prepare_response
handle_request-stops_example =
    handle_request-stops messages-IsBeast externals (site (some open_gate ∷ (some shut_gate ∷ [])))
      (some open_gate ∷ []) [] (some shut_gate) (get_of (bytes "/hi")) files files files
      (start_of (get_of (bytes "/hi"))) (record (start_of (get_of (bytes "/hi"))) { status = 401 })
      refl (start_of (get_of (bytes "/hi")), files, refl, (refl, refl)) refl

handle_request-IsAnswer_example :
    IsAnswer messages externals
      (site [])
      (get_of (bytes "/hi"))
      (path_of messages-IsBeast externals (site []) (get_of (bytes "/hi")))
      (params_of messages-IsBeast externals (site []) (get_of (bytes "/hi")))
      (start_of (get_of (bytes "/hi")))
      files
      (handle_request messages externals (site []) (get_of (bytes "/hi")) files).0
      (handle_request messages externals (site []) (get_of (bytes "/hi")) files).1
unfolding prepare_response
handle_request-IsAnswer_example =
    handle_request-IsAnswer messages-IsBeast externals (site []) (get_of (bytes "/hi")) files
      (start_of (get_of (bytes "/hi"))) files (refl, refl)

process_request-IsProcessed_example :
    IsProcessed messages-IsBeast externals
      (site (none ∷ []))
      (get_of (bytes "/hi"))
      (handle_request messages externals (site (none ∷ [])) (get_of (bytes "/hi")) files)
      (process_request messages externals (site (none ∷ [])) (get_of (bytes "/hi")) files)
process_request-IsProcessed_example =
    process_request-IsProcessed messages-IsBeast externals (site (none ∷ [])) (get_of (bytes "/hi"))
      files
