-- ===== src/HttpServer/Session/Tests.antt =====
-- Connections at fixed inputs, and the laws applied to them.
use uni_serve_libhttp.Common.{refl, true, false, [], ◌∷◌, none, some, bytes}
use uni_serve_libhttp.HttpServer.Site.{messages, externals, open_gate, site, files, Files, get_of}
use uni_serve_libhttp.HttpServer.Session.{
  plain, read, fails, succeeds, reads, Session, new_session, run, run_all,
}
use uni_serve_libhttp.HttpServer.Session.Phases.{IsPhase, run_all-IsPhase}
use uni_serve_libhttp.HttpServer.Session.Exchange.{exchanges, IsDone, answers, run_all-exchanges}

-- A TLS connection: a request is answered, and the next read fails.
run_all-IsPhase_example : IsPhase true (
    run_all externals
      (site (some open_gate ∷ []))
      (succeeds ∷ (reads (get_of (bytes "/hi")) ∷ (succeeds ∷ (fails ∷ []))))
      (run (new_session {b = messages} true files)))
run_all-IsPhase_example =
    run_all-IsPhase externals (site (some open_gate ∷ [])) true files
      (succeeds ∷ (reads (get_of (bytes "/hi")) ∷ (succeeds ∷ (fails ∷ []))))

abbrev waiting : Session messages Files
waiting = record {
  ssl_enabled = false;
  ssl_stream = false;
  is_open = true;
  pending = read plain ∷ [];
  written = [];
  thrown = none;
  world = files;
}

-- The handler of "/hi" keeps the connection alive, and a request for a missing page does not.
run_all-exchanges_example :
    IsDone []
      (run_all externals
        (site [])
        (exchanges (get_of (bytes "/hi") ∷ (get_of (bytes "/no") ∷ (get_of (bytes "/hi") ∷ []))))
        waiting)
      (answers externals
        (site [])
        (get_of (bytes "/hi") ∷ (get_of (bytes "/no") ∷ (get_of (bytes "/hi") ∷ [])))
        files)
run_all-exchanges_example =
    run_all-exchanges externals (site [])
      (get_of (bytes "/hi") ∷ (get_of (bytes "/no") ∷ (get_of (bytes "/hi") ∷ []))) waiting plain
      refl
