-- ===== src/WebSocketServer/Lifecycle/Tests.antt =====
-- A server at a port that is taken, and the laws applied to it.
use uni_serve_libhttp.Common.{
  Option, Str, ◌≡◌, refl, true, [], ◌∷◌, none, some, bytes, ◌==◌, if◌then◌else◌,
}
use uni_serve_libhttp.WebSocketServer.Lifecycle.{
  System, new_server, create_listener, refuse, start, stop, destroy,
}
use uni_serve_libhttp.WebSocketServer.Lifecycle.Calls.{
  starts, stops, run_calls, IsLifecycle, run_calls-new_server, IsSetUp, started, start-started,
}

abbrev port_taken : System
port_taken = record {
  opens = none;
  sets_option = none;
  binds = λ n. if n == 80 then some (bytes "in use") else none;
  listens = none;
  spawns = λ n. true;
}

taken_test : create_listener port_taken 80 ≡ some (bytes "Failed to bind to endpoint: in use")
unfolding create_listener refuse
taken_test = refl

run_calls-new_server_example :
    let v =
      run_calls (starts port_taken ∷ (stops ∷ (starts port_taken ∷ []))) (new_server 8080 2) in
    IsLifecycle v × (destroy v ≡ some (stop v))
run_calls-new_server_example =
    run_calls-new_server 8080 2 (starts port_taken ∷ (stops ∷ (starts port_taken ∷ [])))
      (λ n. refl, (tt, (λ n. refl, tt)))

start-started_example :
    (thrown : Option Str) × IsSetUp port_taken 80 thrown
    × (start port_taken (new_server 80 2) ≡ (started thrown (new_server 80 2), thrown))
unfolding new_server
start-started_example = start-started port_taken (new_server 80 2) (λ n. refl) refl
