-- ===== src/HttpServer/Lifecycle/Tests.antt =====
-- Servers at fixed inputs, and the laws applied to them.
use uni_serve_libhttp.Common.{
  ◌≡◌, refl, true, false, [], ◌∷◌, none, some, bytes, ltb, ◌==◌, if◌then◌else◌, arith,
}
use uni_serve_libhttp.HttpServer.Lifecycle.{
  System, HttpServer, init_acceptor, start, stop, run, destroy,
}
use uni_serve_libhttp.HttpServer.Lifecycle.Calls.{
  starts, runs, stops, run_calls, IsLifecycle, run_calls-IsLifecycle, run_calls-ioc_stopped,
  stop-start-unjoined,
}

abbrev healthy : System
healthy = record {
  is_address = λ s. true;
  opens = none;
  binds = λ s n. none;
  listens = none;
  spawns = λ n. true;
  loads_certificate = λ c k. true;
}

-- A third thread cannot be created.
abbrev exhausted : System
exhausted = record healthy { spawns = λ n. ltb n 2 }

abbrev four_threads : HttpServer
four_threads = record {
  address = bytes "0.0.0.0";
  port = 8080;
  threads = 4;
  running = false;
  ssl_enabled = false;
  cert_file = [];
  key_file = [];
  ssl_ctx = false;
  ioc_stopped = false;
  listener = none;
  worker_threads = 0;
  sessions = 3 ∷ (5 ∷ []);
}

abbrev secure : HttpServer
secure = record four_threads { ssl_enabled = true; ssl_ctx = true }

run_calls-IsLifecycle_example :
    let v = run_calls (starts healthy ∷ (stops ∷ (runs healthy ∷ []))) secure in
    IsLifecycle v × (destroy v ≡ some (stop v))
run_calls-IsLifecycle_example =
    run_calls-IsLifecycle secure (starts healthy ∷ (stops ∷ (runs healthy ∷ []))) refl refl refl
      (λ n. refl, (tt, (λ n. refl, tt)))

run_calls-ioc_stopped_example :
    let v = run_calls (stops ∷ (starts healthy ∷ [])) (record four_threads { running = true }) in
    (v.ioc_stopped ≡ true) × ((sys : System) → (run sys v).1 ≡ false)
run_calls-ioc_stopped_example =
    run_calls-ioc_stopped (record four_threads { running = true }) (starts healthy ∷ []) refl

stop-start-unjoined_example :
    ((stop (start exhausted four_threads)).running ≡ false)
    × ((stop (start exhausted four_threads)).worker_threads ≡ 2)
    × (destroy (start exhausted four_threads)
        ≡ (if 2 == 0 then some (start exhausted four_threads) else none))
unfolding init_acceptor
stop-start-unjoined_example =
    stop-start-unjoined exhausted four_threads 2 refl refl refl refl (λ j l. ground (arith, l)) refl
      (omega arith)
