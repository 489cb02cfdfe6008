-- ===== src/HttpServer/Site.antt =====
-- A message type that meets the laws, and a site with two gates, for runs at fixed inputs.
use mathlib.Core.List.{reverse, reverse-append, reverse-reverse}
use uni_serve_libhttp.Common.{
  ◌↔◌, sym, ap, ◌∙◌, ℕ, ◌≡◌, ◌≢◌, ◌≤◌, refl, Bool, true, false, List, [], ◌∷◌, ◌++◌, Option, none,
  some, arith, Str, bytes, empty, leb, ltb, ◌==◌, ◌&&◌, ◌||◌, not, if◌then◌else◌, lookup,
}
use uni_serve_libhttp.HttpServer.Split.{split_on}
use uni_serve_libhttp.HttpServer.Routes.{Router}
use uni_serve_libhttp.HttpServer.Request.{ok, Handler, Middleware, Externals}
use uni_serve_libhttp.HttpServer.Beast.{View, Beast, IsBeast, IsEndsWith}

pub record Message : Type 0 where
  pub target : Str
  pub method : Str
  pub version : ℕ
  pub keep_alive : Bool

abbrev pub messages : Beast
messages = record {
  Request = Message;
  Response = View;
  target = λ m. m.target;
  version = λ m. m.version;
  keep_alive = λ m. m.keep_alive;
  method_string = λ m. m.method;
  response = record { status = 200; content_type = []; body = []; keep_alive = true };
  set_version = λ v r. record r { keep_alive = leb 11 v };
  set_server = λ s r. r;
  set_content_type = λ s r. record r { content_type = s };
  set_keep_alive = λ k r. record r { keep_alive = k };
  set_result = λ c r. record r { status = c };
  set_body = λ s r. record r { body = s };
  prepare_payload = λ r.
      if not (empty r.body) && (ltb r.status 200 || r.status == 204 || r.status == 304)
      then none
      else some r;
  view = λ r. r;
}

messages-prepared :
    (r : View)
    → (200 ≤ r.status) × (r.status ≢ 204) × (r.status ≢ 304)
    → messages.prepare_payload r ≡ some r
messages-prepared r h = ground arith

pub messages-IsBeast : IsBeast messages
messages-IsBeast = record {
  view-response = λ v. refl;
  view-set_server = λ s r. refl;
  view-set_content_type = λ s r. refl;
  view-set_keep_alive = λ k r. refl;
  view-set_result = λ c r. refl;
  view-set_body = λ s r. refl;
  prepared = λ r h. (r, messages-prepared r h, refl);
}

-- The state of the application is the list of its files.
abbrev pub Files : Type 0
Files = List (Str × Str)

is_prefix : Str → Str → Bool
is_prefix [] t = true
is_prefix (c ∷ s) [] = false
is_prefix (c ∷ s) (d ∷ t) = c == d && is_prefix s t

is_prefix_iff : (s t : Str) → (is_prefix s t ≡ true) ↔ ((q : Str) × (t ≡ s ++ q))
unfolding is_prefix
is_prefix_iff [] t = (λ e. (t, refl), λ e. refl)
is_prefix_iff (c ∷ s) [] = (λ e. absurd (ground arith), λ (q, e). absurd (ground arith))
is_prefix_iff (c ∷ s) (d ∷ t) = (
  λ e. let (q, f) = (is_prefix_iff s t).0 (ground arith) in (q, ground arith),
  λ (q, e). ground (arith, (is_prefix_iff s t).1 (q, ground arith)),
)

pub ends_with : Str → Str → Bool
ends_with s t = is_prefix (reverse t) (reverse s)

pub ends_with-IsEndsWith : IsEndsWith ends_with
unfolding ends_with
ends_with-IsEndsWith s t = (
  λ e.
      let (q, f) = (is_prefix_iff (reverse t) (reverse s)).0 e in
      (
        reverse q,
        sym (reverse-reverse s)
            ∙ (ap reverse f
                ∙ (reverse-append (reverse t) q ∙ ap (◌++◌ (reverse q)) (reverse-reverse t))),
      ),
  λ (q, e).
      (is_prefix_iff (reverse t) (reverse s)).1 (reverse q, ap reverse e ∙ reverse-append q t),
)

abbrev pub externals : Externals Files
externals = record { split = split_on; ends_with = ends_with; read_file = λ w path. lookup path w }

abbrev pub hello : Handler messages Files
hello req params w = (
  ok (record {
    status = 200;
    content_type = bytes "text/html";
    body = bytes "hi";
    keep_alive = true;
  }),
  w,
)

abbrev pub open_gate : Middleware messages Files
open_gate req r params w = (ok (true, r), w)

abbrev pub shut_gate : Middleware messages Files
shut_gate req r params w = (ok (false, record r { status = 401 }), w)

abbrev pub site :
    List (Option (Middleware messages Files))
    → Router (Handler messages Files) (Middleware messages Files)
site ms = record {
  get_handlers =
      record { path = bytes "/hi"; pattern = none; handler = some hello; is_wildcard = false } ∷ [];
  post_handlers = [];
  put_handlers = [];
  delete_handlers = [];
  middlewares = ms;
  static_directory = bytes "www";
}

abbrev pub files : Files
files = (bytes "www/../key", bytes "secret") ∷ []

abbrev pub get_of : Str → Message
get_of target = record { target = target; method = bytes "GET"; version = 11; keep_alive = false }

abbrev pub start_of : Message → View
start_of req = record {
  status = 200;
  content_type = bytes "text/plain";
  body = [];
  keep_alive = req.keep_alive;
}
