-- ===== src/HttpServer/Beast.antt =====
-- What `HttpServer` uses of Boost.Beast's messages and of `boost::algorithm::ends_with`. Boost is
-- not part of the repository: its types and functions are a parameter, with what its
-- documentation says as laws.
use uni_serve_libhttp.Common.{ℕ, ◌≡◌, ◌≢◌, ◌≤◌, ◌↔◌, Bool, [], ◌++◌, Option, some, leb, Str}

-- What a client sees of a response.
pub record View : Type 0 where
  pub status : ℕ
  pub content_type : Str
  pub body : Str
  pub keep_alive : Bool

-- `http::request<http::string_body>` and `http::response<http::string_body>`.
pub record Beast : Type 1 where
  pub Request : Type 0
  pub Response : Type 0
  pub target : Request → Str
  pub version : Request → ℕ
  pub keep_alive : Request → Bool
  -- `http::to_string(req.method())`
  pub method_string : Request → Str
  -- A default-constructed response, and its modifiers.
  pub response : Response
  pub set_version : ℕ → Response → Response
  pub set_server : Str → Response → Response
  pub set_content_type : Str → Response → Response
  pub set_keep_alive : Bool → Response → Response
  pub set_result : ℕ → Response → Response
  pub set_body : Str → Response → Response
  -- `none` where it throws `std::invalid_argument`.
  pub prepare_payload : Response → Option Response
  pub view : Response → View

-- A status whose message may carry a body.
abbrev pub AllowsBody : ℕ → Type 0
AllowsBody s = (200 ≤ s) × (s ≢ 204) × (s ≢ 304)

pub record IsBeast (b : Beast) : Type 0 where
  -- HTTP/1.1 is version 11, and its connections persist unless a message says otherwise.
  pub view-response :
      (v : ℕ)
      → b.view (b.set_version v b.response)
        ≡ record { status = 200; content_type = []; body = []; keep_alive = leb 11 v }
  pub view-set_server : (s : Str) (r : b.Response) → b.view (b.set_server s r) ≡ b.view r
  pub view-set_content_type :
      (s : Str) (r : b.Response)
      → b.view (b.set_content_type s r) ≡ record (b.view r) { content_type = s }
  pub view-set_keep_alive :
      (k : Bool) (r : b.Response)
      → b.view (b.set_keep_alive k r) ≡ record (b.view r) { keep_alive = k }
  pub view-set_result :
      (c : ℕ) (r : b.Response) → b.view (b.set_result c r) ≡ record (b.view r) { status = c }
  pub view-set_body :
      (s : Str) (r : b.Response) → b.view (b.set_body s r) ≡ record (b.view r) { body = s }
  -- It sets the length fields only, and refuses nothing but a body where none is allowed.
  pub prepared :
      (r : b.Response)
      → AllowsBody (b.view r).status
      → (r' : b.Response) × (b.prepare_payload r ≡ some r') × (b.view r' ≡ b.view r)

-- `boost::algorithm::ends_with`
abbrev pub IsEndsWith : (Str → Str → Bool) → Type 0
IsEndsWith ends_with = (s t : Str) → (ends_with s t ≡ Bool.true) ↔ ((p : Str) × (s ≡ p ++ t))
