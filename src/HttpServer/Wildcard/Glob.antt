-- ===== src/HttpServer/Wildcard/Glob.antt =====
-- What the route patterns mean, stated with no regular expression.
use uni_serve_libhttp.Common.{ℕ, ◌≡◌, ◌≢◌, [], ◌∷◌, Str}
use uni_serve_libhttp.HttpServer.Regex.{to_lower}

-- Not a line terminator.
abbrev pub IsInline : ℕ → Type 0
IsInline x = (x ≢ 10) × (x ≢ 13)

-- `*` stands for any text within a line, `?` for one character of a line, and any other character
-- for itself, in either case.
pub data Glob : Str → Str → Type 0 where
  done : Glob [] []
  skip : {c : ℕ} {p s : Str} → c ≡ b'*' → Glob p s → Glob (c ∷ p) s
  take_in : {c x : ℕ} {p s : Str} → c ≡ b'*' → IsInline x → Glob (c ∷ p) s → Glob (c ∷ p) (x ∷ s)
  single : {c x : ℕ} {p s : Str} → c ≡ b'?' → IsInline x → Glob p s → Glob (c ∷ p) (x ∷ s)
  same :
      {c x : ℕ} {p s : Str}
      → c ≢ b'*'
      → c ≢ b'?'
      → to_lower c ≡ to_lower x
      → Glob p s
      → Glob (c ∷ p) (x ∷ s)
