-- ===== src/HttpServer/Request/ContentType.antt =====
-- The media types of static files.
use mathlib.Core.List.{reverse, reverse-append}
use uni_serve_libhttp.Common.{
  ◌≡◌, refl, sym, ap, ◌∙◌, inl, inr, Bool, true, false, List, [], ◌∷◌, ◌++◌, some, arith, All, ◌==◌,
  if◌then◌else◌, Str, bytes, Bool-cases,
}
use uni_serve_libhttp.HttpServer.Beast.{IsEndsWith}
use uni_serve_libhttp.HttpServer.Request.{content_type_of}

abbrev pub media_types : List (Str × Str)
media_types =
    (bytes ".html", bytes "text/html")
    ∷ ((bytes ".css", bytes "text/css")
        ∷ ((bytes ".js", bytes "application/javascript")
            ∷ ((bytes ".json", bytes "application/json")
                ∷ ((bytes ".png", bytes "image/png")
                    ∷ ((bytes ".jpg", bytes "image/jpeg")
                        ∷ ((bytes ".jpeg", bytes "image/jpeg") ∷ []))))))

-- Two texts differ at a position that both have.
clash : Str → Str → Bool
clash [] t = false
clash (c ∷ s) [] = false
clash (c ∷ s) (d ∷ t) = if c == d then clash s t else true

clash_apart : (s t u v : Str) → clash s t ≡ true → s ++ u ≡ t ++ v → ⊥
unfolding clash
clash_apart [] t u v h e = cc
clash_apart (c ∷ s) [] u v h e = cc
clash_apart (c ∷ s) (d ∷ t) u v h e = clash_apart s t u v (ground arith) (ground arith)

module _ {ends_with : Str → Str → Bool} (l : IsEndsWith ends_with) (p : Str) where
  hits : (e : Str) → ends_with (p ++ e) e ≡ true
  hits e = (l (p ++ e) e).1 (p, refl)

  misses : (e f : Str) → clash (reverse e) (reverse f) ≡ true → ends_with (p ++ e) f ≡ false
  misses e f h = elim (Bool-cases (ends_with (p ++ e) f)) [
    | inr g ↦ g
    | inl g ↦
        let (q, same) = (l (p ++ e) f).0 g in
        absurd (
          clash_apart (reverse e) (reverse f) (reverse p) (reverse q) h
            (sym (reverse-append p e) ∙ (ap reverse same ∙ reverse-append q f)))
  ]

  -- A file is sent with the media type of its extension, whatever stands before it.
  pub content_type_of-media_types :
      All (λ e. content_type_of ends_with (p ++ e.0) ≡ some e.1) media_types
  unfolding content_type_of clash
  content_type_of-media_types = (
    rw (hits (bytes ".html")),
    (
      rw (misses (bytes ".css") (bytes ".html") refl, hits (bytes ".css")),
      (
        rw (
          misses (bytes ".js") (bytes ".html") refl,
          misses (bytes ".js") (bytes ".css") refl,
          hits (bytes ".js"),
        ),
        (
          rw (
            misses (bytes ".json") (bytes ".html") refl,
            misses (bytes ".json") (bytes ".css") refl,
            misses (bytes ".json") (bytes ".js") refl,
            hits (bytes ".json"),
          ),
          (
            rw (
              misses (bytes ".png") (bytes ".html") refl,
              misses (bytes ".png") (bytes ".css") refl,
              misses (bytes ".png") (bytes ".js") refl,
              misses (bytes ".png") (bytes ".json") refl,
              hits (bytes ".png"),
            ),
            (
              rw (
                misses (bytes ".jpg") (bytes ".html") refl,
                misses (bytes ".jpg") (bytes ".css") refl,
                misses (bytes ".jpg") (bytes ".js") refl,
                misses (bytes ".jpg") (bytes ".json") refl,
                misses (bytes ".jpg") (bytes ".png") refl,
                hits (bytes ".jpg"),
              ),
              (
                rw (
                  misses (bytes ".jpeg") (bytes ".html") refl,
                  misses (bytes ".jpeg") (bytes ".css") refl,
                  misses (bytes ".jpeg") (bytes ".js") refl,
                  misses (bytes ".jpeg") (bytes ".json") refl,
                  misses (bytes ".jpeg") (bytes ".png") refl,
                  misses (bytes ".jpeg") (bytes ".jpg") refl,
                  hits (bytes ".jpeg"),
                ),
                tt,
              ),
            ),
          ),
        ),
      ),
    ),
  )
