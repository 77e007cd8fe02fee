-- ===== src/Http/Handlers/Photos.antt =====
-- How photographs are sent: the headers and the bytes.
use foto.Base.{
  ℕ, ◌≡◌, refl, ap, ◌∙◌, inl, inr, Bool, true, false, Option, none, some, [], Bytes, bytes_eq,
  codes,
}
use foto.Base.Dict.{Dict, lookup, insert}
use foto.Serving.{Response, unavailable, missing, failed, shown}
use foto.Http.{
  Writer, Connection, new_writer, set_header, set_headers, write_header, write, error_response,
}
use foto.Http.Laws.{status_from, error_response-headers}
use foto.Http.Handlers.{Marshal, photo_headers, write_photo}

abbrev header_in : Bytes → Option (ℕ × Dict Bytes) → Option Bytes
header_in key none = none
header_in key (some s) = lookup key s.1

-- The value of a header that the client gets.
abbrev pub header_of : Bytes → Writer → Option Bytes
header_of key w = header_in key w.sent

-- How a client may keep and pass on what it gets.
pub record IsGuarded (w : Writer) (kind : Bytes) : Type 0 where
  pub status : status_from w.sent ≡ some 200
  pub content_type : header_of (codes "Content-Type") w ≡ some kind
  pub cached :
      header_of (codes "Cache-Control") w ≡ some (codes "public, max-age=31536000, immutable")
  pub unreferred : header_of (codes "Referrer-Policy") w ≡ some (codes "no-referrer")
  pub unsniffed : header_of (codes "X-Content-Type-Options") w ≡ some (codes "nosniff")

-- Not a photograph.
abbrev pub is_error : Response → Bool
is_error (shown kind content) = false
is_error _ = true

module _ (m : Marshal) where
  -- A photograph is sent with the status 200, its type, cacheable for ever, and with the headers that keep it
  -- from referrers and from sniffing, whatever the connection does; where the connection holds, the body
  -- is the object for a GET and empty for a HEAD.
  pub write_photo-IsGuarded :
      (c : Connection) (kind : Bytes) (content : Option Bytes)
      → IsGuarded (write_photo m c (shown kind content)) kind
        × (c ≡ none
            → (write_photo m c (shown kind content)).body ≡ elim content [ none ↦ [] | some b ↦ b ])
  unfolding write_photo photo_headers set_header write write_header lookup insert bytes_eq
  write_photo-IsGuarded c kind none = (
    record {
      status = refl;
      content_type = refl;
      cached = refl;
      unreferred = refl;
      unsniffed = refl;
    },
    λ e. refl,
  )
  write_photo-IsGuarded none kind (some b) = (
    record {
      status = refl;
      content_type = refl;
      cached = refl;
      unreferred = refl;
      unsniffed = refl;
    },
    λ e. refl,
  )
  write_photo-IsGuarded (some n) kind (some b) = (
    record {
      status = refl;
      content_type = refl;
      cached = refl;
      unreferred = refl;
      unsniffed = refl;
    },
    λ e. absurd (cc e),
  )

  error-uncached :
      (c : Connection) (status : ℕ) (message : Bytes)
      → header_of (codes "Cache-Control") (error_response m.envelope c status message new_writer)
        ≡ none
  unfolding set_headers lookup insert bytes_eq
  error-uncached c status message =
      let (n, headers, sent, which) =
        error_response-headers m.envelope c status message new_writer refl in
      ap (header_in (codes "Cache-Control")) sent ∙ elim which [
        | inl e ↦ ap (lookup (codes "Cache-Control")) e
        | inr e ↦ ap (lookup (codes "Cache-Control")) e
      ]

  -- An error in place of a photograph is never marked as cacheable.
  pub write_photo-uncached :
      (c : Connection) (r : Response)
      → is_error r ≡ true
      → header_of (codes "Cache-Control") (write_photo m c r) ≡ none
  unfolding write_photo
  write_photo-uncached c unavailable h = error-uncached c 503 (codes "photo storage is unavailable")
  write_photo-uncached c missing h = error-uncached c 404 _
  write_photo-uncached c failed h = error-uncached c 500 _
  write_photo-uncached c (shown kind content) h = absurd (cc h)
