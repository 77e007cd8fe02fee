-- ===== src/Http/Laws.antt =====
-- What a client sees of a response.
use foto.Base.{
  ℕ, ◌≡◌, refl, ap, ◌∙◌, inl, inr, ◌⊎◌, Bool-cases, Option, none, some, Option-cases, [], ◌∷◌, ◌++◌,
  Bytes, codes,
}
use foto.Base.Dict.{Dict, insert}
use foto.Http.{
  Writer, set_header, write_header, Connection, write, set_headers, write_json, text, Envelope,
  error_response, write_or_fail,
}

abbrev pub status_from : Option (ℕ × Dict Bytes) → Option ℕ
status_from none = none
status_from (some s) = some s.0

-- The status that the client sees.
abbrev pub status_of : Writer → Option ℕ
status_of w = status_from w.sent

-- The status of a response whose body is marshalled, or 500.
abbrev pub or_failed : Option Bytes → ℕ → ℕ
or_failed none status = 500
or_failed (some t) status = status

write_header-sent :
    (n : ℕ) (w : Writer) {s : ℕ × Dict Bytes} → w.sent ≡ some s → (write_header n w).sent ≡ some s
unfolding write_header
write_header-sent n w h =
    ap
      (λ (o : Option (ℕ × Dict Bytes)).
        (elim o as (λ x. Writer) [
          | none ↦ record w { sent = some (n, w.header) }
          | some before ↦ w
        ]).sent)
      h
    ∙ h

write_header-first :
    (n : ℕ) (w : Writer) → w.sent ≡ none → (write_header n w).sent ≡ some (n, w.header)
unfolding write_header
write_header-first n w h =
    ap
      (λ (o : Option (ℕ × Dict Bytes)).
        (elim o as (λ x. Writer) [
          | none ↦ record w { sent = some (n, w.header) }
          | some before ↦ w
        ]).sent)
      h

write-sent :
    (c : Connection) (t : Bytes) (w : Writer) {s : ℕ × Dict Bytes}
    → w.sent ≡ some s
    → (write c t w).1.sent ≡ some s
unfolding write
write-sent none t w h = write_header-sent 200 w h
write-sent (some n) t w h = write_header-sent 200 w h

set_headers-sent : (headers : Dict Bytes) (w : Writer) → (set_headers headers w).sent ≡ w.sent
unfolding set_headers set_header
set_headers-sent [] w = refl
set_headers-sent ((key, value) ∷ headers) w = set_headers-sent headers (set_header key value w)

-- The headers that `WriteJSON` sends.
abbrev pub json_headers : Dict Bytes → Writer → Dict Bytes
json_headers headers w =
    insert (codes "Content-Type") (codes "application/json") (set_headers headers w).header

pub write_json-first :
    (c : Connection) (t : Bytes) (status : ℕ) (headers : Dict Bytes) (w : Writer)
    → w.sent ≡ none
    → (write_json c (some t) status headers w).1.sent ≡ some (status, json_headers headers w)
unfolding write_json set_header
write_json-first c t status headers w h = write-sent c (t ++ 10 ∷ []) _ (
    write_header-first status
      (set_header (codes "Content-Type") (codes "application/json") (set_headers headers w))
      (set_headers-sent headers w ∙ h))

write_json-sent :
    (c : Connection) (o : Option Bytes) (status : ℕ) (headers : Dict Bytes) (w : Writer)
    {s : ℕ × Dict Bytes}
    → w.sent ≡ some s
    → (write_json c o status headers w).1.sent ≡ some s
unfolding write_json set_header
write_json-sent c none status headers w h = h
write_json-sent c (some t) status headers w h = write-sent c (t ++ 10 ∷ []) _ (
    write_header-sent status
      (set_header (codes "Content-Type") (codes "application/json") (set_headers headers w))
      (set_headers-sent headers w ∙ h))

or_failed-500 : (b : Option Bytes) → or_failed b 500 ≡ 500
or_failed-500 none = refl
or_failed-500 (some t) = refl

module _ (marshal : Envelope → Option Bytes) (c : Connection) where
  -- A response whose status is sent keeps its status and its headers, whatever is written after it.
  pub error_response-sent :
      (status : ℕ) (message : Bytes) (w : Writer) {s : ℕ × Dict Bytes}
      → w.sent ≡ some s
      → (error_response marshal c status message w).sent ≡ some s
  unfolding error_response
  error_response-sent status message w h =
      let o = marshal ((codes "error", text message) ∷ []) in
      let kept = write_json-sent c o status [] w h in
      elim (Bool-cases (write_json c o status [] w).0) [
        | inl e ↦ rw e kept
        | inr e ↦ rw e (write_header-sent 500 _ kept)
      ]

  -- An error response answers with its status, or with 500 where its body cannot be marshalled; a
  -- connection that fails on the way changes neither.
  pub error_response-status :
      (status : ℕ) (message : Bytes) (w : Writer)
      → w.sent ≡ none
      → status_of (error_response marshal c status message w)
        ≡ some (or_failed (marshal ((codes "error", text message) ∷ [])) status)
  unfolding error_response write_json
  error_response-status status message w h =
      elim (Option-cases (marshal ((codes "error", text message) ∷ []))) [
        | inl e ↦ rw e (ap status_from (write_header-first 500 w h))
        | inr (t, e) ↦
            let sent = write_json-first c t status [] w h in
            elim (Bool-cases (write_json c (some t) status [] w).0) [
              | inl b ↦ rw (e, b) (ap status_from sent)
              | inr b ↦ rw (e, b) (ap status_from (write_header-sent 500 _ sent))
            ]
      ]

  pub write_or_fail-first :
      (t : Bytes) (status : ℕ) (w : Writer)
      → w.sent ≡ none
      → (write_or_fail marshal c (some t) status w).sent ≡ some (status, json_headers [] w)
  unfolding write_or_fail
  write_or_fail-first t status w h =
      let first = write_json-first c t status [] w h in
      elim (Bool-cases (write_json c (some t) status [] w).0) [
        | inl e ↦ rw e first
        | inr e ↦ rw e (error_response-sent 500 _ (write_json c (some t) status [] w).1 first)
      ]

  pub write_or_fail-unmarshalled :
      (status : ℕ) (w : Writer)
      → w.sent ≡ none
      → status_of (write_or_fail marshal c none status w) ≡ some 500
  unfolding write_or_fail write_json
  write_or_fail-unmarshalled status w h =
      error_response-status 500 _ w h
      ∙ ap some (or_failed-500 (marshal ((codes "error", text _) ∷ [])))

  -- A header that was not set, and is not the content type, is not sent with an error.
  pub error_response-headers :
      (status : ℕ) (message : Bytes) (w : Writer)
      → w.sent ≡ none
      → (n : ℕ) × (headers : Dict Bytes) × ((error_response marshal c status message w).sent
          ≡ some (n, headers))
        × ((headers ≡ json_headers [] w) ⊎ (headers ≡ w.header))
  unfolding error_response write_json
  error_response-headers status message w h =
      elim (Option-cases (marshal ((codes "error", text message) ∷ []))) [
        | inl e ↦ (500, w.header, rw e (write_header-first 500 w h), inr refl)
        | inr (t, e) ↦
            let sent = write_json-first c t status [] w h in
            elim (Bool-cases (write_json c (some t) status [] w).0) [
              | inl b ↦ (status, json_headers [] w, rw (e, b) sent, inl refl)
              | inr b ↦
                  (status, json_headers [] w, rw (e, b) (write_header-sent 500 _ sent), inl refl)
            ]
      ]
