-- ===== src/Http.antt =====
-- The helpers of every handler: go/cmd/api/app/api.go, on a model of `http.ResponseWriter`. `json.Marshal`
-- and the decoder of package `encoding/json` are parameters. Log lines are left out.
pub mod Laws
pub mod Webhook
pub mod Handlers
pub mod Routes
use foto.Base.{
  ℕ, zero, suc, ◌-◌, Bool, true, false, not, Option, none, some, List, [], ◌∷◌, ◌++◌, Bytes, codes,
  is_empty, take, ◌==◌, if◌then◌else◌, Result, ok, err,
}
use foto.Base.Dict.{Dict, lookup, insert}
use foto.Base.Int.{ℤ}
use foto.Base.Text.{trim_space}

-- The headers set so far, the status and the headers that were sent, and the body sent so far.
pub record Writer : Type 0 where
  pub header : Dict Bytes
  pub sent : Option (ℕ × Dict Bytes)
  pub body : Bytes

abbrev pub new_writer : Writer
new_writer = record { header = []; sent = none; body = [] }

-- `w.Header().Set`
unfoldable pub set_header : Bytes → Bytes → Writer → Writer
set_header key value w = record w { header = insert key value w.header }

-- A second status is ignored.
unfoldable pub write_header : ℕ → Writer → Writer
write_header status w = elim w.sent [
  | none ↦ record w { sent = some (status, w.header) }
  | some before ↦ w
]

-- `w.Write`: the connection takes all, or fails behind some bytes.
abbrev pub Connection : Type 0
Connection = Option ℕ

unfoldable pub write : Connection → Bytes → Writer → Bool × Writer
unfolding write_header
write none text w = let v = write_header 200 w in (true, record v { body = v.body ++ text })
write (some n) text w =
    let v = write_header 200 w in (false, record v { body = v.body ++ take n text })

unfoldable pub set_headers : Dict Bytes → Writer → Writer
unfolding set_header
set_headers [] w = w
set_headers ((key, value) ∷ headers) w = set_headers headers (set_header key value w)

-- `WriteJSON`, on what `json.Marshal` returns; whether it returns no error, and the response.
unfoldable pub write_json : Connection → Option Bytes → ℕ → Dict Bytes → Writer → Bool × Writer
unfolding set_headers write
write_json c none status headers w = (false, w)
write_json c (some text) status headers w = write c (text ++ 10 ∷ []) (
    write_header status
      (set_header (codes "Content-Type") (codes "application/json") (set_headers headers w)))

-- A field of a JSON object.
pub data Field : Type 0 where
  text : Bytes → Field
  flag : Bool → Field

abbrev pub Envelope : Type 0
Envelope = List (Bytes × Field)

module _ (marshal : Envelope → Option Bytes) (c : Connection) where
  unfoldable pub error_response : ℕ → Bytes → Writer → Writer
  unfolding write_json
  error_response status message w =
      let written = write_json c (marshal ((codes "error", text message) ∷ [])) status [] w in
      if written.0 then written.1 else write_header 500 written.1

  abbrev pub server_error_response : Writer → Writer
  server_error_response =
      error_response 500
        (codes "the server encountered a problem and could not process your request")

  -- `WriteJSON` as the handlers call it: `ServerErrorResponse` where it fails.
  unfoldable pub write_or_fail : Option Bytes → ℕ → Writer → Writer
  write_or_fail body status w =
      let written = write_json c body status [] w in
      if written.0 then written.1 else server_error_response written.1

  abbrev pub not_found_response : Writer → Writer
  not_found_response = error_response 404 (codes "the requested resource could not be found")

  abbrev pub method_not_allowed_response : Bytes → Writer → Writer
  method_not_allowed_response method =
      error_response 405
        (codes "the " ++ (method ++ codes " method is not supported for this resource"))

  abbrev pub bad_request_response : Bytes → Writer → Writer
  bad_request_response message = error_response 400 message

  abbrev pub authentication_required_response : Writer → Writer
  authentication_required_response =
      error_response 401 (codes "you must be authenticated to access this resource")

  abbrev pub service_unavailable_response : Bytes → Writer → Writer
  service_unavailable_response message = error_response 503 (
      if is_empty message
      then codes "the service is temporarily unavailable, please retry"
      else message)

-- What `Decode` returns on the body, cut off behind 1,048,576 bytes.
pub data Decoded (A : Type 0) : Type 0 where
  value : A → Decoded A
  syntax_error : ℤ → Decoded A
  unexpected_eof : Decoded A
  wrong_type : Bytes → ℤ → Decoded A
  eof : Decoded A
  too_large : ℤ → Decoded A
  other_error : Bytes → Decoded A

pub data ReadError : Type 0 where
  badly_formed_at : ℤ → ReadError
  badly_formed : ReadError
  wrong_field : Bytes → ReadError
  wrong_type_at : ℤ → ReadError
  empty_body : ReadError
  larger_than : ℤ → ReadError
  more_than_one : ReadError
  unclassified : Bytes → ReadError

-- `ReadJSON`, on the results of its two calls of `Decode`, the second into an empty struct.
unfoldable pub read_json : {A : Type 0} → Decoded A → Decoded (Unit {0}) → Result ReadError A
read_json (syntax_error offset) second = err (badly_formed_at offset)
read_json unexpected_eof second = err badly_formed
read_json (wrong_type field offset) second =
    if is_empty field then err (wrong_type_at offset) else err (wrong_field field)
read_json eof second = err empty_body
read_json (too_large limit) second = err (larger_than limit)
read_json (other_error message) second = err (unclassified message)
read_json (value a) second = elim second [ eof ↦ ok a | _ ↦ err more_than_one ]

-- `strings.IndexByte`.
unfoldable pub index_byte : Bytes → ℕ → Option ℕ
index_byte [] b = none
index_byte (c ∷ s) b =
    let rest = index_byte s b in
    if c == b then some 0 else (elim rest [ none ↦ none | some i ↦ some (suc i) ])

-- On the header X-Forwarded-For, which is empty if it is missing, and the address of the connection.
unfoldable pub client_ip : Bytes → Bytes → Bytes
unfolding index_byte
client_ip fwd remote = if is_empty fwd then remote else (elim (index_byte fwd b',') [
  | none ↦ trim_space fwd
  | some i ↦ if i == 0 then trim_space fwd else trim_space (take i fwd)
])
