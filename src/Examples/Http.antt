-- ===== src/Examples/Http.antt =====
-- The webhook's answers at concrete inputs.
use foto.Base.{◌≡◌, refl, none, some, Bytes, codes}
use foto.Base.Dict.{Dict, lookup}
use foto.Ingest.Rejection.{disallowed_host}
use foto.Ingest.Webhook.{rejected}
use foto.Http.Webhook.{Outside, reply}
use foto.Http.Webhook.Laws.{reply-rejected}
use foto.Examples.Ingest.{payload}

-- Every body is marshalled to the same text, and no URL parses.
abbrev plain : Outside
plain = record {
  marshal = λ envelope. some (codes "{}");
  marshal_response = λ res. some (codes "{}");
  parse = λ url. none;
}

-- On a connection that fails at once.
reply-rejected_example :
    (headers : Dict Bytes) × ((reply plain (some 0) payload (rejected disallowed_host)).sent
      ≡ some (400, headers))
    × (lookup (codes "X-Foto-Rejected") headers ≡ some (codes "host_not_allowed"))
reply-rejected_example = reply-rejected plain (some 0) payload disallowed_host (codes "{}") refl
