-- ===== src/Gzip/Tests.antt =====
-- The responder at concrete inputs.
use rustlette.Prelude.{◌≡◌, refl, Bool, true, false, none, some, List, [], Bytes, codes}
use rustlette.Prelude.Exec.{Exec, err}
use rustlette.Asgi.{HttpMessage, response_start, response_body}
use rustlette.Headers.{HeaderError, key_error, get_raw, contains_raw}
use rustlette.Gzip.{Responder, init, send_with_compression}

-- a compressor that knows one body only
abbrev squeeze : Bool → Bytes → Bool → Bytes × Bool
squeeze z body more = (codes "z", z)

abbrev fresh : Responder Bool
fresh = init false

abbrev send : HttpMessage → Exec (Responder Bool) HeaderError (List HttpMessage)
send = send_with_compression 3 (codes "gzip") squeeze

-- A streamed response whose first message leaves "body" out fails.
no_body :
    (send_with_compression 500
      (codes "gzip")
      squeeze
      (response_body none (some true))
      (send_with_compression 500 (codes "gzip") squeeze (response_start 200 []) fresh).1).0
    ≡ err key_error
unfolding send_with_compression init contains_raw get_raw
no_body = refl
