-- ===== src/FileResponse/Tests.antt =====
-- Runs of file responses, and their theorems at concrete inputs.
use rustlette.Prelude.{
  ◌+◌, ◌≡◌, refl, true, false, none, some, List, [], ◌∷◌, Bytes, text_eq, split_once, strip, split,
  codes, length, arith,
}
use rustlette.Prelude.Exec.{ok}
use rustlette.Headers.{RawHeaders, get_raw}
use rustlette.Ranges.{parse_range_header}
use rustlette.FileResponse.Call.{Stat, FileResponse, is_head, call}
use rustlette.FileResponse.Call.Delivered.{received-call}
use rustlette.Asgi.{HttpMessage, response_start, response_body, received}
use rustlette.FileResponse.{
  handle_simple, handle_single_range, handle_multiple_ranges, content_length, part,
}
use rustlette.FileResponse.Streams.{behind_start}
use rustlette.FileResponse.Multipart.{multipart, received-multipart-length}

abbrev file : Bytes
file = codes "0123456789"

chunks :
    behind_start (handle_single_range 3 [] file 2 8 10 false)
    ≡ part (codes "234") true ∷ part (codes "567") false ∷ []
unfolding handle_single_range
chunks = refl

-- a file whose size is a multiple of the chunk size ends with an empty chunk
even_chunks :
    behind_start (handle_simple 5 200 [] [] file false false)
    ≡ part (codes "01234") true ∷ part (codes "56789") true ∷ part [] false ∷ []
unfolding handle_simple
even_chunks = refl

received-multipart-length_example :
    (received (
        behind_start (
          handle_multiple_ranges 4
            (codes "b")
            (codes "text/plain")
            10
            file
            []
            ((0, 2) ∷ (5, 10) ∷ [])
            false))
      ≡ some (multipart (codes "b") (codes "text/plain") 10 file ((0, 2) ∷ (5, 10) ∷ [])))
    × (length (multipart (codes "b") (codes "text/plain") 10 file ((0, 2) ∷ (5, 10) ∷ []))
        ≡ content_length (codes "b") (codes "text/plain") 10 ((0, 2) ∷ (5, 10) ∷ []) + 1)
received-multipart-length_example =
    received-multipart-length 4 (codes "b") (codes "text/plain") 10 file [] ((0, 2) ∷ (5, 10) ∷ [])
      (omega arith) (omega arith)

abbrev stat : Stat
stat = record { st_size = 10; last_modified = codes "now"; etag = codes "\"e\""; is_regular = true }

abbrev response : FileResponse
response = record {
  path = codes "/f";
  status_code = 200;
  raw_headers = (codes "content-type", codes "text/plain") ∷ [];
  stat_result = some stat;
}

abbrev ranged : RawHeaders
ranged = (codes "range", codes "bytes=2-4") ∷ []

received-call_example :
    (ms : List HttpMessage) × (call 2 (codes "b") file response (codes "get") false ranged none
      ≡ ok ms)
    × (received (behind_start ms) ≡ some (codes "234"))
unfolding is_head text_eq get_raw parse_range_header split_once strip split
received-call_example =
    received-call 2 (codes "b") (codes "text/plain") file response stat (codes "get") false ranged
      none (codes "bytes=2-4") ((2, 5) ∷ []) (omega arith) refl refl refl refl refl refl refl

-- A range header that is refused.
not_bytes :
    call 2
      (codes "b")
      file
      response
      (codes "GET")
      false
      ((codes "range", codes "lines=1") ∷ [])
      none
    ≡ ok (
        response_start 400 (
          (codes "content-length", codes "24")
          ∷ (codes "content-type", codes "text/plain; charset=utf-8")
          ∷ [])
        ∷ response_body (some (codes "Only support bytes range")) none
        ∷ [])
unfolding call split_once strip
not_bytes = refl
