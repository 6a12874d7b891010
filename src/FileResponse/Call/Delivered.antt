-- ===== src/FileResponse/Call/Delivered.antt =====
-- What a client assembles from the answer of a `FileResponse` to a request.
use rustlette.Prelude.{
  ℕ, ◌-◌, ◌<◌, ◌≡◌, refl, Bool, false, Option, none, some, List, [], ◌∷◌, Text, Bytes, codes,
  length, take, drop, All,
}
use rustlette.Prelude.Exec.{ok}
use rustlette.Headers.{RawHeaders, get_raw}
use rustlette.Asgi.{HttpMessage, received}
use rustlette.Ranges.{parse_range_header}
use rustlette.Ranges.Accepted.{IsWithin, parse_range_header-IsWithin}
use rustlette.FileResponse.Streams.{behind_start, received-handle_single_range}
use rustlette.FileResponse.Multipart.{multipart, received-multipart-length}
use rustlette.FileResponse.{handle_multiple_ranges}
use rustlette.FileResponse.Call.{
  Stat, FileResponse, is_head, found_stat, send_found, answer, used_range, with_ranges, multiple,
  call,
}

-- the bytes of one range alone, or the parts of several
abbrev pub asked_for : Text → Text → Bytes → List (ℕ × ℕ) → Bytes
asked_for boundary content_type content ((start, end) ∷ []) =
    take (end - start) (drop start content)
asked_for boundary content_type content ranges =
    multipart boundary content_type (length content) content ranges

with_ranges_lem :
    (chunk_size : ℕ) (boundary content_type : Text) (content : Bytes) (raw : RawHeaders)
    (ranges : List (ℕ × ℕ))
    → 0 < chunk_size
    → get_raw (codes "content-type") raw ≡ some content_type
    → All (IsWithin (length content)) ranges
    → (ms : List HttpMessage) × (with_ranges chunk_size boundary content raw
          (length content)
          false
          (ok ranges)
        ≡ ok ms)
      × (received (behind_start ms) ≡ some (asked_for boundary content_type content ranges))
unfolding with_ranges multiple
with_ranges_lem chunk_size boundary content_type content raw [] h t w = (
  handle_multiple_ranges chunk_size boundary content_type (length content) content raw [] false,
  rw t refl,
  (received-multipart-length chunk_size boundary content_type (length content) content raw [] h
      w).0,
)
with_ranges_lem chunk_size boundary content_type content raw ((start, end) ∷ []) h t
      ((s, o, l), _) =
    (_, refl, received-handle_single_range chunk_size raw content start end h o l)
with_ranges_lem chunk_size boundary content_type content raw (r ∷ q ∷ ranges) h t w = (
  handle_multiple_ranges chunk_size boundary content_type (length content) content raw
      (r ∷ q ∷ ranges) false,
  rw t refl,
  (received-multipart-length chunk_size boundary content_type (length content) content raw
      (r ∷ q ∷ ranges) h w).0,
)

-- A response whose stat has been taken, and is that of the file, answers a request that has a Range
-- header which is accepted, and no If-Range header, and is no HEAD request: a client assembles the bytes
-- of the range if there is one, and the parts of the ranges if there are several, whatever the header
-- says. The chunk size is positive, and the response has a content type.
pub received-call :
    (chunk_size : ℕ) (boundary content_type : Text) (content : Bytes) (r : FileResponse) (s : Stat)
    (method : Text) (pathsend : Bool) (request : RawHeaders) (stat_file : Option Stat)
    (range : Text) (ranges : List (ℕ × ℕ))
    → 0 < chunk_size
    → r.stat_result ≡ some s
    → s.st_size ≡ length content
    → get_raw (codes "content-type") r.raw_headers ≡ some content_type
    → is_head method ≡ false
    → get_raw (codes "range") request ≡ some range
    → get_raw (codes "if-range") request ≡ none
    → parse_range_header range (length content) ≡ ok ranges
    → (ms : List HttpMessage) × (call chunk_size boundary content r method pathsend request
          stat_file
        ≡ ok ms)
      × (received (behind_start ms) ≡ some (asked_for boundary content_type content ranges))
unfolding call send_found found_stat used_range answer
received-call chunk_size boundary content_type content r s method pathsend request stat_file range
      ranges h st size t head rg ifr p =
    let (ms, sent, got) =
      with_ranges_lem chunk_size boundary content_type content r.raw_headers ranges h t
        (parse_range_header-IsWithin range (length content) ranges p).1 in
    (ms, (rw (st, head, rg, ifr, size, p) sent), got)
