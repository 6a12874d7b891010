-- ===== src/FileResponse/Call.antt =====
-- rustlette/responses.py: `FileResponse.__init__` and `__call__`, which choose between the ways to send a
-- file. Parameters are `quote` of urllib, and of a file what `os.stat` gives: its size, its time as
-- `formatdate` has it, its entity tag in quotes, and whether it is a regular file.
pub mod Delivered
use mathlib.Core.List.{map}
use rustlette.Prelude.{
  ℕ, ◌+◌, ◌-◌, Bool, true, false, not, ◌&&◌, ◌||◌, Option, none, some, List, [], ◌∷◌, ◌++◌, Text,
  Bytes, codes, leb, text_eq, text_in, if◌then◌else◌,
}
use rustlette.Prelude.Decimal.{str}
use rustlette.Prelude.Exec.{Result, ok, err}
use rustlette.Headers.{RawHeaders, HeaderError, key_error, get_raw, setdefault_raw}
use rustlette.Headers.Encoding.{encode, then_ok}
use rustlette.Asgi.{HttpMessage}
use rustlette.Response.{Response, init_headers, plain_text_response, respond}
use rustlette.Ranges.{RangeError, malformed_range_header, range_not_satisfiable, parse_range_header}
use rustlette.FileResponse.{handle_simple, handle_single_range, handle_multiple_ranges}

pub record Stat : Type 0 where
  pub st_size : ℕ
  pub last_modified : Text
  pub etag : Text
  pub is_regular : Bool

pub record FileResponse : Type 0 where
  pub path : Text
  pub status_code : ℕ
  pub raw_headers : RawHeaders
  pub stat_result : Option Stat

-- `set_stat_headers`, on the headers
unfoldable pub set_stat_headers : Stat → RawHeaders → RawHeaders
unfolding setdefault_raw str
set_stat_headers s raw =
    (setdefault_raw (codes "etag") s.etag
      (setdefault_raw (codes "last-modified") s.last_modified
        (setdefault_raw (codes "content-length") (str s.st_size) raw).1).1).1

stat_headers : Option Stat → RawHeaders → RawHeaders
unfolding set_stat_headers
stat_headers none raw = raw
stat_headers (some s) raw = set_stat_headers s raw

module _ (quote : Text → Text) where
  disposition : (type filename : Text) → Text
  unfolding text_eq
  disposition type filename =
      if text_eq (quote filename) filename
      then type ++ (codes "; filename=\"" ++ (filename ++ codes "\""))
      else type ++ (codes "; filename*=utf-8''" ++ quote filename)

  add_disposition : Text → Option Text → RawHeaders → Result HeaderError RawHeaders
  unfolding disposition encode setdefault_raw
  add_disposition type none raw = ok raw
  add_disposition type (some filename) raw =
      then_ok (encode (disposition type filename))
        (λ value. ok (setdefault_raw (codes "content-disposition") value raw).1)

  -- `FileResponse.__init__`, with the media type that is given or guessed
  unfoldable pub make_file_response :
      Text
      → ℕ
      → List (Text × Text)
      → (media_type : Text) → Option Text
      → Option Stat
      → (disposition_type : Text) → Result HeaderError FileResponse
  unfolding init_headers setdefault_raw add_disposition stat_headers
  make_file_response path status headers media_type filename stat_result disposition_type =
      then_ok (init_headers status none (some media_type) headers) (λ raw.
        then_ok
          (add_disposition disposition_type filename
            (setdefault_raw (codes "accept-ranges") (codes "bytes") raw).1)
          (λ raw'. ok (record {
            path = path;
            status_code = status;
            raw_headers = stat_headers stat_result raw';
            stat_result = stat_result;
          })))

pub data CallError : Type 0 where
  runtime_error : CallError
  header_error : HeaderError → CallError

upper_ascii : ℕ → ℕ
upper_ascii c = if leb b'a' c && leb c b'z' then c - 32 else c

unfoldable pub is_head : Text → Bool
unfolding upper_ascii text_eq
is_head method = text_eq (map upper_ascii method) (codes "HEAD")

checked : Stat → RawHeaders → Result CallError (Stat × RawHeaders)
unfolding set_stat_headers
checked s raw = if s.is_regular then ok (s, set_stat_headers s raw) else err runtime_error

-- The stat of the file, which `stat_file` gives if the file is there, and the headers with it.
found_stat :
    (stat_result stat_file : Option Stat) → RawHeaders → Result CallError (Stat × RawHeaders)
unfolding checked
found_stat (some s) stat_file raw = ok (s, raw)
found_stat none none raw = err runtime_error
found_stat none (some s) raw = checked s raw

is_text : Text → Option Bytes → Result CallError Bool
unfolding text_eq
is_text t none = err (header_error key_error)
is_text t (some found) = ok (text_eq t found)

or_else : Result CallError Bool → Result CallError Bool → Result CallError Bool
or_else (ok true) other = ok true
or_else (ok false) other = other
or_else (err e) other = err e

-- `_should_use_range`
unfoldable pub should_use_range : Text → RawHeaders → Result CallError Bool
unfolding is_text or_else get_raw
should_use_range http_if_range raw =
    or_else (is_text http_if_range (get_raw (codes "last-modified") raw))
      (is_text http_if_range (get_raw (codes "etag") raw))

-- the Range header, unless If-Range says that the whole file is to be sent
used_range : (http_range http_if_range : Option Text) → RawHeaders → Result CallError (Option Text)
unfolding should_use_range
used_range none http_if_range raw = ok none
used_range (some range) none raw = ok (some range)
used_range (some range) (some if_range) raw = elim (should_use_range if_range raw) [
  | ok true ↦ ok (some range)
  | ok false ↦ ok none
  | err e ↦ err e
]

-- an answer with an error's text or range
refused : Result HeaderError Response → Result CallError (List HttpMessage)
unfolding respond
refused (ok r) = ok (respond r)
refused (err e) = err (header_error e)

range_refused : RangeError → Result CallError (List HttpMessage)
unfolding refused plain_text_response str
range_refused (malformed_range_header content) = refused (plain_text_response content 400 [])
range_refused (range_not_satisfiable max_size) =
    refused (plain_text_response [] 416 ((codes "Content-Range", codes "*/" ++ str max_size) ∷ []))

module _ (chunk_size : ℕ) (boundary : Text) (content : Bytes) where
  multiple :
      RawHeaders
      → List (ℕ × ℕ)
      → ℕ
      → (header_only : Bool) → Option Bytes
      → Result CallError (List HttpMessage)
  unfolding handle_multiple_ranges
  multiple raw ranges size header_only none = err (header_error key_error)
  multiple raw ranges size header_only (some content_type) =
      ok (
        handle_multiple_ranges chunk_size boundary content_type size content raw ranges header_only)

  with_ranges :
      RawHeaders
      → ℕ
      → (header_only : Bool) → Result RangeError (List (ℕ × ℕ))
      → Result CallError (List HttpMessage)
  unfolding range_refused handle_single_range multiple get_raw
  with_ranges raw size header_only (err e) = range_refused e
  with_ranges raw size header_only (ok ((start, end) ∷ [])) =
      ok (handle_single_range chunk_size raw content start end size header_only)
  with_ranges raw size header_only (ok ranges) =
      multiple raw ranges size header_only (get_raw (codes "content-type") raw)

  answer :
      ℕ
      → RawHeaders
      → Text
      → ℕ
      → (header_only pathsend : Bool) → Result CallError (Option Text)
      → Result CallError (List HttpMessage)
  unfolding with_ranges parse_range_header handle_simple
  answer status raw path size header_only pathsend (err e) = err e
  answer status raw path size header_only pathsend (ok none) =
      ok (handle_simple chunk_size status raw path content header_only pathsend)
  answer status raw path size header_only pathsend (ok (some range)) =
      with_ranges raw size header_only (parse_range_header range size)

  send_found :
      ℕ
      → Text
      → (header_only pathsend : Bool) → (request : RawHeaders)
      → Result CallError (Stat × RawHeaders)
      → Result CallError (List HttpMessage)
  unfolding answer used_range get_raw
  send_found status path header_only pathsend request (err e) = err e
  send_found status path header_only pathsend request (ok (s, raw)) =
      answer status raw path s.st_size header_only pathsend
        (used_range (get_raw (codes "range") request) (get_raw (codes "if-range") request) raw)

  -- `__call__`, up to the background task
  unfoldable pub call :
      FileResponse
      → (method : Text) → (pathsend : Bool) → (request : RawHeaders) → (stat_file : Option Stat)
      → Result CallError (List HttpMessage)
  unfolding send_found found_stat is_head
  call r method pathsend request stat_file =
      send_found r.status_code r.path (is_head method) pathsend request
        (found_stat r.stat_result stat_file r.raw_headers)
