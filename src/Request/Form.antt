-- ===== src/Request/Form.antt =====
-- rustlette/requests.py: `_get_form` and `close` of a request, and `FormData.close` of
-- rustlette/datastructures.py. The parameters are those of the two parsers; where a parser raises, how
-- far the request has been read by then is not kept.
pub mod Read
use rustlette.Prelude.{
  ℕ, zero, suc, Bool, true, false, Option, none, some, List, [], ◌∷◌, Text, Bytes, codes, text_eq,
  text_eq_instance, length, if◌then◌else◌,
}
use rustlette.Prelude.Exec.{Result, ok, err}
use rustlette.Headers.{RawHeaders, get_raw}
use rustlette.MultiDict.{MultiDict, from_items}
use rustlette.Form.Upload.{Heap}
use rustlette.Form.MultiPart.{Value, file_value, MultiPartException, State, close_all}
use rustlette.Form.MultiPart
use rustlette.Form.MultiPart.Parse
use rustlette.Form.UrlEncoded
use rustlette.Request.{Request, Error, out_of_fuel, Generator, fresh, next}

-- `FormData`, by the parser that has made it
pub data FormData : Type 0 where
  multipart_data : MultiDict Text Value → FormData
  fields_data : MultiDict Text Text → FormData
  no_data : FormData

pub data FormError : Type 0 where
  http_exception : (status_code : ℕ) → MultiPartException → FormError
  multipart_exception : MultiPartException → FormError
  request_error : Error → FormError
  key_error parser_error : FormError

-- A request with its form and the files of the form.
pub record FormRequest : Type 0 where
  pub request : Request
  pub headers : RawHeaders
  pub in_app : Bool
  pub form : Option FormData
  pub uploads : Heap

-- what a round gives before those behind it
chunk_before :
    Bytes
    → List (Option Bytes) × Option Error × Request
    → List (Option Bytes) × Option Error × Request
chunk_before chunk (chunks, error, r) = (some chunk ∷ chunks, error, r)

chunks_behind :
    (Generator → Request → List (Option Bytes) × Option Error × Request)
    → Result Error (Option Bytes × Generator) × Request
    → List (Option Bytes) × Option Error × Request
unfolding chunk_before
chunks_behind rest (ok (none, g), r) = ([], none, r)
chunks_behind rest (ok (some chunk, g), r) = chunk_before chunk (rest g r)
chunks_behind rest (err e, r) = (none ∷ [], some e, r)

-- The chunks of `self.stream()`, with none at the end for the error that it raises. Each round takes a
-- message or ends the generator, so three rounds more than messages are enough.
chunks_of : ℕ → Generator → Request → List (Option Bytes) × Option Error × Request
unfolding chunks_behind next
chunks_of zero g r = (none ∷ [], some out_of_fuel, r)
chunks_of (suc fuel) g r = chunks_behind (chunks_of fuel) (next g r)

unfoldable pub streamed : Request → List (Option Bytes) × Option Error × Request
unfolding chunks_of
streamed r = chunks_of (suc (suc (suc (length r.inbox)))) fresh r

-- `self._form = form`
stored : FormData → Heap → Request → FormRequest → Result FormError FormData × FormRequest
stored form uploads r s = (ok form, record s { request = r; form = some form; uploads = uploads })

-- the error of the stream, which a parser passes on
stream_error : Option Error → FormError
stream_error none = parser_error
stream_error (some e) = request_error e

-- `except MultiPartException`
rejected : (in_app : Bool) → MultiPartException → FormError
rejected true e = http_exception 400 e
rejected false e = multipart_exception e

multipart_ended :
    Option Error × Request
    → Result MultiPart.Error (MultiDict Text Value) × State
    → FormRequest
    → Result FormError FormData × FormRequest
unfolding stored rejected stream_error
multipart_ended (error, r) (ok items, state) s = stored (multipart_data items) state.uploads r s
multipart_ended (error, r) (err (MultiPart.multipart_exception e), state) s =
    (err (rejected s.in_app e), record s { request = r })
multipart_ended (error, r) (err MultiPart.key_error, state) s =
    (err key_error, record s { request = r })
multipart_ended (error, r) (err MultiPart.stream_error, state) s =
    (err (stream_error error), record s { request = r })
multipart_ended (error, r) (err MultiPart.parser_error, state) s =
    (err parser_error, record s { request = r })

fields_ended :
    Option Error × Request
    → Result UrlEncoded.Error (MultiDict Text Text)
    → FormRequest
    → Result FormError FormData × FormRequest
unfolding stored stream_error
fields_ended (error, r) (ok items) s = stored (fields_data items) s.uploads r s
fields_ended (error, r) (err UrlEncoded.stream_error) s =
    (err (stream_error error), record s { request = r })
fields_ended (error, r) (err UrlEncoded.parser_error) s =
    (err parser_error, record s { request = r })

-- the files of the pairs
files_of : List (Text × Value) → List ℕ
files_of [] = []
files_of ((key, file_value i) ∷ items) = i ∷ files_of items
files_of ((key, MultiPart.text_value t) ∷ items) = files_of items

-- `close()`, with `FormData.close()`
unfoldable pub close : FormRequest → FormRequest
unfolding files_of close_all
close s = elim s.form [
  | some (multipart_data m) ↦ record s { uploads = close_all (files_of m.list) s.uploads }
  | _ ↦ s
]

module _ (parse_options_header : Option Bytes → Bytes × List (Bytes × Bytes))
    (decode : Text → Bytes → Option Text) (max_files max_fields max_part_size : ℕ) {Z : Type 0}
    (make : Bytes → Z) (write : Z → Bytes → List MultiPart.Callback × Option Z)
    (unquote_plus : Text → Text) {Y : Type 0} (form_parser : Y)
    (write_form : Y → Bytes → List UrlEncoded.Callback × Option Y)
    (finalize : Y → List UrlEncoded.Callback × Option Y) where
  -- the choice of the parser by the content type
  read_form :
      (content_type : Bytes)
      → List (Option Bytes) × Option Error × Request
      → FormRequest
      → Result FormError FormData × FormRequest
  unfolding multipart_ended fields_ended stored Parse.parse UrlEncoded.parse text_eq
  read_form content_type (chunks, error, r) s =
      if text_eq content_type (codes "multipart/form-data")
      then multipart_ended (error, r)
          (Parse.parse parse_options_header decode max_files max_fields max_part_size make write
            s.headers chunks)
          s
      else if text_eq content_type (codes "application/x-www-form-urlencoded")
      then fields_ended (error, r)
          (UrlEncoded.parse unquote_plus write_form finalize form_parser chunks) s
      else stored no_data s.uploads s.request s

  form_or : Option FormData → FormRequest → Result FormError FormData × FormRequest
  unfolding read_form streamed get_raw
  form_or (some form) s = (ok form, s)
  form_or none s =
      read_form (parse_options_header (get_raw (codes "content-type") s.headers)).0
        (streamed s.request) s

  -- `_get_form()`
  unfoldable pub get_form : FormRequest → Result FormError FormData × FormRequest
  unfolding form_or
  get_form s = form_or s.form s
