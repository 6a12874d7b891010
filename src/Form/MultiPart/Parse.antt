-- ===== src/Form/MultiPart/Parse.antt =====
-- rustlette/formparsers.py: `MultiPartParser.parse`. The state of python-multipart's parser is a `Z`; its
-- `finalize` makes no callback.
pub mod AtOnce
pub mod Closed
use rustlette.Prelude.{ℕ, Option, none, some, List, [], ◌∷◌, Text, Bytes, codes, text_eq_instance}
use rustlette.Prelude.Exec.{Result, ok, err, Exec}
use rustlette.Headers.{RawHeaders, get_raw}
use rustlette.MultiDict.Dict
use rustlette.MultiDict.{MultiDict, from_items}
use rustlette.Form.MultiPart.{
  Callback, Value, MultiPartException, missing_boundary, Error, multipart_exception, key_error,
  stream_error, parser_error, State, init, flush, close_all,
}
use rustlette.Form.MultiPart.Callbacks.{callbacks}

module _ (parse_options_header : Option Bytes → Bytes × List (Bytes × Bytes))
    (decode : Text → Bytes → Option Text) (max_files max_fields max_part_size : ℕ) {Z : Type 0}
    (make : Bytes → Z) (write : Z → Bytes → List Callback × Option Z) where
  -- What follows `parser.write(chunk)`.
  after_write :
      (rest : Z → Exec State Error Z)
      → Result MultiPartException (Unit {0}) × State
      → Option Z
      → Result Error Z × State
  unfolding flush
  after_write rest (err e, s) z = (err (multipart_exception e), s)
  after_write rest (ok tt, s) none = (err parser_error, s)
  after_write rest (ok tt, s) (some z) = rest z (flush s)

  -- The loop over the stream of the request: none stands for what the stream raises.
  unfoldable pub feed : List (Option Bytes) → Z → Exec State Error Z
  unfolding after_write callbacks
  feed [] z s = (ok z, s)
  feed (none ∷ stream) z s = (err stream_error, s)
  feed (some chunk ∷ stream) z s =
      after_write (feed stream)
        (callbacks parse_options_header decode max_files max_fields max_part_size (write z chunk).0
          s)
        (write z chunk).1

  -- `except MultiPartException` and the result
  ended : Result Error Z × State → Result Error (MultiDict Text Value) × State
  unfolding from_items close_all
  ended (ok z, s) = (ok (from_items s.items), s)
  ended (err (multipart_exception e), s) = (
    err (multipart_exception e),
    record s { uploads = close_all s.files_to_close_on_error s.uploads },
  )
  ended (err e, s) = (err e, s)

  or_utf8 : Option Bytes → Text
  or_utf8 none = codes "utf-8"
  or_utf8 (some charset) = charset

  -- behind the parameters of the content type
  parse_with :
      (boundary : Option Bytes)
      → Text
      → List (Option Bytes)
      → Result Error (MultiDict Text Value) × State
  unfolding ended feed init
  parse_with none charset stream = (err (multipart_exception missing_boundary), init charset)
  parse_with (some boundary) charset stream = ended (feed stream (make boundary) (init charset))

  parse_typed : Option Text → List (Option Bytes) → Result Error (MultiDict Text Value) × State
  unfolding parse_with or_utf8 Dict.get init
  parse_typed none stream = (err key_error, init [])
  parse_typed (some content_type) stream =
      let params = (parse_options_header (some content_type)).1 in
      parse_with (Dict.get (codes "boundary") params) (or_utf8 (Dict.get (codes "charset") params))
        stream

  -- `parse()`, from the headers of the request
  unfoldable pub parse :
      RawHeaders → List (Option Bytes) → Result Error (MultiDict Text Value) × State
  unfolding parse_typed get_raw
  parse raw stream = parse_typed (get_raw (codes "content-type") raw) stream
