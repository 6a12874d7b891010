-- ===== src/Form/Tests.antt =====
-- The parsers of forms at concrete inputs. python-multipart is a script of the callbacks for each chunk.
use rustlette.Prelude.{
  ◌≤◌, ◌≡◌, refl, arith, true, false, Option, none, some, List, [], ◌∷◌, ◌++◌, Text, Bytes, codes,
  text_eq_instance, length,
}
use rustlette.Prelude.Exec.{ok}
use rustlette.Headers.{RawHeaders}
use rustlette.MultiDict.{from_items}
use rustlette.Form.MultiPart.{
  Callback, on_part_begin, on_part_end, on_header_end, on_headers_finished, on_part_data,
  on_header_field, on_header_value, too_many_files, init,
}
use rustlette.Form.MultiPart.Callbacks.Settled.{settled}
use rustlette.Form.MultiPart.Parse.{feed, parse}
use rustlette.Form.MultiPart.Parse.AtOnce.{raised, at_once, at_end, at_chunk, feed-at_once}
use rustlette.Form.MultiPart.Parse.Closed.{created-parse, is_closed-parse}
use rustlette.Form.Upload
use rustlette.Request.{request_event}
use rustlette.Request.Form.{FormRequest, fields_data, get_form}
use rustlette.Request.Form.Read.{get_form_lem}
use rustlette.Form.UrlEncoded
use rustlette.Form.UrlEncoded.Fields
use rustlette.Form.UrlEncoded.Fields.{parse-field_calls, field_calls, decoded}

abbrev Script : Type 0
Script = List (List Callback)

abbrev script_write : Script → Bytes → List Callback × Option Script
script_write [] chunk = ([], none)
script_write (cs ∷ rest) chunk = (cs, some rest)

-- A content type gives a boundary, and a disposition "f" a file.
abbrev options : Option Bytes → Bytes × List (Bytes × Bytes)
options none = ([], [])
options (some []) = ([], [])
options (some (c ∷ s)) = (
  [],
  (codes "boundary", codes "b") ∷ (codes "name", codes "n") ∷ (codes "filename", codes "f") ∷ [],
)

abbrev ascii : Text → Bytes → Option Text
ascii codec bytes = some bytes

-- a part that is a file, whose data come in two calls, and its end
abbrev part_head : List Callback
part_head =
    on_part_begin
    ∷ on_header_field (codes "Content-Disposition") 0 19
    ∷ on_header_value (codes "f") 0 1
    ∷ on_header_end
    ∷ on_headers_finished
    ∷ on_part_data (codes "--ab--") 2 4
    ∷ []

abbrev part_rest : List Callback
part_rest = on_part_data (codes "cd") 0 2 ∷ on_part_end ∷ []

abbrev script : Bytes → Script
script boundary = part_head ∷ part_rest ∷ part_head ∷ []

abbrev chunks : List (Option Bytes)
chunks = some (codes "x") ∷ some (codes "y") ∷ some (codes "z") ∷ []

abbrev all_calls : List Callback
all_calls = part_head ++ (part_rest ++ (part_head ++ []))

feed-at_once_example :
    settled (
      feed options ascii 2 0 9 script script_write chunks
        (script (codes "b"))
        (init (codes "utf-8")))
    ≡ raised [] (at_once options ascii 2 0 9 all_calls (init (codes "utf-8")))
feed-at_once_example =
    feed-at_once options ascii 2 0 9 script script_write chunks (codes "b") (codes "utf-8") []
      all_calls (at_chunk refl (at_chunk refl (at_chunk refl at_end))) refl

abbrev multipart : RawHeaders
multipart = (codes "content-type", codes "multipart/form-data; boundary=b") ∷ []

-- The content of the file that the first two chunks bring.
content :
    ((parse options ascii 2 0 9 script script_write multipart chunks).1.uploads 0).content
    ≡ codes "abcd"
unfolding parse
content = refl

-- The stream of the request raises behind the first chunk, and the file stays open.
left_open :
    ((parse options ascii 2 0 9 script script_write multipart
        (some (codes "x") ∷ none ∷ [])).1.uploads
      0).is_closed
    ≡ false
unfolding parse
left_open = refl

created-parse_example :
    ((parse options ascii 1 0 9 script script_write multipart chunks).1.created ≤ 1)
    × (length
          (parse options ascii 1 0 9 script script_write multipart chunks).1.current_part.contents
        ≤ 9)
created-parse_example = created-parse options ascii 1 0 9 script script_write multipart chunks

is_closed-parse_example :
    ((parse options ascii 1 0 9 script script_write multipart chunks).1.uploads 0).is_closed ≡ true
unfolding parse
is_closed-parse_example =
    is_closed-parse options ascii 1 0 9 script script_write multipart chunks (too_many_files 1) 0
      refl (omega arith)

abbrev FieldScript : Type 0
FieldScript = List (List UrlEncoded.Callback)

abbrev field_write : FieldScript → Bytes → List UrlEncoded.Callback × Option FieldScript
field_write [] chunk = ([], none)
field_write (cs ∷ rest) chunk = (cs, some rest)

abbrev field_finalize : FieldScript → List UrlEncoded.Callback × Option FieldScript
field_finalize z = field_write z []

-- "ab=c" with its name in two pieces
abbrev two_pieces : List (List Fields.Piece × List Fields.Piece)
two_pieces = ((codes "xa", 1, 2) ∷ (codes "b", 0, 1) ∷ [], (codes "c", 0, 1) ∷ []) ∷ []

abbrev plain : Text → Text
plain s = s

-- the callbacks for two bodies and the end behind them
abbrev in_chunks : FieldScript
in_chunks =
    (UrlEncoded.on_field_start ∷ UrlEncoded.on_field_name (codes "xa") 1 2 ∷ [])
    ∷ (UrlEncoded.on_field_name (codes "b") 0 1 ∷ UrlEncoded.on_field_data (codes "c") 0 1 ∷ [])
    ∷ (UrlEncoded.on_field_end ∷ UrlEncoded.on_end ∷ [])
    ∷ []

abbrev form_type : Option Bytes → Bytes × List (Bytes × Bytes)
form_type content_type = (codes "application/x-www-form-urlencoded", [])

abbrev posted : FormRequest
posted = record {
  request = record {
    inbox =
        request_event (some (codes "xa")) (some true)
        ∷ request_event none (some true)
        ∷ request_event (some (codes "b=c")) none
        ∷ [];
    stream_consumed = false;
    is_disconnected = false;
    body = none;
  };
  headers = [];
  in_app = true;
  form = none;
  uploads = λ i. Upload.init none none [];
}

get_form_lem_example :
    let form = fields_data (from_items ((codes "ab", codes "c") ∷ [])) in
    let gets =
      get_form form_type ascii 2 0 9 script script_write plain in_chunks field_write
        field_finalize in
    (s' : FormRequest) × (gets posted ≡ (ok form, s'))
    × (gets s' ≡ (ok form, s'))
    × (s'.request.inbox ≡ [])
unfolding rustlette.Request.init UrlEncoded.taken rustlette.Request.Form.Read.chunks_shown
    from_items get_form
get_form_lem_example =
    get_form_lem form_type ascii 2 0 9 script script_write plain in_chunks field_write
      field_finalize posted (some (codes "xa") ∷ none ∷ []) (some (codes "b=c")) none [] two_pieces
      refl refl refl refl
      (Fields.at_chunk
        {ds = UrlEncoded.on_field_name (codes "b") 0 1
          ∷ UrlEncoded.on_field_data (codes "c") 0 1
          ∷ UrlEncoded.on_field_end
          ∷ UrlEncoded.on_end
          ∷ []}
        refl
        (Fields.at_chunk {ds = UrlEncoded.on_field_end ∷ UrlEncoded.on_end ∷ []} refl
          (Fields.at_chunk {ds = []} refl Fields.at_end)))
