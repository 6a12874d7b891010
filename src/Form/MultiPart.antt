-- ===== src/Form/MultiPart.antt =====
-- rustlette/formparsers.py: `MultiPartParser`. The parser of python-multipart is a parameter: for its
-- state and a chunk it gives the callbacks that it makes and its next state, or none where it then
-- raises an error of its own; `parse_options_header` is its function as well. `decode` is
-- `bytes.decode`, with none for an error. A part's file is a number in a heap of uploads; python-multipart
-- ends the headers of a part once, so that the file that a part has is the one it keeps.
pub mod Uploads
pub mod Callbacks
pub mod Parse
use rustlette.Prelude.{
  ℕ, ◌+◌, ◌-◌, ◌/◌, leb, Option, none, some, Bool, true, false, List, [], ◌∷◌, ◌++◌, Text, Bytes,
  codes, text_eq, text_eq_instance, take, drop, length, ltb, ◌&&◌, if◌then◌else◌,
}
use rustlette.Prelude.Exec.{Result, ok, err, Exec, ◌>>◌, pure}
use rustlette.Headers.{RawHeaders, get_raw}
use rustlette.MultiDict.Dict
use rustlette.MultiDict.{MultiDict, from_items}
use rustlette.Form.Upload.{UploadFile, Heap, modify}
use rustlette.Form.Upload

-- `on_part_data`, `on_header_field` and `on_header_value` are called with bytes, a start and an end.
pub data Callback : Type 0 where
  on_part_begin on_part_end on_header_end on_headers_finished on_end : Callback
  on_part_data on_header_field on_header_value : Bytes → ℕ → ℕ → Callback

-- `str | UploadFile`
pub data Value : Type 0 where
  text_value : Text → Value
  file_value : ℕ → Value

-- `MultiPartException`, by its message
pub data MultiPartException : Type 0 where
  missing_boundary missing_name : MultiPartException
  part_too_large too_many_files too_many_fields : ℕ → MultiPartException

-- What `parse` raises: `stream_error` comes from the request, `parser_error` from python-multipart.
pub data Error : Type 0 where
  multipart_exception : MultiPartException → Error
  key_error stream_error parser_error : Error

-- `MultipartPart`, with `contents` for `data`
pub record Part : Type 0 where
  pub content_disposition : Option Bytes
  pub field_name : Text
  pub contents : Bytes
  pub file : Option ℕ
  pub item_headers : RawHeaders

unfoldable pub new_part : Part
new_part = record {
  content_disposition = none;
  field_name = [];
  contents = [];
  file = none;
  item_headers = [];
}

-- The parser's attributes, the uploads and how many of them there are.
pub record State : Type 0 where
  pub items : List (Text × Value)
  pub current_files : ℕ
  pub current_fields : ℕ
  pub partial_header_name : Bytes
  pub partial_header_value : Bytes
  pub current_part : Part
  pub charset : Text
  pub file_parts_to_write : List (ℕ × Bytes)
  pub file_parts_to_finish : List ℕ
  pub files_to_close_on_error : List ℕ
  pub uploads : Heap
  pub created : ℕ

-- `MultiPartParser.__init__`, with the charset that `parse` sets
unfoldable pub init : Text → State
unfolding new_part Upload.init
init charset = record {
  items = [];
  current_files = 0;
  current_fields = 0;
  partial_header_name = [];
  partial_header_value = [];
  current_part = new_part;
  charset = charset;
  file_parts_to_write = [];
  file_parts_to_finish = [];
  files_to_close_on_error = [];
  uploads = λ _. Upload.init none none [];
  created = 0;
}

abbrev pub Action : Type 0 → Type 0
Action = Exec State MultiPartException

-- `bytes.lower()`
unfoldable pub lower : Bytes → Bytes
lower [] = []
lower (c ∷ s) = (if leb b'A' c && leb c b'Z' then c + 32 else c) ∷ lower s

-- `data[start:end]`
unfoldable pub slice : Bytes → ℕ → ℕ → Bytes
slice bytes start stop = take (stop - start) (drop start bytes)

-- the loop over `_file_parts_to_write`
unfoldable pub write_all : List (ℕ × Bytes) → Heap → Heap
unfolding modify Upload.write
write_all [] heap = heap
write_all ((i, bytes) ∷ parts) heap = write_all parts (modify i (Upload.write bytes) heap)

-- the loop over `_file_parts_to_finish`
unfoldable pub finish_all : List ℕ → Heap → Heap
unfolding modify Upload.seek
finish_all [] heap = heap
finish_all (i ∷ parts) heap = finish_all parts (modify i (Upload.seek 0) heap)

-- What `parse` does behind each chunk.
unfoldable pub flush : State → State
unfolding write_all finish_all
flush s = record s {
  uploads = finish_all s.file_parts_to_finish (write_all s.file_parts_to_write s.uploads);
  file_parts_to_write = [];
  file_parts_to_finish = [];
}

unfoldable pub close_all : List ℕ → Heap → Heap
unfolding modify Upload.close
close_all [] heap = heap
close_all (i ∷ files) heap = close_all files (modify i Upload.close heap)
