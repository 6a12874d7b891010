-- ===== src/Form/MultiPart/Callbacks.antt =====
-- rustlette/formparsers.py: the callbacks of `MultiPartParser`.
pub mod Settled
pub mod Kept
pub mod Bounds
use rustlette.Prelude.{
  ℕ, ◌+◌, ◌/◌, leb, Option, none, some, Bool, true, false, List, [], ◌∷◌, ◌++◌, Text, Bytes, codes,
  text_eq, text_eq_instance, length, if◌then◌else◌,
}
use rustlette.Prelude.Exec.{ok, err, ◌>>◌}
use rustlette.MultiDict.Dict
use rustlette.Form.Upload.{UploadFile, Heap, modify}
use rustlette.Form.Upload
use rustlette.Form.MultiPart.{
  Callback, on_part_begin, on_part_end, on_header_end, on_headers_finished, on_end, on_part_data,
  on_header_field, on_header_value, text_value, file_value, missing_name, part_too_large,
  too_many_files, too_many_fields, new_part, State, Action, slice, lower,
}

module _ (parse_options_header : Option Bytes → Bytes × List (Bytes × Bytes))
    (decode : Text → Bytes → Option Text) (max_files max_fields max_part_size : ℕ) where
  or_latin1 : Bytes → Option Text → Text
  or_latin1 src none = src
  or_latin1 src (some s) = s

  user_safe_decode : Bytes → Text → Text
  unfolding or_latin1
  user_safe_decode src codec = or_latin1 src (decode codec src)

  -- the data of a field, where `fits` says that they are not too many
  extend : (fits : Bool) → Bytes → Action (Unit {0})
  extend true bytes s = (
    ok tt,
    record s {
      current_part = record s.current_part { contents = s.current_part.contents ++ bytes };
    },
  )
  extend false bytes s = (err (part_too_large (max_part_size / 1024)), s)

  part_data : Option ℕ → Bytes → Action (Unit {0})
  unfolding extend
  part_data none bytes s =
      extend (leb (length s.current_part.contents + length bytes) max_part_size) bytes s
  part_data (some i) bytes s =
      (ok tt, record s { file_parts_to_write = s.file_parts_to_write ++ (i, bytes) ∷ [] })

  part_end : Option ℕ → State → State
  unfolding user_safe_decode
  part_end none s = record s {
    items =
        s.items
        ++ (
          s.current_part.field_name,
          text_value (user_safe_decode s.current_part.contents s.charset),
        )
          ∷ [];
  }
  part_end (some i) s = record s {
    file_parts_to_finish = s.file_parts_to_finish ++ i ∷ [];
    items = s.items ++ (s.current_part.field_name, file_value i) ∷ [];
  }

  -- `field == b"content-disposition"`
  header_end : Bytes → State → State
  unfolding text_eq
  header_end name s = record s {
    current_part = record s.current_part {
      content_disposition =
          if text_eq name (codes "content-disposition")
          then some s.partial_header_value
          else s.current_part.content_disposition;
      item_headers = s.current_part.item_headers ++ (name, s.partial_header_value) ∷ [];
    };
    partial_header_name = [];
    partial_header_value = [];
  }

  -- A file's part, where `allowed` says that there are not too many.
  open_file : (allowed : Bool) → Bytes → Action (Unit {0})
  unfolding user_safe_decode modify Upload.init
  open_file true filename s = (
    ok tt,
    record s {
      files_to_close_on_error = s.files_to_close_on_error ++ s.created ∷ [];
      uploads =
          modify s.created
            (λ _.
              Upload.init (some 0) (some (user_safe_decode filename s.charset))
                s.current_part.item_headers)
            s.uploads;
      created = s.created + 1;
      current_part = record s.current_part { file = some s.created };
    },
  )
  open_file false filename s = (err (too_many_files max_files), s)

  open_field : (allowed : Bool) → Action (Unit {0})
  open_field true s = (ok tt, record s { current_part = record s.current_part { file = none } })
  open_field false s = (err (too_many_fields max_fields), s)

  -- `if b"filename" in options`
  open_part : Option Bytes → Action (Unit {0})
  unfolding open_file open_field
  open_part (some filename) s =
      open_file (leb (s.current_files + 1) max_files) filename
        (record s { current_files = s.current_files + 1 })
  open_part none s =
      open_field (leb (s.current_fields + 1) max_fields)
        (record s { current_fields = s.current_fields + 1 })

  -- the headers of a part, from `options[b"name"]` and the file name
  headers_finished : (name filename : Option Bytes) → Action (Unit {0})
  unfolding open_part user_safe_decode
  headers_finished none filename s = (err missing_name, s)
  headers_finished (some name) filename s = open_part filename (record s {
    current_part = record s.current_part { field_name = user_safe_decode name s.charset };
  })

  unfoldable pub callback : Callback → Action (Unit {0})
  unfolding new_part part_data part_end header_end headers_finished slice lower Dict.get
  callback on_part_begin s = (ok tt, record s { current_part = new_part })
  callback (on_part_data bytes start stop) s =
      part_data s.current_part.file (slice bytes start stop) s
  callback on_part_end s = (ok tt, part_end s.current_part.file s)
  callback (on_header_field bytes start stop) s =
      (ok tt, record s { partial_header_name = s.partial_header_name ++ slice bytes start stop })
  callback (on_header_value bytes start stop) s =
      (ok tt, record s { partial_header_value = s.partial_header_value ++ slice bytes start stop })
  callback on_header_end s = (ok tt, header_end (lower s.partial_header_name) s)
  callback on_headers_finished s =
      let options = (parse_options_header s.current_part.content_disposition).1 in
      headers_finished (Dict.get (codes "name") options) (Dict.get (codes "filename") options) s
  callback on_end s = (ok tt, s)

  -- The callbacks of one chunk, up to the first that raises.
  unfoldable pub callbacks : List Callback → Action (Unit {0})
  unfolding callback
  callbacks [] s = (ok tt, s)
  callbacks (c ∷ cs) s = (callback c >> callbacks cs) s
