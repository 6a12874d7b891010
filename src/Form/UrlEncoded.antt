-- ===== src/Form/UrlEncoded.antt =====
-- rustlette/formparsers.py: `FormParser`. The parser of python-multipart is a parameter: for its state
-- and a chunk `write` gives the callbacks that it makes and its next state, or none where it raises, and
-- `finalize` does the same at the end of the body. `unquote_plus` of Python's urllib is a parameter too.
pub mod Fields
use mathlib.Core.List.{map}
use rustlette.Prelude.{ℕ, Option, none, some, List, [], ◌∷◌, ◌++◌, Text, Bytes, text_eq_instance}
use rustlette.Prelude.Exec.{Result, ok, err}
use rustlette.MultiDict.{MultiDict, from_items}
use rustlette.Form.MultiPart.{slice}

-- The callbacks, which have bytes, a start and an end where they have data.
pub data Callback : Type 0 where
  on_field_start on_field_end on_end : Callback
  on_field_name on_field_data : Bytes → ℕ → ℕ → Callback

pub data FormMessage : Type 0 where
  field_start field_name_part field_data_part field_end end_message : FormMessage

-- the message that a callback appends
message : Callback → FormMessage × Bytes
unfolding slice
message on_field_start = (field_start, [])
message (on_field_name bytes start stop) = (field_name_part, slice bytes start stop)
message (on_field_data bytes start stop) = (field_data_part, slice bytes start stop)
message on_field_end = (field_end, [])
message on_end = (end_message, [])

-- the variables of `parse`
pub record State : Type 0 where
  pub field_name : Bytes
  pub field_value : Bytes
  pub items : List (Text × Text)

unfoldable pub init : State
init = record { field_name = []; field_value = []; items = [] }

-- What the stream of the request raises, and what python-multipart does.
pub data Error : Type 0 where
  stream_error parser_error : Error

module _ (unquote_plus : Text → Text) where
  on_message : FormMessage × Bytes → State → State
  on_message (field_start, bytes) s = record s { field_name = []; field_value = [] }
  on_message (field_name_part, bytes) s = record s { field_name = s.field_name ++ bytes }
  on_message (field_data_part, bytes) s = record s { field_value = s.field_value ++ bytes }
  on_message (field_end, bytes) s = record s {
    items = s.items ++ (unquote_plus s.field_name, unquote_plus s.field_value) ∷ [];
  }
  on_message (end_message, bytes) s = s

  -- the loop over the messages of a chunk
  on_messages : List (FormMessage × Bytes) → State → State
  unfolding on_message
  on_messages [] s = s
  on_messages (m ∷ messages) s = on_messages messages (on_message m s)

  module _ {Z : Type 0} (write : Z → Bytes → List Callback × Option Z)
      (finalize : Z → List Callback × Option Z) where
    -- `parser.write(chunk)`, or `parser.finalize()` for the empty chunk
    unfoldable pub taken : Bytes → Z → List Callback × Option Z
    taken [] z = finalize z
    taken (c ∷ chunk) z = write z (c ∷ chunk)

    after_chunk :
        (rest : Z → State → Result Error State)
        → List Callback × Option Z
        → State
        → Result Error State
    unfolding on_messages message
    after_chunk rest (cs, none) s = err parser_error
    after_chunk rest (cs, some z) s = rest z (on_messages (map message cs) s)

    -- The loop over the stream of the request: none stands for what the stream raises.
    feed : List (Option Bytes) → Z → State → Result Error State
    unfolding after_chunk taken
    feed [] z s = ok s
    feed (none ∷ stream) z s = err stream_error
    feed (some chunk ∷ stream) z s = after_chunk (feed stream) (taken chunk z) s

    form_of : Result Error State → Result Error (MultiDict Text Text)
    unfolding from_items
    form_of (ok s) = ok (from_items s.items)
    form_of (err e) = err e

    -- `parse()`, with a new parser
    unfoldable pub parse : Z → List (Option Bytes) → Result Error (MultiDict Text Text)
    unfolding form_of feed init
    parse z stream = form_of (feed stream z init)
