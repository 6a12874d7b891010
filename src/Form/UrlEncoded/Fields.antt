-- ===== src/Form/UrlEncoded/Fields.antt =====
-- The form that `FormParser` reads from the fields that python-multipart announces.
use mathlib.Core.List.{map}
use rustlette.Prelude.{
  ℕ, ◌≡◌, refl, ap, sym, ◌∙◌, Option, some, List, [], ◌∷◌, ◌++◌, append-nil, append_assoc, Text,
  Bytes, text_eq_instance,
}
use rustlette.Prelude.Exec.{ok}
use rustlette.MultiDict.{from_items}
use rustlette.Form.MultiPart.{slice}
use rustlette.Form.UrlEncoded.{
  Callback, on_field_start, on_field_end, on_end, on_field_name, on_field_data, message, State,
  init, on_message, on_messages, taken, after_chunk, feed, form_of, parse,
}

-- bytes with a start and an end
abbrev pub Piece : Type 0
Piece = Bytes × ℕ × ℕ

abbrev pub joined : List Piece → Bytes
unfolding slice
joined [] = []
joined ((bytes, start, stop) ∷ pieces) = slice bytes start stop ++ joined pieces

-- The callbacks of a field's name, of its value, and of the fields: both are cut at any place.
abbrev pub name_calls : List Piece → List Callback
name_calls [] = []
name_calls ((bytes, start, stop) ∷ pieces) = on_field_name bytes start stop ∷ name_calls pieces

abbrev pub data_calls : List Piece → List Callback
data_calls [] = []
data_calls ((bytes, start, stop) ∷ pieces) = on_field_data bytes start stop ∷ data_calls pieces

abbrev pub field_calls : List (List Piece × List Piece) → List Callback
field_calls [] = on_end ∷ []
field_calls ((name, value) ∷ fields) =
    on_field_start ∷ name_calls name ++ (data_calls value ++ on_field_end ∷ field_calls fields)

module _ (unquote_plus : Text → Text) where
  abbrev pub decoded : List (List Piece × List Piece) → List (Text × Text)
  decoded [] = []
  decoded ((name, value) ∷ fields) =
      (unquote_plus (joined name), unquote_plus (joined value)) ∷ decoded fields

  -- the state behind callbacks
  called : List Callback → State → State
  unfolding on_messages message
  called cs = on_messages unquote_plus (map message cs)

  called-append :
      (cs ds : List Callback) (s : State) → called (cs ++ ds) s ≡ called ds (called cs s)
  unfolding called on_messages
  called-append [] ds s = refl
  called-append (c ∷ cs) ds s = called-append cs ds (on_message unquote_plus (message c) s)

  called-name_calls :
      (pieces : List Piece) (s : State)
      → called (name_calls pieces) s ≡ record s { field_name = s.field_name ++ joined pieces }
  unfolding called on_messages on_message message
  called-name_calls [] s = ap (λ n. record s { field_name = n }) (sym (append-nil s.field_name))
  called-name_calls ((bytes, start, stop) ∷ pieces) s =
      called-name_calls pieces (record s { field_name = s.field_name ++ slice bytes start stop })
      ∙ ap (λ n. record s { field_name = n })
          (append_assoc s.field_name (slice bytes start stop) (joined pieces))

  called-data_calls :
      (pieces : List Piece) (s : State)
      → called (data_calls pieces) s ≡ record s { field_value = s.field_value ++ joined pieces }
  unfolding called on_messages on_message message
  called-data_calls [] s = ap (λ n. record s { field_value = n }) (sym (append-nil s.field_value))
  called-data_calls ((bytes, start, stop) ∷ pieces) s =
      called-data_calls pieces (record s { field_value = s.field_value ++ slice bytes start stop })
      ∙ ap (λ n. record s { field_value = n })
          (append_assoc s.field_value (slice bytes start stop) (joined pieces))

  called-field_calls :
      (fields : List (List Piece × List Piece)) (s : State)
      → (called (field_calls fields) s).items ≡ s.items ++ decoded fields
  unfolding called on_messages on_message message
  called-field_calls [] s = sym (append-nil s.items)
  called-field_calls ((name, value) ∷ fields) s =
      let begun = record s { field_name = []; field_value = [] } in
      ap (λ t. t.items)
        (called-append (name_calls name) (data_calls value ++ on_field_end ∷ field_calls fields)
            begun
          ∙ ap (called (data_calls value ++ on_field_end ∷ field_calls fields))
              (called-name_calls name begun)
          ∙ called-append (data_calls value) (on_field_end ∷ field_calls fields)
              (record begun { field_name = joined name })
          ∙ ap (called (on_field_end ∷ field_calls fields))
              (called-data_calls value (record begun { field_name = joined name })))
      ∙ called-field_calls fields _
      ∙ append_assoc s.items ((unquote_plus (joined name), unquote_plus (joined value)) ∷ [])
          (decoded fields)

  module _ {Z : Type 0} (write : Z → Bytes → List Callback × Option Z)
      (finalize : Z → List Callback × Option Z) where
    -- The callbacks that python-multipart makes for the chunks of a stream, where neither raises.
    pub data Emits : List (Option Bytes) → Z → List Callback → Type 0 where
      at_end : {z : Z} → Emits [] z []
      at_chunk :
          {chunk : Bytes} {stream : List (Option Bytes)} {z z' : Z} {cs ds : List Callback}
          → taken unquote_plus write finalize chunk z ≡ (cs, some z')
          → Emits stream z' ds
          → Emits (some chunk ∷ stream) z (cs ++ ds)

    feed-called :
        (stream : List (Option Bytes)) (z : Z) (cs : List Callback) (s : State)
        → Emits stream z cs
        → feed unquote_plus write finalize stream z s ≡ ok (called cs s)
    unfolding feed after_chunk called on_messages
    feed-called stream z cs s at_end = refl
    feed-called stream z cs s (at_chunk {stream = rest} {z' = next} {cs = first} {ds = ds} w e) =
        rw (w)
          (feed-called rest next ds (called first s) e ∙ ap ok (sym (called-append first ds s)))

    -- Where python-multipart announces some fields, however it cuts their names and values and whichever
    -- chunks they come with, the form has these fields in their order, each with its name and its value
    -- joined and unquoted.
    pub parse-field_calls :
        (stream : List (Option Bytes)) (z : Z) (fields : List (List Piece × List Piece))
        → Emits stream z (field_calls fields)
        → parse unquote_plus write finalize z stream ≡ ok (from_items (decoded fields))
    unfolding parse form_of init
    parse-field_calls stream z fields e =
        rw (feed-called stream z (field_calls fields) init e)
          (ap (λ items. ok (from_items items)) (called-field_calls fields init))
