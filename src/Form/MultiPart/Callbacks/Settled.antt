-- ===== src/Form/MultiPart/Callbacks/Settled.antt =====
-- The writes that `MultiPartParser` puts off to the end of a chunk.
use rustlette.Prelude.{
  ℕ, ◌+◌, ◌≡◌, refl, ap, sym, ◌∙◌, arith, leb, ltb, Bool, true, false, ◌&&◌, Option, none, some,
  List, [], ◌∷◌, ◌++◌, Text, Bytes, all, length,
}
use rustlette.Prelude.Exec.{Result, ok}
use rustlette.Form.Upload.{UploadFile, Heap, modify}
use rustlette.Form.Upload
use rustlette.Form.MultiPart.{
  Callback, on_part_begin, on_part_end, on_header_end, on_headers_finished, on_end, on_part_data,
  on_header_field, on_header_value, State, Action, write_all, finish_all, flush, slice, file_value,
}
use rustlette.Form.MultiPart.Uploads.{
  others, finish_all-modify, write_all-modify, write_all_last, finish_all_last, all_below-not,
  others_above,
}
use rustlette.Form.MultiPart.Callbacks.{
  callback, header_end, user_safe_decode, part_data, part_end, extend, open_file, open_field,
  open_part, headers_finished,
}

-- what a state comes to when its writes are made
abbrev pub settled : {E A : Type 0} → Result E A × State → Result E A × State
settled (r, s) = (r, flush s)

-- The file of the current part is one that was made, and while the part is open it is none that is
-- finished.
unfoldable pub file_IsOpen : (is_open : Bool) → Option ℕ → ℕ → List ℕ → Bool
file_IsOpen is_open none created finish = true
file_IsOpen true (some i) created finish = ltb i created && others i finish
file_IsOpen false (some i) created finish = ltb i created

-- The files that writes wait for have been made.
unfoldable pub IsSound : Bool → State → Type 0
unfolding file_IsOpen
IsSound is_open s =
    (all (λ p. ltb p.0 s.created) s.file_parts_to_write ≡ true)
    × (all (λ i. ltb i s.created) s.file_parts_to_finish ≡ true)
    × (file_IsOpen is_open s.current_part.file s.created s.file_parts_to_finish ≡ true)

-- python-multipart gives a part no data behind its end.
abbrev pub permitted : Bool → Callback → Bool
permitted is_open (on_part_data bytes start stop) = is_open
permitted is_open c = true

-- whether the current part may be given data behind a callback
abbrev pub after : Bool → Callback → Bool
after is_open on_part_begin = true
after is_open on_part_end = false
after is_open c = is_open

module _ (hdr : Option Bytes → Bytes × List (Bytes × Bytes)) (dec : Text → Bytes → Option Text)
    (mfi mfe mps : ℕ) where
  abbrev pub once : Callback → Action (Unit {0})
  once = callback hdr dec mfi mfe mps

  settled-extend :
      (fits : Bool) (bytes : Bytes) (s : State)
      → settled (extend hdr dec mfi mfe mps fits bytes s)
        ≡ settled (extend hdr dec mfi mfe mps fits bytes (flush s))
  unfolding extend flush finish_all write_all
  settled-extend true bytes s = refl
  settled-extend false bytes s = refl

  settled-open_field :
      (allowed : Bool) (s : State)
      → settled (open_field hdr dec mfi mfe mps allowed s)
        ≡ settled (open_field hdr dec mfi mfe mps allowed (flush s))
  unfolding open_field flush finish_all write_all
  settled-open_field true s = refl
  settled-open_field false s = refl

  settled-open_file :
      (allowed : Bool) (filename : Bytes) (s : State) (is_open : Bool)
      → IsSound is_open s
      → settled (open_file hdr dec mfi mfe mps allowed filename s)
        ≡ settled (open_file hdr dec mfi mfe mps allowed filename (flush s))
  unfolding open_file flush finish_all write_all IsSound
  settled-open_file true filename s is_open (w, f, o) =
      let new =
        Upload.init (some 0) (some (user_safe_decode hdr dec mfi mfe mps filename s.charset))
          s.current_part.item_headers in
      let moved =
        ap (finish_all s.file_parts_to_finish) (
          write_all-modify s.created (λ _. new) s.file_parts_to_write s.uploads
            (all_below-not s.created s.file_parts_to_write w))
        ∙ finish_all-modify s.created (λ _. new) s.file_parts_to_finish
            (write_all s.file_parts_to_write s.uploads)
            (others_above s.created s.file_parts_to_finish f) in
      ap
        (λ heap. (
          ok tt,
          record (record (flush s) {
            files_to_close_on_error = s.files_to_close_on_error ++ s.created ∷ [];
            created = s.created + 1;
            current_part = record s.current_part { file = some s.created };
          }) { uploads = heap },
        ))
        moved
  settled-open_file false filename s is_open h = refl

  settled-part_data :
      (file : Option ℕ) (bytes : Bytes) (s : State)
      → IsSound true s
      → s.current_part.file ≡ file
      → settled (part_data hdr dec mfi mfe mps file bytes s)
        ≡ settled (part_data hdr dec mfi mfe mps file bytes (flush s))
  unfolding part_data flush finish_all write_all IsSound file_IsOpen
  settled-part_data none bytes s h q =
      settled-extend (leb (length s.current_part.contents + length bytes) mps) bytes s
  settled-part_data (some i) bytes s (w, f, o) q =
      let apart : others i s.file_parts_to_finish ≡ true =
        let o' : file_IsOpen true (some i) s.created s.file_parts_to_finish ≡ true =
          ap (λ x. file_IsOpen true x s.created s.file_parts_to_finish) (sym q) ∙ o in
        ground arith in
      let moved =
        ap (finish_all s.file_parts_to_finish)
          (write_all_last s.file_parts_to_write i bytes s.uploads)
        ∙ finish_all-modify i (Upload.write bytes) s.file_parts_to_finish
            (write_all s.file_parts_to_write s.uploads) apart in
      ap (λ heap. (ok tt, record (flush s) { uploads = heap })) moved

  settled-part_end :
      (file : Option ℕ) (s : State)
      → flush (part_end hdr dec mfi mfe mps file s)
        ≡ flush (part_end hdr dec mfi mfe mps file (flush s))
  unfolding part_end flush finish_all write_all
  settled-part_end none s = refl
  settled-part_end (some i) s =
      ap
        (λ heap. record (flush s) {
          uploads = heap;
          items = s.items ++ (s.current_part.field_name, file_value i) ∷ [];
        })
        (finish_all_last s.file_parts_to_finish i (write_all s.file_parts_to_write s.uploads))

  settled-open_part :
      (filename : Option Bytes) (s : State) (is_open : Bool)
      → IsSound is_open s
      → settled (open_part hdr dec mfi mfe mps filename s)
        ≡ settled (open_part hdr dec mfi mfe mps filename (flush s))
  unfolding open_part IsSound flush
  settled-open_part (some filename) s is_open h =
      settled-open_file (leb (s.current_files + 1) mfi) filename
        (record s { current_files = s.current_files + 1 }) is_open h
  settled-open_part none s is_open h =
      settled-open_field (leb (s.current_fields + 1) mfe)
        (record s { current_fields = s.current_fields + 1 })

  settled-headers_finished :
      (name filename : Option Bytes) (s : State) (is_open : Bool)
      → IsSound is_open s
      → settled (headers_finished hdr dec mfi mfe mps name filename s)
        ≡ settled (headers_finished hdr dec mfi mfe mps name filename (flush s))
  unfolding headers_finished IsSound flush finish_all write_all
  settled-headers_finished none filename s is_open h = refl
  settled-headers_finished (some name) filename s is_open h =
      settled-open_part filename
        (record s {
          current_part = record s.current_part {
            field_name = user_safe_decode hdr dec mfi mfe mps name s.charset;
          };
        })
        is_open h

  pub settled-callback :
      (c : Callback) (s : State) (is_open : Bool)
      → IsSound is_open s
      → permitted is_open c ≡ true
      → settled (once c s) ≡ settled (once c (flush s))
  unfolding callback header_end flush finish_all write_all
  settled-callback on_part_begin s is_open h q = refl
  settled-callback (on_part_data bytes start stop) s true h q =
      settled-part_data s.current_part.file (slice bytes start stop) s h refl
  settled-callback (on_part_data bytes start stop) s false h q = cc
  settled-callback on_part_end s is_open h q =
      ap (λ t. (ok tt, t)) (settled-part_end s.current_part.file s)
  settled-callback (on_header_field bytes start stop) s is_open h q = refl
  settled-callback (on_header_value bytes start stop) s is_open h q = refl
  settled-callback on_header_end s is_open h q = refl
  settled-callback on_headers_finished s is_open h q = settled-headers_finished _ _ s is_open h
  settled-callback on_end s is_open h q = refl
