-- ===== src/Form/MultiPart/Callbacks/Bounds.antt =====
-- What the callbacks of `MultiPartParser` keep within its limits.
use rustlette.Prelude.{
  ℕ, ◌+◌, ◌≤◌, ◌<◌, ◌≡◌, refl, arith, leb, ◌==◌, Bool, true, false, ◌||◌, Option, none, some, List,
  [], ◌∷◌, ◌++◌, Text, Bytes, any, length, length-append,
}
use rustlette.Form.MultiPart.{
  Callback, on_part_begin, on_part_end, on_header_end, on_headers_finished, on_end, on_part_data,
  on_header_field, on_header_value, State, new_part, slice,
}
use rustlette.Form.MultiPart.Callbacks.{
  callback, header_end, user_safe_decode, part_data, part_end, extend, open_file, open_field,
  open_part, headers_finished,
}

-- `i` is among the files
abbrev pub has : ℕ → List ℕ → Bool
has i = any (λ j. j == i)

has-append : (i : ℕ) (files : List ℕ) (j : ℕ) → has i (files ++ j ∷ []) ≡ has i files || j == i
has-append i [] j = ground arith
has-append i (k ∷ files) j = ground (arith, has-append i files j)

-- As many files as are counted and allowed, all of them known to be closed on an error, and no more data
-- of a field than a part may have.
unfoldable pub IsBounded : (max_files max_part_size : ℕ) → State → Type 0
IsBounded max_files max_part_size s =
    (s.created ≤ s.current_files)
    × (s.created ≤ max_files)
    × (length s.current_part.contents ≤ max_part_size)
    × ((i : ℕ) → i < s.created → has i s.files_to_close_on_error ≡ true)

module _ (hdr : Option Bytes → Bytes × List (Bytes × Bytes)) (dec : Text → Bytes → Option Text)
    (mfi mfe mps : ℕ) where
  extend-IsBounded :
      (fits : Bool) (bytes : Bytes) (s : State)
      → leb (length s.current_part.contents + length bytes) mps ≡ fits
      → IsBounded mfi mps s
      → IsBounded mfi mps (extend hdr dec mfi mfe mps fits bytes s).1
  unfolding extend IsBounded
  extend-IsBounded true bytes s q (c, m, l, k) =
      let sum = length-append s.current_part.contents bytes in (c, m, ground arith, k)
  extend-IsBounded false bytes s q h = h

  part_data-IsBounded :
      (file : Option ℕ) (bytes : Bytes) (s : State)
      → IsBounded mfi mps s
      → IsBounded mfi mps (part_data hdr dec mfi mfe mps file bytes s).1
  unfolding part_data IsBounded
  part_data-IsBounded none bytes s h = extend-IsBounded _ bytes s refl h
  part_data-IsBounded (some i) bytes s h = h

  part_end-IsBounded :
      (file : Option ℕ) (s : State)
      → IsBounded mfi mps s
      → IsBounded mfi mps (part_end hdr dec mfi mfe mps file s)
  unfolding part_end IsBounded
  part_end-IsBounded none s h = h
  part_end-IsBounded (some i) s h = h

  open_file-IsBounded :
      (allowed : Bool) (filename : Bytes) (s : State)
      → leb s.current_files mfi ≡ allowed
      → s.created < s.current_files
      → IsBounded mfi mps s
      → IsBounded mfi mps (open_file hdr dec mfi mfe mps allowed filename s).1
  unfolding open_file IsBounded
  open_file-IsBounded true filename s q b (c, m, l, k) = (
    ground arith,
    ground arith,
    l,
    λ i h. ground (arith, has-append i s.files_to_close_on_error s.created, k i),
  )
  open_file-IsBounded false filename s q b h = h

  open_field-IsBounded :
      (allowed : Bool) (s : State)
      → IsBounded mfi mps s
      → IsBounded mfi mps (open_field hdr dec mfi mfe mps allowed s).1
  unfolding open_field IsBounded
  open_field-IsBounded true s h = h
  open_field-IsBounded false s h = h

  open_part-IsBounded :
      (filename : Option Bytes) (s : State)
      → IsBounded mfi mps s
      → IsBounded mfi mps (open_part hdr dec mfi mfe mps filename s).1
  unfolding open_part IsBounded
  open_part-IsBounded (some filename) s (c, m, l, k) =
      open_file-IsBounded _ filename (record s { current_files = s.current_files + 1 }) refl
        (omega arith) (omega arith, m, l, k)
  open_part-IsBounded none s h =
      open_field-IsBounded _ (record s { current_fields = s.current_fields + 1 }) h

  headers_finished-IsBounded :
      (name filename : Option Bytes) (s : State)
      → IsBounded mfi mps s
      → IsBounded mfi mps (headers_finished hdr dec mfi mfe mps name filename s).1
  unfolding headers_finished IsBounded
  headers_finished-IsBounded none filename s h = h
  headers_finished-IsBounded (some name) filename s h =
      open_part-IsBounded filename
        (record s {
          current_part = record s.current_part {
            field_name = user_safe_decode hdr dec mfi mfe mps name s.charset;
          };
        })
        h

  pub callback-IsBounded :
      (c : Callback) (s : State)
      → IsBounded mfi mps s
      → IsBounded mfi mps (callback hdr dec mfi mfe mps c s).1
  unfolding callback header_end new_part IsBounded
  callback-IsBounded on_part_begin s (c, m, l, k) = (c, m, omega arith, k)
  callback-IsBounded (on_part_data bytes start stop) s h =
      part_data-IsBounded s.current_part.file (slice bytes start stop) s h
  callback-IsBounded on_part_end s h = part_end-IsBounded s.current_part.file s h
  callback-IsBounded (on_header_field bytes start stop) s h = h
  callback-IsBounded (on_header_value bytes start stop) s h = h
  callback-IsBounded on_header_end s h = h
  callback-IsBounded on_headers_finished s h = headers_finished-IsBounded _ _ s h
  callback-IsBounded on_end s h = h
