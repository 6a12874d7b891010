-- ===== src/Form/MultiPart/Callbacks/Kept.antt =====
-- What holds of the state of `MultiPartParser` between its callbacks.
use rustlette.Prelude.{
  ℕ, ◌+◌, ◌≡◌, refl, ap, sym, ◌∙◌, arith, leb, ltb, Bool, true, false, Option, none, some, List, [],
  ◌∷◌, ◌++◌, Text, Bytes, all, length,
}
use rustlette.Prelude.Exec.{Result, ok, err}
use rustlette.Form.MultiPart.{
  Callback, on_part_begin, on_part_end, on_header_end, on_headers_finished, on_end, on_part_data,
  on_header_field, on_header_value, State, flush, new_part, slice,
}
use rustlette.Form.MultiPart.Uploads.{others, others_above}
use rustlette.Form.MultiPart.Callbacks.{
  callback, header_end, user_safe_decode, part_data, part_end, extend, open_file, open_field,
  open_part, headers_finished,
}
use rustlette.Form.MultiPart.Callbacks.Settled.{file_IsOpen, IsSound, permitted, after, once}

-- the state behind a callback that does not raise
unfoldable pub IsKept : {E A : Type 0} → Bool → Result E A × State → Type 0
unfolding IsSound
IsKept is_open (ok a, s) = IsSound is_open s
IsKept is_open (err e, s) = Unit {0}

all_below_suc :
    (n : ℕ) (parts : List (ℕ × Bytes))
    → all (λ p. ltb p.0 n) parts ≡ true
    → all (λ p. ltb p.0 (n + 1)) parts ≡ true
all_below_suc n [] h = refl
all_below_suc n (p ∷ parts) h = ground (arith, all_below_suc n parts)

below_suc :
    (n : ℕ) (files : List ℕ)
    → all (λ i. ltb i n) files ≡ true
    → all (λ i. ltb i (n + 1)) files ≡ true
below_suc n [] h = refl
below_suc n (i ∷ files) h = ground (arith, below_suc n files)

all_last :
    {A : Type 0} (p : A → Bool) (l : List A) (a : A)
    → all p l ≡ true
    → p a ≡ true
    → all p (l ++ a ∷ []) ≡ true
all_last p [] a h q = ground arith
all_last p (b ∷ l) a h q = ground (arith, all_last p l a)

-- A part that is no longer given data asks for less.
file_IsOpen_closed :
    (is_open : Bool) (file : Option ℕ) (created : ℕ) (finish : List ℕ)
    → file_IsOpen is_open file created finish ≡ true
    → file_IsOpen false file created finish ≡ true
unfolding file_IsOpen
file_IsOpen_closed is_open none created finish h = refl
file_IsOpen_closed true (some i) created finish h = ground arith
file_IsOpen_closed false (some i) created finish h = h

unfinished :
    (is_open : Bool) (file : Option ℕ) (created : ℕ) (finish : List ℕ)
    → file_IsOpen is_open file created finish ≡ true
    → file_IsOpen is_open file created [] ≡ true
unfolding file_IsOpen
unfinished is_open none created finish h = refl
unfinished true (some i) created finish h = ground arith
unfinished false (some i) created finish h = h

pub flush-IsSound : (is_open : Bool) (s : State) → IsSound is_open s → IsSound is_open (flush s)
unfolding IsSound flush
flush-IsSound is_open s (w, f, o) =
    (refl, refl, unfinished is_open s.current_part.file s.created s.file_parts_to_finish o)

module _ (hdr : Option Bytes → Bytes × List (Bytes × Bytes)) (dec : Text → Bytes → Option Text)
    (mfi mfe mps : ℕ) where
  extend-IsKept :
      (fits : Bool) (bytes : Bytes) (s : State) (is_open : Bool)
      → IsSound is_open s
      → IsKept is_open (extend hdr dec mfi mfe mps fits bytes s)
  unfolding extend IsKept IsSound
  extend-IsKept true bytes s is_open h = h
  extend-IsKept false bytes s is_open h = tt

  part_data-IsKept :
      (file : Option ℕ) (bytes : Bytes) (s : State)
      → IsSound true s
      → s.current_part.file ≡ file
      → IsKept true (part_data hdr dec mfi mfe mps file bytes s)
  unfolding part_data IsKept IsSound file_IsOpen
  part_data-IsKept none bytes s h q =
      extend-IsKept (leb (length s.current_part.contents + length bytes) mps) bytes s true h
  part_data-IsKept (some i) bytes s (w, f, o) q =
      let o' : file_IsOpen true (some i) s.created s.file_parts_to_finish ≡ true =
        ap (λ x. file_IsOpen true x s.created s.file_parts_to_finish) (sym q) ∙ o in
      (all_last (λ p. ltb p.0 s.created) s.file_parts_to_write (i, bytes) w (ground arith), f, o)

  part_end-IsSound :
      (file : Option ℕ) (s : State) (is_open : Bool)
      → IsSound is_open s
      → s.current_part.file ≡ file
      → IsSound false (part_end hdr dec mfi mfe mps file s)
  unfolding part_end IsSound file_IsOpen
  part_end-IsSound none s is_open (w, f, o) q =
      (w, f, file_IsOpen_closed is_open s.current_part.file s.created s.file_parts_to_finish o)
  part_end-IsSound (some i) s is_open (w, f, o) q =
      let o' : file_IsOpen false s.current_part.file s.created s.file_parts_to_finish ≡ true =
        file_IsOpen_closed is_open s.current_part.file s.created s.file_parts_to_finish o in
      let below : ltb i s.created ≡ true =
        ap (λ x. file_IsOpen false x s.created s.file_parts_to_finish) (sym q) ∙ o' in
      (
        w,
        all_last (λ j. ltb j s.created) s.file_parts_to_finish i f below,
        ap (λ x. file_IsOpen false x s.created (s.file_parts_to_finish ++ i ∷ [])) q ∙ below,
      )

  open_field-IsKept :
      (allowed : Bool) (s : State) (is_open : Bool)
      → IsSound is_open s
      → IsKept is_open (open_field hdr dec mfi mfe mps allowed s)
  unfolding open_field IsKept IsSound file_IsOpen
  open_field-IsKept true s is_open (w, f, o) = (w, f, refl)
  open_field-IsKept false s is_open h = tt

  open_file-IsKept :
      (allowed : Bool) (filename : Bytes) (s : State) (is_open : Bool)
      → IsSound is_open s
      → IsKept is_open (open_file hdr dec mfi mfe mps allowed filename s)
  unfolding open_file IsKept IsSound file_IsOpen
  open_file-IsKept true filename s true (w, f, o) =
      let fresh : others s.created s.file_parts_to_finish ≡ true =
        others_above s.created s.file_parts_to_finish f in
      (
        all_below_suc s.created s.file_parts_to_write w,
        below_suc s.created s.file_parts_to_finish f,
        ground arith,
      )
  open_file-IsKept true filename s false (w, f, o) = (
    all_below_suc s.created s.file_parts_to_write w,
    below_suc s.created s.file_parts_to_finish f,
    ground arith,
  )
  open_file-IsKept false filename s is_open h = tt

  open_part-IsKept :
      (filename : Option Bytes) (s : State) (is_open : Bool)
      → IsSound is_open s
      → IsKept is_open (open_part hdr dec mfi mfe mps filename s)
  unfolding open_part IsSound
  open_part-IsKept (some filename) s is_open h =
      open_file-IsKept (leb (s.current_files + 1) mfi) filename
        (record s { current_files = s.current_files + 1 }) is_open h
  open_part-IsKept none s is_open h =
      open_field-IsKept (leb (s.current_fields + 1) mfe)
        (record s { current_fields = s.current_fields + 1 }) is_open h

  headers_finished-IsKept :
      (name filename : Option Bytes) (s : State) (is_open : Bool)
      → IsSound is_open s
      → IsKept is_open (headers_finished hdr dec mfi mfe mps name filename s)
  unfolding headers_finished IsSound IsKept
  headers_finished-IsKept none filename s is_open h = tt
  headers_finished-IsKept (some name) filename s is_open h =
      open_part-IsKept filename
        (record s {
          current_part = record s.current_part {
            field_name = user_safe_decode hdr dec mfi mfe mps name s.charset;
          };
        })
        is_open h

  pub callback-IsKept :
      (c : Callback) (s : State) (is_open : Bool)
      → IsSound is_open s
      → permitted is_open c ≡ true
      → IsKept (after is_open c) (once hdr dec mfi mfe mps c s)
  unfolding callback header_end new_part IsKept IsSound file_IsOpen
  callback-IsKept on_part_begin s is_open (w, f, o) q = (w, f, refl)
  callback-IsKept (on_part_data bytes start stop) s true h q =
      part_data-IsKept s.current_part.file (slice bytes start stop) s h refl
  callback-IsKept (on_part_data bytes start stop) s false h q = cc
  callback-IsKept on_part_end s is_open h q = part_end-IsSound s.current_part.file s is_open h refl
  callback-IsKept (on_header_field bytes start stop) s is_open h q = h
  callback-IsKept (on_header_value bytes start stop) s is_open h q = h
  callback-IsKept on_header_end s is_open h q = h
  callback-IsKept on_headers_finished s is_open h q = headers_finished-IsKept _ _ s is_open h
  callback-IsKept on_end s is_open h q = h
