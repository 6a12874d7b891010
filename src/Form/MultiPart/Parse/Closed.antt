-- ===== src/Form/MultiPart/Parse/Closed.antt =====
-- What `MultiPartParser` keeps: the files that it makes and the data of a field.
use rustlette.Prelude.{
  ℕ, ◌≤◌, ◌<◌, ◌≡◌, refl, arith, ◌==◌, true, Option, none, some, List, [], ◌∷◌, Text, codes, Bytes,
  length, Bool-cases, inl, inr,
}
use rustlette.Prelude.Exec.{Result, ok, err, Exec, resume}
use rustlette.Headers.{RawHeaders, get_raw}
use rustlette.Form.Upload.{UploadFile, Heap, modify}
use rustlette.Form.Upload
use rustlette.Form.MultiPart.{
  Callback, MultiPartException, Error, multipart_exception, key_error, stream_error, parser_error,
  State, new_part, init, flush, close_all,
}
use rustlette.Form.MultiPart.Callbacks.{callback, callbacks}
use rustlette.Form.MultiPart.Callbacks.Bounds.{has, IsBounded, callback-IsBounded}
use rustlette.Form.MultiPart.Parse.{after_write, feed, ended, parse_with, parse_typed, parse}

close_all_keeps :
    (files : List ℕ) (heap : Heap) (i : ℕ)
    → (heap i).is_closed ≡ true
    → (close_all files heap i).is_closed ≡ true
unfolding close_all
close_all_keeps [] heap i h = h
close_all_keeps (j ∷ files) heap i h =
    close_all_keeps files (modify j Upload.close heap) i (closed j)
  where
    closed : (j : ℕ) → (modify j Upload.close heap i).is_closed ≡ true
    closed j = ground arith

close_all_lem :
    (files : List ℕ) (heap : Heap) (i : ℕ)
    → has i files ≡ true
    → (close_all files heap i).is_closed ≡ true
unfolding close_all modify Upload.close
close_all_lem [] heap i h = cc
close_all_lem (j ∷ files) heap i h = elim (Bool-cases (j == i)) [
  | inl same ↦ close_all_keeps files (modify j Upload.close heap) i (rw same refl)
  | inr other ↦ close_all_lem files (modify j Upload.close heap) i (ground arith)
]

module _ (hdr : Option Bytes → Bytes × List (Bytes × Bytes)) (dec : Text → Bytes → Option Text)
    (mfi mfe mps : ℕ) where
  resume-IsBounded :
      (v : Result MultiPartException (Unit {0}) × State)
      (next : Exec State MultiPartException (Unit {0}))
      → IsBounded mfi mps v.1
      → ((s : State) → IsBounded mfi mps s → IsBounded mfi mps (next s).1)
      → IsBounded mfi mps (resume v (λ _. next)).1
  resume-IsBounded (ok tt, s) next h k = k s h
  resume-IsBounded (err e, s) next h k = h

  callbacks-IsBounded :
      (cs : List Callback) (s : State)
      → IsBounded mfi mps s
      → IsBounded mfi mps (callbacks hdr dec mfi mfe mps cs s).1
  unfolding callbacks
  callbacks-IsBounded [] s h = h
  callbacks-IsBounded (c ∷ cs) s h =
      resume-IsBounded (callback hdr dec mfi mfe mps c s) (callbacks hdr dec mfi mfe mps cs)
        (callback-IsBounded hdr dec mfi mfe mps c s h) (callbacks-IsBounded cs)

  init-IsBounded : (charset : Text) → IsBounded mfi mps (init charset)
  unfolding IsBounded init new_part
  init-IsBounded charset = (omega arith, omega arith, omega arith, λ i h. ground arith)

  module _ {Z : Type 0} (make : Bytes → Z) (write : Z → Bytes → List Callback × Option Z) where
    after_write-IsBounded :
        (rest : Z → Exec State Error Z) (v : Result MultiPartException (Unit {0}) × State)
        (z : Option Z)
        → IsBounded mfi mps v.1
        → ((z : Z) (s : State) → IsBounded mfi mps s → IsBounded mfi mps (rest z s).1)
        → IsBounded mfi mps (after_write hdr dec mfi mfe mps make write rest v z).1
    unfolding after_write IsBounded flush
    after_write-IsBounded rest (err e, s) z h k = h
    after_write-IsBounded rest (ok tt, s) none h k = h
    after_write-IsBounded rest (ok tt, s) (some z) h k = k z (flush s) h

    feed-IsBounded :
        (stream : List (Option Bytes)) (z : Z) (s : State)
        → IsBounded mfi mps s
        → IsBounded mfi mps (feed hdr dec mfi mfe mps make write stream z s).1
    unfolding feed
    feed-IsBounded [] z s h = h
    feed-IsBounded (none ∷ stream) z s h = h
    feed-IsBounded (some chunk ∷ stream) z s h =
        after_write-IsBounded (feed hdr dec mfi mfe mps make write stream)
          (callbacks hdr dec mfi mfe mps (write z chunk).0 s) (write z chunk).1
          (callbacks-IsBounded (write z chunk).0 s h) (feed-IsBounded stream)

    -- What holds of the end of `parse`.
    IsClosed : {A : Type 0} → Result Error A × State → Type 0
    IsClosed (err (multipart_exception e), s) =
        (i : ℕ) → i < s.created → (s.uploads i).is_closed ≡ true
    IsClosed (r, s) = Unit {0}

    ended_lem :
        (v : Result Error Z × State)
        → IsBounded mfi mps v.1
        → IsBounded mfi mps (ended hdr dec mfi mfe mps make write v).1
          × IsClosed (ended hdr dec mfi mfe mps make write v)
    unfolding ended IsBounded IsClosed
    ended_lem (ok z, s) h = (h, tt)
    ended_lem (err (multipart_exception e), s) (c, m, l, k) =
        ((c, m, l, k), λ i h. close_all_lem s.files_to_close_on_error s.uploads i (k i h))
    ended_lem (err key_error, s) h = (h, tt)
    ended_lem (err stream_error, s) h = (h, tt)
    ended_lem (err parser_error, s) h = (h, tt)

    parse_with_lem :
        (boundary : Option Bytes) (charset : Text) (stream : List (Option Bytes))
        → let v = parse_with hdr dec mfi mfe mps make write boundary charset stream in
          IsBounded mfi mps v.1 × IsClosed v
    unfolding parse_with IsClosed init
    parse_with_lem none charset stream = (init-IsBounded charset, λ i h. ground arith)
    parse_with_lem (some boundary) charset stream =
        ended_lem (feed hdr dec mfi mfe mps make write stream (make boundary) (init charset))
          (feed-IsBounded stream (make boundary) (init charset) (init-IsBounded charset))

    parse_typed_lem :
        (content_type : Option Text) (stream : List (Option Bytes))
        → let v = parse_typed hdr dec mfi mfe mps make write content_type stream in
          IsBounded mfi mps v.1 × IsClosed v
    unfolding parse_typed IsClosed
    parse_typed_lem none stream = (init-IsBounded [], tt)
    parse_typed_lem (some content_type) stream = parse_with_lem _ _ stream

    closed_of :
        {A : Type 0} (v : Result Error A × State) (e : MultiPartException) (i : ℕ)
        → IsClosed v
        → v.0 ≡ err (multipart_exception e)
        → i < v.1.created
        → (v.1.uploads i).is_closed ≡ true
    unfolding IsClosed
    closed_of (err (multipart_exception e), s) e' i h q b = h i b
    closed_of (ok a, s) e' i h q b = cc
    closed_of (err key_error, s) e' i h q b = cc
    closed_of (err stream_error, s) e' i h q b = cc
    closed_of (err parser_error, s) e' i h q b = cc

    -- Whatever callbacks python-multipart makes, for a request of any kind, the parser makes no more files
    -- than `max_files`, and keeps no more data of a field than `max_part_size`.
    pub created-parse :
        (raw : RawHeaders) (stream : List (Option Bytes))
        → let s = (parse hdr dec mfi mfe mps make write raw stream).1 in
          (s.created ≤ mfi) × (length s.current_part.contents ≤ mps)
    unfolding parse IsBounded
    created-parse raw stream =
        let (_, m, l, _) = (parse_typed_lem (get_raw (codes "content-type") raw) stream).0 in (m, l)

    -- When the parser raises a MultiPartException, all the files that it made are closed.
    pub is_closed-parse :
        (raw : RawHeaders) (stream : List (Option Bytes)) (e : MultiPartException) (i : ℕ)
        → (parse hdr dec mfi mfe mps make write raw stream).0 ≡ err (multipart_exception e)
        → i < (parse hdr dec mfi mfe mps make write raw stream).1.created
        → ((parse hdr dec mfi mfe mps make write raw stream).1.uploads i).is_closed ≡ true
    unfolding parse
    is_closed-parse raw stream e i =
        closed_of (parse hdr dec mfi mfe mps make write raw stream) e i
          (parse_typed_lem (get_raw (codes "content-type") raw) stream).1
