-- ===== src/FileResponse/Multipart.antt =====
-- The multipart answer: what the client receives, and the Content-Length that is announced.
use rustlette.Prelude.{
  ℕ, ◌+◌, ◌-◌, ◌≤◌, ◌<◌, ◌≡◌, refl, true, false, some, List, [], ◌∷◌, ◌++◌, Text, Bytes, codes,
  length, length-append, take, drop, length-take, length-drop, All, arith,
}
use rustlette.Prelude.Decimal.{str, str_pred}
use rustlette.Asgi.{received}
use rustlette.FileResponse.{
  part, part_header, parts_length, content_length, ranges_loop, handle_multiple_ranges,
}
use rustlette.FileResponse.Streams.{received-range_loop, behind_start}
use rustlette.Headers.{RawHeaders}
use rustlette.Ranges.Accepted.{IsWithin}

-- The parts of a multipart body: each range's headers, its bytes of the content and a line's end,
-- then the closing line.
abbrev pub multipart : Text → Text → ℕ → Bytes → List (ℕ × ℕ) → Bytes
multipart boundary content_type max_size content [] = codes "\n--" ++ (boundary ++ codes "--\n")
multipart boundary content_type max_size content ((start, end) ∷ ranges) =
    part_header boundary content_type max_size start end
    ++ (take (end - start) (drop start content)
        ++ (codes "\n" ++ multipart boundary content_type max_size content ranges))

module _ (boundary content_type : Text) (max_size : ℕ) (content : Bytes) where
  received-ranges_loop :
      (chunk_size : ℕ) (ranges : List (ℕ × ℕ))
      → 0 < chunk_size
      → All (IsWithin (length content)) ranges
      → received (ranges_loop chunk_size boundary content_type max_size content ranges)
        ≡ some (multipart boundary content_type max_size content ranges)
  unfolding ranges_loop
  received-ranges_loop chunk_size [] h k = refl
  received-ranges_loop chunk_size ((start, end) ∷ ranges) h ((before, forward, inside), k) =
      let behind =
        part (codes "\n") true
        ∷ ranges_loop chunk_size boundary content_type max_size content ranges in
      rw (
        received-range_loop chunk_size h (end - start + 1) start end (drop start content) behind
          (codes "\n" ++ multipart boundary content_type max_size content ranges) (omega arith)
          (omega (arith, length-drop start content))
          (rw (received-ranges_loop chunk_size ranges h k)))

  length-part_header :
      (start end : ℕ)
      → length (part_header boundary content_type max_size start end) + 1
        ≡ length (str start)
          + length (str_pred end)
          + (44 + length boundary + length content_type + length (str max_size))
  unfolding part_header
  length-part_header start end = simp length-append (omega arith)

  length-multipart :
      (ranges : List (ℕ × ℕ))
      → All (IsWithin (length content)) ranges
      → length (multipart boundary content_type max_size content ranges)
        ≡ parts_length (44 + length boundary + length content_type + length (str max_size)) ranges
          + (6 + length boundary)
  unfolding parts_length
  length-multipart [] k = simp length-append (omega arith)
  length-multipart ((start, end) ∷ ranges) ((before, forward, inside), k) =
      let content_left : end - start ≤ length (drop start content) =
        omega (arith, length-drop start content) in
      let tail = codes "\n" ++ multipart boundary content_type max_size content ranges in
      let taken : length (take (end - start) (drop start content)) ≡ end - start =
        omega (arith, length-take (end - start) (drop start content)) in
      omega (
        arith,
        length-part_header start end,
        length-multipart ranges k,
        taken,
        length-append (take (end - start) (drop start content)) tail,
        length-append (part_header boundary content_type max_size start end)
            (take (end - start) (drop start content) ++ tail),
      )

-- For ranges inside the file and a positive chunk size, the multipart answer delivers the parts of
-- `multipart`, and these are one byte longer than the Content-Length that `generate_multipart`
-- computes: the line's end before the closing boundary is not counted.
pub received-multipart-length :
    (chunk_size : ℕ) (boundary content_type : Text) (max_size : ℕ) (content : Bytes)
    (raw : RawHeaders) (ranges : List (ℕ × ℕ))
    → 0 < chunk_size
    → All (IsWithin (length content)) ranges
    → (received (
          behind_start (
            handle_multiple_ranges chunk_size boundary content_type max_size content raw ranges
              false))
        ≡ some (multipart boundary content_type max_size content ranges))
      × (length (multipart boundary content_type max_size content ranges)
          ≡ content_length boundary content_type max_size ranges + 1)
unfolding handle_multiple_ranges content_length
received-multipart-length chunk_size boundary content_type max_size content raw ranges h k = (
  received-ranges_loop boundary content_type max_size content chunk_size ranges h k,
  omega (arith, length-multipart boundary content_type max_size content ranges k),
)
