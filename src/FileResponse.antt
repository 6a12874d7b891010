-- ===== src/FileResponse.antt =====
-- rustlette/responses.py: what `FileResponse` sends. `content` is the file; `file.read(n)` gives the
-- next `n` bytes, fewer at the end of the file, and `file.seek` moves to a position.
pub mod Streams
pub mod Multipart
pub mod Call
mod Tests
use rustlette.Prelude.{
  ℕ, zero, suc, ◌+◌, ◌-◌, min, Bool, true, false, ◌&&◌, Option, none, some, List, [], ◌∷◌, ◌++◌,
  Text, Bytes, codes, ltb, ◌==◌, if◌then◌else◌, length, take, drop,
}
use rustlette.Prelude.Decimal.{str, str_pred}
use rustlette.Headers.{RawHeaders, set_raw}
use rustlette.Asgi.{HttpMessage, response_start, response_body, response_pathsend}

abbrev pub part : Bytes → Bool → HttpMessage
part body more = response_body (some body) (some more)

module _ (chunk_size : ℕ) where
  -- The loop of `_handle_simple`, from the bytes `rest` that are left to read. Each round but the
  -- last reads `chunk_size` bytes, so more fuel than bytes is enough.
  simple_loop : ℕ → Bytes → List HttpMessage
  simple_loop zero rest = []
  simple_loop (suc fuel) rest =
      let chunk = take chunk_size rest in
      let more = length chunk == chunk_size in
      let later = simple_loop fuel (drop chunk_size rest) in
      part chunk more ∷ (if more then later else [])

  -- the loop of `_handle_single_range`
  single_loop : ℕ → ℕ → ℕ → Bytes → List HttpMessage
  single_loop zero start end rest = []
  single_loop (suc fuel) start end rest =
      let size = min chunk_size (end - start) in
      let chunk = take size rest in
      let start' = start + length chunk in
      let more = length chunk == chunk_size && ltb start' end in
      let later = single_loop fuel start' end (drop size rest) in
      part chunk more ∷ (if more then later else [])

  -- the loop `while start < end` of `_handle_multiple_ranges`, and the messages behind it
  pub range_loop : ℕ → ℕ → ℕ → Bytes → List HttpMessage → List HttpMessage
  range_loop zero start end rest behind = []
  range_loop (suc fuel) start end rest behind =
      let size = min chunk_size (end - start) in
      let chunk = take size rest in
      let later = range_loop fuel (start + length chunk) end (drop size rest) behind in
      if ltb start end then part chunk true ∷ later else behind

  unfoldable pub handle_simple :
      ℕ → RawHeaders → Text → Bytes → (header_only pathsend : Bool) → List HttpMessage
  unfolding simple_loop
  handle_simple status raw path content true pathsend =
      response_start status raw ∷ part [] false ∷ []
  handle_simple status raw path content false true =
      response_start status raw ∷ response_pathsend path ∷ []
  handle_simple status raw path content false false =
      response_start status raw ∷ simple_loop (length content + 1) content

  single_range_headers : ℕ → ℕ → ℕ → RawHeaders → RawHeaders
  unfolding set_raw str str_pred
  single_range_headers start end file_size raw =
      set_raw (codes "content-length") (str (end - start)) (
        set_raw (codes "content-range")
          (codes "bytes "
            ++ (str start ++ (codes "-" ++ (str_pred end ++ (codes "/" ++ str file_size)))))
          raw)

  unfoldable pub handle_single_range :
      RawHeaders → Bytes → (start end file_size : ℕ) → (header_only : Bool) → List HttpMessage
  unfolding single_loop single_range_headers
  handle_single_range raw content start end file_size true =
      response_start 206 (single_range_headers start end file_size raw) ∷ part [] false ∷ []
  handle_single_range raw content start end file_size false =
      response_start 206 (single_range_headers start end file_size raw)
      ∷ single_loop (end - start + 1) start end (drop start content)

-- `header_generator` of `generate_multipart`
unfoldable pub part_header : Text → Text → ℕ → ℕ → ℕ → Bytes
unfolding str str_pred
part_header boundary content_type max_size start end =
    codes "--"
    ++ (boundary
        ++ (codes "\nContent-Type: "
            ++ (content_type
                ++ (codes "\nContent-Range: bytes "
                    ++ (str start
                        ++ (codes "-"
                            ++ (str_pred end ++ (codes "/" ++ (str max_size ++ codes "\n\n")))))))))

-- the length of the headers and the content of the parts
parts_length : ℕ → List (ℕ × ℕ) → ℕ
unfolding str str_pred
parts_length static [] = 0
parts_length static ((start, end) ∷ ranges) =
    length (str start) + length (str_pred end) + static + (end - start) + parts_length static ranges

-- the length that `generate_multipart` computes
unfoldable pub content_length : Text → Text → ℕ → List (ℕ × ℕ) → ℕ
unfolding parts_length
content_length boundary content_type max_size ranges =
    parts_length (44 + length boundary + length content_type + length (str max_size)) ranges
    + (5 + length boundary)

module _ (chunk_size : ℕ) (boundary content_type : Text) (max_size : ℕ) (content : Bytes) where
  -- the loop over the ranges of `_handle_multiple_ranges`
  pub ranges_loop : List (ℕ × ℕ) → List HttpMessage
  unfolding range_loop part_header
  ranges_loop [] = part (codes "\n--" ++ (boundary ++ codes "--\n")) false ∷ []
  ranges_loop ((start, end) ∷ ranges) =
      let behind = part (codes "\n") true ∷ ranges_loop ranges in
      part (part_header boundary content_type max_size start end) true
      ∷ range_loop chunk_size (end - start + 1) start end (drop start content) behind

  unfoldable pub handle_multiple_ranges :
      RawHeaders → List (ℕ × ℕ) → (header_only : Bool) → List HttpMessage
  unfolding ranges_loop content_length set_raw
  handle_multiple_ranges raw ranges header_only =
      let headers =
        set_raw (codes "content-length")
          (str (content_length boundary content_type max_size ranges))
          (set_raw (codes "content-range") (codes "multipart/byteranges; boundary=" ++ boundary)
            raw) in
      response_start 206 headers ∷ (if header_only then part [] false ∷ [] else ranges_loop ranges)
