-- ===== src/FileResponse/Streams.antt =====
-- The bytes that a client receives from a file response.
use rustlette.Prelude.{
  ℕ, zero, suc, ◌+◌, ◌-◌, ◌≤◌, ◌<◌, min, ◌≡◌, refl, ap, ◌∙◌, sym, false, some, List, [], ◌∷◌, ◌++◌,
  append_assoc, ◌&&◌, Text, Bytes, length, take, drop, length-take, length-drop, take-append-drop,
  arith, ltb, ◌==◌, Bool-cases, inl, inr,
}
use rustlette.Headers.{RawHeaders}
use rustlette.Asgi.{HttpMessage, received}
use rustlette.FileResponse.{
  simple_loop, single_loop, range_loop, handle_simple, handle_single_range,
}

take_all : (n : ℕ) (xs : Bytes) → length xs ≤ n → take n xs ≡ xs
take_all zero [] h = refl
take_all zero (x ∷ xs) h = elim h [ ]
take_all (suc n) [] h = refl
take_all (suc n) (x ∷ xs) h = ap (λ r. x ∷ r) (take_all n xs (omega arith))

take_nil : (n : ℕ) → take {A = ℕ} n [] ≡ []
take_nil zero = refl
take_nil (suc n) = refl

take-append-take :
    (c n : ℕ) (xs : Bytes) → c ≤ n → take c xs ++ take (n - c) (drop c xs) ≡ take n xs
take-append-take zero n xs h = let e : n - 0 ≡ n = omega arith in rw e
take-append-take (suc c) zero xs h = elim h [ ]
take-append-take (suc c) (suc n) [] h =
    let e : suc n - suc c ≡ n - c = omega arith in rw e (take_nil (n - c))
take-append-take (suc c) (suc n) (x ∷ xs) h =
    let e : suc n - suc c ≡ n - c = omega arith in
    rw e (ap (λ r. x ∷ r) (take-append-take c n xs (omega arith)))

module _ (chunk_size : ℕ) (positive : 0 < chunk_size) where
  received-simple_loop :
      (fuel : ℕ) (rest : Bytes)
      → length rest < fuel
      → received (simple_loop chunk_size fuel rest) ≡ some rest
  unfolding simple_loop
  received-simple_loop zero rest h = elim h [ ]
  received-simple_loop (suc fuel) rest h =
      elim (Bool-cases (length (take chunk_size rest) == chunk_size)) [
        | inl full ↦ rw full (
            rw
              (received-simple_loop fuel (drop chunk_size rest)
                (grind (arith, length-drop chunk_size rest, length-take chunk_size rest)))
              (ap some (take-append-drop chunk_size rest)))
        | inr last ↦
            rw last
              (ap some (take_all chunk_size rest (ground (arith, length-take chunk_size rest))))
      ]

  received-single_loop :
      (fuel start end : ℕ) (rest : Bytes)
      → end - start < fuel
      → start ≤ end
      → end - start ≤ length rest
      → received (single_loop chunk_size fuel start end rest) ≡ some (take (end - start) rest)
  unfolding single_loop
  received-single_loop zero start end rest h o l = elim h [ ]
  received-single_loop (suc fuel) start end rest h o l =
      let size = min chunk_size (end - start) in
      let chunk = take size rest in
      let measured : length chunk ≡ size = omega (arith, length-take size rest) in
      elim (Bool-cases (length chunk == chunk_size && ltb (start + length chunk) end)) [
        | inl more ↦
            let left : end - (start + length chunk) ≡ (end - start) - size = ground arith in
            let ih =
              received-single_loop fuel (start + length chunk) end (drop size rest) (ground arith)
                (ground arith) (ground (arith, length-drop size rest)) in
            rw more
              (rw ih (rw left (ap some (take-append-take size (end - start) rest (ground arith)))))
        | inr last ↦
            let whole : size ≡ end - start = ground arith in
            rw last (ap (λ k. some (take k rest)) whole)
      ]

  -- the messages of one range of a multipart response, and those behind them
  pub received-range_loop :
      (fuel start end : ℕ) (rest : Bytes) (behind : List HttpMessage) (b : Bytes)
      → end - start < fuel
      → end - start ≤ length rest
      → received behind ≡ some b
      → received (range_loop chunk_size fuel start end rest behind)
        ≡ some (take (end - start) rest ++ b)
  unfolding range_loop
  received-range_loop zero start end rest behind b h l r = elim h [ ]
  received-range_loop (suc fuel) start end rest behind b h l r =
      let size = min chunk_size (end - start) in
      let chunk = take size rest in
      let measured : length chunk ≡ size = omega (arith, length-take size rest) in
      elim (Bool-cases (ltb start end)) [
        | inl more ↦
            let left : end - (start + length chunk) ≡ (end - start) - size = ground arith in
            let ih =
              received-range_loop fuel (start + length chunk) end (drop size rest) behind b
                (ground arith) (ground (arith, length-drop size rest)) r in
            rw more (
              rw ih (
                rw left (
                  ap some (
                    sym (append_assoc chunk (take ((end - start) - size) (drop size rest)) b)
                    ∙ ap (λ k. k ++ b) (take-append-take size (end - start) rest (ground arith))))))
        | inr done ↦ let none_left : end - start ≡ 0 = ground arith in rw done (rw none_left r)
      ]

abbrev pub behind_start : List HttpMessage → List HttpMessage
behind_start [] = []
behind_start (_ ∷ messages) = messages

-- A whole-file answer delivers the file: with a positive chunk size, what the client assembles from
-- the messages behind the start is the content, chunk by chunk, and the last chunk ends the response.
pub received-handle_simple :
    (chunk_size status : ℕ) (raw : RawHeaders) (path : Text) (content : Bytes)
    → 0 < chunk_size
    → received (behind_start (handle_simple chunk_size status raw path content false false))
      ≡ some content
unfolding handle_simple
received-handle_simple chunk_size status raw path content h =
    received-simple_loop chunk_size h (length content + 1) content (omega arith)

-- A single-range answer delivers the bytes of the range: for a range inside the file, what the
-- client assembles is the `end - start` bytes of the content from `start` on, and the response ends.
pub received-handle_single_range :
    (chunk_size : ℕ) (raw : RawHeaders) (content : Bytes) (start end : ℕ)
    → 0 < chunk_size
    → start ≤ end
    → end ≤ length content
    → received
        (behind_start (handle_single_range chunk_size raw content start end (length content) false))
      ≡ some (take (end - start) (drop start content))
unfolding handle_single_range
received-handle_single_range chunk_size raw content start end h o l =
    received-single_loop chunk_size h (end - start + 1) start end (drop start content) (omega arith)
      o (omega (arith, length-drop start content))
