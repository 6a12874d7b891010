-- ===== src/Form/MultiPart/Uploads.antt =====
-- The writes and the ends that `MultiPartParser` puts off, on the heap of its uploads.
use mathlib.Core.Path.{fun_ext}
use rustlette.Prelude.{
  ℕ, ◌≡◌, refl, ap, ◌∙◌, arith, ltb, ◌==◌, Bool, true, false, not, List, [], ◌∷◌, ◌++◌, Bytes, all,
}
use rustlette.Form.Upload.{UploadFile, Heap, modify}
use rustlette.Form.Upload
use rustlette.Form.MultiPart.{write_all, finish_all}

-- Changes of different files do not depend on their order.
modify-modify :
    (i j : ℕ) (f g : UploadFile → UploadFile) (heap : Heap)
    → (i == j) ≡ false
    → modify i f (modify j g heap) ≡ modify j g (modify i f heap)
unfolding modify
modify-modify i j f g heap h = fun_ext (λ k. at_file k)
  where
    at_file : (k : ℕ) → modify i f (modify j g heap) k ≡ modify j g (modify i f heap) k
    at_file k = ground arith

-- files other than `i`
abbrev pub others : ℕ → List ℕ → Bool
others i = all (λ j. not (j == i))

pub finish_all-modify :
    (i : ℕ) (f : UploadFile → UploadFile) (files : List ℕ) (heap : Heap)
    → others i files ≡ true
    → finish_all files (modify i f heap) ≡ modify i f (finish_all files heap)
unfolding finish_all
finish_all-modify i f [] heap h = refl
finish_all-modify i f (j ∷ files) heap h =
    let other : (j == i) ≡ false = ground arith in
    ap (finish_all files) (modify-modify j i (Upload.seek 0) f heap other)
    ∙ finish_all-modify i f files (modify j (Upload.seek 0) heap) (ground arith)

pub write_all-modify :
    (i : ℕ) (f : UploadFile → UploadFile) (parts : List (ℕ × Bytes)) (heap : Heap)
    → all (λ p. not (p.0 == i)) parts ≡ true
    → write_all parts (modify i f heap) ≡ modify i f (write_all parts heap)
unfolding write_all
write_all-modify i f [] heap h = refl
write_all-modify i f ((j, bytes) ∷ parts) heap h =
    let other : (j == i) ≡ false = ground arith in
    ap (write_all parts) (modify-modify j i (Upload.write bytes) f heap other)
    ∙ write_all-modify i f parts (modify j (Upload.write bytes) heap) (ground arith)

pub write_all_last :
    (parts : List (ℕ × Bytes)) (i : ℕ) (bytes : Bytes) (heap : Heap)
    → write_all (parts ++ (i, bytes) ∷ []) heap
      ≡ modify i (Upload.write bytes) (write_all parts heap)
unfolding write_all
write_all_last [] i bytes heap = refl
write_all_last ((j, b) ∷ parts) i bytes heap =
    write_all_last parts i bytes (modify j (Upload.write b) heap)

pub finish_all_last :
    (files : List ℕ) (i : ℕ) (heap : Heap)
    → finish_all (files ++ i ∷ []) heap ≡ modify i (Upload.seek 0) (finish_all files heap)
unfolding finish_all
finish_all_last [] i heap = refl
finish_all_last (j ∷ files) i heap = finish_all_last files i (modify j (Upload.seek 0) heap)

pub all_below-not :
    (n : ℕ) (parts : List (ℕ × Bytes))
    → all (λ p. ltb p.0 n) parts ≡ true
    → all (λ p. not (p.0 == n)) parts ≡ true
all_below-not n [] h = refl
all_below-not n (p ∷ parts) h = ground (arith, all_below-not n parts)

pub others_above :
    (n : ℕ) (files : List ℕ) → all (λ i. ltb i n) files ≡ true → others n files ≡ true
others_above n [] h = refl
others_above n (i ∷ files) h = ground (arith, others_above n files)
