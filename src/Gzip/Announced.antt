-- ===== src/Gzip/Announced.antt =====
-- What the headers of a compressed answer announce.
use rustlette.Prelude.{ℕ, Bool, Bytes, codes, ltb, length, ◌||◌}
use rustlette.Headers.{RawHeaders, contains_raw}
use rustlette.Gzip.{is_excluded}

-- is a whole body sent as it is: the response has an encoding or a type that is excluded, or it is small
abbrev pub is_kept : (minimum_size : ℕ) → RawHeaders → Bytes → Bool
is_kept minimum_size raw body =
    contains_raw (codes "content-encoding") raw || is_excluded raw || ltb (length body) minimum_size
