-- ===== src/Headers/Tests.antt =====
-- Runs of `MutableHeaders`, and its theorems at concrete inputs.
use rustlette.Prelude.{◌≡◌, refl, [], ◌∷◌, codes, text_eq}
use rustlette.Prelude.Exec.{ok}
use rustlette.Headers.{RawHeaders, set_raw}
use rustlette.Headers.Encoding.{
  encode, lower_char, header_name, set_item, get_item, get_item-set_item,
}
use rustlette.Headers.Laws.{put, set_raw-eq-put}

abbrev sample : RawHeaders
sample = (codes "a", codes "1") ∷ (codes "vary", codes "b") ∷ (codes "a", codes "2") ∷ []

set_test :
    set_raw (codes "a") (codes "9") sample ≡ (codes "a", codes "9") ∷ (codes "vary", codes "b") ∷ []
unfolding set_raw text_eq
set_test = refl

set_raw-eq-put_example : set_raw (codes "a") (codes "9") sample ≡ put (codes "a") (codes "9") sample
set_raw-eq-put_example = set_raw-eq-put (codes "a") (codes "9") sample

set_upper :
    set_item (codes "X-Id") (codes "5") sample
    ≡ ok (
        (codes "a", codes "1")
        ∷ (codes "vary", codes "b")
        ∷ (codes "a", codes "2")
        ∷ (codes "x-id", codes "5")
        ∷ [])
unfolding set_item header_name encode lower_char set_raw text_eq
set_upper = refl

same_name : header_name (codes "X-Id") ≡ header_name (codes "x-ID")
unfolding header_name lower_char
same_name = refl

get_item-set_item_example :
    get_item (codes "x-ID") (
      (codes "a", codes "1")
      ∷ (codes "vary", codes "b")
      ∷ (codes "a", codes "2")
      ∷ (codes "x-id", codes "5")
      ∷ [])
    ≡ ok (codes "5")
get_item-set_item_example =
    get_item-set_item (codes "X-Id") (codes "x-ID") (codes "5") sample _ same_name set_upper
