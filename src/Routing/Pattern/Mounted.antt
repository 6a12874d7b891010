-- ===== src/Routing/Pattern/Mounted.antt =====
-- The pattern of a mount, a fixed text and then the rest of the path.
use rustlette.Prelude.{
  ℕ, suc, zero, ◌≡◌, refl, ap, true, Option, some, List, [], ◌∷◌, ◌++◌, Text, codes, length, take,
  drop, arith, text_eq,
}
use rustlette.Routing.Convertors.{Convertor, path_convertor, accepts}
use rustlette.Routing.Pattern.{
  Segment, literal, param, match, strip_prefix, try_lengths, attempt, at_end,
}
use rustlette.Routing.Pattern.Matching.{strip_prefix_complete}

-- the expression of `path + "/{path:path}"`
unfoldable pub mount_pattern : Text → List Segment
mount_pattern t = literal (t ++ codes "/") ∷ param (codes "path") path_convertor ∷ literal [] ∷ []

try_lengths_first :
    (c : Convertor) (name : Text) (continue : Text → Option (List (Text × Text))) (n : ℕ) (s : Text)
    (found : List (Text × Text))
    → attempt c name continue n s ≡ some found
    → try_lengths c name continue n s ≡ some found
unfolding try_lengths
try_lengths_first c name continue zero s found h = h
try_lengths_first c name continue (suc n) s found h = ground (arith)

take_all : (s : Text) → take (length s) s ≡ s
take_all [] = refl
take_all (a ∷ s) = ap (λ r. a ∷ r) (take_all s)

drop_all : (s : Text) → drop (length s) s ≡ []
drop_all [] = refl
drop_all (a ∷ s) = drop_all s

pub match_mount :
    (t v : Text)
    → accepts path_convertor v ≡ true
    → match (mount_pattern t) ((t ++ codes "/") ++ v) ≡ some ((codes "path", v) ∷ [])
unfolding match mount_pattern attempt strip_prefix at_end text_eq
match_mount t v h =
    rw (match, strip_prefix_complete (t ++ codes "/") v)
      (try_lengths_first path_convertor (codes "path") (match (literal [] ∷ [])) (length v) v
        ((codes "path", v) ∷ []) whole)
  where
    whole :
        attempt path_convertor (codes "path") (match (literal [] ∷ [])) (length v) v
        ≡ some ((codes "path", v) ∷ [])
    whole = simp (take_all v, drop_all v, h)
