-- ===== src/Routing/Router/Mounting.antt =====
-- What a mounted app is given of a path below its mount.
use rustlette.Prelude.{
  ◌-◌, ◌≡◌, refl, sym, ap, subst, ◌∙◌, true, some, List, [], ◌∷◌, ◌++◌, append_assoc, Text, codes,
  length, take, length-append, arith, text_eq,
}
use rustlette.MultiDict.Dict
use rustlette.Routing.Convertors.{path_convertor, accepts}
use rustlette.Routing.Scope.{Scope, get_route_path, begins_with_slash}
use rustlette.Routing.Scope.RoutePath.{get_route_path_below}
use rustlette.Routing.Pattern.{match}
use rustlette.Routing.Pattern.Mounted.{mount_pattern, match_mount}
use rustlette.Routing.Router.{MountInfo, full, mount_matches, mounted_scope, path_group, in_full}

take-length : (v s : Text) → take (length v) (v ++ s) ≡ v
take-length [] s = refl
take-length (a ∷ v) s = ap (λ r. a ∷ r) (take-length v s)

slash_first :
    (t v : Text)
    → begins_with_slash (t ++ codes "/") ≡ true
    → (r : Text) × (t ++ b'/' ∷ v ≡ b'/' ∷ r)
unfolding begins_with_slash
slash_first [] v h = (v, refl)
slash_first (c ∷ t) v h = (t ++ b'/' ∷ v, ground arith)

mounted_root :
    (t v : Text) → take (length (t ++ b'/' ∷ v) - length (codes "/" ++ v)) (t ++ b'/' ∷ v) ≡ t
mounted_root t v =
    let e : length (t ++ b'/' ∷ v) - length (codes "/" ++ v) ≡ length t =
      omega (arith, length-append t (b'/' ∷ v)) in
    rw e (take-length t (b'/' ∷ v))

in_full_found :
    (m : MountInfo) (s : Scope) {found : List (Text × Text)}
    → match m.compiled.regex (get_route_path s) ≡ some found
    → mount_matches m s ≡ (full, mounted_scope m s found)
unfolding mount_matches in_full
in_full_found m s h = rw h refl

-- Below a mount at a fixed path, the mounted app is given the request's own path, the root path with
-- the mount's path behind it, and what follows the mount's path as the path of its routes.
pub mounted_below :
    (m : MountInfo) (s : Scope) (t v : Text)
    → m.compiled.regex ≡ mount_pattern t
    → begins_with_slash (t ++ codes "/") ≡ true
    → accepts path_convertor v ≡ true
    → s.path ≡ s.root_path ++ (t ++ b'/' ∷ v)
    → ((mount_matches m s).0 ≡ full)
      × ((mount_matches m s).1.path ≡ s.path)
      × ((mount_matches m s).1.root_path ≡ s.root_path ++ t)
      × (get_route_path (mount_matches m s).1 ≡ b'/' ∷ v)
unfolding mounted_scope path_group Dict.get text_eq
mounted_below m s t v pattern slash fits path =
    let (r, first) = slash_first t v slash in
    let below : get_route_path s ≡ t ++ b'/' ∷ v =
      get_route_path_below s r (path ∙ ap (λ l. s.root_path ++ l) first) ∙ sym first in
    let found : match m.compiled.regex (get_route_path s) ≡ some ((codes "path", v) ∷ []) =
      rw (pattern, below, sym (append_assoc t (codes "/") v)) (match_mount t v fits) in
    let root : s.root_path
          ++ take (length (get_route_path s) - length (codes "/" ++ v)) (get_route_path s)
        ≡ s.root_path ++ t =
      rw below (ap (λ l. s.root_path ++ l) (mounted_root t v)) in
    let child = mounted_scope m s ((codes "path", v) ∷ []) in
    let child_root : child.root_path ≡ s.root_path ++ t = root in
    let child_path : child.path ≡ child.root_path ++ b'/' ∷ v =
      path
      ∙ sym (append_assoc s.root_path t (b'/' ∷ v))
      ∙ ap (λ l. l ++ b'/' ∷ v) (sym child_root) in
    subst
      (λ i.
        (i.0 ≡ full)
        × (i.1.path ≡ s.path)
        × (i.1.root_path ≡ s.root_path ++ t)
        × (get_route_path i.1 ≡ b'/' ∷ v))
      (sym (in_full_found m s found))
      (refl, refl, child_root, get_route_path_below child v child_path)
