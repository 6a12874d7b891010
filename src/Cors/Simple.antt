-- ===== src/Cors/Simple.antt =====
-- The header Access-Control-Allow-Origin of an ordinary answer.
use rustlette.Prelude.{
  ◌≡◌, ◌≢◌, refl, sym, ◌∙◌, Bool, true, false, ◌&&◌, some, List, [], ◌++◌, Text, Bytes, codes,
  text_eq, text_eq_iff, subst, text_in, if◌then◌else◌, arith, Bool-cases, inl, inr,
}
use rustlette.Prelude.Exec.{ok}
use rustlette.Headers.{RawHeaders, get_raw, add_vary_header}
use rustlette.Headers.Laws.{get_raw-set_raw, add_vary_header_lem}
use rustlette.Headers.Encoding.{set_item, header_name, lower_char, then_ok-eq-ok, set_item-eq-ok}
use rustlette.Cors.{
  Settings, init, entry, update_headers, allow_explicit_origin, start_headers, names_origin,
  simple_headers_of, is_allowed_origin, some_of,
}

abbrev allow_origin : Bytes
allow_origin = codes "access-control-allow-origin"

get_raw-set_item :
    (key value : Text) (name j : Bytes) (l : RawHeaders) {l' : RawHeaders}
    → header_name key ≡ ok name
    → set_item key value l ≡ ok l'
    → get_raw j l' ≡ (if text_eq name j then some value else get_raw j l)
get_raw-set_item key value name j l named h =
    rw (set_item-eq-ok key value name l named h) (get_raw-set_raw name value j l)

-- One optional entry of the dict that the headers are updated with.
update-entry :
    (b : Bool) (key value : Text) (name j : Bytes) (items : List (Text × Text)) (l : RawHeaders)
    {l' : RawHeaders}
    → header_name key ≡ ok name
    → update_headers (entry b key value ++ items) l ≡ ok l'
    → (mid : RawHeaders) × (update_headers items mid ≡ ok l')
      × (get_raw j mid ≡ (if b && text_eq name j then some value else get_raw j l))
unfolding update_headers entry
update-entry false key value name j items l named h = (l, h, refl)
update-entry true key value name j items l named h =
    let (mid, set, more) = then_ok-eq-ok (set_item key value l) (update_headers items) h in
    (mid, more, get_raw-set_item key value name j l named set)

update-last_entry :
    (b : Bool) (key value : Text) (name j : Bytes) (l : RawHeaders) {l' : RawHeaders}
    → header_name key ≡ ok name
    → update_headers (entry b key value) l ≡ ok l'
    → get_raw j l' ≡ (if b && text_eq name j then some value else get_raw j l)
unfolding update_headers entry
update-last_entry false key value name j l named h = ground arith
update-last_entry true key value name j l named h =
    let (mid, set, more) = then_ok-eq-ok (set_item key value l) (update_headers []) h in
    let same : get_raw j mid ≡ get_raw j _ = ground arith in
    sym same ∙ get_raw-set_item key value name j l named set

get_raw-update :
    (c : Settings) (l : RawHeaders) {l' : RawHeaders}
    → update_headers (init c).simple_headers l ≡ ok l'
    → get_raw allow_origin l'
      ≡ (if text_in (codes "*") c.allow_origins then some (codes "*") else get_raw allow_origin l)
unfolding init simple_headers_of header_name lower_char text_eq
get_raw-update c l h =
    let (l1, h1, first) =
      update-entry (text_in (codes "*") c.allow_origins) (codes "Access-Control-Allow-Origin")
        (codes "*") allow_origin allow_origin _ l refl h in
    let (l2, h2, second) =
      update-entry c.allow_credentials (codes "Access-Control-Allow-Credentials") (codes "true")
        (codes "access-control-allow-credentials") allow_origin _ l1 refl h1 in
    let third =
      update-last_entry (some_of c.expose_headers) (codes "Access-Control-Expose-Headers") _
        (codes "access-control-expose-headers") allow_origin l2 refl h2 in
    ground (arith, first, second, third)

other_name : codes "vary" ≢ allow_origin
unfolding text_eq
other_name h = absurd (ground (arith, (text_eq_iff (codes "vary") allow_origin).1 h))

get_raw-allow_explicit_origin :
    (origin : Text) (l : RawHeaders) {l' : RawHeaders}
    → allow_explicit_origin origin l ≡ ok l'
    → get_raw allow_origin l' ≡ some origin
unfolding allow_explicit_origin header_name lower_char text_eq
get_raw-allow_explicit_origin origin l {l' = r} h =
    let (mid, set, h') =
      then_ok-eq-ok (set_item (codes "Access-Control-Allow-Origin") origin l) _ h in
    let same : get_raw allow_origin mid ≡ some origin =
      get_raw-set_item (codes "Access-Control-Allow-Origin") origin allow_origin allow_origin l refl
        set in
    let added : add_vary_header (codes "Origin") mid ≡ r = ground arith in
    subst (λ r. get_raw allow_origin r ≡ some origin) added
      ((add_vary_header_lem (codes "Origin") allow_origin mid).1 other_name ∙ same)

get_raw-start :
    (c : Settings) (origin : Text) (has_cookie : Bool) (l : RawHeaders) {l' : RawHeaders}
    → start_headers (init c) origin has_cookie l ≡ ok l'
    → get_raw allow_origin l' ≡ (
        if names_origin (init c) origin has_cookie
        then some origin
        else if text_in (codes "*") c.allow_origins
        then some (codes "*")
        else get_raw allow_origin l)
unfolding start_headers
get_raw-start c origin has_cookie l h =
    let (mid, updated, h') = then_ok-eq-ok (update_headers (init c).simple_headers l) _ h in
    let base = get_raw-update c l updated in
    elim (Bool-cases (names_origin (init c) origin has_cookie)) [
      | inl named ↦ rw named (get_raw-allow_explicit_origin origin mid (rw named at h'))
      | inr other ↦ rw other (ground (arith, base, h'))
    ]

-- The header of the answer that says which origin may read it. If the server allows every origin it
-- is "*", or the request's origin if the request has a cookie; otherwise it is the request's origin
-- if that is allowed, and what the app itself answered if it is not.
pub get_raw-start_headers :
    (c : Settings) (origin : Text) (has_cookie : Bool) (l : RawHeaders) {l' : RawHeaders}
    → start_headers (init c) origin has_cookie l ≡ ok l'
    → get_raw allow_origin l' ≡ (
        if text_in (codes "*") c.allow_origins
        then some (if has_cookie then origin else codes "*")
        else if is_allowed_origin (init c) origin
        then some origin
        else get_raw allow_origin l)
unfolding start_headers names_origin init
get_raw-start_headers c origin has_cookie l h =
    ground (arith, get_raw-start c origin has_cookie l h)
