-- ===== src/Url/Query/Removed.antt =====
-- The query that is left when parameters are removed.
use rustlette.Prelude.{
  ◌≡◌, refl, ap, ◌∙◌, sym, some, Bool, true, not, List, [], ◌∷◌, Text, text_eq, text_eq_instance,
  text_in, keep, arith,
}
use rustlette.Prelude.Exec.{ok}
use rustlette.MultiDict.{MultiDict, from_items, pop}
use rustlette.MultiDict.Laws.{list-pop}
use rustlette.Url.{Components, urlsplit, geturl}
use rustlette.Url.Replace.{
  Changes, no_changes, replaced, replace-urlsplit, has_netloc_parts, is_given,
}
use rustlette.Url.RoundTrip.{is_plain, urlsplit-geturl}
use rustlette.Url.Query.{with_query, params_of, pop_each, remove_query_params}

-- the parameters with other keys
unfoldable pub others : List Text → List (Text × Text) → List (Text × Text)
unfolding text_in
others keys = keep (λ i. not (text_in i.0 keys))

others_none : (l : List (Text × Text)) → others [] l ≡ l
unfolding others text_in
others_none [] = refl
others_none (i ∷ l) = ap (λ r. i ∷ r) (others_none l)

others-keep :
    (key : Text) (keys : List Text) (l : List (Text × Text))
    → others keys (keep (λ i. not (text_eq i.0 key)) l) ≡ others (key ∷ keys) l
unfolding others text_in
others-keep key keys [] = refl
others-keep key keys ((k, v) ∷ l) = ground (arith, others-keep key keys l)

list-pop_each :
    (keys : List Text) (m : MultiDict Text Text) → (pop_each keys m).list ≡ others keys m.list
unfolding pop_each
list-pop_each [] m = sym (others_none m.list)
list-pop_each (key ∷ keys) m =
    list-pop_each keys (pop key [] m).1
    ∙ ap (others keys) (list-pop key [] m)
    ∙ others-keep key keys m.list

-- Removing parameters from a URL gives a URL that `urlsplit` reads with the same components but for the
-- query, which is what `urlencode` writes for the parameters with other keys, in their order. The URL is one
-- with a scheme in lower case, a host that `urlsplit` accepts, a path that is empty or begins with "/" and
-- has no "?" or "#", and a new query with no "#"; no part has a character that `urlsplit` removes.
pub remove_query_params_lem :
    (is_netloc : Text → Bool) (parse_qsl : Text → List (Text × Text))
    (urlencode : List (Text × Text) → Text) (keys : List Text) (url : Text) (c : Components)
    → let left = others keys (parse_qsl c.query) in
      let c' : Components = record c { query = urlencode left } in
      urlsplit is_netloc url ≡ ok c
      → is_netloc c.netloc ≡ true
      → is_plain c' ≡ true
      → (url' : Text) × (remove_query_params is_netloc parse_qsl urlencode keys url ≡ ok url')
        × (urlsplit is_netloc url' ≡ ok c')
unfolding remove_query_params with_query params_of from_items replaced has_netloc_parts is_given
remove_query_params_lem is_netloc parse_qsl urlencode keys url c split valid plain =
    let c' : Components = record c { query = urlencode (others keys (parse_qsl c.query)) } in
    let opened : remove_query_params is_netloc parse_qsl urlencode keys url
        ≡ with_query is_netloc parse_qsl urlencode url
            (urlencode (pop_each keys (from_items (parse_qsl c.query))).list) =
      rw (remove_query_params, split) refl in
    let k : Changes = record no_changes { query = some c'.query } in
    (
      geturl c',
      opened
          ∙ ap (λ l. with_query is_netloc parse_qsl urlencode url (urlencode l))
              (list-pop_each keys (from_items (parse_qsl c.query)))
          ∙ replace-urlsplit is_netloc k url refl split,
      urlsplit-geturl is_netloc c' plain valid,
    )
