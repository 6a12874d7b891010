-- ===== src/Url/Address.antt =====
-- The address of a request that has a Host header.
use rustlette.Prelude.{
  true, all, ltb, ◌≡◌, refl, ap, ◌∙◌, sym, some, [], ◌∷◌, ◌++◌, append-nil, append_assoc, Text,
  codes,
}
use rustlette.Headers.{get_raw}
use rustlette.Routing.Scope.{Scope, url_of_scope, without_query, with_query, decode_ascii}
use rustlette.Url.{Components, before}
use rustlette.Url.RoundTrip.{plain_text}

-- the components of the address of a request with a host, where its query is ASCII
unfoldable pub address : Scope → (host : Text) → Components
address s host = record {
  scheme = s.scheme;
  netloc = host;
  path = s.path;
  query = s.query_string;
  fragment = [];
}

with_query-before :
    (query base : Text)
    → all (λ c. ltb c 128) query ≡ true
    → with_query query base ≡ some (base ++ before (codes "?") query)
unfolding with_query before
with_query-before [] base h = ap some (sym (append-nil base))
with_query-before (c ∷ query) base h = rw (with_query, decode_ascii (c ∷ query) h) refl

pub url_of_scope-plain :
    (s : Scope) (host : Text)
    → get_raw (codes "host") s.headers ≡ some host
    → all (λ c. ltb c 128) s.query_string ≡ true
    → url_of_scope s ≡ some (plain_text (address s host))
unfolding url_of_scope without_query plain_text address before
url_of_scope-plain s host sent ascii =
    rw (url_of_scope, without_query, sent)
      (with_query-before s.query_string (s.scheme ++ (codes "://" ++ (host ++ s.path))) ascii
        ∙ ap some (simp (append_assoc, append-nil)))
