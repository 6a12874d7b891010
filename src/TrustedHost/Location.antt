-- ===== src/TrustedHost/Location.antt =====
-- The address of the redirect to "www.".
use rustlette.Prelude.{
  all, ltb, is_nil, ◌≡◌, refl, ap, ◌∙◌, sym, Bool, true, some, ◌++◌, Text, codes, starts_with,
  arith,
}
use rustlette.Prelude.Exec.{ok}
use rustlette.Headers.{get_raw}
use rustlette.Routing.Scope.{Scope}
use rustlette.Url.{begins_with_letter, urlsplit}
use rustlette.Url.Replace.{replace, replaced}
use rustlette.Url.RoundTrip.{is_plain, plain_text, geturl-is_plain, geturl-plain, urlsplit-geturl}
use rustlette.Url.Address.{address, url_of_scope-plain}
use rustlette.TrustedHost.{redirect_url}

-- A request with a Host header that `urlsplit` accepts is sent to the same address with "www." before its
-- host, where the path and the query have no character that ends them or is removed, and the query is ASCII.
pub redirect_url_lem :
    (is_netloc : Text → Bool) (s : Scope) (host : Text)
    → get_raw (codes "host") s.headers ≡ some host
    → is_netloc host ≡ true
    → is_plain (address s host) ≡ true
    → all (λ c. ltb c 128) s.query_string ≡ true
    → redirect_url is_netloc s ≡ ok (plain_text (address s (codes "www." ++ host)))
unfolding redirect_url address is_plain begins_with_letter is_nil starts_with
redirect_url_lem is_netloc s host sent valid plain ascii =
    let old = address s host in
    let split : urlsplit is_netloc (plain_text old) ≡ ok old =
      ap (urlsplit is_netloc) (sym (geturl-is_plain old plain))
      ∙ urlsplit-geturl is_netloc old plain valid in
    rw (redirect_url, url_of_scope-plain s host sent ascii, split, replace, replaced)
      (ap ok (geturl-plain (address s (codes "www." ++ host)) (ground arith) refl (ground arith)))
