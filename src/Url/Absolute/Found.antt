-- ===== src/Url/Absolute/Found.antt =====
-- The URL of a named route for a request with a Host header.
use rustlette.Prelude.{
  ◌≡◌, refl, ap, ◌∙◌, sym, Bool, true, Option, some, List, [], ◌++◌, Text, codes, rstrip,
}
use rustlette.Prelude.Exec.{ok}
use rustlette.Headers.{get_raw}
use rustlette.Routing.Convertors.{Value}
use rustlette.Routing.Scope.{Scope}
use rustlette.Routing.UrlPath.Named.{UrlPath, NamedRoutes, routes_url_path_for}
use rustlette.Url.{Components, urlsplit, checked}
use rustlette.Url.Address.{address, url_of_scope-plain}
use rustlette.Url.Replace.{
  Changes, no_changes, replace, replaced, replace-urlsplit, has_netloc_parts, is_given,
  from_components,
}
use rustlette.Url.RoundTrip.{is_plain, plain_text, geturl-is_plain, urlsplit-geturl}
use rustlette.Url.Absolute.{
  scheme_for, host_or, base_scope, joined, make_absolute_url, base_url, found, url_for,
}

-- components with no query and no fragment
unfoldable pub bare : (scheme netloc path : Text) → Components
bare scheme netloc path = record {
  scheme = scheme;
  netloc = netloc;
  path = path;
  query = [];
  fragment = [];
}

module _ (is_netloc : Text → Bool) where
  urlsplit-plain_text :
      (c : Components)
      → is_plain c ≡ true
      → is_netloc c.netloc ≡ true
      → urlsplit is_netloc (plain_text c) ≡ ok c
  urlsplit-plain_text c plain valid =
      ap (urlsplit is_netloc) (sym (geturl-is_plain c plain))
      ∙ urlsplit-geturl is_netloc c plain valid

  urlsplit_empty :
      is_netloc [] ≡ true
      → urlsplit is_netloc []
        ≡ ok (record { scheme = []; netloc = []; path = []; query = []; fragment = [] })
  unfolding urlsplit checked
  urlsplit_empty empty = rw empty refl

  from_components-plain :
      (scheme netloc path : Text)
      → is_netloc [] ≡ true
      → is_netloc netloc ≡ true
      → is_plain (bare scheme netloc path) ≡ true
      → from_components is_netloc
          (record no_changes { scheme = some scheme; netloc = some netloc; path = some path })
        ≡ ok (plain_text (bare scheme netloc path))
  unfolding from_components replaced has_netloc_parts is_given bare
  from_components-plain scheme netloc path empty valid plain =
      let c = bare scheme netloc path in
      let k : Changes = record no_changes {
        scheme = some scheme;
        netloc = some netloc;
        path = some path;
      } in
      let built = replace-urlsplit is_netloc k [] refl (urlsplit_empty empty) in
      let whole : replace is_netloc k [] ≡ ok (plain_text c) =
        built ∙ ap ok (geturl-is_plain c plain) in
      rw (from_components, whole, urlsplit-plain_text c plain valid)
        (ap ok (geturl-is_plain c plain))

  -- Where a request has a Host header and the routes have a path for a name, and that path has no host
  -- of its own, `url_for` gives the URL at the request's host with the scheme for the path's protocol:
  -- its path is the root path of the application, without slashes at its end, and the route's path.
  -- The address of the application and the one that is given are such that `urlsplit` finds their parts
  -- again: a scheme in lower case, a host that it accepts, as it does an empty one, and a path that is
  -- empty or begins with "/" and has no "?", no "#" and no character that `urlsplit` removes.
  pub url_for_lem :
      (float_text : Text → Option Text) (tree : NamedRoutes) (s : Scope) (name : Text)
      (params : List (Text × Value)) (host scheme : Text) (u : UrlPath)
      → get_raw (codes "host") s.headers ≡ some host
      → routes_url_path_for float_text tree name params ≡ ok u
      → u.host ≡ []
      → scheme_for u.protocol (address (base_scope s) host) ≡ ok scheme
      → is_netloc [] ≡ true
      → is_netloc host ≡ true
      → is_plain (address (base_scope s) host) ≡ true
      → is_plain (bare scheme host (rstrip b'/' (base_scope s).path ++ u.path)) ≡ true
      → url_for is_netloc float_text (some tree) s name params
        ≡ ok (plain_text (bare scheme host (rstrip b'/' (base_scope s).path ++ u.path)))
  unfolding url_for found joined host_or make_absolute_url base_url address base_scope
  url_for_lem float_text tree s name params host scheme u sent has_path hostless schemed empty valid
        plain whole =
      let base = address (base_scope s) host in
      let based : base_url is_netloc s ≡ ok (plain_text base) =
        rw (base_url, url_of_scope-plain (base_scope s) host sent refl) refl in
      let made : make_absolute_url is_netloc u (plain_text base)
          ≡ ok (plain_text (bare scheme host (rstrip b'/' base.path ++ u.path))) =
        rw
          (
            make_absolute_url,
            urlsplit-plain_text base plain valid,
            schemed,
            joined,
            hostless,
            host_or,
          )
          (from_components-plain scheme host (rstrip b'/' base.path ++ u.path) empty valid whole) in
      rw (has_path, found, based, made) refl
