-- ===== src/HttpsRedirect/Location.antt =====
-- The address of the redirect.
use rustlette.Prelude.{
  is_nil, ℕ, ◌≡◌, refl, ap, ◌∙◌, sym, Bool, true, false, ◌||◌, Option, none, some, [], ◌∷◌, ◌++◌,
  append-nil, Text, codes, text_eq, all, ltb, leb, text_in, ◌==◌, starts_with, Bool-cases,
  if◌then◌else◌, arith, ◌⊎◌, inl, inr,
}
use rustlette.Prelude.Exec.{ok}
use rustlette.MultiDict.Dict
use rustlette.Headers.{get_raw}
use rustlette.Routing.Scope.{Scope}
use rustlette.Url.{begins_with_letter, is_letter, Components, urlsplit, geturl, some_text, hostname}
use rustlette.Url.Replace.{no_changes, replaced, replace-urlsplit, has_netloc_parts, is_given}
use rustlette.Url.RoundTrip.{is_plain, plain_text, geturl-is_plain, geturl-plain, urlsplit-geturl}
use rustlette.Url.Address.{address, url_of_scope-plain}
use rustlette.Url.Authority.{is_name_char, port_suffix, hostname-authority, get_port-authority}
use rustlette.HttpsRedirect.{
  redirect_scheme, is_default, or_empty, chosen, replaced_by, replaced_from, redirect_url,
  is_connection, handling, redirect, answered,
}
use rustlette.Response.{redirect_response}

-- the port that the address of the redirect shows
unfoldable pub shown_port : Option ℕ → Option ℕ
shown_port none = none
shown_port (some port) = if port == 80 || port == 443 then none else some port

-- the secure scheme in the place of "http" or "ws"
unfoldable pub secure : Text → Text
unfolding text_eq
secure scheme = if text_eq scheme (codes "http") then codes "https" else codes "wss"

or_empty-some_text : (name : Text) → or_empty (some_text name) ≡ name
unfolding or_empty some_text
or_empty-some_text [] = refl
or_empty-some_text (c ∷ name) = refl

chosen-port_suffix :
    (name : Text) (port : Option ℕ)
    → chosen port (some_text name) (name ++ port_suffix port)
      ≡ name ++ port_suffix (shown_port port)
unfolding chosen shown_port is_default port_suffix
chosen-port_suffix name none = refl
chosen-port_suffix name (some port) = elim (Bool-cases (port == 80 || port == 443)) [
  | inl usual ↦ rw (usual, or_empty-some_text name) (sym (append-nil name))
  | inr other ↦ rw other refl
]

redirect_scheme-secure :
    (scheme : Text)
    → (scheme ≡ codes "http") ⊎ (scheme ≡ codes "ws")
    → redirect_scheme scheme ≡ ok (secure scheme)
unfolding redirect_scheme secure Dict.get text_eq
redirect_scheme-secure scheme (inl e) = rw e refl
redirect_scheme-secure scheme (inr e) = rw e refl

begins-secure : (scheme : Text) → begins_with_letter (secure scheme) ≡ true
unfolding secure begins_with_letter is_letter text_eq
begins-secure scheme = elim (Bool-cases (text_eq scheme (codes "http"))) [
  | inl e ↦ rw e refl
  | inr e ↦ rw e refl
]

is_nil-append : (s t : Text) → is_nil s ≡ false → is_nil (s ++ t) ≡ false
unfolding is_nil
is_nil-append [] t h = cc
is_nil-append (c ∷ s) t h = refl

module _ (is_netloc : Text → Bool) (s : Scope) (name : Text) (port : Option ℕ)
    (sent : get_raw (codes "host") s.headers ≡ some (name ++ port_suffix port))
    (hosted : is_nil name ≡ false) (named : all is_name_char name ≡ true)
    (small : elim port [ none ↦ true | some p ↦ leb p 65535 ] ≡ true)
    (insecure : (s.scheme ≡ codes "http") ⊎ (s.scheme ≡ codes "ws"))
    (valid : is_netloc (name ++ port_suffix port) ≡ true)
    (plain : is_plain (address s (name ++ port_suffix port)) ≡ true)
    (ascii : all (λ c. ltb c 128) s.query_string ≡ true) where
  original : Components
  unfolding address port_suffix
  original = address s (name ++ port_suffix port)

  rooted : (is_nil s.path || starts_with s.path (codes "/")) ≡ true
  unfolding is_plain address
  rooted = ground (arith, plain)

  split_original : urlsplit is_netloc (plain_text original) ≡ ok original
  unfolding original
  split_original =
      ap (urlsplit is_netloc) (sym (geturl-is_plain original plain))
      ∙ urlsplit-geturl is_netloc original plain valid

  -- the text that `replace` gives for the new scheme and network location
  replaced_by_lem :
      replaced_by is_netloc (plain_text original) original (secure s.scheme) port
      ≡ ok (
          plain_text (record original {
            scheme = secure s.scheme;
            netloc = name ++ port_suffix (shown_port port);
          }))
  unfolding replaced_by original replaced has_netloc_parts is_given
  replaced_by_lem =
      let moved = record original {
        scheme = secure s.scheme;
        netloc = name ++ port_suffix (shown_port port);
      } in
      let same = hostname-authority original name port refl named in
      let netloc = ap (λ h. chosen port h original.netloc) same ∙ chosen-port_suffix name port in
      replace-urlsplit is_netloc
        (record no_changes {
          scheme = some (secure s.scheme);
          netloc = some (chosen port (hostname original) original.netloc);
        })
        (plain_text original) refl split_original
      ∙ ap (λ n. ok (geturl (record original { scheme = secure s.scheme; netloc = n }))) netloc
      ∙ ap ok (
          geturl-plain moved (begins-secure s.scheme)
            (is_nil-append name (port_suffix (shown_port port)) hosted) rooted)

  redirect_url-secure :
      redirect_url is_netloc s
      ≡ ok (
          plain_text (record (address s (name ++ port_suffix (shown_port port))) {
            scheme = secure s.scheme;
          }))
  unfolding redirect_url replaced_from address original
  redirect_url-secure =
      rw
        (
          redirect_url,
          url_of_scope-plain s (name ++ port_suffix port) sent ascii,
          split_original,
          replaced_from,
          redirect_scheme-secure s.scheme insecure,
          get_port-authority original name port refl named small,
        )
        replaced_by_lem

  -- A request or a WebSocket of an insecure scheme, whose Host header is a name in lower case, without "@",
  -- "[", ":" and "%", with a port up to 65535 or none, which `urlsplit` accepts and takes whole, is answered
  -- with a redirect of status 307 to the same path and query at the same name under the secure scheme, with
  -- the same port unless that is 80 or 443, quoted as a whole. The query is ASCII with no "#", the path is
  -- empty or begins with "/" and has no "?" or "#", and neither has a character that `urlsplit` removes.
  pub handling_secure :
      (quote : Text → Text)
      → is_connection s.kind ≡ true
      → handling is_netloc quote s
        ≡ answered is_netloc quote (
            redirect_response
              (quote (
                plain_text (record (address s (name ++ port_suffix (shown_port port))) {
                  scheme = secure s.scheme;
                })))
              307)
  unfolding handling redirect text_in text_eq
  handling_secure quote connected =
      let listed : text_in s.scheme (codes "http" ∷ codes "ws" ∷ []) ≡ true = elim insecure [
        | inl e ↦ rw e refl
        | inr e ↦ rw e refl
      ] in
      rw (handling, connected, listed, redirect_url-secure) refl
