-- ===== src/Url/Replace.antt =====
-- rustlette/datastructures.py: `URL.replace` and `URL.__init__` from components.
use rustlette.Prelude.{
  ◌≡◌, refl, Bool, true, false, ◌||◌, Option, none, some, [], ◌∷◌, ◌++◌, Text, ℕ, codes, ends_with,
  if◌then◌else◌,
}
use rustlette.Prelude.Decimal.{str}
use rustlette.Prelude.Exec.{Result, ok, err}
use rustlette.Url.{
  Components, UrlError, index_error, urlsplit, geturl, rpartition, username, password, get_port,
}

-- The keyword arguments of `replace`; the outer `Option` says whether one is there.
pub record Changes : Type 0 where
  pub scheme : Option Text
  pub netloc : Option Text
  pub path : Option Text
  pub query : Option Text
  pub fragment : Option Text
  pub username : Option (Option Text)
  pub password : Option (Option Text)
  pub hostname : Option (Option Text)
  pub port : Option (Option ℕ)

abbrev pub no_changes : Changes
no_changes = record {
  scheme = none;
  netloc = none;
  path = none;
  query = none;
  fragment = none;
  username = none;
  password = none;
  hostname = none;
  port = none;
}

unfoldable pub is_given {ℓ} : {A : Type ℓ} → Option A → Bool
is_given none = false
is_given (some a) = true

-- `kwargs.pop(key, default)`
given_or {ℓ} : {A : Type ℓ} → Option A → A → A
given_or none default = default
given_or (some a) default = a

abbrev pub and_then :
    {A B : Type 0} → Result UrlError A → (A → Result UrlError B) → Result UrlError B
and_then (ok a) f = f a
and_then (err e) f = err e

-- `hostname.rsplit(":", 1)[0]` unless the text ends in a bracket; an empty text has no last character
without_port : Text → Result UrlError Text
unfolding ends_with rpartition
without_port [] = err index_error
without_port (c ∷ s) =
    if ends_with (c ∷ s) (codes "]")
    then ok (c ∷ s)
    else ok (given_or (rpartition b':' (c ∷ s)).0 (c ∷ s))

-- the host that is given, or that of the URL
host_for : Option Text → Components → Result UrlError Text
unfolding without_port rpartition
host_for none c = without_port (rpartition b'@' c.netloc).1
host_for (some host) c = ok host

add_port : Option ℕ → Text → Text
unfolding str
add_port none host = host
add_port (some port) host = host ++ (codes ":" ++ str port)

add_user : (username password : Option Text) → Text → Text
add_user none password netloc = netloc
add_user (some user) none netloc = user ++ (codes "@" ++ netloc)
add_user (some user) (some word) netloc = user ++ (codes ":" ++ (word ++ (codes "@" ++ netloc)))

-- the network location that replaces the one of `c`; its port is read even if another one is given
new_netloc : Changes → Components → Result UrlError Text
unfolding given_or host_for add_port add_user username password get_port
new_netloc k c = and_then (get_port c) (λ own_port.
    and_then (host_for (given_or k.hostname none) c) (λ host. ok (
      add_user (given_or k.username (username c)) (given_or k.password (password c))
        (add_port (given_or k.port own_port) host))))

unfoldable pub has_netloc_parts : Changes → Bool
unfolding is_given
has_netloc_parts k =
    is_given k.username || is_given k.password || is_given k.hostname || is_given k.port

-- `kwargs["netloc"] = netloc`
with_parts : Changes → Components → Result UrlError Changes
unfolding has_netloc_parts new_netloc
with_parts k c =
    if has_netloc_parts k
    then and_then (new_netloc k c) (λ netloc. ok (record k { netloc = some netloc }))
    else ok k

-- `components._replace(**kwargs)`
unfoldable pub replaced : Changes → Components → Components
unfolding given_or
replaced k c = record {
  scheme = given_or k.scheme c.scheme;
  netloc = given_or k.netloc c.netloc;
  path = given_or k.path c.path;
  query = given_or k.query c.query;
  fragment = given_or k.fragment c.fragment;
}

module _ (is_netloc : Text → Bool) where
  -- `replace(**kwargs)` on the text of a URL
  unfoldable pub replace : Changes → Text → Result UrlError Text
  unfolding urlsplit with_parts replaced geturl
  replace k url =
      and_then (urlsplit is_netloc url)
        (λ c. and_then (with_parts k c) (λ k'. ok (geturl (replaced k' c))))

  -- `URL(**components)`
  unfoldable pub from_components : Changes → Result UrlError Text
  unfolding replace urlsplit geturl
  from_components k =
      and_then (replace k []) (λ url. and_then (urlsplit is_netloc url) (λ c. ok (geturl c)))

-- Where no part of the network location is given, the components are put together as they are.
pub replace-urlsplit :
    (is_netloc : Text → Bool) (k : Changes) (url : Text) {c : Components}
    → has_netloc_parts k ≡ false
    → urlsplit is_netloc url ≡ ok c
    → replace is_netloc k url ≡ ok (geturl (replaced k c))
unfolding replace with_parts
replace-urlsplit is_netloc k url whole e = rw (replace, e, with_parts, whole) refl
