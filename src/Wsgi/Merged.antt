-- ===== src/Wsgi/Merged.antt =====
-- What the environ holds for the headers of a request.
use rustlette.Prelude.{
  ℕ, ◌≡◌, refl, ap, ◌∙◌, sym, subst, Bool, true, false, not, ◌||◌, Option, none, some, List, [],
  ◌∷◌, ◌++◌, Text, Bytes, codes, text_eq, text_eq_iff, text_eq_instance, starts_with, join, all,
  ltb, if◌then◌else◌, arith, Bool-cases, inl, inr, append_assoc,
}
use rustlette.Prelude.Exec.{ok, err}
use rustlette.MultiDict.Dict
use rustlette.Headers.{RawHeaders}
use rustlette.Wsgi.{
  Scope, Entry, text_entry, Environ, corrected_name, upper, upper_char, underscored, merged,
  set_merged, add_headers, client_entries, environ_of, build_environ,
}

-- the names of the variables that headers have in an environ
unfoldable pub is_header_key : Text → Bool
unfolding text_eq starts_with
is_header_key key =
    text_eq key (codes "CONTENT_LENGTH")
    || text_eq key (codes "CONTENT_TYPE")
    || starts_with key (codes "HTTP_")

-- the values of the headers that a key stands for, in order
unfoldable pub values_of : Text → RawHeaders → List Text
unfolding corrected_name text_eq
values_of key [] = []
values_of key ((name, value) ∷ headers) =
    let rest = values_of key headers in
    if text_eq (corrected_name name) key then value ∷ rest else rest

-- their list with commas, and nothing for none of them
unfoldable pub joined : List Text → Option Entry
unfolding join
joined [] = none
joined (v ∷ values) = some (text_entry (join (codes ",") (v ∷ values)))

corrected_name-is_header_key : (name : Text) → is_header_key (corrected_name name) ≡ true
unfolding is_header_key corrected_name upper upper_char underscored text_eq starts_with
corrected_name-is_header_key name = elim (Bool-cases (text_eq name (codes "content-length"))) [
  | inl e ↦ rw e refl
  | inr e ↦ elim (Bool-cases (text_eq name (codes "content-type"))) [
    | inl e' ↦ rw (e, e') refl
    | inr e' ↦ rw (e, e') refl
  ]
]

-- A value that a header can be joined to.
is_joinable : Option Entry → Bool
is_joinable none = true
is_joinable (some (text_entry old)) = true
is_joinable (some _) = false

-- An environ in which whatever stands under a header's name is text.
Joinable : Environ → Type 0
unfolding is_joinable is_header_key Dict.get
Joinable environ =
    (key : Text) → is_header_key key ≡ true → is_joinable (Dict.get key environ) ≡ true

-- the entry of a key behind the headers' values
appended : Option Entry → List Text → Option Entry
unfolding merged
appended o [] = o
appended o (v ∷ values) = elim (merged o v) [ err e ↦ o | ok entry ↦ appended (some entry) values ]

merged-Joinable :
    (o : Option Entry) (value : Text)
    → is_joinable o ≡ true
    → (text : Text) × (merged o value ≡ ok (text_entry text))
unfolding merged is_joinable
merged-Joinable none value h = (value, refl)
merged-Joinable (some (text_entry old)) value h = (old ++ (codes "," ++ value), refl)
merged-Joinable (some o) value h = cc

set-Joinable :
    (name text : Text) (environ : Environ)
    → Joinable environ
    → Joinable (Dict.set name (text_entry text) environ)
unfolding Joinable is_joinable
set-Joinable name text environ h key named = elim (Bool-cases (text_eq name key)) [
  | inl same ↦ rw (Dict.get-set name key (text_entry text) environ, same) refl
  | inr other ↦ rw (Dict.get-set name key (text_entry text) environ, other) (h key named)
]

-- What a header does to the entry of a key.
append_header :
    (name value text key : Text) (environ : Environ) (headers : RawHeaders)
    → merged (Dict.get (corrected_name name) environ) value ≡ ok (text_entry text)
    → appended
        (Dict.get key (Dict.set (corrected_name name) (text_entry text) environ))
        (values_of key headers)
      ≡ appended (Dict.get key environ) (values_of key ((name, value) ∷ headers))
unfolding appended values_of
append_header name value text key environ headers joins =
    elim (Bool-cases (text_eq (corrected_name name) key)) [
      | inl same ↦
          let found =
            subst (λ k. merged (Dict.get k environ) value ≡ ok (text_entry text))
              ((text_eq_iff (corrected_name name) key).0 same) joins in
          rw
            (
              Dict.get-set (corrected_name name) key (text_entry text) environ,
              same,
              appended,
              found,
            )
            refl
      | inr other ↦
          rw (Dict.get-set (corrected_name name) key (text_entry text) environ, other) refl
    ]

-- The loop over the headers ends, and each key has its old entry with the values behind it.
get-add_headers :
    (headers : RawHeaders) (environ : Environ)
    → Joinable environ
    → (environ' : Environ) × (add_headers headers environ ≡ ok environ')
      × ((key : Text)
          → Dict.get key environ' ≡ appended (Dict.get key environ) (values_of key headers))
unfolding add_headers set_merged values_of appended Joinable
get-add_headers [] environ h = (environ, refl, λ key. refl)
get-add_headers ((name, value) ∷ headers) environ h =
    let (text, joins) =
      merged-Joinable (Dict.get (corrected_name name) environ) value
        (h (corrected_name name) (corrected_name-is_header_key name)) in
    let (environ', ends, gets) =
      get-add_headers headers (Dict.set (corrected_name name) (text_entry text) environ)
        (set-Joinable (corrected_name name) text environ h) in
    (
      environ',
      rw joins ends,
      λ key. gets key ∙ append_header name value text key environ headers joins,
    )

appended_text :
    (t : Text) (values : List Text)
    → appended (some (text_entry t)) values ≡ some (text_entry (join (codes ",") (t ∷ values)))
unfolding appended merged join
appended_text t [] = refl
appended_text t (v ∷ []) = refl
appended_text t (v ∷ w ∷ values) =
    appended_text (t ++ (codes "," ++ v)) (w ∷ values)
    ∙ ap (λ s. some (text_entry s)) (simp append_assoc)

appended-none : (values : List Text) → appended none values ≡ joined values
unfolding appended merged joined
appended-none [] = refl
appended-none (v ∷ values) = appended_text v values

-- no entry before the headers is named like one of theirs
get-others :
    (key : Text) (environ : Environ)
    → is_header_key key ≡ true
    → all (λ i. not (is_header_key i.0)) environ ≡ true
    → Dict.get key environ ≡ none
unfolding Dict.get
get-others key [] h others = refl
get-others key ((k, v) ∷ environ) h others = elim (Bool-cases (text_eq k key)) [
  | inl same ↦
      absurd
        (ground (arith, subst (λ t. is_header_key t ≡ true) (sym ((text_eq_iff k key).0 same)) h))
  | inr other ↦ rw other (get-others key environ h (ground arith))
]

client_entries-others :
    (client : Option (Text × ℕ)) → all (λ i. not (is_header_key i.0)) (client_entries client) ≡ true
unfolding is_header_key client_entries text_eq starts_with
client_entries-others none = refl
client_entries-others (some (host, port)) = refl

values_of-others :
    (key : Text) (headers : RawHeaders) → is_header_key key ≡ false → values_of key headers ≡ []
unfolding values_of
values_of-others key [] h = refl
values_of-others key ((name, value) ∷ headers) h =
    elim (Bool-cases (text_eq (corrected_name name) key)) [
      | inl same ↦
          let named =
            subst (λ k. is_header_key k ≡ true) ((text_eq_iff (corrected_name name) key).0 same)
              (corrected_name-is_header_key name) in
          absurd (ground (arith, named, h))
      | inr other ↦ rw other (values_of-others key headers h)
    ]

module _ (encode_utf8 : Text → Bytes) (s : Scope) (body : Bytes) where
  environ_of-others : all (λ i. not (is_header_key i.0)) (environ_of encode_utf8 s body) ≡ true
  unfolding environ_of is_header_key text_eq starts_with
  environ_of-others = client_entries-others s.client

  environ_of-Joinable : Joinable (environ_of encode_utf8 s body)
  unfolding Joinable is_joinable
  environ_of-Joinable key h =
      rw (get-others key (environ_of encode_utf8 s body) h environ_of-others) refl

  -- The environ of a request whose query string is ASCII is built. Under each name that a header may
  -- have there, it holds the values of all headers that have this name, in order and with commas
  -- between them, or nothing if there is none; under any other key the headers change nothing.
  pub get-build_environ :
      all (λ c. ltb c 128) s.query_string ≡ true
      → (environ : Environ) × (build_environ encode_utf8 s body ≡ ok environ)
        × ((key : Text)
            → is_header_key key ≡ true
            → Dict.get key environ ≡ joined (values_of key s.headers))
        × ((key : Text)
            → is_header_key key ≡ false
            → Dict.get key environ ≡ Dict.get key (environ_of encode_utf8 s body))
  unfolding build_environ appended
  get-build_environ ascii =
      let base = environ_of encode_utf8 s body in
      let (environ, ends, gets) = get-add_headers s.headers base environ_of-Joinable in
      (
        environ,
        rw ascii ends,
        λ key named.
            gets key
            ∙ rw (get-others key base named environ_of-others)
                (appended-none (values_of key s.headers)),
        λ key other. gets key ∙ rw (values_of-others key s.headers other) refl,
      )
