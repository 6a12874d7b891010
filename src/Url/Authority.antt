-- ===== src/Url/Authority.antt =====
-- The host and the port in a network location that is a name with a port or none.
use mathlib.Core.List.{map}
use rustlette.Prelude.{
  is_nil, lower_ascii, ℕ, ◌≡◌, refl, ap, sym, ◌∙◌, Bool, true, false, not, ◌&&◌, ◌||◌, Option, none,
  some, [], ◌∷◌, ◌++◌, append-nil, Text, codes, all, leb, ◌==◌, arith,
}
use rustlette.Prelude.Decimal.{str}
use rustlette.Prelude.Exec.{ok}
use rustlette.Prelude.Strings.Laws.{lacks, split_once-append, all-append_both}
use rustlette.Routing.Convertors.{is_digit, is_number, value_from}
use rustlette.Routing.Convertors.RoundTrip.{is_number-str, value_from-str}
use rustlette.Url.Cutting.{split_once-none, span-append, all_mono, map_lower}
use rustlette.Url.{
  Components, cut, span, rpartition, host_info, host_and_port, lower_host, some_text, hostname,
  port_from, get_port,
}

-- a character of a host name in lower case
unfoldable pub is_name_char : ℕ → Bool
is_name_char c =
    not (c == b'@' || c == b'[' || c == b':' || c == b'%' || (leb b'A' c && leb c b'Z'))

-- the text of a port behind a name
unfoldable pub port_suffix : Option ℕ → Text
unfolding str
port_suffix none = []
port_suffix (some port) = codes ":" ++ str port

rpartition-none : (c : ℕ) (s : Text) → lacks c s ≡ true → rpartition c s ≡ (none, s)
unfolding rpartition
rpartition-none c [] h = refl
rpartition-none c (a ∷ s) h =
    let other : (a == c) ≡ false = ground arith in
    rw (rpartition, rpartition-none c s (ground arith), other) refl

cut-port_suffix :
    (name : Text) (port : Option ℕ)
    → lacks b':' name ≡ true
    → cut b':' (name ++ port_suffix port) ≡ (name, elim port [ none ↦ [] | some p ↦ str p ])
unfolding cut port_suffix
cut-port_suffix name none h =
    let whole : cut b':' name ≡ (name, []) = rw (cut, split_once-none b':' name h) refl in
    ap (λ t. cut b':' t) (append-nil name) ∙ whole
cut-port_suffix name (some port) h = rw (cut, split_once-append b':' name (str port) h) refl

digits_lack : (c p : ℕ) → (leb b'0' c && leb c b'9') ≡ false → lacks c (str p) ≡ true
unfolding is_number is_digit
digits_lack c p h =
    all_mono is_digit (λ a. not (a == c)) (str p) (λ a e. ground arith)
      (ground (arith, is_number-str p))

lacks-authority :
    (c : ℕ) (name : Text) (port : Option ℕ)
    → (c == b':' || (leb b'0' c && leb c b'9')) ≡ false
    → lacks c name ≡ true
    → lacks c (name ++ port_suffix port) ≡ true
unfolding port_suffix
lacks-authority c name none e h = rw append-nil h
lacks-authority c name (some p) e h =
    all-append_both (λ a. not (a == c)) name (codes ":" ++ str p) ∙ ground (arith, digits_lack c p)

lower_host_lem :
    (name : Text)
    → all (λ a. not (a == b'%')) name ≡ true
    → all (λ a. not (leb b'A' a && leb a b'Z')) name ≡ true
    → lower_host name ≡ name
unfolding lower_host
lower_host_lem name no_zone low =
    let p : ℕ → Bool = λ a. not (a == b'%') in
    let cutting : span p name ≡ (name, []) =
      ap (span p) (sym (append-nil name)) ∙ span-append p name [] no_zone refl in
    ap (λ q. map lower_ascii q.0 ++ q.1) cutting
    ∙ append-nil (map lower_ascii name)
    ∙ map_lower name low

port_from_number :
    (s : Text) (n : ℕ)
    → is_number s ≡ true
    → value_from 0 s ≡ n
    → leb n 65535 ≡ true
    → port_from s ≡ ok (some n)
unfolding port_from is_number is_nil
port_from_number [] n numeric e small = cc
port_from_number (c ∷ s) n numeric e small = rw (port_from, numeric, e, small) refl

port_from-str :
    (port : Option ℕ)
    → elim port [ none ↦ true | some p ↦ leb p 65535 ] ≡ true
    → port_from (elim port [ none ↦ [] | some p ↦ str p ]) ≡ ok port
unfolding port_from
port_from-str none small = refl
port_from-str (some p) small = port_from_number (str p) p (is_number-str p) (value_from-str p) small

module _ (c : Components) (name : Text) (port : Option ℕ)
    (located : c.netloc ≡ name ++ port_suffix port) (named : all is_name_char name ≡ true) where
  host_and_port_lem : host_and_port c.netloc ≡ (name, elim port [ none ↦ [] | some p ↦ str p ])
  unfolding host_and_port host_info is_name_char
  host_and_port_lem =
      let no_at : lacks b'@' name ≡ true =
        all_mono is_name_char (λ a. not (a == b'@')) name (λ a e. ground arith) named in
      let no_bracket : lacks b'[' name ≡ true =
        all_mono is_name_char (λ a. not (a == b'[')) name (λ a e. ground arith) named in
      let no_colon : lacks b':' name ≡ true =
        all_mono is_name_char (λ a. not (a == b':')) name (λ a e. ground arith) named in
      let whole = name ++ port_suffix port in
      let unbracketed : host_info whole ≡ cut b':' whole =
        rw (host_info, split_once-none b'[' whole (lacks-authority b'[' name port refl no_bracket))
          refl in
      ap host_and_port located
      ∙ ap (λ q. host_info q.1)
          (rpartition-none b'@' whole (lacks-authority b'@' name port refl no_at))
      ∙ unbracketed
      ∙ cut-port_suffix name port no_colon

  -- the host, as it was written
  pub hostname-authority : hostname c ≡ some_text name
  unfolding hostname is_name_char
  hostname-authority =
      let no_zone : all (λ a. not (a == b'%')) name ≡ true =
        all_mono is_name_char (λ a. not (a == b'%')) name (λ a e. ground arith) named in
      let low : all (λ a. not (leb b'A' a && leb a b'Z')) name ≡ true =
        all_mono is_name_char (λ a. not (leb b'A' a && leb a b'Z')) name (λ a e. ground arith)
          named in
      ap (λ q. some_text (lower_host q.0)) host_and_port_lem
      ∙ ap some_text (lower_host_lem name no_zone low)

  -- the port, as it was written
  pub get_port-authority :
      elim port [ none ↦ true | some p ↦ leb p 65535 ] ≡ true → get_port c ≡ ok port
  unfolding get_port
  get_port-authority small = ap (λ q. port_from q.1) host_and_port_lem ∙ port_from-str port small
