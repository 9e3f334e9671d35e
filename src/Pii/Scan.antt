-- ===== src/Pii/Scan.antt =====
-- `scan_spans` of _pii.py with what it calls: credential ranges, the recognisers' filters, the
-- custom rules' hits and the dictionary. What `re` finds in the text is an argument.
pub mod Fits
use credential_proxy.Prelude.{
  ℕ, zero, suc, ◌+◌, ◌-◌, Bool, true, false, ◌&&◌, ◌||◌, not, Option, none, some, List, [], ◌∷◌,
  ◌++◌, map, Text, Dict, ◌==◌, ltb, leb, codes, any, if◌then◌else◌, text_eq, starts_with, take,
  drop, length, truthy,
}
use credential_proxy.Pii.Address.{
  IpAddress, is_valid_ipv4, is_valid_ipv6, is_reserved_ip, rstrip_marks,
}
use credential_proxy.Pii.Span.{Span, Range, overlaps_any}
use credential_proxy.Pii.Custom.{Run, Strikes, is_seen, run_rules}
use credential_proxy.Pii.Checksum.{luhn_ok, id_card_ok}

-- Where `w` stands in the text whose first character has the index `i`, overlapping ones too:
-- `text.find(w, start)` with `start = idx + 1`.
unfoldable pub occurrences : Text → ℕ → Text → List Range
unfolding starts_with
occurrences w i [] = []
occurrences w i (c ∷ s) =
    let rest = occurrences w (i + 1) s in
    if starts_with (c ∷ s) w then (i, i + length w) ∷ rest else rest

-- `_credential_spans`: an empty secret is passed over.
unfoldable pub credential_spans : Text → Dict Text → List Range
unfolding occurrences
credential_spans text [] = []
credential_spans text ((value, tok) ∷ p2t) =
    let rest = credential_spans text p2t in
    if truthy value then occurrences value 0 text ++ rest else rest

-- What `re` and `ipaddress` answer for one text.
pub record Found : Type 0 where
  -- `_COARSE_FILTER_RE.search(text)`
  pub coarse : Bool
  -- the matches of `_DATA_URL_RE` and of `_PROTECTED_TOKEN_RE`
  pub protected : List Range
  -- the matches of the combined expression, with the group that matched
  pub combined : List Span
  -- the run of each custom rule
  pub custom : List Run
  -- the matches of the dictionary's alternation, without their types
  pub dict : List Span
  -- `_URL_QUERY_PARAM_RE.search`
  pub in_url_query : Text → Bool
  -- `ipaddress.ip_address`
  pub ip_address : Text → Option IpAddress

-- The value that stays of a match of an address: without the marks at its end, if that is one.
unfoldable pub address_core : (Text → Bool) → Text → Option Text
unfolding rstrip_marks
address_core is_valid value =
    let core = rstrip_marks value in
    if truthy core && is_valid core then some core else if is_valid value then some value else none

-- `_is_reserved_ip(value, kind)` of the address that stays.
unfoldable pub unless_reserved : (Text → Option IpAddress) → Text → Option Text → Option Text
unfolding is_reserved_ip
unless_reserved ip_address kind none = none
unless_reserved ip_address kind (some v) = if is_reserved_ip ip_address v kind then none else some v

-- The text around a match in which `_URL_QUERY_PARAM_RE` is searched.
abbrev pub context : Text → Span → Text
context text m = take (m.stop + 16 - (m.start - 64)) (drop (m.start - 64) text)

-- The checks of one kind: the value to report.
unfoldable pub checked_value : Found → Text → Span → Option Text
unfolding address_core text_eq is_valid_ipv4 is_valid_ipv6 unless_reserved luhn_ok id_card_ok
checked_value f text m =
    if text_eq m.kind (codes "ipv6")
    then unless_reserved f.ip_address m.kind (address_core (is_valid_ipv6 f.ip_address) m.value)
    else if text_eq m.kind (codes "ipv4")
    then unless_reserved f.ip_address m.kind (address_core (is_valid_ipv4 f.ip_address) m.value)
    else if text_eq m.kind (codes "bank_card")
    then if f.in_url_query (context text m)
      then none
      else if luhn_ok m.value
      then some m.value
      else none
    else if text_eq m.kind (codes "id_card")
    then if id_card_ok m.value then some m.value else none
    else some m.value

-- The place of the value, unless it overlaps a secret.
unfoldable pub place_value : List Range → Span → Option Text → Option Span
unfolding overlaps_any
place_value creds m none = none
place_value creds m (some v) =
    let e = m.start + length v in
    if overlaps_any m.start e creds then none else some (record m { value = v; stop = e })

-- One round of the loop over the combined expression's matches.
unfoldable pub builtin_hit : Found → Text → List Range → Span → Option Span
unfolding overlaps_any checked_value place_value
builtin_hit f text creds m =
    if overlaps_any m.start m.stop f.protected
    then none
    else place_value creds m (checked_value f text m)

abbrev pub add_hit : Option Span → List Span → List Span
add_hit none xs = xs
add_hit (some x) xs = x ∷ xs

-- The matches that stay, in their order.
unfoldable pub keep_hits : (Span → Option Span) → List Span → List Span
keep_hits hit [] = []
keep_hits hit (m ∷ ms) = add_hit (hit m) (keep_hits hit ms)

-- `isascii() and isalnum()`
abbrev pub is_ascii_alnum : ℕ → Bool
is_ascii_alnum c = (leb 48 c && leb c 57) || ((leb 65 c && leb c 90) || (leb 97 c && leb c 122))

-- `'\u4e00' <= c <= '\u9fff'`
abbrev pub is_cjk : ℕ → Bool
is_cjk c = leb 0x4e00 c && leb c 0x9fff

-- `bool(c) and p(c)` for the character at an end, if there is one.
unfoldable pub at_end : (ℕ → Bool) → Text → Bool
at_end p [] = false
at_end p (c ∷ s) = p c

-- `_dict_boundary_ok`; `is_alnum` is `str.isalnum` of one character.
unfoldable pub dict_boundary_ok : (ℕ → Bool) → Bool → Text → ℕ → ℕ → Text → Bool
unfolding at_end text_eq
dict_boundary_ok is_alnum hardening text start stop typ =
    let before = if ltb 0 start then take 1 (drop (start - 1) text) else [] in
    let after = take 1 (drop stop text) in
    let word : ℕ → Bool = λ c. is_alnum c || is_cjk c in
    if text_eq typ (codes "name") || text_eq typ (codes "person")
    then if hardening
      then not (at_end word before || at_end word after)
      else not (at_end is_ascii_alnum before || at_end word after)
    else not (at_end is_ascii_alnum before || at_end is_ascii_alnum after)

-- The type of a name: that of its first entry, else `name`.
unfoldable pub dict_type : List (Text × Text) → Text → Text
unfolding text_eq
dict_type [] name = codes "name"
dict_type ((n, t) ∷ entries) name =
    let rest = dict_type entries name in if text_eq n name then t else rest

pub record Dictionary : Type 0 where
  pub entries : List (Text × Text)
  pub hardening : Bool
  pub is_alnum : ℕ → Bool

-- `_scan_dict_spans`
unfoldable pub scan_dict_spans : Dictionary → Text → List Range → List Range → List Span → List Span
unfolding overlaps_any dict_boundary_ok dict_type
scan_dict_spans d text creds seen [] = []
scan_dict_spans d text creds seen (m ∷ ms) =
    let typ = dict_type d.entries m.value in
    let keep =
      not (is_seen m.start m.stop seen)
      && (not (overlaps_any m.start m.stop creds)
          && dict_boundary_ok d.is_alnum d.hardening text m.start m.stop typ) in
    let rest = scan_dict_spans d text creds (if keep then (m.start, m.stop) ∷ seen else seen) ms in
    if keep then record m { kind = typ } ∷ rest else rest

-- `scan_spans`, with the strikes of the custom rules after it.
unfoldable pub scan_spans : Found → Dictionary → Dict Text → Text → Strikes → List Span × Strikes
unfolding credential_spans builtin_hit keep_hits run_rules scan_dict_spans
scan_spans f d p2t [] st = ([], st)
scan_spans f d p2t (c ∷ s) st =
    let creds = credential_spans (c ∷ s) p2t in
    let builtin = if f.coarse then keep_hits (builtin_hit f (c ∷ s) creds) f.combined else [] in
    let (custom, st') = run_rules f.protected creds [] f.custom st in
    (builtin ++ (custom ++ scan_dict_spans d (c ∷ s) creds [] f.dict), st')
