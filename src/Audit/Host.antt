-- ===== src/Audit/Host.antt =====
-- `is_external_host` of _audit.py, from the text of a host to inside, outside or unknown.
use credential_proxy.Prelude.{
  ℕ, Bool, false, ◌&&◌, ◌||◌, not, Option, none, some, List, [], ◌∷◌, map, Text, ◌==◌, leb, codes,
  any, all, if◌then◌else◌, text_eq, truthy, starts_with, strip, length,
}
use credential_proxy.Decimal.{is_digit}
use credential_proxy.Pii.Address.{split_on, lower_char}
use mathlib.Core.List.{reverse}

-- `s.endswith(p)`
unfoldable pub ends_with : Text → Text → Bool
unfolding starts_with
ends_with s p = starts_with (reverse s) (reverse p)

abbrev pub starts_with_any : Text → List Text → Bool
starts_with_any s ps = any (starts_with s) ps

abbrev pub rfc1918_prefixes : List Text
rfc1918_prefixes = map codes (
    "10." ∷ "192.168." ∷ "172.16." ∷ "172.17." ∷ "172.18." ∷ "172.19." ∷ "172.20." ∷ "172.21."
    ∷ "172.22." ∷ "172.23." ∷ "172.24." ∷ "172.25." ∷ "172.26." ∷ "172.27." ∷ "172.28." ∷ "172.29."
    ∷ "172.30." ∷ "172.31." ∷ [])

abbrev pub loopback : List Text
loopback = map codes ("127." ∷ "::1" ∷ "0:0:0:0:0:0:0:1" ∷ [])

abbrev pub link_local : List Text
link_local = map codes ("169.254." ∷ "fe80:" ∷ "fe8" ∷ "fe9" ∷ "fea" ∷ "feb" ∷ [])

abbrev pub internal_tlds : List Text
internal_tlds = map codes (".local" ∷ ".internal" ∷ ".localhost" ∷ [])

-- One to three digits.
abbrev pub is_octet_text : Text → Bool
is_octet_text p = leb 1 (length p) && (leb (length p) 3 && all is_digit p)

-- `_IPV4_RE.match(host)`
unfoldable pub is_ipv4_text : Text → Bool
unfolding split_on
is_ipv4_text host =
    let (piece, pieces) = split_on 46 host in
    (length pieces == 3) && (is_octet_text piece && all is_octet_text pieces)

-- `s.lstrip(chars)` for a test of the characters.
unfoldable pub lstrip_of : (ℕ → Bool) → Text → Text
lstrip_of p [] = []
lstrip_of p (c ∷ s) = let rest = lstrip_of p s in if p c then rest else c ∷ s

unfoldable pub rstrip_of : (ℕ → Bool) → Text → Text
unfolding lstrip_of
rstrip_of p s = reverse (lstrip_of p (reverse s))

abbrev is_dot : ℕ → Bool
is_dot c = c == 46

abbrev is_bracket : ℕ → Bool
is_bracket c = (c == 91) || (c == 93)

-- `host.strip().lower().rstrip('.')`
unfoldable pub clean_host : Text → Text
unfolding rstrip_of strip
clean_host host = rstrip_of is_dot (map lower_char (strip host))

-- The port goes, and the brackets.
unfoldable pub bare_host : Text → Text
unfolding split_on starts_with lstrip_of rstrip_of
bare_host host =
    let (piece, pieces) = split_on 58 host in
    let portless =
      if (length pieces == 1) && not (starts_with host (codes "[")) then piece else host in
    rstrip_of is_bracket (lstrip_of is_bracket portless)

-- The tests of a bare host.
unfoldable pub is_external_bare : List Text → Text → Bool
unfolding starts_with text_eq ends_with is_ipv4_text
is_external_bare internal_suffixes host =
    if is_ipv4_text host
    then if starts_with_any host rfc1918_prefixes
      then false
      else not (starts_with_any host loopback || starts_with_any host link_local)
    else if starts_with host (codes "::") || any (λ c. c == 58) host
    then not (any (text_eq host) loopback || starts_with_any host link_local)
    else if text_eq host (codes "localhost")
    then false
    else if any (ends_with host) internal_tlds
    then false
    else not (any (ends_with host) internal_suffixes)

-- `is_external_host`
unfoldable pub is_external_host : Text → List Text → Option Bool
unfolding clean_host bare_host is_external_bare
is_external_host host internal_suffixes =
    if not (truthy host)
    then none
    else if not (truthy (clean_host host))
    then none
    else some (is_external_bare internal_suffixes (bare_host (clean_host host)))
