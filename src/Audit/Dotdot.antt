-- ===== src/Audit/Dotdot.antt =====
-- `_normalize_dotdot` of _audit.py, with `posixpath.normpath`.
pub mod Words
pub mod Resolved
pub mod Removed
use credential_proxy.Prelude.{
  ℕ, zero, suc, Bool, true, false, ◌&&◌, ◌||◌, not, Option, none, some, List, [], ◌∷◌, ◌++◌, ◌==◌,
  Text, codes, any, if◌then◌else◌, text_eq, truthy, starts_with, length, take, drop,
}
use credential_proxy.PiiTokens.{has_part}
use credential_proxy.Pii.Address.{split_on}

-- The part `/../`.
abbrev pub dotdot_part : Text
dotdot_part = 47 ∷ 46 ∷ 46 ∷ 47 ∷ []

abbrev pub dotdot : Text
dotdot = 46 ∷ 46 ∷ []

abbrev pub slash : ℕ
slash = 47

-- Two slashes at the front stay two, any other number of them becomes one.
unfoldable pub initial_slashes : Text → Text
unfolding starts_with
initial_slashes path =
    if starts_with path (codes "//") && not (starts_with path (codes "///"))
    then codes "//"
    else if starts_with path (codes "/")
    then codes "/"
    else []

-- One component; `comps` is held in reverse.
unfoldable pub add_component : Bool → Text → List Text → List Text
unfolding text_eq
add_component rooted comp comps =
    if not (truthy comp) || text_eq comp (codes ".")
    then comps
    else if not (text_eq comp dotdot)
    then comp ∷ comps
    else elim comps [
      | [] ↦ if rooted then [] else comp ∷ []
      | last ∷ before ↦ if text_eq last dotdot then comp ∷ (last ∷ before) else before
    ]

unfoldable pub resolve : Bool → List Text → List Text → List Text
unfolding add_component
resolve rooted [] comps = comps
resolve rooted (comp ∷ path) comps = resolve rooted path (add_component rooted comp comps)

-- `'/'.join(reversed(comps))` in front of what is given.
unfoldable pub join_onto : List Text → Text → Text
join_onto [] s = s
join_onto (comp ∷ []) s = comp ++ s
join_onto (comp ∷ (before ∷ comps)) s = join_onto (before ∷ comps) (slash ∷ (comp ++ s))

-- `posixpath.normpath`
unfoldable pub normpath : Text → Text
unfolding initial_slashes resolve join_onto split_on
normpath path =
    let front = initial_slashes path in
    let (comp, comps) = split_on slash path in
    let joined = front ++ join_onto (resolve (truthy front) (comp ∷ comps) []) [] in
    if truthy joined then joined else codes "."

-- The quotes, the tab and the blank end a path.
abbrev pub is_mark : ℕ → Bool
is_mark c = (c == 34) || ((c == 39) || ((c == 9) || (c == 32)))

abbrev pub ahead : ℕ → Option (Text × Text) → Option (Text × Text)
ahead c none = none
ahead c (some (before, found)) = some (c ∷ before, found)

-- `s.find('/../')`: what stands in front of the first one, and what is from it on.
unfoldable pub find_dotdot : Text → Option (Text × Text)
unfolding starts_with
find_dotdot [] = none
find_dotdot (c ∷ s) =
    let rest = find_dotdot s in
    if starts_with (c ∷ s) dotdot_part then some ([], c ∷ s) else ahead c rest

abbrev pub extend : ℕ → Text × Text → Text × Text
extend c (front, stem) =
    if truthy front then (c ∷ front, stem) else if is_mark c then (c ∷ [], stem) else ([], c ∷ stem)

-- The scan to the left: up to the last mark, and behind it.
unfoldable pub scan_left : Text → Text × Text
scan_left [] = ([], [])
scan_left (c ∷ s) = extend c (scan_left s)

-- The scan to the right: up to the first mark, and from it on.
unfoldable pub scan_right : Text → Text × Text
scan_right [] = ([], [])
scan_right (c ∷ s) =
    let (word, rest) = scan_right s in if is_mark c then ([], c ∷ s) else (c ∷ word, rest)

-- The loop, on the text from `last` on: each round ends behind the path that it found.
unfoldable pub dotdot_loop : ℕ → Text → Text
unfolding find_dotdot scan_left scan_right normpath
dotdot_loop zero s = s
dotdot_loop (suc n) s = elim (find_dotdot s) [
  | none ↦ s
  | some (before, found) ↦
      let (front, stem) = scan_left before in
      let (word, rest) = scan_right (drop 4 found) in
      front ++ (normpath (stem ++ (take 4 found ++ word)) ++ dotdot_loop n rest)
]

-- `_normalize_dotdot`; the loop has at most as many rounds as the text has characters.
unfoldable pub normalize_dotdot : Text → Text
unfolding dotdot_loop has_part
normalize_dotdot s = if has_part dotdot_part s then dotdot_loop (length s) s else s
