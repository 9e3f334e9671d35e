-- ===== src/Audit/Dotdot/Resolved.antt =====
-- What `posixpath.normpath` leaves of a path in _audit.py.
use credential_proxy.Prelude.{
  ℕ, ◌≡◌, refl, ap, ◌∙◌, sym, subst, true, false, ◌&&◌, ◌||◌, not, List, [], ◌∷◌, ◌++◌, Text,
  if◌then◌else◌, text_eq, truthy, All, Bool-cases, inl, inr, arith, codes, ◌==◌, if_both,
  starts_with,
}
use credential_proxy.Audit.Dotdot.{
  dotdot, slash, add_component, resolve, join_onto, initial_slashes, normpath,
}
use credential_proxy.Pii.Address.{split_on}
use mathlib.Core.List.{append-nil}

-- A component that names a place: neither empty, nor `.`, nor `..`.
abbrev pub IsPlain : Text → Type 0
IsPlain comp =
    (truthy comp ≡ true) × (text_eq comp (codes ".") ≡ false) × (text_eq comp dotdot ≡ false)

add_component-rooted :
    (comp : Text) (comps : List Text)
    → All IsPlain comps
    → All IsPlain (add_component true comp comps)
unfolding add_component
add_component-rooted comp comps a =
    elim (Bool-cases (not (truthy comp) || text_eq comp (codes "."))) [
      | inl e ↦ rw e a
      | inr e ↦ rw e (elim (Bool-cases (text_eq comp dotdot)) [
        | inl d ↦ rw d (up comps a)
        | inr d ↦ rw d ((ground arith, ground arith, d), a)
      ])
    ]
  where
    up :
        (comps : List Text)
        → All IsPlain comps
        → All IsPlain (elim comps [
          | [] ↦ if true then [] else comp ∷ []
          | last ∷ before ↦ if text_eq last dotdot then comp ∷ (last ∷ before) else before
        ])
    up [] a = tt
    up (last ∷ before) a = rw (a.0.2) a.1

resolve-rooted :
    (path comps : List Text) → All IsPlain comps → All IsPlain (resolve true path comps)
unfolding resolve
resolve-rooted [] comps a = a
resolve-rooted (comp ∷ path) comps a =
    resolve-rooted path (add_component true comp comps) (add_component-rooted comp comps a)

abbrev NoSlash : Text → Type 0
NoSlash comp = All (λ c. (c == slash) ≡ false) comp

-- `path.split('/')`
unfoldable pub pieces : Text → List Text
unfolding split_on
pieces path = let (comp, comps) = split_on slash path in comp ∷ comps

pieces-slash : (s : Text) → pieces (slash ∷ s) ≡ [] ∷ pieces s
unfolding pieces split_on
pieces-slash s = refl

pieces-char :
    (c : ℕ) (s : Text)
    → (c == slash) ≡ false
    → pieces (c ∷ s) ≡ (c ∷ (split_on slash s).0) ∷ (split_on slash s).1
unfolding pieces split_on
pieces-char c s e = rw e refl

pieces-NoSlash : (s : Text) → All NoSlash (pieces s)
unfolding pieces split_on
pieces-NoSlash [] = (tt, tt)
pieces-NoSlash (c ∷ s) = elim (Bool-cases (c == slash)) [
  | inl e ↦ rw e (tt, pieces-NoSlash s)
  | inr e ↦ rw e (let (a, b) = pieces-NoSlash s in ((e, a), b))
]

-- What holds of every component given holds of those that stay.
add_component-All :
    (P : Text → Type 0) (comp : Text) (comps : List Text)
    → P comp
    → All P comps
    → All P (add_component true comp comps)
unfolding add_component
add_component-All P comp [] h a =
    elim (Bool-cases (not (truthy comp) || text_eq comp (codes "."))) [
      | inl e ↦ rw e a
      | inr e ↦
          rw e (elim (Bool-cases (text_eq comp dotdot)) [ inl d ↦ rw d tt | inr d ↦ rw d (h, tt) ])
    ]
add_component-All P comp (last ∷ before) h a =
    elim (Bool-cases (not (truthy comp) || text_eq comp (codes "."))) [
      | inl e ↦ rw e a
      | inr e ↦ rw e (elim (Bool-cases (text_eq comp dotdot)) [
        | inl d ↦
            rw d
              (elim (Bool-cases (text_eq last dotdot)) [ inl l ↦ rw l (h, a) | inr l ↦ rw l a.1 ])
        | inr d ↦ rw d (h, a)
      ])
    ]

resolve-All :
    (P : Text → Type 0) (path comps : List Text)
    → All P path
    → All P comps
    → All P (resolve true path comps)
unfolding resolve
resolve-All P [] comps h a = a
resolve-All P (comp ∷ path) comps h a =
    resolve-All P path (add_component true comp comps) h.1 (add_component-All P comp comps h.0 a)

-- A piece that is not `..`.
abbrev pub NotUp : Text → Type 0
NotUp comp = text_eq comp dotdot ≡ false

-- What stands behind a component: nothing, or a slash and pieces that are not `..`.
data Tail : Text → Type 0 where
  ended : Tail []
  behind : (s : Text) → All NotUp (pieces s) → Tail (slash ∷ s)

pieces-nil : pieces [] ≡ [] ∷ []
unfolding pieces split_on
pieces-nil = refl

split_on-char :
    (c : ℕ) (s : Text)
    → (c == slash) ≡ false
    → split_on slash (c ∷ s) ≡ (c ∷ (split_on slash s).0, (split_on slash s).1)
unfolding split_on
split_on-char c s e = rw e refl

-- One more component in front.
split_on-append :
    (comp s : Text)
    → NoSlash comp
    → split_on slash (comp ++ s) ≡ (comp ++ (split_on slash s).0, (split_on slash s).1)
split_on-append [] s h = refl
split_on-append (c ∷ comp) s h =
    split_on-char c (comp ++ s) h.0 ∙ ap (λ r. (c ∷ r.0, r.1)) (split_on-append comp s h.1)

pieces-append :
    (comp s : Text)
    → NoSlash comp
    → pieces (comp ++ s) ≡ (comp ++ (split_on slash s).0) ∷ (split_on slash s).1
unfolding pieces
pieces-append comp s h = ap (λ r. r.0 ∷ r.1) (split_on-append comp s h)

pieces-Tail : (comp s : Text) → NoSlash comp → NotUp comp → Tail s → All NotUp (pieces (comp ++ s))
unfolding split_on pieces
pieces-Tail comp _ h k ended =
    subst (All NotUp) (sym (pieces-append comp [] h ∙ ap (λ w. w ∷ []) (append-nil comp))) (k, tt)
pieces-Tail comp _ h k (behind s a) =
    subst (All NotUp)
      (sym (pieces-append comp (slash ∷ s) h ∙ ap (λ w. w ∷ pieces s) (append-nil comp))) (k, a)

join_onto-NotUp :
    (comps : List Text) (s : Text)
    → All NoSlash comps
    → All NotUp comps
    → Tail s
    → All NotUp (pieces (join_onto comps s))
unfolding join_onto text_eq
join_onto-NotUp [] _ h k ended = rw pieces-nil (refl, tt)
join_onto-NotUp [] _ h k (behind s a) = rw (pieces-slash s) (refl, a)
join_onto-NotUp (comp ∷ []) s h k t = pieces-Tail comp s h.0 k.0 t
join_onto-NotUp (comp ∷ (before ∷ comps)) s h k t =
    join_onto-NotUp (before ∷ comps) (slash ∷ (comp ++ s)) h.1 k.1
      (behind (comp ++ s) (pieces-Tail comp s h.0 k.0 t))

-- The slashes at the front add empty pieces only.
data Front : Text → Type 0 where
  relative : Front []
  one : Front (codes "/")
  two : Front (codes "//")

initial_slashes-Front : (path : Text) → Front (initial_slashes path)
unfolding initial_slashes
initial_slashes-Front path =
    if_both Front (starts_with path (codes "//") && not (starts_with path (codes "///"))) two
      (if_both Front (starts_with path (codes "/")) one relative)

rooted-NotUp :
    (front s : Text)
    → Front front
    → truthy front ≡ true
    → All NotUp (pieces s)
    → All NotUp (pieces (if truthy (front ++ s) then front ++ s else codes "."))
unfolding text_eq
rooted-NotUp _ s relative e a = absurd (cc)
rooted-NotUp _ s one e a = rw (pieces-slash s) (refl, a)
rooted-NotUp _ s two e a = rw (pieces-slash (slash ∷ s), pieces-slash s) (refl, (refl, a))

All-IsPlain-NotUp : (comps : List Text) → All IsPlain comps → All NotUp comps
All-IsPlain-NotUp [] a = tt
All-IsPlain-NotUp (comp ∷ comps) a = (a.0.2, All-IsPlain-NotUp comps a.1)

kept-NotUp :
    (path : List Text) → All NoSlash path → All NotUp (pieces (join_onto (resolve true path []) []))
kept-NotUp path h =
    join_onto-NotUp (resolve true path []) [] (resolve-All NoSlash path [] h tt)
      (All-IsPlain-NotUp (resolve true path []) (resolve-rooted path [] tt)) ended

-- The path that `_normalize_dotdot` puts in the place of one that starts with a slash, as
-- `normpath` gives it, has no `..` among the pieces between its slashes.
pub normpath-NotUp :
    (path : Text) → truthy (initial_slashes path) ≡ true → All NotUp (pieces (normpath path))
unfolding normpath pieces
normpath-NotUp path e = rooted-NotUp (initial_slashes path) _ (initial_slashes-Front path) e (
    subst (λ b. All NotUp (pieces (join_onto (resolve b (pieces path) []) []))) (sym e)
      (kept-NotUp (pieces path) (pieces-NoSlash path)))
