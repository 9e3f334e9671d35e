-- ===== src/Hold/Tail.antt =====
-- Where `_pii_tail_hold_run` of _llm.py cuts, by what `$` means in the expressions.
use credential_proxy.Prelude.{
  ◌≡◌, refl, ap, ◌∙◌, sym, subst, Bool, true, false, Option, none, some, [], ◌∷◌, ◌++◌, Text,
  if◌then◌else◌, if_both, truthy, last_of, length, leb, ◌==◌,
}
use mathlib.Core.List.{append_assoc}
use credential_proxy.Hold.{Forms, hold_incomplete, long_enough, pii_tail_hold_run}
use credential_proxy.Hold.Splits.{Ends, ending, Ends-Ends, Ends-nil, Ends-last_of}

abbrev pub newline : Text
newline = 10 ∷ []

-- The last character of the text is a newline.
unfoldable pub ends_newline : Text → Bool
ends_newline [] = false
ends_newline (c ∷ s) = let rest = ends_newline s in if truthy s then rest else c == 10

-- What `$` says of a run: it ends the text, or it stands in front of a newline that does.
pub data AtDollar (run : Text) : Text → Type 0 where
  at_end : (front : Text) → AtDollar run (front ++ run)
  at_newline : (front : Text) → AtDollar run (front ++ (run ++ newline))

-- The same of a token that is found, with what stands in front of it.
pub data FoundAt : Text → Option (Text × Text) → Type 0 where
  nowhere : (content : Text) → FoundAt content none
  found_end : (front token : Text) → FoundAt (front ++ token) (some (front, token))
  found_newline : (front token : Text) → FoundAt (front ++ (token ++ newline)) (some (front, token))

-- What a search finds in any text stands at `$`.
abbrev pub IsAnchored : (Text → Option Text) → Type 0
IsAnchored look = (win run : Text) → look win ≡ some run → AtDollar run win

-- The five searches for the tail of a value are anchored.
abbrev pub AreAnchored : Forms → Type 0
AreAnchored f =
    IsAnchored f.email_tail
    × IsAnchored f.ipv4_tail
    × IsAnchored f.ipv6_tail
    × IsAnchored f.apikey_tail
    × IsAnchored f.digits_tail

truthy-newline : (s : Text) → truthy (s ++ newline) ≡ true
truthy-newline [] = refl
truthy-newline (c ∷ s) = refl

pub ends_newline-append : (s : Text) → ends_newline (s ++ newline) ≡ true
unfolding ends_newline
ends_newline-append [] = refl
ends_newline-append (c ∷ s) = rw truthy-newline (ends_newline-append s)

pub ends_newline-append2 : (a b : Text) → ends_newline (a ++ (b ++ newline)) ≡ true
ends_newline-append2 a b =
    ap ends_newline (sym (append_assoc a b newline)) ∙ ends_newline-append (a ++ b)

pub Ends-newline : (s : Text) → Ends newline s → ends_newline s ≡ true
Ends-newline _ (ending front) = ends_newline-append front

Ends-behind : (a b : Text) → Ends newline (a ++ (b ++ newline))
Ends-behind a b = subst (Ends newline) (append_assoc a b newline) (ending (a ++ b))

module _ (content : Text) (no_newline : ends_newline content ≡ false) where
  Ends-AtDollar : (win run : Text) → Ends win content → AtDollar run win → Ends run content
  Ends-AtDollar _ run e (at_end front) = Ends-Ends run (front ++ run) content (ending front) e
  Ends-AtDollar _ run e (at_newline front) =
      let last : ends_newline content ≡ true =
        Ends-newline content
          (Ends-Ends newline (front ++ (run ++ newline)) content (Ends-behind front run) e) in
      absurd (cc)

  data Held : Option Text → Type 0 where
    nothing : Held none
    held : (run : Text) → Ends run content → Held (some run)

  Held-search :
      (win : Text) (o : Option Text)
      → Ends win content
      → ((run : Text) → o ≡ some run → AtDollar run win)
      → Held o
  Held-search win none e h = nothing
  Held-search win (some run) e h = held run (Ends-AtDollar win run e (h run refl))

  Held-long_enough : (o : Option Text) → Held o → Held (long_enough o)
  unfolding long_enough
  Held-long_enough none h = nothing
  Held-long_enough _ (held run e) = if_both Held (leb 2 (length run)) (held run e) nothing

  hold_incomplete-Ends :
      (complete : Text → Bool) (o : Option Text) (next : Text)
      → Held o
      → Ends next content
      → Ends (hold_incomplete complete o next) content
  unfolding hold_incomplete
  hold_incomplete-Ends complete none next h e = e
  hold_incomplete-Ends complete _ next (held run h) e =
      if_both (λ r. Ends r content) (complete run) (Ends-nil content) h

  -- The run that is held ends a text that does not end in a newline.
  pub pii_tail_hold_run-Ends :
      (f : Forms) → AreAnchored f → Ends (pii_tail_hold_run f content) content
  unfolding pii_tail_hold_run
  pii_tail_hold_run-Ends f (e, v4, v6, k, d) =
      if_both (λ r. Ends r content) (truthy content)
        (hold_incomplete-Ends _ _ _ (at_tail f.email_tail e) (
          hold_incomplete-Ends _ _ _ (Held-long_enough _ (at_tail f.ipv4_tail v4)) (
            hold_incomplete-Ends _ _ _ (at_tail f.ipv6_tail v6) (
              hold_incomplete-Ends _ _ _ (at_tail f.apikey_tail k)
                (hold_incomplete-Ends _ _ _ (at_tail f.digits_tail d) (Ends-nil content))))))
        (Ends-nil content)
    where
      at_tail : (look : Text → Option Text) → IsAnchored look → Held (look (last_of 256 content))
      at_tail look h =
          Held-search (last_of 256 content) (look (last_of 256 content)) (Ends-last_of 256 content)
            (h (last_of 256 content))
