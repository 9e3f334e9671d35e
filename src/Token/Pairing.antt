-- ===== src/Token/Pairing.antt =====
-- Two dicts that are each other's inverse, as the token tables of _token.py are.
use credential_proxy.Prelude.{
  ◌≡◌, none, some, [], Text, Dict, text_eq_iff, lookup, insert, erase, move_to_end, lookup-insert,
  lookup-erase, lookup-move_to_end, arith,
}

pub record IsPaired (there back : Dict Text) : Type 0 where
  pub forth : (v t : Text) → lookup v there ≡ some t → lookup t back ≡ some v
  pub home : (t v : Text) → lookup t back ≡ some v → lookup v there ≡ some t

pub nil-IsPaired : IsPaired [] []
unfolding lookup
nil-IsPaired = record { forth = λ v t h. absurd (cc); home = λ t v h. absurd (cc) }

module _ {there back : Dict Text} (p : IsPaired there back) where
  pub move_to_end-IsPaired : (v : Text) → IsPaired (move_to_end v there) back
  move_to_end-IsPaired v = record {
    forth = λ w t h. p.forth w t (ground (arith, lookup-move_to_end v w there));
    home = λ t w h. ground (arith, lookup-move_to_end v w there, p.home t w);
  }

  pub move_both-IsPaired : (v t : Text) → IsPaired (move_to_end v there) (move_to_end t back)
  move_both-IsPaired v t = record {
    forth = λ w u h.
        ground (arith, lookup-move_to_end t u back, p.forth w u, lookup-move_to_end v w there);
    home = λ u w h.
        ground (arith, lookup-move_to_end v w there, lookup-move_to_end t u back, p.home u w);
  }

  pub erase-IsPaired :
      (v t : Text) → lookup v there ≡ some t → IsPaired (erase v there) (erase t back)
  erase-IsPaired v t e = record {
    forth = λ w u h. ground (
      arith,
      lookup-erase v w there,
      lookup-erase t u back,
      text_eq_iff w v,
      text_eq_iff u t,
      p.forth w u,
      p.forth v t,
    );
    home = λ u w h. ground (
      arith,
      lookup-erase v w there,
      lookup-erase t u back,
      text_eq_iff w v,
      text_eq_iff u t,
      p.home u w,
      p.forth v t,
    );
  }

  pub insert-IsPaired :
      (v t : Text)
      → lookup v there ≡ none
      → lookup t back ≡ none
      → IsPaired (insert v t there) (insert t v back)
  insert-IsPaired v t new_v new_t = record {
    forth = λ w u h. ground (
      arith,
      lookup-insert v w t there,
      lookup-insert t u v back,
      text_eq_iff w v,
      text_eq_iff u t,
      p.forth w u,
    );
    home = λ u w h. ground (
      arith,
      lookup-insert v w t there,
      lookup-insert t u v back,
      text_eq_iff w v,
      text_eq_iff u t,
      p.home u w,
    );
  }
