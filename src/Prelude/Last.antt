-- ===== src/Prelude/Last.antt =====
-- The last items of a list: what a bounded buffer keeps.
use Prim.Native.Nat.{ℕ, zero, suc, ◌+◌, ◌-◌, ◌≤◌}
use mathlib.Core.Path.{◌≡◌, refl, ap, ◌∙◌}
use mathlib.Core.List.{List, [], ◌∷◌, ◌++◌}
use native.Mathlib.Omega.{arith}
use credential_proxy.Prelude.Lists.{length, drop, length-append}

-- The last `n` items.
abbrev pub last_of : {A : Type 0} → ℕ → List A → List A
last_of n xs = drop (length xs - n) xs

pub drop-append :
    {A : Type 0} (k : ℕ) (xs ys : List A) → k ≤ length xs → drop k xs ++ ys ≡ drop k (xs ++ ys)
drop-append zero xs ys h = refl
drop-append (suc k) [] ys h = absurd (omega arith)
drop-append (suc k) (x ∷ xs) ys h = drop-append k xs ys (omega arith)

pub drop-drop : {A : Type 0} (k j : ℕ) (xs : List A) → drop j (drop k xs) ≡ drop (k + j) xs
drop-drop zero j xs = ap (λ n. drop n xs) (omega arith)
drop-drop (suc k) zero [] = ap (λ n. drop n []) (let e : suc k ≡ suc k + 0 = omega arith in e)
drop-drop (suc k) (suc j) [] =
    ap (λ n. drop n []) (let e : suc (k + suc j) ≡ suc k + suc j = omega arith in e)
drop-drop (suc k) j (x ∷ xs) =
    drop-drop k j xs
    ∙ ap (λ n. drop n (x ∷ xs)) (let e : suc (k + j) ≡ suc k + j = omega arith in e)

pub length-drop : {A : Type 0} (k : ℕ) (xs : List A) → length (drop k xs) ≡ length xs - k
length-drop zero xs = omega arith
length-drop (suc k) [] = omega arith
length-drop (suc k) (x ∷ xs) = omega (arith, length-drop k xs)

-- Cutting before more is added changes nothing.
pub last_of-append :
    {A : Type 0} (n : ℕ) (xs ys : List A) → last_of n (last_of n xs ++ ys) ≡ last_of n (xs ++ ys)
last_of-append n xs ys =
    ap (λ zs. drop (length zs - n) zs) (drop-append (length xs - n) xs ys (omega arith))
    ∙ drop-drop (length xs - n) (length (drop (length xs - n) (xs ++ ys)) - n) (xs ++ ys)
    ∙ ap (λ k. drop k (xs ++ ys))
        (omega (arith, length-drop (length xs - n) (xs ++ ys), length-append xs ys))
