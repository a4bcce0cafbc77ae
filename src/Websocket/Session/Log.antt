-- ===== src/Websocket/Session/Log.antt =====
-- What a list that only grows has behind a place, for the logs of cpp-source/websocket.hpp's server.
use libjaypea.Base.{
  ℕ, zero, suc, ◌≤◌, [], ◌∷◌, ◌++◌, List, length, drop, ◌≡◌, refl, ◌⊎◌, inl, inr, arith,
}

pub data Among {ℓ} {A : Type ℓ} (x : A) : List A → Type ℓ where
  here : {xs : List A} → Among x (x ∷ xs)
  there : {y : A} {xs : List A} → Among x xs → Among x (y ∷ xs)

pub Among-left {ℓ} :
    {A : Type ℓ} {x : A} {xs : List A} (ys : List A) → Among x xs → Among x (xs ++ ys)
Among-left ys here = here
Among-left ys (there m) = there (Among-left ys m)

pub Among-last {ℓ} : {A : Type ℓ} (x : A) (xs : List A) → Among x (xs ++ x ∷ [])
Among-last x [] = here
Among-last x (y ∷ xs) = there (Among-last x xs)

pub Among-snoc {ℓ} :
    {A : Type ℓ} {x : A} (xs : List A) (y : A) → Among x (xs ++ y ∷ []) → Among x xs ⊎ (x ≡ y)
Among-snoc [] y here = inr refl
Among-snoc [] y (there m) = elim m [ ]
Among-snoc (z ∷ xs) y here = inl here
Among-snoc (z ∷ xs) y (there m) = elim (Among-snoc xs y m) [ inl i ↦ inl (there i) | inr e ↦ inr e ]

pub drop-append_short {ℓ} :
    {A : Type ℓ} (n : ℕ) (xs ys : List A) → n ≤ length xs → drop n (xs ++ ys) ≡ drop n xs ++ ys
drop-append_short zero xs ys l = refl
drop-append_short (suc n) [] ys l = absurd (omega arith)
drop-append_short (suc n) (x ∷ xs) ys l = drop-append_short n xs ys (omega arith)

pub drop-length {ℓ} : {A : Type ℓ} (xs : List A) → drop (length xs) xs ≡ []
drop-length [] = refl
drop-length (x ∷ xs) = drop-length xs
