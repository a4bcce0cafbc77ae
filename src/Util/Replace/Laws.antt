-- ===== src/Util/Replace/Laws.antt =====
-- When `replace_all` returns, and with what.
use libjaypea.Base.{
  ℕ, zero, suc, ◌≤◌, ◌<◌, Bytes, [], ◌∷◌, ◌++◌, append_assoc, ◌≡◌, ◌≢◌, refl, ◌∙◌, ap, Option, none,
  some, List, ◌⊎◌, length, length-append, arith, inl, inr,
}
use libjaypea.Util.Replace.{behind, find, in_front, replace_loop, replace_all}

pub behind-eq-some : (from s post : Bytes) → behind from s ≡ some post → s ≡ from ++ post
unfolding behind
behind-eq-some [] s post h = ground arith
behind-eq-some (c ∷ from) [] post h = cc
behind-eq-some (c ∷ from) (d ∷ s) post h = ground (arith, behind-eq-some from s post)

in_front-eq-some :
    (c : ℕ) (r : Option (Bytes × Bytes)) (pre post : Bytes)
    → in_front c r ≡ some (pre, post)
    → (q : Bytes) × (r ≡ some (q, post)) × (pre ≡ c ∷ q)
in_front-eq-some c none pre post h = cc
in_front-eq-some c (some (q, p)) pre post h = (q, ground arith, ground arith)

-- The cases of `find` on a text with a first byte.
find-cases :
    (from : Bytes) (c : ℕ) (s pre post : Bytes)
    → find from (c ∷ s) ≡ some (pre, post)
    → ((pre ≡ []) × (behind from (c ∷ s) ≡ some post))
      ⊎ ((q : Bytes) × (behind from (c ∷ s) ≡ none)
          × (find from s ≡ some (q, post))
          × (pre ≡ c ∷ q))
unfolding find
find-cases from c s pre post h = go (behind from (c ∷ s)) refl
  where
    go :
        (r : Option Bytes)
        → behind from (c ∷ s) ≡ r
        → ((pre ≡ []) × (behind from (c ∷ s) ≡ some post))
          ⊎ ((q : Bytes) × (behind from (c ∷ s) ≡ none)
              × (find from s ≡ some (q, post))
              × (pre ≡ c ∷ q))
    go none e =
        let (q, a, b) = in_front-eq-some c (find from s) pre post (ground arith) in inr (q, e, a, b)
    go (some p) e = inl (ground arith, ground arith)

-- `find` splits the text at an occurrence.
pub find-eq-some :
    (from s pre post : Bytes) → find from s ≡ some (pre, post) → s ≡ pre ++ (from ++ post)
find-eq-some from [] pre post h = unfold find in ground (arith, behind-eq-some from [] post)
find-eq-some from (c ∷ s) pre post h = elim (find-cases from c s pre post h) [
  | inl (e, b) ↦ rw e (behind-eq-some from (c ∷ s) post b)
  | inr (q, b, e, w) ↦ rw w (ap (◌∷◌ c) (find-eq-some from s q post e))
]

behind-append : (from s q t : Bytes) → behind from s ≡ some q → behind from (s ++ t) ≡ some (q ++ t)
unfolding behind
behind-append [] s q t h = ground arith
behind-append (c ∷ from) [] q t h = cc
behind-append (c ∷ from) (d ∷ s) q t h = ground (arith, behind-append from s q t)

find-cons :
    (k : Bytes) (c : ℕ) (q t : Bytes)
    → behind k ((c ∷ q) ++ t) ≡ none
    → find k q ≡ none
    → find k (c ∷ q) ≡ none
find-cons k c q t b n = go (behind k (c ∷ q)) refl
  where
    go : (r : Option Bytes) → behind k (c ∷ q) ≡ r → find k (c ∷ q) ≡ none
    go none e = unfold find in rw (e, find) (rw n)
    go (some p) e = cc (behind-append k (c ∷ q) p t e)

-- In front of the first occurrence there is none.
pub find-in_front :
    (from s pre post : Bytes) → from ≢ [] → find from s ≡ some (pre, post) → find from pre ≡ none
find-in_front [] s pre post ne h = absurd (ne refl)
find-in_front (x ∷ from) [] pre post ne h = unfold find behind in cc
find-in_front (x ∷ from) (c ∷ s) pre post ne h = elim (find-cases (x ∷ from) c s pre post h) [
  | inl (e, b) ↦ rw e (unfold find behind in refl)
  | inr (q, b, e, w) ↦
      let none_in : find (x ∷ from) q ≡ none = find-in_front (x ∷ from) s q post ne e in
      let whole : c ∷ s ≡ (c ∷ q) ++ ((x ∷ from) ++ post) =
        ap (◌∷◌ c) (find-eq-some (x ∷ from) s q post e) in
      rw w (find-cons (x ∷ from) c q ((x ∷ from) ++ post) (rw whole at b) none_in)
]

behind_self : (from b : Bytes) → behind from (from ++ b) ≡ some b
unfolding behind
behind_self [] b = refl
behind_self (c ∷ from) b = ground (arith, behind_self from b)

-- No occurrence begins in front of the one that `find` gives.
find-first :
    (from s pre post a b : Bytes)
    → find from s ≡ some (pre, post)
    → s ≡ a ++ (from ++ b)
    → length pre ≤ length a
find-first from [] pre post a b h e = unfold find in ground arith
find-first from (c ∷ s) pre post [] b h e = elim (find-cases from c s pre post h) [
  | inl (n, _) ↦ omega (arith, ap length n)
  | inr (q, never, f, w) ↦ cc (behind_self from b, rw e at never)
]
find-first from (c ∷ s) pre post (d ∷ a) b h e = elim (find-cases from c s pre post h) [
  | inl (n, _) ↦ omega (arith, ap length n)
  | inr (q, never, f, w) ↦ omega (arith, ap length w, find-first from s q post a b f (cc))
]

length-find :
    (from s pre post : Bytes) → from ≢ [] → find from s ≡ some (pre, post) → length post < length s
length-find [] s pre post ne h = absurd (ne refl)
length-find (x ∷ from) s pre post ne h = omega (
  arith,
  ap length (find-eq-some (x ∷ from) s pre post h),
  length-append pre ((x ∷ from) ++ post),
  length-append from post,
)

abbrev pub join : Bytes → Bytes → List Bytes → Bytes
join sep p [] = p
join sep p (q ∷ qs) = p ++ (sep ++ join sep q qs)

abbrev pub AllFree : Bytes → List Bytes → Type 0
AllFree from [] = Unit
AllFree from (p ∷ ps) = (find from p ≡ none) × AllFree from ps

-- Each piece ends where the text that begins with it has its first occurrence of `from`.
abbrev pub AreFirst : Bytes → Bytes → List Bytes → Type 0
AreFirst from p [] = Unit
AreFirst from p (q ∷ qs) =
    ((a b : Bytes) → join from p (q ∷ qs) ≡ a ++ (from ++ b) → length p ≤ length a)
    × AreFirst from q qs

-- `t` is `s` with the pieces between the occurrences of `from` joined by `to` instead.
pub record Joined (from to s t : Bytes) : Type 0 where
  pub first : Bytes
  pub others : List Bytes
  pub source : s ≡ join from first others
  pub result : t ≡ join to first others
  pub free : AllFree from (first ∷ others)
  pub leftmost : AreFirst from first others

abbrev Ends : ℕ → Bytes → Bytes → Bytes → Bytes → Type 0
Ends f from to passed rest =
    (t : Bytes) × (replace_loop f from to passed rest ≡ some (passed ++ t)) × Joined from to rest t

replace_loop-stop :
    (f : ℕ) (from to passed rest : Bytes)
    → find from rest ≡ none
    → replace_loop (suc f) from to passed rest ≡ some (passed ++ rest)
unfolding replace_loop
replace_loop-stop f from to passed rest e = ground arith

replace_loop-more :
    (f : ℕ) (from to passed rest pre post : Bytes)
    → find from rest ≡ some (pre, post)
    → replace_loop (suc f) from to passed rest ≡ replace_loop f from to (passed ++ (pre ++ to)) post
unfolding replace_loop
replace_loop-more f from to passed rest pre post e = ground arith

Joined-cons :
    (from to s pre post t : Bytes)
    → from ≢ []
    → find from s ≡ some (pre, post)
    → Joined from to post t
    → Joined from to s (pre ++ (to ++ t))
Joined-cons from to s pre post t ne e j = record {
  first = pre;
  others = j.first ∷ j.others;
  source = find-eq-some from s pre post e ∙ ap (λ (x : Bytes). pre ++ (from ++ x)) j.source;
  result = ap (λ (x : Bytes). pre ++ (to ++ x)) j.result;
  free = (find-in_front from s pre post ne e, j.free);
  leftmost = (
    λ a b h.
        find-first from s pre post a b e
          (find-eq-some from s pre post e ∙ ap (λ (x : Bytes). pre ++ (from ++ x)) j.source ∙ h),
    j.leftmost,
  );
}

Ends-step :
    (f : ℕ) (from to passed rest : Bytes)
    → from ≢ []
    → ((passed post : Bytes) → length post < length rest → Ends f from to passed post)
    → (r : Option (Bytes × Bytes)) → find from rest ≡ r
    → Ends (suc f) from to passed rest
Ends-step f from to passed rest ne rec none e = (
  rest,
  replace_loop-stop f from to passed rest e,
  record { first = rest; others = []; source = refl; result = refl; free = (e, tt); leftmost = tt },
)
Ends-step f from to passed rest ne rec (some (pre, post)) e =
    let (t, q, j) = rec (passed ++ (pre ++ to)) post (length-find from rest pre post ne e) in
    (
      pre ++ (to ++ t),
      replace_loop-more f from to passed rest pre post e ∙ q ∙ ap some (regroup passed pre to t),
      Joined-cons from to rest pre post t ne e j,
    )
  where
    regroup : (a b c d : Bytes) → (a ++ (b ++ c)) ++ d ≡ a ++ (b ++ (c ++ d))
    regroup a b c d = simp append_assoc

replace_loop-Ends :
    (f : ℕ) (from to passed rest : Bytes) → from ≢ [] → length rest < f → Ends f from to passed rest
replace_loop-Ends zero from to passed rest ne l = absurd (omega arith)
replace_loop-Ends (suc f) from to passed rest ne l =
    Ends-step f from to passed rest ne
      (λ passed' post l'. replace_loop-Ends f from to passed' post ne (omega arith))
      (find from rest) refl

-- With a text to look for and a round for each byte, `replace_all` returns: the source is cut at
-- occurrences, and the pieces are joined by `to`. Each cut is at the first occurrence in what is
-- left of the source, and no piece has one.
pub replace_all-Joined :
    (f : ℕ) (source from to : Bytes)
    → from ≢ []
    → length source < f
    → (t : Bytes) × (replace_all f source from to ≡ some t) × Joined from to source t
unfolding replace_all
replace_all-Joined f source from to ne l = replace_loop-Ends f from to [] source ne l

replace_loop-nil : (f : ℕ) (to passed rest : Bytes) → replace_loop f [] to passed rest ≡ none
unfolding replace_loop find behind
replace_loop-nil zero to passed rest = refl
replace_loop-nil (suc f) to passed [] = replace_loop-nil f to (passed ++ to) []
replace_loop-nil (suc f) to passed (c ∷ rest) = replace_loop-nil f to (passed ++ to) (c ∷ rest)

-- Looking for the empty text, `replace_all` does not return.
pub replace_all-nil : (f : ℕ) (source to : Bytes) → replace_all f source [] to ≡ none
unfolding replace_all
replace_all-nil f source to = replace_loop-nil f to [] source
