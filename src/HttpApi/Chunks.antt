-- ===== src/HttpApi/Chunks.antt =====
-- `HttpApi::respond_cached_file` of cpp-source/http-api.cpp.
use libjaypea.Base.{
  ℕ, zero, suc, ◌+◌, ◌-◌, ◌*◌, ◌%◌, ◌<◌, ◌≤◌, Bytes, [], ◌∷◌, ◌++◌, List, Bool, true, false,
  Bool-cases, ltb, ltb_iff, append-nil, if◌then◌else◌, ◌≡◌, refl, sym, ap, ◌∙◌, inl, inr, Option,
  none, some, length, take, drop, arith,
}

-- BUFFER_LIMIT.
abbrev pub buffer_limit : ℕ
buffer_limit = 8192

abbrev pub prepend : Bytes → Option (List Bytes × Bool) → Option (List Bytes × Bool)
prepend chunk none = none
prepend chunk (some (chunks, ok)) = some (chunk ∷ chunks, ok)

-- The loop's rounds from `offset` on: the texts that were sent, and whether all were. `fails` says
-- at which offset a send fails. `none` means that the fuel ran out.
unfoldable pub send_loop : ℕ → (ℕ → Bool) → Bytes → ℕ → Option (List Bytes × Bool)
send_loop zero fails contents offset = none
send_loop (suc f) fails contents offset =
    let next =
      prepend (take buffer_limit (drop offset contents))
        (send_loop f fails contents (offset + buffer_limit)) in
    if fails offset
    then some ([], false)
    else if ltb (length contents) (offset + buffer_limit)
    then some (take (length contents % buffer_limit) (drop offset contents) ∷ [], true)
    else next

abbrev pub concat : List Bytes → Bytes
concat [] = []
concat (chunk ∷ chunks) = chunk ++ concat chunks

abbrev pub AllWithin : List Bytes → Type 0
AllWithin [] = Unit
AllWithin (chunk ∷ chunks) = (length chunk ≤ buffer_limit) × AllWithin chunks

length-drop : (n : ℕ) (s : Bytes) → length (drop n s) ≡ length s - n
length-drop zero s = omega arith
length-drop (suc n) [] = omega arith
length-drop (suc n) (c ∷ s) = omega (arith, length-drop n s)

take-all : (n : ℕ) (s : Bytes) → n ≡ length s → take n s ≡ s
take-all zero [] e = refl
take-all zero (c ∷ s) e = absurd (omega arith)
take-all (suc n) [] e = refl
take-all (suc n) (c ∷ s) e = ap (λ (t : Bytes). c ∷ t) (take-all n s (omega arith))

length-take : (n : ℕ) (s : Bytes) → length (take n s) ≤ n
length-take zero s = omega arith
length-take (suc n) [] = omega arith
length-take (suc n) (c ∷ s) = omega (arith, length-take n s)

take-append-drop : (n : ℕ) (s : Bytes) → take n s ++ drop n s ≡ s
take-append-drop zero s = refl
take-append-drop (suc n) [] = refl
take-append-drop (suc n) (c ∷ s) = ap (λ (t : Bytes). c ∷ t) (take-append-drop n s)

drop_index : (m n : ℕ) (s : Bytes) → m ≡ n → drop m s ≡ drop n s
drop_index m n s e = ap (λ (i : ℕ). drop i s) e

drop-nil : (n : ℕ) → drop {A = ℕ} n [] ≡ []
drop-nil zero = refl
drop-nil (suc n) = refl

drop-drop : (n offset : ℕ) (s : Bytes) → drop n (drop offset s) ≡ drop (offset + n) s
drop-drop n zero s = drop_index n (0 + n) s (omega arith)
drop-drop n (suc offset) [] = drop-nil n ∙ sym (drop-nil (suc offset + n))
drop-drop n (suc offset) (c ∷ s) =
    drop-drop n offset s ∙ drop_index (suc (offset + n)) (suc offset + n) (c ∷ s) (omega arith)

take-drop :
    (n offset : ℕ) (s : Bytes) → take n (drop offset s) ++ drop (offset + n) s ≡ drop offset s
take-drop n offset s =
    ap (λ (t : Bytes). take n (drop offset s) ++ t) (sym (drop-drop n offset s))
    ∙ take-append-drop n (drop offset s)

-- The texts that are sent from `offset` on, when no send fails.
abbrev pub Sends : ℕ → (ℕ → Bool) → Bytes → ℕ → Type 0
Sends f fails contents offset =
    (chunks : List Bytes) × (send_loop f fails contents offset ≡ some (chunks, true))
    × (concat chunks ≡ drop offset contents)
    × AllWithin chunks

last-Sends :
    (f : ℕ) (fails : ℕ → Bool) (contents : Bytes) (k : ℕ)
    → ((offset : ℕ) → fails offset ≡ false)
    → buffer_limit * k ≤ length contents
    → length contents < buffer_limit * k + buffer_limit
    → Sends (suc f) fails contents (buffer_limit * k)
unfolding send_loop
last-Sends f fails contents k fine inside short =
    let rest = drop (buffer_limit * k) contents in
    let n = length contents % buffer_limit in
    let whole : n ≡ length rest = omega (arith, length-drop (buffer_limit * k) contents) in
    let chunk = take n rest in
    (
      chunk ∷ [],
      rw
          (
            fine (buffer_limit * k),
            (ltb_iff (length contents) (buffer_limit * k + buffer_limit)).1 short,
          )
          refl,
      append-nil chunk ∙ take-all n rest whole,
      (omega (arith, length-take n rest), tt),
    )

more-Sends :
    (f : ℕ) (fails : ℕ → Bool) (contents : Bytes) (k : ℕ)
    → ((offset : ℕ) → fails offset ≡ false)
    → ltb (length contents) (buffer_limit * k + buffer_limit) ≡ false
    → Sends f fails contents (buffer_limit * (k + 1))
    → Sends (suc f) fails contents (buffer_limit * k)
unfolding send_loop
more-Sends f fails contents k fine long (chunks, runs, whole, within) =
    let at : buffer_limit * k + buffer_limit ≡ buffer_limit * (k + 1) = omega arith in
    let chunk = take buffer_limit (drop (buffer_limit * k) contents) in
    (
      chunk ∷ chunks,
      rw (fine (buffer_limit * k), long)
          (ap (prepend chunk) (ap (send_loop f fails contents) at ∙ runs)),
      ap (λ (t : Bytes). chunk ++ t)
            (whole
              ∙ drop_index (buffer_limit * (k + 1)) (buffer_limit * k + buffer_limit) contents
                  (sym at))
          ∙ take-drop buffer_limit (buffer_limit * k) contents,
      (length-take buffer_limit (drop (buffer_limit * k) contents), within),
    )

send_loop-Sends :
    (f : ℕ) (fails : ℕ → Bool) (contents : Bytes) (k : ℕ)
    → ((offset : ℕ) → fails offset ≡ false)
    → buffer_limit * k ≤ length contents
    → length contents < f + buffer_limit * k
    → Sends f fails contents (buffer_limit * k)
send_loop-Sends zero fails contents k fine inside fuel = absurd (omega arith)
send_loop-Sends (suc f) fails contents k fine inside fuel =
    elim (Bool-cases (ltb (length contents) (buffer_limit * k + buffer_limit))) [
      | inl short ↦
          last-Sends f fails contents k fine inside
            ((ltb_iff (length contents) (buffer_limit * k + buffer_limit)).0 short)
      | inr long ↦
          more-Sends f fails contents k fine long
            (send_loop-Sends f fails contents (k + 1) fine (ground arith) (ground arith))
    ]

-- When no send fails, with fuel for each byte the loop ends with every text sent: they are at most
-- 8192 bytes each and together the file's contents.
pub send_loop_lem :
    (f : ℕ) (fails : ℕ → Bool) (contents : Bytes)
    → ((offset : ℕ) → fails offset ≡ false)
    → length contents < f
    → Sends f fails contents 0
send_loop_lem f fails contents fine fuel =
    send_loop-Sends f fails contents 0 fine (omega arith) (omega arith)
