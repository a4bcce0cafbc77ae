-- ===== src/Websocket/Masking.antt =====
-- What `parse_frame` makes of the frames of `create_frame`, and of a client's masked frames.
use Prim.Native.Nat.{bit_xor}
use libjaypea.Base.{
  ℕ, zero, suc, ◌+◌, ◌-◌, ◌*◌, ◌/◌, ◌%◌, ◌≤◌, ◌<◌, Bytes, [], ◌∷◌, ◌++◌, Bool, true, false, ◌==◌,
  ==_iff, leb, ◌≡◌, refl, sym, ◌∙◌, ap, some, take, length, take-append, passes, pass-lt, arith,
}
use libjaypea.Websocket.Frame.{
  create_frame, parse_frame, unmask, mask_byte, Mask, no_mask, layout, sized,
}

abbrev pub AreBytes : Bytes → Type 0
AreBytes [] = Unit
AreBytes (c ∷ cs) = (c < 256) × AreBytes cs

zero_table : passes (λ c. bit_xor c 0 == c) 256 ≡ true
unfolding passes
zero_table = refl

xor_zero : (c : ℕ) → c < 256 → bit_xor c 0 ≡ c
xor_zero c h = (==_iff _ c).0 (pass-lt (λ c. bit_xor c 0 == c) 256 c h zero_table)

mask_byte-no_mask : (i : ℕ) → mask_byte no_mask i ≡ 0
unfolding mask_byte
mask_byte-no_mask i = ground arith

unmask-no_mask : (i : ℕ) (s : Bytes) → AreBytes s → unmask no_mask i s ≡ s
unfolding unmask
unmask-no_mask i [] h = refl
unmask-no_mask i (c ∷ s) (p, h) = rw (mask_byte-no_mask i, xor_zero c p, unmask-no_mask (i + 1) s h)

take-all : (n : ℕ) (s : Bytes) → n ≡ length s → take n s ≡ s
take-all zero [] e = refl
take-all zero (c ∷ s) e = absurd (omega arith)
take-all (suc n) [] e = refl
take-all (suc n) (c ∷ s) e = ap (◌∷◌ c) (take-all n s (omega arith))

AreBytes-take : (n : ℕ) (s : Bytes) → AreBytes s → AreBytes (take n s)
AreBytes-take zero s h = tt
AreBytes-take (suc n) [] h = tt
AreBytes-take (suc n) (c ∷ s) (p, h) = (p, AreBytes-take n s h)

layout-small : (b0 n : ℕ) (r : Bytes) → n ≤ 125 → layout (b0 ∷ n ∷ r) ≡ some (sized n 2)
unfolding layout
layout-small b0 n r l = ground arith

frame_small :
    (n : ℕ) (p old : Bytes)
    → n ≡ length p
    → n ≤ 125
    → AreBytes p
    → parse_frame (0x81 ∷ n ∷ (p ++ old)) (suc (suc n)) ≡ some p
unfolding parse_frame
frame_small n p old e l h =
    let m : leb 128 n ≡ false = ground arith in
    let w : suc (suc n) - 2 ≡ n = omega arith in
    rw (layout-small 0x81 n (p ++ old) l, m, w, take-append n p old e)
      (ap some (ap (unmask no_mask 0) (take-all n p e) ∙ unmask-no_mask 0 p h))

create_frame-small : (p : Bytes) → length p ≤ 125 → create_frame p ≡ 0x81 ∷ length p ∷ p
unfolding create_frame
create_frame-small p l = ground arith

-- A frame of up to 125 bytes is read back, whatever older bytes the buffer holds behind it.
pub parse_frame-create_frame :
    (p old : Bytes)
    → AreBytes p
    → length p ≤ 125
    → parse_frame (create_frame p ++ old) (length (create_frame p)) ≡ some p
parse_frame-create_frame p old h l =
    rw (create_frame-small p l) (frame_small (length p) p old refl l h)

layout-medium :
    (b0 lo hi : ℕ) (r : Bytes) → layout (b0 ∷ 126 ∷ lo ∷ hi ∷ r) ≡ some (sized (lo + 256 * hi) 4)
unfolding layout
layout-medium b0 lo hi r = refl

frame_medium :
    (lo hi n : ℕ) (p old : Bytes)
    → n ≡ length p
    → AreBytes p
    → parse_frame (0x81 ∷ 126 ∷ lo ∷ hi ∷ (p ++ old)) (4 + n) ≡ some (take (lo + 256 * hi) p)
unfolding parse_frame
frame_medium lo hi n p old e h =
    let w : 4 + n - 4 ≡ n = omega arith in
    rw (layout-medium 0x81 lo hi (p ++ old), w, take-append n p old e)
      (ap some (unmask-no_mask 0 (take (lo + 256 * hi) p) (AreBytes-take (lo + 256 * hi) p h)))

create_frame-medium :
    (p : Bytes)
    → 126 ≤ length p
    → length p ≤ 65535
    → create_frame p ≡ 0x81 ∷ 126 ∷ (length p / 256) ∷ (length p % 256) ∷ p
unfolding create_frame
create_frame-medium p l u =
    let q : length p / 256 % 256 ≡ length p / 256 = omega arith in ground arith

-- From 126 to 65535 bytes the two bytes of the length are written high byte first and read low
-- byte first: of the message as many bytes are read back as the swapped number says.
pub parse_frame-create_frame_swapped :
    (p old : Bytes)
    → AreBytes p
    → 126 ≤ length p
    → length p ≤ 65535
    → parse_frame (create_frame p ++ old) (length (create_frame p))
      ≡ some (take (length p / 256 + 256 * (length p % 256)) p)
parse_frame-create_frame_swapped p old h l u = rw (create_frame-medium p l u) (
    ap (parse_frame (0x81 ∷ 126 ∷ (length p / 256) ∷ (length p % 256) ∷ (p ++ old))) (omega arith)
    ∙ frame_medium (length p / 256) (length p % 256) (length p) p old refl h)

-- RFC 6455: a client's frame of up to 125 bytes.
abbrev pub client_frame : Mask → Bytes → Bytes
client_frame m p = 0x81 ∷ (128 + length p) ∷ m.m0 ∷ m.m1 ∷ m.m2 ∷ m.m3 ∷ unmask m 0 p

pub record IsMask (m : Mask) : Type 0 where
  pub b0 : m.m0 < 256
  pub b1 : m.m1 < 256
  pub b2 : m.m2 < 256
  pub b3 : m.m3 < 256

abbrev twice : ℕ → ℕ → Bool
twice a b = bit_xor (bit_xor a b) b == a

xor_table : passes (λ a. passes (twice a) 256) 256 ≡ true
unfolding passes
xor_table = refl

xor_twice : (a b : ℕ) → a < 256 → b < 256 → bit_xor (bit_xor a b) b ≡ a
xor_twice a b h k =
    (==_iff _ a).0
      (pass-lt (twice a) 256 b k (pass-lt (λ a. passes (twice a) 256) 256 a h xor_table))

mask_byte-lt : (m : Mask) (i : ℕ) → IsMask m → mask_byte m i < 256
unfolding mask_byte
mask_byte-lt m i h = ground arith

unmask-unmask :
    (m : Mask) (i : ℕ) (s : Bytes) → IsMask m → AreBytes s → unmask m i (unmask m i s) ≡ s
unfolding unmask
unmask-unmask m i [] k h = refl
unmask-unmask m i (c ∷ s) k (p, h) =
    rw (xor_twice c (mask_byte m i) p (mask_byte-lt m i k), unmask-unmask m (i + 1) s k h)

length-unmask : (m : Mask) (i : ℕ) (s : Bytes) → length (unmask m i s) ≡ length s
unfolding unmask
length-unmask m i [] = refl
length-unmask m i (c ∷ s) = omega (arith, length-unmask m (i + 1) s)

layout-client : (b0 n : ℕ) (r : Bytes) → n ≤ 125 → layout (b0 ∷ (128 + n) ∷ r) ≡ some (sized n 2)
unfolding layout
layout-client b0 n r l = let e : (128 + n) % 128 ≡ n = omega arith in rw e (ground arith)

-- A client's masked frame of up to 125 bytes is read as its message.
pub parse_frame-client_frame :
    (m : Mask) (p old : Bytes)
    → IsMask m
    → AreBytes p
    → length p ≤ 125
    → parse_frame (client_frame m p ++ old) (length (client_frame m p)) ≡ some p
unfolding parse_frame
parse_frame-client_frame m p old k h l =
    let q = unmask m 0 p in
    let n = length p in
    let masked : leb 128 (128 + n) ≡ true = ground arith in
    let w : suc (suc (suc (suc (suc (suc (length q)))))) - 6 ≡ n =
      omega (arith, length-unmask m 0 p) in
    let e : n ≡ length q = sym (length-unmask m 0 p) in
    rw (layout-client 0x81 n (m.m0 ∷ m.m1 ∷ m.m2 ∷ m.m3 ∷ (q ++ old)) l, masked)
      (rw (w, take-append n q old e)
        (ap some (ap (unmask m 0) (take-all n q e) ∙ unmask-unmask m 0 p k h)))
