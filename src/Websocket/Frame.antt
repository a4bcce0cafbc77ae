-- ===== src/Websocket/Frame.antt =====
-- `Websocket::create_frame` and `Websocket::parse_frame` of cpp-source/websocket.hpp. A buffer is
-- the list of its bytes; `none` is a read behind its end, which the source does not check.
use Prim.Native.Nat.{bit_xor}
use libjaypea.Base.{
  ℕ, ◌+◌, ◌-◌, ◌*◌, ◌/◌, ◌%◌, ◌^◌, Bytes, [], ◌∷◌, Bool, false, leb, ltb, ◌==◌, if◌then◌else◌,
  Option, none, some, drop, take, length,
}

-- `frame.str()`: the message is text of one frame. From 65536 bytes on the eight bytes of the
-- length are computed and not written.
unfoldable pub create_frame : Bytes → Bytes
create_frame payload =
    0x81
    ∷ (if leb (length payload) 125
        then length payload ∷ payload
        else if leb (length payload) 65535
        then 126 ∷ ((length payload / 2 ^ 8) % 256) ∷ (length payload % 256) ∷ payload
        else payload)

-- The payload's length, and where the bytes behind it begin. A `uint16_t` is read as the machine
-- holds it, its low byte first. In the eight-byte form a `char` is sign extended by its cast.
pub record Layout : Type 0 where
  pub payload_length : ℕ
  pub offset : ℕ

-- `static_cast<uint64_t>` of a `char`.
abbrev pub widen : ℕ → ℕ
widen c = if ltb c 128 then c else c + (2 ^ 64 - 256)

abbrev two_bytes : Bytes → Option (ℕ × ℕ)
two_bytes (a ∷ b ∷ r) = some (a, b)
two_bytes _ = none

abbrev pub sized : ℕ → ℕ → Layout
sized n o = record { payload_length = n; offset = o }

unfoldable pub layout : Bytes → Option Layout
layout (b0 ∷ b1 ∷ r) =
    if b1 % 128 == 126
    then (elim (two_bytes r) [ none ↦ none | some (lo, hi) ↦ some (sized (lo + 256 * hi) 4) ])
    else if b1 % 128 == 127
    then (elim (two_bytes r) [
      | none ↦ none
      | some (lo, hi) ↦ some (sized ((widen lo + widen hi * 256) % 2 ^ 64) 10)
    ])
    else some (sized (b1 % 128) 2)
layout _ = none

pub record Mask : Type 0 where
  pub m0 : ℕ
  pub m1 : ℕ
  pub m2 : ℕ
  pub m3 : ℕ

abbrev pub no_mask : Mask
no_mask = record { m0 = 0; m1 = 0; m2 = 0; m3 = 0 }

abbrev four_bytes : Bytes → Option Mask
four_bytes (a ∷ b ∷ c ∷ d ∷ r) = some (record { m0 = a; m1 = b; m2 = c; m3 = d })
four_bytes _ = none

-- `mask[i % 4]`.
unfoldable pub mask_byte : Mask → ℕ → ℕ
mask_byte m i =
    if i % 4 == 0 then m.m0 else if i % 4 == 1 then m.m1 else if i % 4 == 2 then m.m2 else m.m3

-- The loop from its round `i` on, over the bytes that its test admits.
unfoldable pub unmask : Mask → ℕ → Bytes → Bytes
unmask m i [] = []
unmask m i (c ∷ r) = bit_xor c (mask_byte m i) ∷ unmask m (i + 1) r

-- The bytes from `offset` on, as many as the payload has and `data_length` allows.
abbrev pub window : Bytes → ℕ → ℕ → ℕ → Bytes
window buffer data_length payload_length offset =
    take payload_length (take (data_length - offset) (drop offset buffer))

abbrev unmasked : Option Mask → Bytes → ℕ → Layout → Option Bytes
unmasked none buffer data_length l = none
unmasked (some m) buffer data_length l =
    some (unmask m 0 (window buffer data_length l.payload_length (l.offset + 4)))

abbrev is_masked : Bytes → Bool
is_masked (b0 ∷ b1 ∷ r) = leb 128 b1
is_masked _ = false

abbrev pub message : Bytes → ℕ → Option Layout → Option Bytes
message buffer data_length none = none
message buffer data_length (some l) =
    if is_masked buffer
    then unmasked (four_bytes (drop l.offset buffer)) buffer data_length l
    else some (unmask no_mask 0 (window buffer data_length l.payload_length l.offset))

-- The buffer holds what the last read put there, and older bytes behind `data_length`.
unfoldable pub parse_frame : Bytes → ℕ → Option Bytes
parse_frame buffer data_length = message buffer data_length (layout buffer)
