-- ===== src/Endian.antt =====
-- Byte order of the words of a code section (include/EndianUtils.hpp), at 32-bit unsigned words.
-- Whether the host is big-endian, `isBigEndian()`, is an argument.
use Prim.Native.Nat.{bit_and}
use camll_vm.Base.{ℕ, ◌+◌, ◌*◌, ◌/◌, ◌%◌, ◌^◌, Bool, if◌then◌else◌}

-- The number of patterns of a 32-bit word.
abbrev pub u32_mod : ℕ
u32_mod = 2 ^ 32

abbrev pub u32 : ℕ → ℕ
u32 n = n % u32_mod

-- `swapEndianness<T>`, each byte taken by a mask and put back by a shift of the 32-bit type.
unfoldable pub swap_endianness : ℕ → ℕ
swap_endianness w =
    let b1 = bit_and w 255 in
    let b2 = bit_and (w / 2 ^ 8) 255 in
    let b3 = bit_and (w / 2 ^ 16) 255 in
    let b4 = bit_and (w / 2 ^ 24) 255 in
    u32 (u32 (b1 * 2 ^ 24) + u32 (b2 * 2 ^ 16) + u32 (b3 * 2 ^ 8) + b4)

unfoldable pub to_little_endian : Bool → ℕ → ℕ
to_little_endian big w = if big then w else swap_endianness w

unfoldable pub to_big_endian : Bool → ℕ → ℕ
to_big_endian big w = if big then swap_endianness w else w
