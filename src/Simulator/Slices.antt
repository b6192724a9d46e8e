-- ===== src/Simulator/Slices.antt =====
-- The slices of src/rtl.cc: extract_slice, and get_slice of a number and of a binary text.
pub mod Numbers
use Prim.Native.Nat.{min, max}
use hgdb.Prelude.{
  Text, codes, ℕ, zero, suc, ◌+◌, ◌-◌, ◌*◌, ◌/◌, ◌%◌, ◌^◌, ltb, leb, ◌==◌, Bool, true, false, ◌&&◌,
  ◌||◌, if◌then◌else◌, Option, none, some, ◌>>=◌, List, [], ◌∷◌, ◌++◌, length, take, drop, is_empty,
}
use hgdb.Prelude.Int.{ℤ, to_word, of_word}
use hgdb.Util.{get_tokens}
use hgdb.Util.Numbers.{stoul}
use hgdb.Eval.Lexer.{span}

-- The loop of extract_slice, which keeps the smallest and the largest number in 32 bits.
unfoldable pub bounds_from : ℕ → ℕ → List Text → Option (ℕ × ℕ)
unfolding stoul
bounds_from hi lo [] = some (hi, lo)
bounds_from hi lo (num ∷ nums) = stoul num >>= λ n.
    bounds_from (if ltb hi n then n % 2 ^ 32 else hi) (if ltb n lo then n % 2 ^ 32 else lo) nums

unfoldable pub extract_slice : Text → Option (ℕ × ℕ)
unfolding bounds_from get_tokens
extract_slice token =
    let nums = get_tokens token (codes ":") in
    if length nums == 2 then bounds_from 0 (2 ^ 32 - 1) nums else none

-- get_slice of a number, whose mask keeps the bits up to `hi`. A shift by 64 or more is undefined
-- behaviour, also that of the mask by hi + 1, a number of 32 bits that comes back to 0.
unfoldable pub get_slice : ℤ → ℕ → ℕ → Option ℤ
unfolding to_word of_word
get_slice value hi lo =
    let width = (hi + 1) % 2 ^ 32 in
    if ltb width 64 && ltb lo 64 then some (of_word (to_word value % 2 ^ width / 2 ^ lo)) else none

-- std::stoul of base 2: the binary digits at the start, or an exception.
abbrev is_bit : ℕ → Bool
is_bit c = c == b'0' || c == b'1'

unfoldable pub bits_from : ℕ → Text → ℕ
bits_from acc [] = acc
bits_from acc (c ∷ s) = bits_from (2 * acc + (c - b'0')) s

unfoldable pub read_bits : Text → Option ℕ
unfolding span bits_from
read_bits s =
    let (bits, rest) = span is_bit s in if is_empty bits then none else some (bits_from 0 bits)

abbrev pub hex_digit : ℕ → ℕ
hex_digit v = if ltb v 10 then b'0' + v else b'A' + v - 10

-- The last loop of get_slice: four bits at a time.
unfoldable pub to_hex : Text → Option Text
unfolding read_bits
to_hex (a ∷ b ∷ c ∷ d ∷ s) =
    read_bits (a ∷ b ∷ c ∷ d ∷ []) >>= λ v. to_hex s >>= λ t. some (hex_digit v ∷ t)
to_hex _ = some []

-- The loop that puts zeros before the text until its length is a multiple of 4; `n` are missing.
abbrev zeros : ℕ → Text → Text
zeros zero s = s
zeros (suc n) s = zeros n (b'0' ∷ s)

abbrev pub pad : Text → Text
pad s = zeros ((4 - length s % 4) % 4) s

-- The cut of get_slice of a text, which holds the highest bit first: std::min of an unsigned number
-- and 0 is 0, so that the text is cut behind bit `lo` only. Positions are numbers of 32 bits.
unfoldable pub cut : Text → ℕ → ℕ → Text
cut value hi lo =
    let first = min ((length value + 2 ^ 32 - hi - 1) % 2 ^ 32) 0 in
    let last = max ((length value + 2 ^ 32 - lo - 1) % 2 ^ 32) 0 in
    take ((last + 2 ^ 32 - first + 1) % 2 ^ 32) (drop first value)

-- For an empty text `value.size() - 1` is the largest number.
unfoldable pub get_slice_str : Text → ℕ → ℕ → Option Text
unfolding cut to_hex
get_slice_str value hi lo =
    let sliced = to_hex (pad (cut value hi lo)) in
    if not_inside (length value) then some (codes "0") else sliced
  where
    not_inside : ℕ → Bool
    not_inside zero = ltb (2 ^ 64 - 1) lo
    not_inside (suc n) = ltb n lo
