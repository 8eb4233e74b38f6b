-- ===== src/Print.antt =====
-- src/snprintf.c: formatted printing into a buffer. Bytes are their codes, a string is the list of
-- its bytes before the 0, and the buffer is the list of the bytes written so far with the room that
-- is left before `ebuf`. `none` is what C leaves undefined: a store below the local buffer,
-- `__builtin_unreachable`, the negation of the least signed number, or an argument of another type than its directive.
pub mod Bounds
pub mod Digits
pub mod Ends
pub mod Fuel
pub mod FullText
pub mod Hex
pub mod Parts
pub mod Pieces
pub mod Render
use separation_kernel.Prelude.{
  ℕ, zero, suc, ◌+◌, ◌-◌, ◌*◌, ◌/◌, ◌%◌, ◌^◌, Bool, true, false, not, ◌&&◌, Option, none, some,
  List, [], ◌∷◌, ◌++◌, ltb, leb, ◌==◌, if◌then◌else◌,
}

-- An argument: a word, or a string.
pub data Arg : Type 0 where
  word : ℕ → Arg
  text : List ℕ → Arg

pub record Buffer : Type 0 where
  pub written : List ℕ
  pub room : ℕ

abbrev pub char_zero : ℕ
char_zero = 48

abbrev pub char_nine : ℕ
char_nine = 57

abbrev pub char_a : ℕ
char_a = 97

abbrev pub percent : ℕ
percent = 37

abbrev pub space : ℕ
space = 32

abbrev pub minus : ℕ
minus = 45

-- `*buf++ = c`.
unfoldable pub put_char : Buffer → ℕ → Option Buffer
put_char b c = elim (b.room) [
  | zero ↦ none
  | suc room ↦ some (record { written = b.written ++ c ∷ []; room = room })
]

unfoldable pub output_str : Buffer → (s : List ℕ) → Buffer
output_str b [] = b
output_str b (c ∷ s) = elim (b.room) [
  | zero ↦ b
  | suc room ↦ output_str (record { written = b.written ++ c ∷ []; room = room }) s
]

-- The byte that `i % base` is printed as.
abbrev pub digit : ℕ → ℕ
digit j = if leb 10 j then char_a + j - 10 else char_zero + j

-- The local buffer from `c` on, with the bytes that are free before it, and `padd_width`, where
-- below 0 is as 0.
pub record Local : Type 0 where
  pub free : ℕ
  pub bytes : List ℕ
  pub width : ℕ

-- The loop over the digits. Each round takes a byte of the local buffer.
unfoldable pub digits : (free : ℕ) → (base i : ℕ) → (bytes : List ℕ) (width : ℕ) → Option Local
digits zero base i bytes width = none
digits (suc free) base i bytes width =
    let more = digits free base (i / base) (digit (i % base) ∷ bytes) (width - 1) in
    if i / base == 0
    then some (record { free = free; bytes = digit (i % base) ∷ bytes; width = width - 1 })
    else more

-- The loop over the padding: `left` is `padd_width`.
unfoldable pub pad : (padding left free : ℕ) → List ℕ → Option (ℕ × List ℕ)
pad padding zero free bytes = some (free, bytes)
pad padding (suc left) zero bytes = none
pad padding (suc left) (suc free) bytes = pad padding left free (padding ∷ bytes)

abbrev pub sign : Bool → (ℕ × List ℕ) → Option (List ℕ)
sign false (free, bytes) = some bytes
sign true (zero, bytes) = none
sign true (suc free, bytes) = some (minus ∷ bytes)

-- `output64` and `output32` up to their last line, for words of `2 ^ bits` and a local buffer of
-- `size` bytes before its final 0. C does not define `-n` for the least of the signed numbers.
unfoldable pub number :
    (bits size : ℕ) → (n : ℕ) (sig : Bool) (base padding padd_width : ℕ) → Option (List ℕ)
unfolding digits pad
number bits size n sig base padding padd_width =
    let neg = leb (2 ^ (bits - 1)) n && sig in
    let i = if neg then 2 ^ bits - n else n in
    let width = if neg then padd_width - 1 else padd_width in
    let bytes : Option (List ℕ) = elim (digits size base i [] width) [
      | none ↦ none
      | some l ↦ elim (pad padding l.width l.free l.bytes) [
        | none ↦ none
        | some padded ↦ sign neg padded
      ]
    ] in
    if neg && (n == 2 ^ (bits - 1)) then none else bytes

unfoldable pub output64 :
    Buffer → (n : ℕ) (sig : Bool) (base padding padd_width : ℕ) → Option Buffer
unfolding number output_str
output64 b n sig base padding padd_width = elim (number 64 31 n sig base padding padd_width) [
  | none ↦ none
  | some bytes ↦ some (output_str b bytes)
]

unfoldable pub output32 :
    Buffer → (n : ℕ) (sig : Bool) (base padding padd_width : ℕ) → Option Buffer
unfolding number output_str
output32 b n sig base padding padd_width = elim (number 32 15 n sig base padding padd_width) [
  | none ↦ none
  | some bytes ↦ some (output_str b bytes)
]

-- The words that the directives take: of 64 bits, the low 32, and the low 8.
abbrev pub word64 : (sig : Bool) (base padding padd_width : ℕ) → Buffer → ℕ → Option Buffer
word64 sig base padding padd_width b n = output64 b n sig base padding padd_width

abbrev pub word32 : (sig : Bool) (base padding padd_width : ℕ) → Buffer → ℕ → Option Buffer
word32 sig base padding padd_width b n = output32 b (n % 2 ^ 32) sig base padding padd_width

abbrev pub word8 : Buffer → ℕ → Option Buffer
word8 b n = put_char b (n % 2 ^ 8)

-- `va_arg` for a word and for a string.
unfoldable pub next_word :
    (Buffer → ℕ → Option Buffer) → Buffer → List Arg → Option (Buffer × List Arg)
next_word print b [] = none
next_word print b (text s ∷ args) = none
next_word print b (word n ∷ args) = elim (print b n) [ none ↦ none | some b' ↦ some (b', args) ]

unfoldable pub next_text : Buffer → List Arg → Option (Buffer × List Arg)
unfolding output_str
next_text b [] = none
next_text b (word n ∷ args) = none
next_text b (text s ∷ args) = some (output_str b s, args)

-- The directive after `%l`.
unfoldable pub convert_long :
    (c padding padd_width : ℕ) → Buffer → List Arg → Option (Buffer × List Arg)
unfolding next_word output64
convert_long c padding padd_width b args =
    if c == 100
    then next_word (word64 true 10 padding padd_width) b args
    else if c == 117
    then next_word (word64 false 10 padding padd_width) b args
    else if c == 120
    then next_word (word64 false 16 padding padd_width) b args
    else none

-- The directive `c`, with the rest of the format behind it: `d`, `u`, `x`, `s`, `c`, `%` or `l`.
unfoldable pub convert :
    (c padding padd_width : ℕ)
    → (rest : List ℕ) → Buffer
    → List Arg
    → Option ((Buffer × List Arg) × List ℕ)
unfolding next_word next_text convert_long output32 put_char
convert c padding padd_width rest b args =
    let then_rest : Option (Buffer × List Arg) → Option ((Buffer × List Arg) × List ℕ) =
      λ o. elim o [ none ↦ none | some r ↦ some (r, rest) ] in
    if c == 100
    then then_rest (next_word (word32 true 10 padding padd_width) b args)
    else if c == 117
    then then_rest (next_word (word32 false 10 padding padd_width) b args)
    else if c == 120
    then then_rest (next_word (word32 false 1 padding padd_width) b args)
    else if c == 115
    then then_rest (next_text b args)
    else if c == 99
    then then_rest (next_word word8 b args)
    else if c == percent
    then elim (put_char b percent) [ none ↦ none | some b' ↦ some ((b', args), rest) ]
    else if c == 108
    then elim rest [
      | [] ↦ none
      | d ∷ rest' ↦ elim (convert_long d padding padd_width b args) [
        | none ↦ none
        | some r ↦ some (r, rest')
      ]
    ]
    else none

-- The digits of `padd_width`, and what follows them.
unfoldable pub read_width : (padd_width : ℕ) → List ℕ → ℕ × List ℕ
read_width padd_width [] = (padd_width, [])
read_width padd_width (c ∷ f) =
    let rest = read_width (padd_width * 10 + (c - char_zero)) f in
    if leb char_zero c && leb c char_nine then rest else (padd_width, c ∷ f)

-- What stands behind `%`.
unfoldable pub directive : List ℕ → Buffer → List Arg → Option ((Buffer × List Arg) × List ℕ)
unfolding convert read_width
directive [] b args = none
directive (c ∷ f) b args =
    let padding = if c == char_zero then char_zero else space in
    let (padd_width, f') = read_width 0 (if c == char_zero then f else c ∷ f) in
    elim f' [ [] ↦ none | d ∷ rest ↦ convert d padding padd_width rest b args ]

-- The loop of `vsnprintf`. A round takes a byte of the format or more.
unfoldable pub format_from : (fuel : ℕ) → (format : List ℕ) → Buffer → List Arg → Option Buffer
unfolding directive put_char
format_from zero format b args = none
format_from (suc fuel) [] b args = some b
format_from (suc fuel) (c ∷ f) b args =
    let plain : Option Buffer = elim (put_char b c) [
      | none ↦ none
      | some b' ↦ format_from fuel f b' args
    ] in
    let special : Option Buffer = elim (directive f b args) [
      | none ↦ none
      | some ((b', args'), f') ↦ format_from fuel f' b' args'
    ] in
    if b.room == 0 then some b else if not (c == percent) then plain else special

abbrev pub length : List ℕ → ℕ
length [] = 0
length (x ∷ xs) = suc (length xs)

-- The bytes before the final 0, and the result.
unfoldable pub vsnprintf : (n : ℕ) → (format : List ℕ) → List Arg → Option (List ℕ × ℕ)
unfolding format_from
vsnprintf zero format args = some ([], 0)
vsnprintf (suc n) format args =
    elim (format_from (suc (length format)) format (record { written = []; room = n }) args) [
      | none ↦ none
      | some b ↦ some (b.written, b.room)
    ]
