-- ===== src/Tests/Printing.antt =====
-- `%d` of 12345 into four bytes, and `%x` of 255.
use separation_kernel.Prelude.{ℕ, ◌-◌, ◌≡◌, refl, none, some, List, [], ◌∷◌, arith}
use separation_kernel.Print.{
  word, Buffer, digits, pad, number, convert, read_width, format_from, vsnprintf, char_zero,
}
use separation_kernel.Print.Fuel.{format_from-fuel}
use separation_kernel.Print.Hex.{convert-hex}
use separation_kernel.Print.FullText.{full_text}
use separation_kernel.Print.Render.{vsnprintf-full_text}

-- "%d"
abbrev percent_d : List ℕ
percent_d = 37 ∷ 100 ∷ []

abbrev three_bytes : Buffer
three_bytes = record { written = []; room = 3 }

format_from-fuel_example :
    format_from 3 percent_d three_bytes (word 12345 ∷ [])
    ≡ format_from 10 percent_d three_bytes (word 12345 ∷ [])
format_from-fuel_example =
    format_from-fuel 3 10 percent_d three_bytes (word 12345 ∷ []) (omega arith) (omega arith)

convert-hex_example : convert 120 char_zero 8 [] three_bytes (word 255 ∷ []) ≡ none
convert-hex_example = convert-hex char_zero 8 [] three_bytes 255 [] (λ e. ground arith)

percent_d_text : full_text 3 percent_d (word 12345 ∷ []) ≡ some (49 ∷ 50 ∷ 51 ∷ 52 ∷ 53 ∷ [])
unfolding full_text read_width number digits pad
percent_d_text = refl

vsnprintf-full_text_example :
    vsnprintf 4 percent_d (word 12345 ∷ []) ≡ some (49 ∷ 50 ∷ 51 ∷ [], 4 - 1 - 5)
vsnprintf-full_text_example =
    vsnprintf-full_text 4 percent_d (word 12345 ∷ []) (49 ∷ 50 ∷ 51 ∷ 52 ∷ 53 ∷ []) (omega arith)
      percent_d_text
