-- ===== src/Print/Parts.antt =====
-- src/snprintf.c: formats of plain text with `%lx` and `%ld` between.
use separation_kernel.Prelude.{
  ℕ, zero, suc, ◌^◌, ◌<◌, ◌≡◌, refl, ap, Bool, true, false, not, ◌&&◌, some, List, [], ◌∷◌, ◌++◌,
  ◌==◌, arith,
}
use separation_kernel.Print.{Arg, word, read_width, length, percent, space}
use separation_kernel.Print.FullText.{full_text}
use separation_kernel.Print.Digits.{value, number-value}

-- What is to be read: a text, a number in base 16, or a number in base 10.
pub data Part : Type 0 where
  lit : List ℕ → Part
  hex dec : ℕ → Part

abbrev pub format_of : List Part → List ℕ
format_of [] = []
format_of (lit s ∷ ps) = s ++ format_of ps
format_of (hex n ∷ ps) = percent ∷ (108 ∷ (120 ∷ format_of ps))
format_of (dec n ∷ ps) = percent ∷ (108 ∷ (100 ∷ format_of ps))

abbrev pub args_of : List Part → List Arg
args_of [] = []
args_of (lit s ∷ ps) = args_of ps
args_of (hex n ∷ ps) = word n ∷ args_of ps
args_of (dec n ∷ ps) = word n ∷ args_of ps

abbrev pub is_plain : List ℕ → Bool
is_plain [] = true
is_plain (c ∷ s) = not (c == percent) && is_plain s

-- Texts have no percent sign, and numbers no sign bit.
abbrev pub Fit : List Part → Type 0
Fit [] = Unit {0}
Fit (lit s ∷ ps) = (is_plain s ≡ true) × Fit ps
Fit (hex n ∷ ps) = (n < 2 ^ 63) × Fit ps
Fit (dec n ∷ ps) = (n < 2 ^ 63) × Fit ps

-- A text that says the parts one after the other.
abbrev pub Says : List Part → List ℕ → Type 0
Says [] s = s ≡ []
Says (lit t ∷ ps) s = (rest : List ℕ) × (s ≡ t ++ rest) × Says ps rest
Says (hex n ∷ ps) s =
    (bytes : List ℕ) × (rest : List ℕ) × (s ≡ bytes ++ rest) × (value 16 0 bytes ≡ n) × Says ps rest
Says (dec n ∷ ps) s =
    (bytes : List ℕ) × (rest : List ℕ) × (s ≡ bytes ++ rest) × (value 10 0 bytes ≡ n) × Says ps rest

-- The format `f` has a text with the property, with any fuel that is more than its length.
abbrev Reads : (f : List ℕ) → List Arg → (List ℕ → Type 0) → Type 0
Reads f args P =
    (fuel : ℕ) → length f < fuel → (s : List ℕ) × (full_text fuel f args ≡ some s) × P s

plain-Reads :
    (t f : List ℕ) (args : List Arg) (P : List ℕ → Type 0)
    → is_plain t ≡ true
    → Reads f args P
    → Reads (t ++ f) args (λ s. (rest : List ℕ) × (s ≡ t ++ rest) × P rest)
unfolding full_text
plain-Reads [] f args P plain reads fuel h =
    let (s, run, p) = reads fuel h in (s, run, (s, refl, p))
plain-Reads (c ∷ t) f args P plain reads zero h = absurd (omega arith)
plain-Reads (c ∷ t) f args P plain reads (suc fuel) h =
    let other : (c == percent) ≡ false = ground arith in
    let (s, run, (rest, same, p)) =
      plain-Reads t f args P (ground arith) reads fuel (omega arith) in
    (c ∷ s, rw (other, run) refl, (rest, ap (λ (s : List ℕ). c ∷ s) same, p))

-- A format of such parts has a text, and it says them.
pub full_text-Says :
    (ps : List Part)
    → Fit ps
    → (fuel : ℕ) → length (format_of ps) < fuel
    → (s : List ℕ) × (full_text fuel (format_of ps) (args_of ps) ≡ some s) × Says ps s
unfolding full_text read_width
full_text-Says ps fit zero h = absurd (omega arith)
full_text-Says [] fit (suc fuel) h = ([], refl, refl)
full_text-Says (lit t ∷ ps) fit (suc fuel) h =
    plain-Reads t (format_of ps) (args_of ps) (Says ps) fit.0 (full_text-Says ps fit.1) (suc fuel) h
full_text-Says (hex n ∷ ps) fit (suc fuel) h =
    let (bytes, shown, reads) =
      number-value n 16 space false (omega (arith, fit.0)) (omega arith) (omega arith)
        (ground arith) in
    let (s, run, says) = full_text-Says ps fit.1 fuel (omega arith) in
    (bytes ++ s, rw (shown, run) refl, (bytes, s, refl, reads, says))
full_text-Says (dec n ∷ ps) fit (suc fuel) h =
    let small = fit.0 in
    let (bytes, shown, reads) =
      number-value n 10 space true (omega arith) (omega arith) (omega arith) (ground arith) in
    let (s, run, says) = full_text-Says ps fit.1 fuel (omega arith) in
    (bytes ++ s, rw (shown, run) refl, (bytes, s, refl, reads, says))
