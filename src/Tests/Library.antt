-- ===== src/Tests/Library.antt =====
-- A library for processes, with as much of `snprintf` as `s3k_dump_cap` needs.
use separation_kernel.Prelude.{
  ℕ, zero, suc, ◌-◌, ◌<◌, ◌≡◌, refl, ap, true, false, List, [], ◌∷◌, ◌++◌, ◌==◌, if◌then◌else◌,
  arith,
}
use separation_kernel.Print.{Arg, word, text, length, percent}
use separation_kernel.Print.Parts.{Part, lit, hex, dec, format_of, args_of, is_plain, Fit}
use separation_kernel.Print.Render.{take}
use separation_kernel.User.Dump.{Snprintf}
use separation_kernel.User.Describe.{numeral, text_of, IsSnprintf}

-- `%lx` in base 16, and any other directive of two letters in base 10.
unfoldable pub small_text : (fuel : ℕ) → List ℕ → List Arg → List ℕ
small_text zero f args = []
small_text (suc fuel) [] args = []
small_text (suc fuel) (c ∷ f) args =
    let number : List ℕ = elim f [
      | [] ↦ []
      | _ ∷ f' ↦ elim f' [
        | [] ↦ []
        | d ∷ g ↦ elim args [
          | [] ↦ []
          | a ∷ rest ↦ elim a [
            | text s ↦ []
            | word i ↦ numeral 64 (if d == 120 then 16 else 10) i ++ small_text fuel g rest
          ]
        ]
      ]
    ] in
    let plain = c ∷ small_text fuel f args in if c == percent then number else plain

abbrev pub small_snprintf : Snprintf
small_snprintf n format args =
    let s = small_text (suc (length format)) format args in (take (n - 1) s, length s)

small_text-plain :
    (t f : List ℕ) (args : List Arg) (r : List ℕ)
    → is_plain t ≡ true
    → ((fuel : ℕ) → length f < fuel → small_text fuel f args ≡ r)
    → (fuel : ℕ) → length (t ++ f) < fuel
    → small_text fuel (t ++ f) args ≡ t ++ r
unfolding small_text
small_text-plain [] f args r plain rest fuel h = rest fuel h
small_text-plain (c ∷ t) f args r plain rest zero h = absurd (omega arith)
small_text-plain (c ∷ t) f args r plain rest (suc fuel) h =
    let other : (c == percent) ≡ false = ground arith in
    rw other (
      ap (λ (s : List ℕ). c ∷ s)
        (small_text-plain t f args r (ground arith) rest fuel (omega arith)))

small_text-text_of :
    (ps : List Part)
    → Fit ps
    → (fuel : ℕ) → length (format_of ps) < fuel
    → small_text fuel (format_of ps) (args_of ps) ≡ text_of ps
unfolding small_text
small_text-text_of ps fit zero h = absurd (omega arith)
small_text-text_of [] fit (suc fuel) h = refl
small_text-text_of (lit t ∷ ps) fit (suc fuel) h =
    small_text-plain t (format_of ps) (args_of ps) (text_of ps) fit.0 (small_text-text_of ps fit.1)
      (suc fuel) h
small_text-text_of (hex i ∷ ps) fit (suc fuel) h =
    ap (λ (s : List ℕ). numeral 64 16 i ++ s) (small_text-text_of ps fit.1 fuel (omega arith))
small_text-text_of (dec i ∷ ps) fit (suc fuel) h =
    ap (λ (s : List ℕ). numeral 64 10 i ++ s) (small_text-text_of ps fit.1 fuel (omega arith))

pub small_snprintf-IsSnprintf : IsSnprintf small_snprintf
small_snprintf-IsSnprintf n ps positive fit =
    rw (small_text-text_of ps fit (suc (length (format_of ps))) (omega arith)) refl
