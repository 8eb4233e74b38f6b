-- ===== src/User/Describe.antt =====
-- api/s3k.h: what `s3k_dump_cap` prints of a capability.
use separation_kernel.Prelude.{
  ℕ, zero, suc, ◌++◌, ◌/◌, ◌%◌, ◌-◌, ◌<◌, ◌≡◌, refl, Bool, true, false, List, [], ◌∷◌, ◌==◌,
  if◌then◌else◌,
}
use separation_kernel.Prelude.Codes.{codes}
use separation_kernel.Print.{length, digit}
use separation_kernel.Print.Parts.{Part, lit, hex, dec, format_of, args_of, Fit}
use separation_kernel.Print.Render.{take}
use separation_kernel.Cap.{Cap, get_type}
use separation_kernel.Cap.CapType
use separation_kernel.User.Dump.{Snprintf, s3k_dump_cap}
use separation_kernel.User.Description.{
  description, memory_parts, pmp_parts, time_parts, channels_parts, receiver_parts, sender_parts,
  server_parts, client_parts, supervisor_parts, memory_parts-Fit, pmp_parts-Fit, time_parts-Fit,
  channels_parts-Fit, receiver_parts-Fit, sender_parts-Fit, server_parts-Fit, client_parts-Fit,
  supervisor_parts-Fit,
}

-- The digits of a number in a base, the least one at the end.
abbrev pub numeral : (fuel base i : ℕ) → List ℕ
numeral zero base i = []
numeral (suc fuel) base i =
    let front = numeral fuel base (i / base) in
    if i / base == 0 then digit (i % base) ∷ [] else front ++ digit (i % base) ∷ []

abbrev pub text_of : List Part → List ℕ
text_of [] = []
text_of (lit s ∷ ps) = s ++ text_of ps
text_of (hex i ∷ ps) = numeral 64 16 i ++ text_of ps
text_of (dec i ∷ ps) = numeral 64 10 i ++ text_of ps

-- What the C standard says of a buffer of `n` bytes, for text, `%lx` and `%ld`: it gets what fits of
-- the text, and the result is the length of all of the text.
abbrev pub IsSnprintf : Snprintf → Type 0
IsSnprintf snprintf =
    (n : ℕ) (ps : List Part)
    → 0 < n
    → Fit ps
    → snprintf n (format_of ps) (args_of ps) ≡ (take (n - 1) (text_of ps), length (text_of ps))

module _ (snprintf : Snprintf) (library : IsSnprintf snprintf) (n : ℕ) (positive : 0 < n) where
  abbrev Shows : List Part → List ℕ × ℕ → Type 0
  Shows ps o = o ≡ (take (n - 1) (text_of ps), length (text_of ps))

  parts : (ps : List Part) → Fit ps → Shows ps (snprintf n (format_of ps) (args_of ps))
  parts ps fit = library n ps positive fit

  if-Shows :
      (t : Bool) (ps qs : List Part) (o o' : List ℕ × ℕ)
      → Shows ps o
      → Shows qs o'
      → Shows (if t then ps else qs) (if t then o else o')
  if-Shows true ps qs o o' h h' = h
  if-Shows false ps qs o o' h h' = h'

  -- Into a buffer that is not empty, with a library whose `snprintf` is the standard's, `s3k_dump_cap`
  -- of any capability prints the name of its type and each of its fields with its value, in base 16
  -- behind 0x and else in base 10, as far as the buffer goes; its result is the length of all of it.
  pub s3k_dump_cap-text :
      (cap : Cap)
      → s3k_dump_cap snprintf n cap
        ≡ (take (n - 1) (text_of (description cap)), length (text_of (description cap)))
  unfolding s3k_dump_cap
  s3k_dump_cap-text cap =
      if-Shows (get_type cap == CapType.empty) _ _ _ _ (parts (lit (codes "EMPTY") ∷ []) (refl, tt))
        (if-Shows (get_type cap == CapType.memory) _ _ _ _
          (parts (memory_parts cap) (memory_parts-Fit cap))
          (if-Shows (get_type cap == CapType.pmp) _ _ _ _
            (parts (pmp_parts cap) (pmp_parts-Fit cap))
            (if-Shows (get_type cap == CapType.time) _ _ _ _
              (parts (time_parts cap) (time_parts-Fit cap))
              (if-Shows (get_type cap == CapType.channels) _ _ _ _
                (parts (channels_parts cap) (channels_parts-Fit cap))
                (if-Shows (get_type cap == CapType.receiver) _ _ _ _
                  (parts (receiver_parts cap) (receiver_parts-Fit cap))
                  (if-Shows (get_type cap == CapType.sender) _ _ _ _
                    (parts (sender_parts cap) (sender_parts-Fit cap))
                    (if-Shows (get_type cap == CapType.server) _ _ _ _
                      (parts (server_parts cap) (server_parts-Fit cap))
                      (if-Shows (get_type cap == CapType.client) _ _ _ _
                        (parts (client_parts cap) (client_parts-Fit cap))
                        (if-Shows (get_type cap == CapType.supervisor) _ _ _ _
                          (parts (supervisor_parts cap) (supervisor_parts-Fit cap))
                          (parts (lit (codes "INVALID") ∷ []) (refl, tt)))))))))))
