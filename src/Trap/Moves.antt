-- ===== src/Trap/Moves.antt =====
-- src/macros.S: what a list of stores leaves in the `proc_t`, and a list of loads in the registers.
use separation_kernel.Prelude.{
  ℕ, zero, suc, ◌+◌, ◌*◌, ◌%◌, ◌^◌, ◌≤◌, ◌<◌, ◌≡◌, ◌≢◌, refl, sym, ap, ◌∙◌, Bool, true, false, not,
  ◌||◌, ◌&&◌, [], ◌∷◌, ltb, ◌==◌, if◌then◌else◌, inl, inr, Bool-cases, ==→eq, arith,
}
use separation_kernel.Proc.{Regs}
use separation_kernel.Proc.Reg
use separation_kernel.Trap.AsmConsts
use separation_kernel.Trap.Hart.{Hart, Moves, set_x, sd, ld, store_all, load_all}

-- The memory from `base` on is the registers of a process.
abbrev pub Holds : (base : ℕ) → Regs → Hart → Type 0
Holds base regs h = (i : ℕ) → i < Reg.count → h.memory (base + 8 * i) ≡ regs i

pub Holds-same :
    {base base' : ℕ} {regs : Regs} (h h' : Hart)
    → base' ≡ base
    → h'.memory ≡ h.memory
    → Holds base regs h
    → Holds base' regs h'
Holds-same {base = base} h h' at same holds i lt =
    ap (λ (b : ℕ). h'.memory (b + 8 * i)) at
    ∙ ap (λ (m : ℕ → ℕ). m (base + 8 * i)) same
    ∙ holds i lt

-- A process does not reach over the end of the memory.
abbrev pub Fits : (base : ℕ) → Type 0
Fits base = base + 8 * Reg.count ≤ 2 ^ 64

-- Every register goes to its own place, and tp stays.
unfoldable pub are_own : Moves → Bool
are_own [] = true
are_own ((reg, offset) ∷ moves) =
    ltb reg 32 && not (reg == Reg.tp) && (offset == 8 * reg) && are_own moves

unfoldable pub moves_reg : (reg : ℕ) → Moves → Bool
moves_reg i [] = false
moves_reg i ((reg, offset) ∷ moves) = (i == reg) || moves_reg i moves

unfoldable pub below : ℕ → (ℕ → Bool) → Bool
below zero p = true
below (suc n) p = p n && below n p

&&-both : (a b : Bool) → a && b ≡ true → (a ≡ true) × (b ≡ true)
&&-both true b e = (refl, e)
&&-both false b e = ground arith

pub below→ : (n : ℕ) (p : ℕ → Bool) → below n p ≡ true → (i : ℕ) → i < n → p i ≡ true
unfolding below
below→ zero p e i h = absurd (omega arith)
below→ (suc n) p e i h =
    let (here, before) = &&-both (p n) (below n p) e in
    elim (Bool-cases (i == n)) as (λ _. p i ≡ true) [
      | inl last ↦ ap p (==→eq i n last) ∙ here
      | inr more ↦ below→ n p before i (ground arith)
    ]

abbrev pub agree : Bool → Bool → Bool
agree a b = if a then b else not b

pub agree→ : (a b : Bool) → agree a b ≡ true → a ≡ b
agree→ true true e = refl
agree→ true false e = sym e
agree→ false true e = e
agree→ false false e = refl

pub own-head :
    (reg offset : ℕ) (moves : Moves)
    → are_own ((reg, offset) ∷ moves) ≡ true
    → (reg < 32) × (reg ≢ Reg.tp) × (offset ≡ 8 * reg) × (are_own moves ≡ true)
unfolding are_own
own-head reg offset moves own = ground arith

-- The address of a register's place, without a wrap.
own_place :
    (base reg offset : ℕ)
    → Fits base
    → reg < 32
    → offset ≡ 8 * reg
    → (base + (AsmConsts.proc_regs + offset)) % 2 ^ 64 ≡ base + 8 * reg
own_place base reg offset fits small place = omega arith

if-or {ℓ} :
    {A : Type ℓ} (b c : Bool) (x y : A)
    → (if b then x else if c then x else y) ≡ (if c || b then x else y)
if-or true true x y = refl
if-or true false x y = refl
if-or false true x y = refl
if-or false false x y = refl

module _ {base : ℕ} (fits : Fits base) {reg offset : ℕ} (small : reg < 32)
    (place : offset ≡ 8 * reg) where
  pub sd-memory :
      (h : Hart) (i : ℕ)
      → h.x Reg.tp ≡ base
      → (sd reg (AsmConsts.proc_regs + offset) h).memory (base + 8 * i)
        ≡ (if i == reg then h.x i else h.memory (base + 8 * i))
  unfolding sd
  sd-memory h i at = ground arith

  pub ld-x :
      (h : Hart) (i : ℕ)
      → h.x Reg.tp ≡ base
      → (ld reg (AsmConsts.proc_regs + offset) h).x i
        ≡ (if i == reg then h.memory (base + 8 * i) else h.x i)
  unfolding ld set_x
  ld-x h i at = ground arith

  pub ld-tp :
      (h : Hart)
      → h.x Reg.tp ≡ base
      → reg ≢ Reg.tp
      → (ld reg (AsmConsts.proc_regs + offset) h).x Reg.tp ≡ base
  unfolding ld set_x
  ld-tp h at apart = ground arith

-- Only the memory is stored to.
pub store_all-rest :
    (moves : Moves) (h : Hart)
    → store_all moves h ≡ record h { memory = (store_all moves h).memory }
unfolding store_all sd
store_all-rest [] h = refl
store_all-rest ((reg, offset) ∷ moves) h =
    store_all-rest moves (sd reg (AsmConsts.proc_regs + offset) h)

-- Only the registers are loaded.
pub load_all-rest :
    (moves : Moves) (h : Hart) → load_all moves h ≡ record h { x = (load_all moves h).x }
unfolding load_all ld set_x
load_all-rest [] h = refl
load_all-rest ((reg, offset) ∷ moves) h =
    load_all-rest moves (ld reg (AsmConsts.proc_regs + offset) h)

module _ {base : ℕ} (fits : Fits base) where
  pub store_all-memory :
      (moves : Moves) (h : Hart) (i : ℕ)
      → h.x Reg.tp ≡ base
      → are_own moves ≡ true
      → (store_all moves h).memory (base + 8 * i)
        ≡ (if moves_reg i moves then h.x i else h.memory (base + 8 * i))
  unfolding store_all moves_reg
  store_all-memory [] h i at own = refl
  store_all-memory ((reg, offset) ∷ moves) h i at own =
      let (small, _, place, rest) = own-head reg offset moves own in
      let later = store_all-memory moves (sd reg (AsmConsts.proc_regs + offset) h) i at rest in
      later
      ∙ ap (λ t. if moves_reg i moves then h.x i else t) (sd-memory fits small place h i at)
      ∙ if-or (moves_reg i moves) (i == reg) _ _

  pub load_all-x :
      (moves : Moves) (h : Hart) (i : ℕ)
      → h.x Reg.tp ≡ base
      → are_own moves ≡ true
      → (load_all moves h).x i ≡ (if moves_reg i moves then h.memory (base + 8 * i) else h.x i)
  unfolding load_all moves_reg
  load_all-x [] h i at own = refl
  load_all-x ((reg, offset) ∷ moves) h i at own =
      let (small, apart, place, rest) = own-head reg offset moves own in
      let h' = ld reg (AsmConsts.proc_regs + offset) h in
      let later = load_all-x moves h' i (ld-tp fits small place h at apart) rest in
      later
      ∙ ap (λ t. if moves_reg i moves then h.memory (base + 8 * i) else t)
          (ld-x fits small place h i at)
      ∙ if-or (moves_reg i moves) (i == reg) _ _

  pub load_all-tp :
      (moves : Moves) (h : Hart)
      → h.x Reg.tp ≡ base
      → are_own moves ≡ true
      → (load_all moves h).x Reg.tp ≡ base
  unfolding load_all
  load_all-tp [] h at own = at
  load_all-tp ((reg, offset) ∷ moves) h at own =
      let (small, apart, place, rest) = own-head reg offset moves own in
      load_all-tp moves (ld reg (AsmConsts.proc_regs + offset) h)
        (ld-tp fits small place h at apart) rest
