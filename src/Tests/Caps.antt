-- ===== src/Tests/Caps.antt =====
-- Capabilities: a time slice of hart 1 and what is derived from it.
use separation_kernel.Prelude.{◌≡◌, refl, true, some, arith}
use separation_kernel.Cap.{Cap, IsWord, get_type_lem}
use separation_kernel.Cap.Time
use separation_kernel.Cap.Derivation.{can_derive, is_child}
use separation_kernel.Cap.Valid.Defs.{IsValid}
use separation_kernel.Cap.Update.{derive_update_cap}
use separation_kernel.Cap.Update.Derive.{Derived, derive-IsValid}
use separation_kernel.Cap.Update.Children.{derive-is_child}

-- The whole major frame of hart 1, its quanta 0 to 16, and what is left of it then.
abbrev pub frame_words : Cap
frame_words = record { word0 = 0x0100000080000003; word1 = 0 }

abbrev pub slice : Cap
slice = record { word0 = 0x0100000010000003; word1 = 0 }

abbrev rest : Cap
rest = record { word0 = 0x0100000080001003; word1 = 0 }

pub slice-IsWord : IsWord slice
slice-IsWord = ground arith

pub frame_words-IsValid : IsValid frame_words
unfolding Time.get_free Time.get_end Time.get_begin Time.get_hartid
frame_words-IsValid = let kind = get_type_lem frame_words in ground arith

pub slice-can_derive : can_derive frame_words slice ≡ true
unfolding can_derive Time.get_free Time.get_begin Time.get_end Time.get_hartid
slice-can_derive = refl

slice-update : derive_update_cap frame_words slice ≡ some rest
unfolding derive_update_cap Time.set_free Time.get_end
slice-update = refl

derive-IsValid_example : Derived frame_words slice
derive-IsValid_example =
    derive-IsValid frame_words slice frame_words-IsValid slice-IsWord slice-can_derive

derive-is_child_example : is_child rest slice ≡ true
derive-is_child_example =
    derive-is_child frame_words slice rest frame_words-IsValid slice-can_derive slice-update

rest-IsValid : IsValid rest
unfolding Time.get_free Time.get_end Time.get_begin Time.get_hartid
rest-IsValid = let kind = get_type_lem rest in ground arith
