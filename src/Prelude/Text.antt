-- ===== src/Prelude/Text.antt =====
-- Texts as the source walks them: JavaScript strings are lists of UTF-16 code units.
use Prim.Native.Char.{code}
use Prim.Native.Nat.{ℕ, ◌+◌, ◌-◌, ◌/◌, ◌%◌}
use Prim.Native.String.{String}
use mathlib.Core.Path.{◌≡◌, refl}
use mathlib.Core.Bool.{Bool, true, false, ◌&&◌, ◌||◌}
use mathlib.Core.List.{List, [], ◌∷◌, ◌++◌, map}
use native.Mathlib.Omega.{arith}
use nestjs_framework_templat.Prelude.Tests.{ltb, leb, nat_beq, if◌then◌else◌}

-- One unit below U+10000, a surrogate pair above.
abbrev pub encode_unit : ℕ → List ℕ
encode_unit c =
    if ltb c 0x10000
    then c ∷ []
    else (0xd800 + (c - 0x10000) / 1024) ∷ (0xdc00 + (c - 0x10000) % 1024) ∷ []

abbrev pub units : String → List ℕ
units String.[] = []
units (String.◌∷◌ c s) = encode_unit (code c) ++ units s

-- `toLowerCase` and `toUpperCase` on ASCII letters.
abbrev pub lower_unit : ℕ → ℕ
lower_unit c = if leb b'A' c && leb c b'Z' then c + 32 else c

abbrev pub upper_unit : ℕ → ℕ
upper_unit c = if leb b'a' c && leb c b'z' then c - 32 else c

unfoldable pub to_lower : List ℕ → List ℕ
to_lower = map lower_unit

unfoldable pub to_upper : List ℕ → List ℕ
to_upper = map upper_unit

abbrev pub units_eq : List ℕ → List ℕ → Bool
units_eq [] [] = true
units_eq (x ∷ xs) (y ∷ ys) = nat_beq x y && units_eq xs ys
units_eq _ _ = false

pub units_eq_refl : (xs : List ℕ) → units_eq xs xs ≡ true
units_eq_refl [] = refl
units_eq_refl (x ∷ xs) = ground (arith, units_eq_refl xs)

pub units_eq_sound : (xs ys : List ℕ) → units_eq xs ys ≡ true → xs ≡ ys
units_eq_sound [] [] h = refl
units_eq_sound (x ∷ xs) (y ∷ ys) h = ground (arith, units_eq_sound xs ys)
units_eq_sound _ _ h = cc

-- `startsWith`
abbrev pub starts_with : List ℕ → List ℕ → Bool
starts_with xs [] = true
starts_with [] (y ∷ ys) = false
starts_with (x ∷ xs) (y ∷ ys) = nat_beq x y && starts_with xs ys

-- `includes`
unfoldable pub includes : List ℕ → List ℕ → Bool
includes [] ys = starts_with [] ys
includes (x ∷ xs) ys = starts_with (x ∷ xs) ys || includes xs ys

pub starts_with-append : (xs ys : List ℕ) → starts_with (xs ++ ys) xs ≡ true
starts_with-append [] ys = refl
starts_with-append (x ∷ xs) ys = ground (arith, starts_with-append xs ys)
