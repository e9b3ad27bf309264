-- ===== src/Tests/Texts.antt =====
-- Strings: an astral character, and an isolated surrogate behind one of two bytes.
use jsonata.Base.{ℕ, Bytes, true, false, List, [], ◌∷◌, ◌≡◌, refl, arith}
use jsonata.Strings.Units.{units, from_units}
use jsonata.Strings.Scan.{valid, concat, join, characters}
use jsonata.Strings.Canonical.{valid-from_units}
use jsonata.Strings.Characters.{flat, flat_units, AllCodePoints, units-characters}
use jsonata.Strings.RoundTrip.{AllUnits, units-from_units}

abbrev smile : List ℕ
smile = 233 ∷ 55296 ∷ 55357 ∷ 56832 ∷ []

written : from_units smile ≡ 195 ∷ 169 ∷ 237 ∷ 160 ∷ 128 ∷ 240 ∷ 159 ∷ 152 ∷ 128 ∷ []
unfolding from_units
written = refl

replaced : units (65 ∷ 255 ∷ 66 ∷ []) ≡ 65 ∷ 65533 ∷ 66 ∷ []
unfolding units
replaced = refl

smile-AllUnits : AllUnits smile
smile-AllUnits = (omega arith, (omega arith, (omega arith, (omega arith, tt))))

units-from_units_example : units (from_units smile) ≡ smile
units-from_units_example = units-from_units smile smile-AllUnits

valid-from_units_example : valid (from_units smile) ≡ true
valid-from_units_example = valid-from_units smile smile-AllUnits

apart : (valid (237 ∷ 160 ∷ 189 ∷ 237 ∷ 184 ∷ 128 ∷ []) ≡ false) × (valid (65 ∷ 255 ∷ []) ≡ false)
unfolding valid
apart = (refl, refl)

joined : concat (237 ∷ 160 ∷ 189 ∷ []) (237 ∷ 184 ∷ 128 ∷ 65 ∷ []) ≡ 240 ∷ 159 ∷ 152 ∷ 128 ∷ 65 ∷ []
unfolding concat
joined = refl

joined_parts :
    join ((237 ∷ 160 ∷ 189 ∷ []) ∷ (237 ∷ 184 ∷ 128 ∷ []) ∷ (66 ∷ []) ∷ []) []
    ≡ 240 ∷ 159 ∷ 152 ∷ 128 ∷ 66 ∷ []
unfolding join
joined_parts = refl

abbrev mixed : Bytes
mixed = 65 ∷ 195 ∷ 169 ∷ 237 ∷ 160 ∷ 189 ∷ 255 ∷ 240 ∷ 159 ∷ 152 ∷ 128 ∷ []

units-characters_example :
    (flat (characters mixed) ≡ mixed)
    × (flat_units (characters mixed) ≡ units mixed)
    × AllCodePoints (characters mixed)
units-characters_example = units-characters mixed
