-- ===== src/Utf/Tests.antt =====
-- The euro sign and a musical symbol, in UTF-8 and UTF-16.
use sd_fat.Base.{ℕ, ◌≡◌, refl, arith, some, none, List, [], ◌∷◌, leb, if◌then◌else◌}
use sd_fat.Base.Lists.{length}
use sd_fat.Utf.{cp_to_mb, mb_to_cp}
use sd_fat.Utf.Laws.{encoded, cp_to_mb-encoded, mb_to_cp-cp_to_mb}

abbrev clef : List ℕ
clef = 0xF0 ∷ 0x9D ∷ 0x84 ∷ 0x9E ∷ 0x21 ∷ []

cp_to_mb-encoded_example :
    cp_to_mb 0x20AC 2 ≡ (if leb (length (encoded 0x20AC)) 2 then some (encoded 0x20AC) else none)
cp_to_mb-encoded_example = cp_to_mb-encoded 0x20AC 2 (omega arith)

mb_to_cp-cp_to_mb_example : mb_to_cp (0xE2 ∷ 0x82 ∷ 0xAC ∷ 0x21 ∷ []) ≡ some (0x20AC, 0x21 ∷ [])
unfolding cp_to_mb
mb_to_cp-cp_to_mb_example =
    mb_to_cp-cp_to_mb 0x20AC 3 (0xE2 ∷ 0x82 ∷ 0xAC ∷ []) (0x21 ∷ []) refl refl
