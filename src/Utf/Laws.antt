-- ===== src/Utf/Laws.antt =====
-- Round trips of UTF-8 and UTF-16, and what the decoder accepts.
use sd_fat.Base.{
  ℕ, ◌+◌, ◌-◌, ◌*◌, ◌/◌, ◌%◌, ◌^◌, ◌≤◌, ◌<◌, ◌≡◌, ◌⊎◌, zero, suc, refl, ◌∙◌, arith, ap, subst, u32,
  bit_and, bit_or, true, false, Option, none, some, List, [], ◌∷◌, ◌++◌, ltb, leb, if◌then◌else◌,
  u8,
}
use sd_fat.Base.Lists.{length, All}
use sd_fat.Base.Bits.{or_fields, or_fields_low, and_low, and_high}
use sd_fat.Utf.{
  high_surrogate, low_surrogate, is_valid_cp, is_surrogate, is_high_surrogate, is_low_surrogate,
  u16_to_cp, cp_to_mb, continue_cp, check_cp, tail_cp, mb_to_cp, split_cp, mb_to_u16,
}

-- A code point from 0x10000 to 0x10FFFF is given back by `u16ToCp` from its two surrogates, which
-- are in their ranges.
pub u16_to_cp-surrogates :
    (cp : ℕ)
    → 0x10000 ≤ cp
    → cp ≤ 0x10FFFF
    → (u16_to_cp (high_surrogate cp) (low_surrogate cp) ≡ cp)
      × (is_high_surrogate (high_surrogate cp) ≡ true)
      × (is_low_surrogate (low_surrogate cp) ≡ true)
unfolding u16_to_cp high_surrogate low_surrogate
u16_to_cp-surrogates cp lo hi =
    let a = and_low 10 cp in
    let b = and_low 10 (high_surrogate cp) in
    let c = and_low 10 (low_surrogate cp) in
    (
      ground
          (arith, a, b, c, or_fields 10 (high_surrogate cp % 2 ^ 10) (low_surrogate cp % 2 ^ 10)),
      ground (arith, a),
      ground (arith, a),
    )

-- UTF-8 in arithmetic: the leading byte and the continuation bytes of a code point.
abbrev pub encoded : ℕ → List ℕ
encoded cp =
    if ltb cp 0x80
    then cp ∷ []
    else if ltb cp 0x800
    then (192 + cp / 64) ∷ (128 + cp % 64) ∷ []
    else if ltb cp 0x10000
    then (224 + cp / 4096) ∷ (128 + cp / 64 % 64) ∷ (128 + cp % 64) ∷ []
    else (240 + cp / 2 ^ 18) ∷ (128 + cp / 4096 % 64) ∷ (128 + cp / 64 % 64) ∷ (128 + cp % 64) ∷ []

continuation : (a : ℕ) → u8 (bit_or (bit_and a 0x3F) 0x80) ≡ 128 + a % 64
continuation a = ground (arith, and_low 6 a, or_fields_low 7 1 (a % 64))

-- `cpToMb` stores the UTF-8 form of a code point of up to 21 bits when there is room for it, and
-- fails otherwise.
pub cp_to_mb-encoded :
    (cp n : ℕ)
    → cp < 2 ^ 21
    → cp_to_mb cp n ≡ (if leb (length (encoded cp)) n then some (encoded cp) else none)
unfolding cp_to_mb
cp_to_mb-encoded cp n h = ground (
  arith,
  continuation cp,
  continuation (cp / 64),
  continuation (cp / 4096),
  or_fields_low 6 3 (cp / 64),
  or_fields_low 5 7 (cp / 4096),
  or_fields_low 4 15 (cp / 2 ^ 18),
)

-- The masks of the leading bytes.
top_bits : (k j ch : ℕ) → bit_and ch ((2 ^ j - 1) * 2 ^ k) ≡ ch / 2 ^ k % 2 ^ j * 2 ^ k
top_bits k j ch = and_high k ch (2 ^ j - 1) ∙ ap (λ t. t * 2 ^ k) (and_low j (ch / 2 ^ k))

continue_byte :
    (n cp x : ℕ) (str : List ℕ)
    → x < 64
    → cp < 2 ^ 26
    → continue_cp (suc n) cp ((128 + x) ∷ str) ≡ continue_cp n (cp * 64 + x) str
unfolding continue_cp
continue_byte n cp x str h k =
    ground (arith, top_bits 6 2 (128 + x), and_low 6 (128 + x), or_fields 6 cp x)

lead_two : (x : ℕ) (str : List ℕ) → x < 32 → mb_to_cp ((192 + x) ∷ str) ≡ tail_cp 1 x str
unfolding mb_to_cp
lead_two x str h =
    ground (arith, top_bits 7 1 (192 + x), top_bits 5 3 (192 + x), and_low 5 (192 + x))

lead_three : (x : ℕ) (str : List ℕ) → x < 16 → mb_to_cp ((224 + x) ∷ str) ≡ tail_cp 2 x str
unfolding mb_to_cp
lead_three x str h = ground (
  arith,
  top_bits 7 1 (224 + x),
  top_bits 5 3 (224 + x),
  top_bits 4 4 (224 + x),
  and_low 4 (224 + x),
)

lead_four : (x : ℕ) (str : List ℕ) → x < 8 → mb_to_cp ((240 + x) ∷ str) ≡ tail_cp 3 x str
unfolding mb_to_cp
lead_four x str h = ground (
  arith,
  top_bits 7 1 (240 + x),
  top_bits 5 3 (240 + x),
  top_bits 4 4 (240 + x),
  top_bits 3 5 (240 + x),
  and_low 3 (240 + x),
)

-- The last continuation byte, and the test behind the loop.
decode_last :
    (cp x v : ℕ) (rest : List ℕ)
    → x < 64
    → cp < 2 ^ 26
    → cp * 64 + x ≡ v
    → continue_cp 1 cp ((128 + x) ∷ rest) ≡ some (v, rest)
unfolding continue_cp
decode_last cp x v rest h k e = continue_byte 0 cp x rest h k ∙ ap (λ t. some (t, rest)) e

decoded :
    (more cp v : ℕ) (str rest : List ℕ)
    → more ≤ length str
    → continue_cp more cp str ≡ some (v, rest)
    → 128 ≤ v
    → is_valid_cp v ≡ true
    → tail_cp more cp str ≡ some (v, rest)
unfolding tail_cp
decoded more cp v str rest l e low ok = ground (arith, ap check_cp e)

decode_two :
    (cp : ℕ) (rest : List ℕ)
    → 0x80 ≤ cp
    → cp < 0x800
    → mb_to_cp ((192 + cp / 64) ∷ (128 + cp % 64) ∷ rest) ≡ some (cp, rest)
decode_two cp rest lo hi =
    lead_two (cp / 64) _ (omega arith)
    ∙ decoded 1 (cp / 64) cp _ rest (omega arith)
        (decode_last (cp / 64) (cp % 64) cp rest (omega arith) (omega arith) (omega arith)) lo
        (ground arith)

decode_three :
    (cp : ℕ) (rest : List ℕ)
    → 0x800 ≤ cp
    → cp < 0x10000
    → is_valid_cp cp ≡ true
    → mb_to_cp ((224 + cp / 4096) ∷ (128 + cp / 64 % 64) ∷ (128 + cp % 64) ∷ rest) ≡ some (cp, rest)
decode_three cp rest lo hi ok =
    lead_three (cp / 4096) _ (omega arith)
    ∙ decoded 2 (cp / 4096) cp _ rest (omega arith)
        (continue_byte 1 (cp / 4096) (cp / 64 % 64) _ (omega arith) (omega arith)
          ∙ decode_last (cp / 4096 * 64 + cp / 64 % 64) (cp % 64) cp rest (omega arith)
              (omega arith) (omega arith))
        (omega arith) ok

decode_four :
    (cp : ℕ) (rest : List ℕ)
    → 0x10000 ≤ cp
    → cp ≤ 0x10FFFF
    → is_valid_cp cp ≡ true
    → mb_to_cp (
        (240 + cp / 2 ^ 18)
        ∷ (128 + cp / 4096 % 64)
        ∷ (128 + cp / 64 % 64)
        ∷ (128 + cp % 64)
        ∷ rest)
      ≡ some (cp, rest)
decode_four cp rest lo hi ok =
    lead_four (cp / 2 ^ 18) _ (omega arith)
    ∙ decoded 3 (cp / 2 ^ 18) cp _ rest (omega arith)
        (continue_byte 2 (cp / 2 ^ 18) (cp / 4096 % 64) _ (omega arith) (omega arith)
          ∙ continue_byte 1 (cp / 2 ^ 18 * 64 + cp / 4096 % 64) (cp / 64 % 64) _ (omega arith)
              (omega arith)
          ∙ decode_last ((cp / 2 ^ 18 * 64 + cp / 4096 % 64) * 64 + cp / 64 % 64) (cp % 64) cp rest
              (omega arith) (omega arith) (omega arith))
        (omega arith) ok

decode_one : (cp : ℕ) (rest : List ℕ) → cp < 0x80 → mb_to_cp (cp ∷ rest) ≡ some (cp, rest)
unfolding mb_to_cp
decode_one cp rest h = ground (arith, top_bits 7 1 cp)

-- `mbToCp` reads a valid code point back from its UTF-8 form, and stops behind it.
pub mb_to_cp-encoded :
    (cp : ℕ) (rest : List ℕ)
    → is_valid_cp cp ≡ true
    → mb_to_cp (encoded cp ++ rest) ≡ some (cp, rest)
mb_to_cp-encoded cp rest ok =
    ground
      (arith, decode_one cp rest, decode_two cp rest, decode_three cp rest, decode_four cp rest)

-- `mbToCp` reads a valid code point back from the bytes that `cpToMb` stored for it, whatever
-- follows them.
pub mb_to_cp-cp_to_mb :
    (cp n : ℕ) (bs rest : List ℕ)
    → is_valid_cp cp ≡ true
    → cp_to_mb cp n ≡ some bs
    → mb_to_cp (bs ++ rest) ≡ some (cp, rest)
mb_to_cp-cp_to_mb cp n bs rest ok e =
    subst (λ t. mb_to_cp (t ++ rest) ≡ some (cp, rest)) same (mb_to_cp-encoded cp rest ok)
  where
    same : encoded cp ≡ bs
    same = ground (arith, cp_to_mb-encoded cp n)

continue_shorter :
    (n cp : ℕ) (str : List ℕ) {v : ℕ} {rest : List ℕ}
    → continue_cp n cp str ≡ some (v, rest)
    → length rest + n ≡ length str
unfolding continue_cp
continue_shorter zero cp str e = ground arith
continue_shorter (suc n) cp [] e = cc
continue_shorter (suc n) cp (ch ∷ str) {v} {rest} e = ground (
  arith,
  continue_shorter n (bit_or (u32 (cp * 2 ^ 6)) (bit_and ch 0x3F)) str {v = v} {rest = rest},
)

-- A code point of more than one byte passed the tests behind the loop.
tail_accepts :
    (more cp : ℕ) (str : List ℕ) {v : ℕ} {rest : List ℕ}
    → tail_cp more cp str ≡ some (v, rest)
    → (is_valid_cp v ≡ true) × (length rest ≤ length str)
unfolding tail_cp
tail_accepts more cp str {v} {rest} e = checked (continue_cp more cp str) refl (ground arith)
  where
    checked :
        (r : Option (ℕ × List ℕ))
        → continue_cp more cp str ≡ r
        → check_cp r ≡ some (v, rest)
        → (is_valid_cp v ≡ true) × (length rest ≤ length str)
    checked none p q = cc
    checked (some (w, s)) p q =
        let k = continue_shorter more cp str p in (ground arith, ground arith)

-- What `mbToCp` accepts in a row of bytes is a valid code point, and at least one byte is
-- consumed.
pub mb_to_cp-accepts :
    (str : List ℕ) {cp : ℕ} {rest : List ℕ}
    → All (λ b. b < 256) str
    → mb_to_cp str ≡ some (cp, rest)
    → (is_valid_cp cp ≡ true) × (length rest < length str)
unfolding mb_to_cp
mb_to_cp-accepts [] h e = cc
mb_to_cp-accepts (ch ∷ str) {cp} {rest} h e =
    let a = tail_accepts 1 (bit_and ch 0x1F) str {v = cp} {rest = rest} in
    let b = tail_accepts 2 (bit_and ch 0x0F) str {v = cp} {rest = rest} in
    let c = tail_accepts 3 (bit_and ch 0x07) str {v = cp} {rest = rest} in
    (ground (arith, h.0, top_bits 7 1 ch, a, b, c), ground (arith, h.0, top_bits 7 1 ch, a, b, c))

-- The units of a code point: one that is no surrogate, with `ls` 0, or a surrogate pair.
abbrev pub IsUtf16 : ℕ → ℕ → ℕ → Type 0
IsUtf16 hs ls cp =
    ((hs ≡ cp) × (ls ≡ 0) × (is_surrogate hs ≡ false))
    ⊎ ((u16_to_cp hs ls ≡ cp) × (is_high_surrogate hs ≡ true) × (is_low_surrogate ls ≡ true))

-- The units that `mbToU16` yields for a row of bytes stand for the valid code point that `mbToCp`
-- reads there: one unit that is no surrogate, with 0 behind it, or a surrogate pair.
pub mb_to_u16_pair :
    (str : List ℕ) {hs ls : ℕ} {rest : List ℕ}
    → All (λ b. b < 256) str
    → mb_to_u16 str ≡ some (hs, ls, rest)
    → (cp : ℕ) × (mb_to_cp str ≡ some (cp, rest)) × (is_valid_cp cp ≡ true) × IsUtf16 hs ls cp
mb_to_u16_pair str {hs} {ls} {rest} h e = split (mb_to_cp str) refl (unfold mb_to_u16 in e)
  where
    split :
        (r : Option (ℕ × List ℕ))
        → mb_to_cp str ≡ r
        → split_cp r ≡ some (hs, ls, rest)
        → (cp : ℕ) × (mb_to_cp str ≡ some (cp, rest)) × (is_valid_cp cp ≡ true) × IsUtf16 hs ls cp
    split none p q = cc
    split (some (cp, s)) p q =
        let ok = mb_to_cp-accepts str h p in
        let t = u16_to_cp-surrogates cp in (cp, ground arith, ok.0, ground (arith, ok.0, t))
