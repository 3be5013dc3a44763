-- ===== src/Nvme/Cc/Fields.antt =====
-- The configuration register against the layout that the NVMe specification gives it.
use upcie.Prelude.{
  ℕ, ◌+◌, ◌*◌, ◌/◌, ◌%◌, ◌^◌, ◌≤◌, ◌<◌, ◌≡◌, ◌≢◌, refl, arith, ◌⊎◌, inl, inr, ◌==◌, if◌then◌else◌,
  dec_lt, ℕ_discrete, ltb, ◌||◌, sym, ap, ap₂, ◌∙◌,
}
use upcie.Prelude.Bits.{u32}
use upcie.Bitfield.{bitfield_get, bitfield_set}
use upcie.Bitfield.Bits.{bitfield_set-lt}
use upcie.Bitfield.Laws.{
  bitfield_get_lem, bitfield_get-bitfield_set, bitfield_get-bitfield_set_apart,
}
use upcie.Nvme.Cc.{
  get_en, get_css, get_mps, get_ams, get_shn, get_iocqes, get_iosqes, set_en, set_css, set_mps,
  set_ams, set_shn, set_iosqes, set_iocqes, set_crime,
}

-- The fields of CC in the specification, from the lowest bit on.
pub data CcField : Type 0 where
  en css mps ams shn iosqes iocqes crime : CcField

-- Where the specification puts them.
abbrev pub start : CcField → ℕ
start en = 0
start css = 4
start mps = 7
start ams = 11
start shn = 14
start iosqes = 16
start iocqes = 20
start crime = 24

abbrev pub bits : CcField → ℕ
bits en = 1
bits css = 3
bits mps = 4
bits ams = 3
bits shn = 2
bits iosqes = 4
bits iocqes = 4
bits crime = 1

abbrev pub setter : CcField → ℕ → ℕ → ℕ
setter en = set_en
setter css = set_css
setter mps = set_mps
setter ams = set_ams
setter shn = set_shn
setter iosqes = set_iosqes
setter iocqes = set_iocqes
setter crime = set_crime

-- A field of the register as a number.
abbrev pub field : CcField → ℕ → ℕ
field f cc = cc / 2 ^ start f % 2 ^ bits f

setter_lem :
    (f : CcField) (cc val : ℕ) → setter f cc val ≡ u32 (bitfield_set cc (start f) (bits f) val)
unfolding set_en set_css set_mps set_ams set_shn set_iosqes set_iocqes set_crime
setter_lem en cc val = refl
setter_lem css cc val = refl
setter_lem mps cc val = refl
setter_lem ams cc val = refl
setter_lem shn cc val = refl
setter_lem iosqes cc val = refl
setter_lem iocqes cc val = refl
setter_lem crime cc val = refl

inside : (f : CcField) → start f + bits f ≤ 25
inside en = omega arith
inside css = omega arith
inside mps = omega arith
inside ams = omega arith
inside shn = omega arith
inside iosqes = omega arith
inside iocqes = omega arith
inside crime = omega arith

some_bits : (f : CcField) → 1 ≤ bits f
some_bits en = omega arith
some_bits css = omega arith
some_bits mps = omega arith
some_bits ams = omega arith
some_bits shn = omega arith
some_bits iosqes = omega arith
some_bits iocqes = omega arith
some_bits crime = omega arith

-- A field of the truncated word is the field of the word.
field-u32 : (f : CcField) (x : ℕ) → field f (u32 x) ≡ field f x
field-u32 en x = omega arith
field-u32 css x = omega arith
field-u32 mps x = omega arith
field-u32 ams x = omega arith
field-u32 shn x = omega arith
field-u32 iosqes x = omega arith
field-u32 iocqes x = omega arith
field-u32 crime x = omega arith

-- Where the fields that start above bit `k` begin at the earliest.
abbrev next_start : ℕ → ℕ
next_start k =
    if ltb k 4
    then 4
    else if ltb k 7
    then 7
    else if ltb k 11
    then 11
    else if ltb k 14
    then 14
    else if ltb k 16
    then 16
    else if ltb k 20
    then 20
    else 24

next_start-le : (g : CcField) (k : ℕ) → k < start g → next_start k ≤ start g
next_start-le en k h = ground arith
next_start-le css k h = ground arith
next_start-le mps k h = ground arith
next_start-le ams k h = ground arith
next_start-le shn k h = ground arith
next_start-le iosqes k h = ground arith
next_start-le iocqes k h = ground arith
next_start-le crime k h = ground arith

end-le : (f g : CcField) → start f < start g → start f + bits f ≤ start g
end-le en g h = omega (arith, next_start-le g 0 h)
end-le css g h = omega (arith, next_start-le g 4 h)
end-le mps g h = omega (arith, next_start-le g 7 h)
end-le ams g h = omega (arith, next_start-le g 11 h)
end-le shn g h = omega (arith, next_start-le g 14 h)
end-le iosqes g h = omega (arith, next_start-le g 16 h)
end-le iocqes g h = omega (arith, next_start-le g 20 h)
end-le crime g h = absurd (omega (arith, inside g, some_bits g))

-- Two fields that start at different bits are apart.
apart :
    (f g : CcField)
    → start f ≢ start g
    → (start f + bits f ≤ start g) ⊎ (start g + bits g ≤ start f)
apart f g h = elim (dec_lt (start f) (start g)) [
  | yes p ↦ inl (end-le f g p)
  | no p ↦ inr (end-le g f (omega arith))
]

-- The width of the field that starts at a bit.
abbrev bits_at : ℕ → ℕ
bits_at k =
    if k == 0 || k == 24 then 1 else if k == 4 || k == 11 then 3 else if k == 14 then 2 else 4

bits-start : (f : CcField) → bits f ≡ bits_at (start f)
bits-start en = refl
bits-start css = refl
bits-start mps = refl
bits-start ams = refl
bits-start shn = refl
bits-start iosqes = refl
bits-start iocqes = refl
bits-start crime = refl

same_bits : (f g : CcField) → start f ≡ start g → bits f ≡ bits g
same_bits f g h = bits-start f ∙ ap bits_at h ∙ sym (bits-start g)

-- Each setter writes the field that the specification has under its name and no other: afterwards
-- this field is the low bits of the value, and every other field is what it was.
pub field-setter :
    (f g : CcField) (cc val : ℕ)
    → cc < 2 ^ 32
    → field g (setter f cc val) ≡ (if start f == start g then val % 2 ^ bits g else field g cc)
field-setter f g cc val h =
    let wide : cc < 2 ^ 64 = omega arith in
    let f_in : start f + bits f ≤ 64 = omega (arith, inside f) in
    let g_in : start g + bits g ≤ 64 = omega (arith, inside g) in
    let written : ℕ = bitfield_set cc (start f) (bits f) val in
    let fits : written < 2 ^ 64 = bitfield_set-lt (start f) (bits f) f_in cc val wide in
    rw
      (
        setter_lem f cc val,
        field-u32 g written,
        ← bitfield_get_lem (start g) (bits g) g_in written fits,
      )
      (elim (ℕ_discrete (start f) (start g)) [
        | yes same ↦
            let width : bits f ≡ bits g = same_bits f g same in
            let own = bitfield_get-bitfield_set (start f) (bits f) f_in cc val wide in
            let read : bitfield_get written (start g) (bits g) ≡ val % 2 ^ bits g =
              ap₂ (bitfield_get written) (sym same) (sym width)
              ∙ own
              ∙ ap (λ (k : ℕ). val % 2 ^ k) width in
            ground (arith, read)
        | no ne ↦
            let other =
              bitfield_get-bitfield_set_apart (start f) (bits f) (start g) (bits g) f_in g_in
                (apart f g ne) cc val wide in
            ground (arith, other, bitfield_get_lem (start g) (bits g) g_in cc wide)
      ])

-- Five getters read the field that the specification has under their name. The getter of CSS reads one
-- bit too many, which is the lowest bit of MPS, and the getter of IOSQES reads the bits from 24 on.
pub getters :
    (cc : ℕ)
    → cc < 2 ^ 32
    → (get_en cc ≡ field en cc)
      × (get_mps cc ≡ field mps cc)
      × (get_ams cc ≡ field ams cc)
      × (get_shn cc ≡ field shn cc)
      × (get_iocqes cc ≡ field iocqes cc)
      × (get_css cc ≡ field css cc + field mps cc % 2 * 8)
      × (get_iosqes cc ≡ cc / 2 ^ 24 % 2 ^ 4)
unfolding get_en get_mps get_ams get_shn get_iocqes get_css get_iosqes
getters cc h =
    let wide : cc < 2 ^ 64 = omega arith in
    rw
      (
        bitfield_get_lem 0 1 (omega arith) cc wide,
        bitfield_get_lem 7 4 (omega arith) cc wide,
        bitfield_get_lem 11 3 (omega arith) cc wide,
        bitfield_get_lem 14 2 (omega arith) cc wide,
        bitfield_get_lem 20 4 (omega arith) cc wide,
        bitfield_get_lem 4 4 (omega arith) cc wide,
        bitfield_get_lem 24 4 (omega arith) cc wide,
      )
      (omega arith, omega arith, omega arith, omega arith, omega arith, omega arith, omega arith)

-- IOSQES as it is set is not read back: the getter gives what it gave before.
pub get_iosqes-set_iosqes :
    (cc val : ℕ) → cc < 2 ^ 32 → get_iosqes (set_iosqes cc val) ≡ get_iosqes cc
unfolding get_iosqes set_iosqes
get_iosqes-set_iosqes cc val h =
    let wide : cc < 2 ^ 64 = omega arith in
    let written : ℕ = bitfield_set cc 16 4 val in
    let fits : written < 2 ^ 64 = bitfield_set-lt 16 4 (omega arith) cc val wide in
    let other =
      bitfield_get-bitfield_set_apart 16 4 24 4 (omega arith) (omega arith) (inl (omega arith)) cc
        val wide in
    let low = bitfield_get_lem 24 4 (omega arith) (u32 written) (omega arith) in
    let same = bitfield_get_lem 24 4 (omega arith) written fits in omega (arith, other, low, same)
