-- ===== src/Repos/ChallengeRepo/Base64.antt =====
-- `Buffer.from(text, 'base64')` over UTF-16 units: both alphabets are read, and what is in neither
-- is skipped. `encode_url` is the unpadded base64url of RFC 4648, as a client writes it.
use nestjs_framework_templat.Prelude.{
  ℕ, ◌+◌, ◌-◌, ◌*◌, ◌/◌, ◌%◌, ◌<◌, ◌≡◌, refl, ◌&&◌, ◌||◌, List, [], ◌∷◌, map, Option, none, some,
  leb, ltb, nat_beq, if◌then◌else◌, All, arith,
}

abbrev pub sextet_of : ℕ → Option ℕ
sextet_of c =
    if leb b'A' c && leb c b'Z'
    then some (c - 65)
    else if leb b'a' c && leb c b'z'
    then some (c - 71)
    else if leb b'0' c && leb c b'9'
    then some (c + 4)
    else if nat_beq c b'+' || nat_beq c b'-'
    then some 62
    else if nat_beq c b'/' || nat_beq c b'_'
    then some 63
    else none

abbrev pub sextets : List ℕ → List ℕ
sextets [] = []
sextets (c ∷ cs) = elim (sextet_of c) [ none ↦ sextets cs | some s ↦ s ∷ sextets cs ]

abbrev pub pack : List ℕ → List ℕ
pack (a ∷ b ∷ c ∷ d ∷ rest) =
    (a * 4 + b / 16) ∷ (b % 16 * 16 + c / 4) ∷ (c % 4 * 64 + d) ∷ pack rest
pack (a ∷ b ∷ c ∷ []) = (a * 4 + b / 16) ∷ (b % 16 * 16 + c / 4) ∷ []
pack (a ∷ b ∷ []) = (a * 4 + b / 16) ∷ []
pack (a ∷ []) = []
pack [] = []

unfoldable pub decode : List ℕ → List ℕ
decode text = pack (sextets text)

abbrev pub url_char : ℕ → ℕ
url_char s =
    if ltb s 26
    then s + 65
    else if ltb s 52
    then s + 71
    else if ltb s 62
    then s - 4
    else if nat_beq s 62
    then b'-'
    else b'_'

abbrev pub unpack : List ℕ → List ℕ
unpack (x ∷ y ∷ z ∷ rest) =
    (x / 4) ∷ (x % 4 * 16 + y / 16) ∷ (y % 16 * 4 + z / 64) ∷ (z % 64) ∷ unpack rest
unpack (x ∷ y ∷ []) = (x / 4) ∷ (x % 4 * 16 + y / 16) ∷ (y % 16 * 4) ∷ []
unpack (x ∷ []) = (x / 4) ∷ (x % 4 * 16) ∷ []
unpack [] = []

unfoldable pub encode_url : List ℕ → List ℕ
encode_url bytes = map url_char (unpack bytes)

abbrev pub IsByte : ℕ → Type 0
IsByte x = x < 256

abbrev pub IsSextet : ℕ → Type 0
IsSextet s = s < 64

pub unpack-IsSextet : (bs : List ℕ) → All IsByte bs → All IsSextet (unpack bs)
unpack-IsSextet (x ∷ y ∷ z ∷ rest) (hx, (hy, (hz, h))) =
    (omega arith, (omega arith, (omega arith, (omega arith, unpack-IsSextet rest h))))
unpack-IsSextet (x ∷ y ∷ []) h = omega arith
unpack-IsSextet (x ∷ []) h = omega arith
unpack-IsSextet [] h = tt

pub pack-unpack : (bs : List ℕ) → All IsByte bs → pack (unpack bs) ≡ bs
pack-unpack (x ∷ y ∷ z ∷ rest) (hx, (hy, (hz, h))) = ground (arith, pack-unpack rest h)
pack-unpack (x ∷ y ∷ []) h = ground arith
pack-unpack (x ∷ []) h = ground arith
pack-unpack [] h = refl
