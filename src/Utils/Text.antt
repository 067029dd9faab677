-- ===== src/Utils/Text.antt =====
-- common/utils/Utils.cpp: toString, the bytes of a message as text.
use radio_mesh.Base.{
  ℕ, ◌/◌, ◌%◌, ◌+◌, ◌≡◌, sym, List, [], ◌∷◌, ◌++◌, is_empty, AllBytes, ltb, leb, ◌&&◌,
  if◌then◌else◌, arith,
}
use mathlib.Core.List.{append-nil, append_assoc}
use radio_mesh.Utils.{hex_digit, convert_to_hex}

pub data DataFormat : Type 0 where
  decimal hexd hexd_spaced ascii : DataFormat

-- `std::to_string` of a uint8_t
unfoldable pub decimal_of : ℕ → List ℕ
decimal_of value =
    if ltb value 10
    then (value + b'0') ∷ []
    else (if ltb value 100
        then (value / 10 + b'0') ∷ (value % 10 + b'0') ∷ []
        else (value / 100 + b'0') ∷ (value / 10 % 10 + b'0') ∷ (value % 10 + b'0') ∷ [])

-- `snprintf` of a uint8_t with "%02X"
unfoldable pub hex_of : ℕ → List ℕ
unfolding hex_digit
hex_of value = hex_digit (value / 16) ∷ hex_digit (value % 16) ∷ []

-- `std::isprint` in the "C" locale, with the dot of toString for what it refuses
unfoldable pub printable : ℕ → ℕ
printable value = if leb 32 value && leb value 126 then value else b'.'

-- A loop of toString that puts a space before each byte but the first; `result` is what it has so far.
unfoldable pub spaced_loop : (ℕ → List ℕ) → List ℕ → List ℕ → List ℕ
spaced_loop show result [] = result
spaced_loop show result (b ∷ rest) =
    spaced_loop show ((if is_empty result then result else result ++ b' ' ∷ []) ++ show b) rest

-- A loop of toString without spaces
unfoldable pub plain_loop : (ℕ → List ℕ) → List ℕ → List ℕ → List ℕ
plain_loop show result [] = result
plain_loop show result (b ∷ rest) = plain_loop show (result ++ show b) rest

-- toString, which has "<<Empty>>" for no bytes
unfoldable pub to_string : List ℕ → DataFormat → List ℕ
unfolding spaced_loop plain_loop decimal_of hex_of printable
to_string [] format = b'<' ∷ b'<' ∷ b'E' ∷ b'm' ∷ b'p' ∷ b't' ∷ b'y' ∷ b'>' ∷ b'>' ∷ []
to_string (b ∷ rest) decimal = spaced_loop decimal_of [] (b ∷ rest)
to_string (b ∷ rest) hexd = plain_loop hex_of [] (b ∷ rest)
to_string (b ∷ rest) hexd_spaced = spaced_loop hex_of [] (b ∷ rest)
to_string (b ∷ rest) ascii = plain_loop (λ value. printable value ∷ []) [] (b ∷ rest)

plain_loop-hex_of :
    (bytes result : List ℕ)
    → AllBytes bytes
    → plain_loop hex_of result bytes ≡ result ++ convert_to_hex bytes
unfolding plain_loop hex_of convert_to_hex
plain_loop-hex_of [] result fits = sym (append-nil result)
plain_loop-hex_of (b ∷ rest) result (fit, fits) =
    let digit : b / 16 % 16 ≡ b / 16 = omega arith in
    rw (digit, plain_loop-hex_of rest (result ++ hex_digit (b / 16) ∷ hex_digit (b % 16) ∷ []) fits)
      (append_assoc result (hex_digit (b / 16) ∷ hex_digit (b % 16) ∷ []) (convert_to_hex rest))

-- On bytes, of which there is one at least, toString with HEXD and convertToHex agree.
pub to_string-convert_to_hex :
    (b : ℕ) (rest : List ℕ)
    → AllBytes (b ∷ rest)
    → to_string (b ∷ rest) hexd ≡ convert_to_hex (b ∷ rest)
unfolding to_string
to_string-convert_to_hex b rest fits = plain_loop-hex_of (b ∷ rest) [] fits
