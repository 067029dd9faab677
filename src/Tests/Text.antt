-- ===== src/Tests/Text.antt =====
-- toString at concrete inputs.
use radio_mesh.Base.{◌≡◌, refl, [], ◌∷◌}
use radio_mesh.Utils.{hex_digit}
use radio_mesh.Utils.Text.{
  to_string, decimal, hexd_spaced, ascii, spaced_loop, plain_loop, decimal_of, hex_of, printable,
}

in_decimal :
    to_string (7 ∷ 42 ∷ 205 ∷ []) decimal
    ≡ b'7' ∷ b' ' ∷ b'4' ∷ b'2' ∷ b' ' ∷ b'2' ∷ b'0' ∷ b'5' ∷ []
unfolding to_string spaced_loop decimal_of
in_decimal = refl

in_hex : to_string (7 ∷ 0xAF ∷ []) hexd_spaced ≡ b'0' ∷ b'7' ∷ b' ' ∷ b'A' ∷ b'F' ∷ []
unfolding to_string spaced_loop hex_of hex_digit
in_hex = refl

in_ascii : to_string (b'h' ∷ 10 ∷ []) ascii ≡ b'h' ∷ b'.' ∷ []
unfolding to_string plain_loop printable
in_ascii = refl
