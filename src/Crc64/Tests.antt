-- ===== src/Crc64/Tests.antt =====
-- The test of redis-stable/src/crc64.c itself.
use better_efisis.Prelude.{◌≡◌, refl, [], ◌∷◌}
use better_efisis.Crc64.{crc64}

digits_one_to_nine :
    crc64 0 (b'1' ∷ b'2' ∷ b'3' ∷ b'4' ∷ b'5' ∷ b'6' ∷ b'7' ∷ b'8' ∷ b'9' ∷ []) ≡ 0xe9c6d914c4b8d9ca
unfolding crc64
digits_one_to_nine = refl
