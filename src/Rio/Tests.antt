-- ===== src/Rio/Tests.antt =====
-- Streams of redis-stable/src/rio.c over a memory buffer, with the checksum of RDB files.
use better_efisis.Prelude.{ℕ, refl, Option, some, List, [], ◌∷◌}
use better_efisis.Crc64.{crc64, crc64-append}
use better_efisis.Rio.{Rio, Buffer, checksum}
use better_efisis.Rio.Chunks.{IsChunkwise}

-- `rioGenericUpdateChecksum`
abbrev generic_checksum : Option (ℕ → List ℕ → ℕ)
generic_checksum = some crc64

crc64-IsChunkwise : IsChunkwise generic_checksum
unfolding checksum crc64
crc64-IsChunkwise = (λ c. refl, crc64-append)

abbrev stream : Rio Buffer
stream = record {
  io = record { ptr = 7 ∷ 8 ∷ 9 ∷ 10 ∷ 11 ∷ []; pos = 1 };
  update_cksum = generic_checksum;
  cksum = 0;
  processed_bytes = 0;
  max_processing_chunk = 2;
}
