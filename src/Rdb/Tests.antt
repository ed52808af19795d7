-- ===== src/Rdb/Tests.antt =====
-- Lengths and integers of redis-stable/src/rdb.c in memory streams.
use better_efisis.Prelude.{ℕ, ◌≡◌, refl, true, false, some, List, [], ◌∷◌, ◌++◌, arith, length}
use better_efisis.Prelude.Int.{negsuc}
use better_efisis.Rio.{Rio, Buffer, buffer_backend, init_with_buffer, checksum}
use better_efisis.Rio.Chunks.{IsChunkwise, written, advanced, Ahead}
use better_efisis.Rdb.{save_len, load_len, load_integer, encode_integer, value}
use better_efisis.Rdb.Length.{len_bytes, load_len-save_len}
use better_efisis.Rdb.Integer.{load_integer-encode_integer}

abbrev empty : Rio Buffer
empty = init_with_buffer []

abbrev stored : Rio Buffer
stored = init_with_buffer (0x43 ∷ 0xe8 ∷ 5 ∷ [])

plain-IsChunkwise : (s : List ℕ) → IsChunkwise (init_with_buffer s).update_cksum
unfolding init_with_buffer checksum
plain-IsChunkwise s = (λ c. refl, λ c s t. refl)

stored-Ahead : Ahead stored (len_bytes 1000 ++ 5 ∷ [])
unfolding init_with_buffer
stored-Ahead = record { within = omega arith; left = refl }

load_len-save_len_example :
    (save_len buffer_backend empty 1000 ≡ some (2, written empty (len_bytes 1000)))
    × (load_len buffer_backend stored ≡ (1000, false, advanced stored 2))
load_len-save_len_example =
    load_len-save_len empty stored 1000 (5 ∷ []) (plain-IsChunkwise []) (plain-IsChunkwise _)
      (omega arith) stored-Ahead

abbrev number : Rio Buffer
number = init_with_buffer (0xc1 ∷ 0xd4 ∷ 0xfe ∷ 5 ∷ [])

number-Ahead : Ahead number (encode_integer (negsuc 299) ++ 5 ∷ [])
unfolding init_with_buffer encode_integer
number-Ahead = record { within = omega arith; left = refl }

load_integer-encode_integer_example :
    ((load_len buffer_backend number).1 ≡ true)
    × (load_integer buffer_backend
          (load_len buffer_backend number).2
          (load_len buffer_backend number).0
        ≡ value (negsuc 299) (advanced number (length (encode_integer (negsuc 299)))))
load_integer-encode_integer_example =
    load_integer-encode_integer number (negsuc 299) (5 ∷ []) (plain-IsChunkwise _) (omega arith)
      number-Ahead
