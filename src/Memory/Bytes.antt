-- ===== src/Memory/Bytes.antt =====
-- memcpy between a word and a vector of bytes: little-endian, as on the hosts that the build
-- files name. `none` is an access past the end of the vector.
use riscv_sim.Prelude.{ℕ, zero, suc, ◌+◌, ◌*◌, ◌/◌, ◌%◌, List, [], ◌∷◌, Option, none, some}
use mathlib.Core.Option

-- The number that the bytes stand for, and the `size` low bytes of a number.
unfoldable pub from_bytes : List ℕ → ℕ
from_bytes [] = 0
from_bytes (b ∷ bs) = b + 256 * from_bytes bs

unfoldable pub to_bytes : ℕ → ℕ → List ℕ
to_bytes zero val = []
to_bytes (suc size) val = val % 256 ∷ to_bytes size (val / 256)

-- At the front of the vector, and at an offset.
unfoldable pub read_front : ℕ → List ℕ → Option (List ℕ)
read_front zero bytes = some []
read_front (suc size) [] = none
read_front (suc size) (b ∷ bytes) = Option.map (λ r. b ∷ r) (read_front size bytes)

unfoldable pub read_bytes : ℕ → List ℕ → ℕ → Option (List ℕ)
unfolding read_front
read_bytes size bytes zero = read_front size bytes
read_bytes size [] (suc offset) = none
read_bytes size (b ∷ bytes) (suc offset) = read_bytes size bytes offset

unfoldable pub write_front : List ℕ → List ℕ → Option (List ℕ)
write_front [] bytes = some bytes
write_front (v ∷ vs) [] = none
write_front (v ∷ vs) (b ∷ bytes) = Option.map (λ r. v ∷ r) (write_front vs bytes)

unfoldable pub write_bytes : List ℕ → List ℕ → ℕ → Option (List ℕ)
unfolding write_front
write_bytes vs bytes zero = write_front vs bytes
write_bytes vs [] (suc offset) = none
write_bytes vs (b ∷ bytes) (suc offset) = Option.map (λ r. b ∷ r) (write_bytes vs bytes offset)
