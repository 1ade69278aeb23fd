-- ===== src/Boot/Kexec/Hostid.antt =====
-- The host id on the command line (boot/src/kexec.rs): four bytes, read backwards, as eight hexadecimal
-- digits.
use zboot.Base.{ℕ, zero, suc, ◌+◌, ◌-◌, ◌*◌, ltb, List, [], ◌∷◌, Str, if◌then◌else◌}

-- The value of a digit and of a text of digits.
unfoldable pub hex_value : ℕ → ℕ
hex_value c = if ltb c b'a' then c - b'0' else c - b'a' + 10

unfoldable pub from_hex : ℕ → Str → ℕ
unfolding hex_value
from_hex n [] = n
from_hex n (c ∷ s) = from_hex (n * 16 + hex_value c) s

pow16 : ℕ → ℕ
pow16 zero = 1
pow16 (suc k) = 16 * pow16 k

-- The number whose bytes are these, the least one first.
unfoldable pub from_bytes : List ℕ → ℕ
from_bytes [] = 0
from_bytes (b ∷ bytes) = b + 256 * from_bytes bytes
