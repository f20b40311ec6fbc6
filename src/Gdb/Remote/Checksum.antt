-- ===== src/Gdb/Remote/Checksum.antt =====
-- gdb-remote.c: the checksum of a packet, and its two hexadecimal digits.
use libstlink.Prelude.{
  ℕ, ◌+◌, ◌/◌, ◌%◌, ◌^◌, ◌<◌, ◌≡◌, refl, true, List, [], ◌∷◌, passes, passes-lt, arith, ◌==◌,
  ==_iff,
}
use libstlink.Gdb.Remote.{hex_digit, sum_bytes, cksum_value}

hex_table :
    passes (λ n. cksum_value (hex_digit (n / 2 ^ 4)) (hex_digit (n % 2 ^ 4)) == n) 256 ≡ true
unfolding passes cksum_value
hex_table = refl

-- The two digits that are sent for a checksum are read back as the checksum.
pub cksum_value-hex_digit :
    (x : ℕ) → x < 256 → cksum_value (hex_digit (x / 2 ^ 4)) (hex_digit (x % 2 ^ 4)) ≡ x
cksum_value-hex_digit x h = (==_iff _ x).0 (passes-lt _ 256 hex_table x h)

pub sum_bytes-lt : (k : ℕ) (cs : List ℕ) → k < 256 → sum_bytes k cs < 256
unfolding sum_bytes
sum_bytes-lt k [] h = h
sum_bytes-lt k (c ∷ cs) h = sum_bytes-lt ((k + c) % 2 ^ 8) cs (omega arith)

-- The sum from a start value is the start value plus the sum from 0.
pub sum_bytes-carry :
    (k j : ℕ) (cs : List ℕ) → sum_bytes ((k + j) % 256) cs ≡ (k + sum_bytes (j % 256) cs) % 256
unfolding sum_bytes
sum_bytes-carry k j [] = omega arith
sum_bytes-carry k j (c ∷ cs) =
    let e : ((k + j) % 256 + c) % 256 ≡ (k + (j + c)) % 256 = omega arith in
    let f : (j % 256 + c) % 256 ≡ (j + c) % 256 = omega arith in
    rw (e, f) (sum_bytes-carry k (j + c) cs)
