-- ===== src/Cache/Keys.antt =====
-- libvmi/cache.c: the 128-bit keys of the two-level caches.
use libvmi.Common.{
  ℕ, ◌*◌, ◌/◌, ◌%◌, ◌^◌, ◌-◌, ◌+◌, bit_xor, Bool, true, ◌==◌, ◌&&◌, ltb, if◌then◌else◌, ◌≡◌, arith,
}

-- struct key_128
pub record Key128 : Type 0 where
  pub low : ℕ
  pub high : ℕ

unfoldable pub hash128to64 : ℕ → ℕ → ℕ
hash128to64 low high =
    let k_mul : ℕ = 0x9ddfea08eb382d69 in
    let a = bit_xor low high * k_mul % 2 ^ 64 in
    let a = bit_xor a (a / 2 ^ 47) in
    let b = bit_xor high a * k_mul % 2 ^ 64 in let b = bit_xor b (b / 2 ^ 47) in b * k_mul % 2 ^ 64

-- g_int64_hash is glib's.
unfoldable pub key_128_hash : (ℕ → ℕ) → Key128 → ℕ
key_128_hash g_int64_hash key = g_int64_hash (hash128to64 key.low key.high)

abbrev pub key_128_equals : Key128 → Key128 → Bool
key_128_equals key1 key2 = key1.low == key2.low && key1.high == key2.high

abbrev pub key_128_init : ℕ → ℕ → Key128
key_128_init low high = record { low = low; high = high }

-- A vmi_pid_t, as the bit pattern of an int32_t, in a uint64_t: the sign is extended.
unfoldable pub pid_to_u64 : ℕ → ℕ
pid_to_u64 pid = if ltb pid (2 ^ 31) then pid else pid + (2 ^ 64 - 2 ^ 32)

-- glib requires of a table's two functions that equal keys have the same hash.
pub key_128_hash-equals :
    (g_int64_hash : ℕ → ℕ) (key1 key2 : Key128)
    → key_128_equals key1 key2 ≡ true
    → key_128_hash g_int64_hash key1 ≡ key_128_hash g_int64_hash key2
unfolding key_128_hash
key_128_hash-equals g_int64_hash key1 key2 h = ground arith
