-- ===== src/Rpc/Faults.antt =====
-- Where the size test of `unmarshall::rawbytes` in rpc/rpc.cc fails.
use simple_distributed_files.Prelude.{
  ℕ, ◌+◌, ◌≤◌, ◌<◌, ◌≡◌, refl, ◌∙◌, true, ◌++◌, none, arith, Bytes, length,
}
use simple_distributed_files.Rpc.Unmarshall.{u32, get_uint, get_rawbytes, get_string}
use simple_distributed_files.Rpc.RoundTrip.{uint_bytes, get_uint-Reads, bind_some}

length-uint_bytes : (n : ℕ) → length (uint_bytes n) ≡ 4
unfolding uint_bytes
length-uint_bytes n = refl

rawbytes_fault :
    (old r : Bytes) (j n : ℕ)
    → n < u32
    → u32 ≤ j + n
    → j + length r < u32
    → get_rawbytes old n (record { ind = j; rest = r; ok = true }) ≡ none
unfolding get_rawbytes
rawbytes_fault old r j n small wraps fits = ground arith

-- The size test adds modulo 2 ^ 32: a string whose size field makes the sum wrap around passes
-- it, and the read goes beyond the buffer, which is shorter than 2 ^ 32 bytes.
pub long_string_faults :
    (old r : Bytes) (i n : ℕ)
    → n < u32
    → u32 ≤ i + 4 + n
    → i + 4 + length r < u32
    → get_string old (record { ind = i; rest = uint_bytes n ++ r; ok = true }) ≡ none
unfolding get_string
long_string_faults old r i n small wraps fits =
    bind_some get_uint _ _ _ n (get_uint-Reads n small i r (rw (length-uint_bytes n) (omega arith)))
    ∙ rawbytes_fault old r (i + length (uint_bytes n)) n small
        (rw (length-uint_bytes n) (omega arith)) (rw (length-uint_bytes n) (omega arith))
