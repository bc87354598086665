-- ===== src/Golang/Binary/Words.antt =====
-- Words that were written big-endian are read back.
use bgp_api.Base.{ℕ, ◌^◌, ◌<◌, ◌≡◌, refl, arith, ◌++◌, length, Bytes}
use bgp_api.Golang.Binary.{put_uint32, uint32, put_uint64, uint64}

pub uint32-put_uint32 : (w : ℕ) (rest : Bytes) → w < 2 ^ 32 → uint32 (put_uint32 w ++ rest) ≡ w
unfolding uint32 put_uint32
uint32-put_uint32 w rest h = omega arith

pub uint64-put_uint64 : (w : ℕ) (rest : Bytes) → w < 2 ^ 64 → uint64 (put_uint64 w ++ rest) ≡ w
unfolding uint64 put_uint64
uint64-put_uint64 w rest h = omega arith

pub length-put_uint32 : (w : ℕ) → length (put_uint32 w) ≡ 4
unfolding put_uint32
length-put_uint32 w = refl

pub length-put_uint64 : (w : ℕ) → length (put_uint64 w) ≡ 8
unfolding put_uint64
length-put_uint64 w = refl
