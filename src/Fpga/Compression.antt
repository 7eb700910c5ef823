-- ===== src/Fpga/Compression.antt =====
-- SatelliteQUICProxy/proxy/src/fpga_interface.cpp: FPGAInterface::simulateCompressionOperation.
-- The simulated delay is left out. A loop that moves its index on inside its body is a recursion
-- on the list that skips as many elements.
mod Tests
pub mod RoundTrip
use satellite_quic_proxy.Base.{
  ℕ, zero, suc, ◌+◌, ◌/◌, ◌%◌, Bool, true, false, ◌&&◌, ◌||◌, not, Option, none, some, List, [],
  ◌∷◌, ◌++◌, length, drop, replicate, ltb, leb, ◌==◌, if◌then◌else◌, u32_mod,
}
use satellite_quic_proxy.Fpga.Operation.{
  FpgaOperationType, FpgaOperationResult, empty_result, compression, invalid_compression_format,
}

-- The inner `while`: how many of the next bytes equal the current one, `limit` at most.
pub count_repeats : ℕ → ℕ → List ℕ → ℕ
count_repeats zero b xs = 0
count_repeats (suc limit) b [] = 0
count_repeats (suc limit) b (x ∷ xs) = elim (x == b) [
  | true ↦ suc (count_repeats limit b xs)
  | false ↦ 0
]

-- What is written for a run of `count` equal bytes.
pub encode_run : ℕ → ℕ → List ℕ
encode_run count b = if leb 4 count then 0xFF ∷ count ∷ b ∷ [] else replicate count b

-- The loop of the compression; `skip` bytes have been dealt with already.
pub compress_loop : ℕ → List ℕ → List ℕ
compress_loop skip [] = []
compress_loop (suc skip) (b ∷ xs) = compress_loop skip xs
compress_loop zero (b ∷ xs) =
    encode_run (suc (count_repeats 254 b xs)) b ++ compress_loop (count_repeats 254 b xs) xs

-- "QCMP" and the size as a 32-bit number, the lowest byte first.
pub header : ℕ → List ℕ
header size =
    0x51
    ∷ 0x43
    ∷ 0x4D
    ∷ 0x50
    ∷ (size % u32_mod % 0x100)
    ∷ (size % u32_mod / 0x100 % 0x100)
    ∷ (size % u32_mod / 0x1_0000 % 0x100)
    ∷ (size % u32_mod / 0x100_0000 % 0x100)
    ∷ []

pub compress : List ℕ → List ℕ
compress input = header (length input) ++ compress_loop 0 input

-- The loop of the decompression. A marker with fewer than two bytes behind it is a literal.
pub decompress_loop : List ℕ → List ℕ
decompress_loop [] = []
decompress_loop (b ∷ []) = b ∷ []
decompress_loop (b ∷ c ∷ []) = b ∷ c ∷ []
decompress_loop (b ∷ count ∷ value ∷ rest) = elim (b == 0xFF) [
  | true ↦ replicate count value ++ decompress_loop rest
  | false ↦ b ∷ decompress_loop (count ∷ value ∷ rest)
]

-- `none` where the header is refused; the size in it is only used to reserve memory.
pub decompress : List ℕ → Option (List ℕ)
decompress (m0 ∷ m1 ∷ m2 ∷ m3 ∷ s0 ∷ s1 ∷ s2 ∷ s3 ∷ rest) =
    if m0 == 0x51 && m1 == 0x43 && m2 == 0x4D && m3 == 0x50
    then some (decompress_loop rest)
    else none
decompress input = none

-- The result, and the number by which `m_compressionOpsCount` grows: a refused format returns early.
pub simulate_compression_operation : FpgaOperationType → List ℕ → FpgaOperationResult × ℕ
simulate_compression_operation compression input = (
  record empty_result {
    success = true;
    output = compress input;
    bytes_processed = length input % u32_mod;
  },
  1,
)
simulate_compression_operation type input = elim (decompress input) [
  | none ↦ (
    record empty_result {
      bytes_processed = length input % u32_mod;
      error_message = invalid_compression_format;
    },
    0,
  )
  | some output ↦ (
    record empty_result {
      success = true;
      output = output;
      bytes_processed = length input % u32_mod;
    },
    1,
  )
]
