-- ===== src/Fpga/Compression/Tests.antt =====
-- Examples of compression: a run of equal bytes.
use satellite_quic_proxy.Base.{ℕ, ◌≡◌, some, List, [], ◌∷◌, arith}
use satellite_quic_proxy.Fpga.Compression.{compress, decompress}
use satellite_quic_proxy.Fpga.Compression.RoundTrip.{decompress-compress}

abbrev bytes : List ℕ
bytes = 7 ∷ 7 ∷ 7 ∷ 7 ∷ 7 ∷ 1 ∷ 2 ∷ []

decompress-compress_example : decompress (compress bytes) ≡ some bytes
decompress-compress_example = decompress-compress bytes (omega arith)
