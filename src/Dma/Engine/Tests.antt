-- ===== src/Dma/Engine/Tests.antt =====
-- Examples of engines: one and two of them, and a status register that gets idle.
use satellite_quic_proxy.Base.{
  ℕ, ◌+◌, ◌*◌, ◌≡◌, refl, true, some, [], length, ltb, if◌then◌else◌, arith,
}
use satellite_quic_proxy.Base.Outcome.{done, fault}
use satellite_quic_proxy.Dma.Buffers.{Buffer}
use satellite_quic_proxy.Dma.Engine.{
  DmaEngine, Setup, device_to_host, is_busy, setup_dma_engines, program_engine, channel_reg,
  reg_src_addr_low, reg_src_addr_high, reg_dst_addr_low, reg_dst_addr_high, reg_transfer_size,
}
use satellite_quic_proxy.Dma.Engine.Waiting.{
  setup_dma_engines_ok, setup_dma_engines_fault, AllReady, SetUp,
}
use satellite_quic_proxy.Dma.Engine.Programming.{program_engine_addresses, address_in, last_value}

-- Busy for three reads, and idle from the fourth on.
abbrev slow : ℕ → ℕ → ℕ
slow i k = if ltb k 3 then 1 else 0

slow-AllReady : (n : ℕ) → AllReady n slow
unfolding is_busy
slow-AllReady n i below = (3, omega arith, refl)

-- Entry `i` is at 0x1000 * (i + 1), with 4 channels.
abbrev infos : ℕ → ℕ × ℕ
infos i = (0x1000 * (i + 1), 4)

setup_dma_engines_ok_example :
    (r : Setup) × (setup_dma_engines (some (record { count = 2; engines = infos })) slow []
      ≡ done r)
    × (r.ok ≡ true)
    × (length r.engines ≡ 2)
    × SetUp 2 infos r.engines
setup_dma_engines_ok_example =
    setup_dma_engines_ok (record { count = 2; engines = infos }) slow [] (omega arith) (omega arith)
      (slow-AllReady 2)

setup_dma_engines_fault_example :
    setup_dma_engines (some (record { count = 5; engines = infos })) slow [] ≡ fault
setup_dma_engines_fault_example =
    setup_dma_engines_fault (record { count = 5; engines = infos }) slow [] (omega arith)
      (slow-AllReady 4)

abbrev engine : DmaEngine
engine = record { base_address = 0xF000; channel_count = 4; busy = true }

abbrev buffer : Buffer
buffer = record {
  virtual_address = 0x7000;
  physical_address = 0x1_2345_6789;
  device_address = 0x100;
  size = 4096;
  id = 1;
}

program_engine_addresses_example :
    let ws = program_engine engine 0 buffer 1024 device_to_host 7 in
    (address_in engine 0 reg_src_addr_low reg_src_addr_high ws ≡ 0x100)
    × (address_in engine 0 reg_dst_addr_low reg_dst_addr_high ws ≡ 0x1_2345_6789)
    × (last_value (channel_reg engine 0 reg_transfer_size) 0 ws ≡ 1024)
program_engine_addresses_example =
    program_engine_addresses engine 0 1024 7 buffer device_to_host (omega arith) (omega arith)
      (omega arith) (omega arith) (omega arith)
