-- ===== src/Dma/Engine/Programming.antt =====
-- What the registers hold once a transfer has been started, and which engine is taken.
use satellite_quic_proxy.Base.{
  ℕ, ◌+◌, ◌*◌, ◌≤◌, ◌<◌, ◌≡◌, List, [], ◌∷◌, arith, ◌==◌, u32_mod, u64_mod, if◌then◌else◌,
}
use satellite_quic_proxy.Dma.Buffers.{Buffer}
use satellite_quic_proxy.Dma.Engine.{
  DmaEngine, Write, TransferDirection, host_to_device, device_to_host, channel_reg, program_engine,
  reg_src_addr_low, reg_src_addr_high, reg_dst_addr_low, reg_dst_addr_high, reg_transfer_size,
}

-- The value that a register has after a list of writes, from an earlier value on.
abbrev pub last_value : ℕ → ℕ → List Write → ℕ
last_value reg v [] = v
last_value reg v (w ∷ ws) = last_value reg (if w.address == reg then w.value else v) ws

-- An address as the engine puts it together from two registers.
abbrev pub address_in : DmaEngine → ℕ → ℕ → ℕ → List Write → ℕ
address_in e channel low high ws =
    last_value (channel_reg e channel low) 0 ws
    + last_value (channel_reg e channel high) 0 ws * u32_mod

-- For an engine whose registers lie below 2^64, a channel whose offset fits 32 bits and a buffer
-- with 64-bit addresses, the writes put the physical address of the host and the address of the
-- device into the source and destination registers, the way the direction says, whole; and the
-- size, for sizes below 2^32.
pub program_engine_addresses :
    (e : DmaEngine) (channel size transfer_id : ℕ) (b : Buffer) (dir : TransferDirection)
    → e.base_address + channel * 0x100 + 0x100 ≤ u64_mod
    → channel * 0x100 < u32_mod
    → b.physical_address < u64_mod
    → b.device_address < u64_mod
    → size < u32_mod
    → let ws = program_engine e channel b size dir transfer_id in
      let src = address_in e channel reg_src_addr_low reg_src_addr_high ws in
      let dst = address_in e channel reg_dst_addr_low reg_dst_addr_high ws in
      (src ≡ elim dir [ host_to_device ↦ b.physical_address | device_to_host ↦ b.device_address ])
      × (dst ≡ elim dir [ host_to_device ↦ b.device_address | device_to_host ↦ b.physical_address ])
      × (last_value (channel_reg e channel reg_transfer_size) 0 ws ≡ size)
unfolding program_engine channel_reg
program_engine_addresses e channel size transfer_id b host_to_device fits few pa da small =
    ground arith
program_engine_addresses e channel size transfer_id b device_to_host fits few pa da small =
    ground arith
