-- ===== src/Io.antt =====
-- include/uix/io.h: the port instructions. What they do is up to the hardware: an `Io S` gives each on
-- the state `S` of the hardware. A byte that is read is below 2 ^ 8, and so on: the callers take
-- the remainder where the type of the C function cuts the value.
pub mod Polling
use uix.Base.{ℕ}
use uix.Pci.{Ports}

pub record Io (S : Type 0) : Type 0 where
  pub outb : S → ℕ → ℕ → S
  pub inb : S → ℕ → S × ℕ
  pub outw : S → ℕ → ℕ → S
  pub inw : S → ℕ → S × ℕ
  pub outl : S → ℕ → ℕ → S
  pub inl : S → ℕ → S × ℕ

-- the two instructions that the configuration space of PCI needs
abbrev pub ports_of : {S : Type 0} → Io S → Ports S
ports_of io = record { out_long = io.outl; in_long = io.inl }
