-- ===== src/Pci/Ports.antt =====
-- common.c: the six port instructions. What stands behind the ports is a parameter, which answers
-- an access of some width at some port and may change its state.
use grub_os_iso_image.Common.{ℕ, u8, u16, u32, Run, ok, fault, out_of_fuel}

pub record Ports (D : Type 0) : Type 0 where
  pub out_port : ℕ → ℕ → ℕ → D → D
  pub in_port : ℕ → ℕ → D → ℕ × D

-- A piece of C that accesses the ports.
abbrev pub Io : Type 0 → Type 0 → Type 0
Io D A = D → Run (A × D)

abbrev pub done : {D A : Type 0} → A → Io D A
done a d = ok (a, d)

module _ {D A B : Type 0} where
  abbrev pub and_then : Run (A × D) → (A → Io D B) → Run (B × D)
  and_then (ok (a, d)) k = k a d
  and_then fault k = fault
  and_then out_of_fuel k = out_of_fuel

  infixl 5 ◌>>=◌ ◌>>◌
  abbrev pub ◌>>=◌ : Io D A → (A → Io D B) → Io D B
  m >>= k = λ d. and_then (m d) k

  abbrev pub ◌>>◌ : Io D A → Io D B → Io D B
  m >> n = m >>= λ _. n

-- The conversions of the arguments and of the result are those of the C signatures.
module _ {D : Type 0} (ports : Ports D) where
  unfoldable pub outb : ℕ → ℕ → Io D (Unit {0})
  outb value port d = ok (tt, ports.out_port 8 (u8 value) (u16 port) d)

  unfoldable pub outw : ℕ → ℕ → Io D (Unit {0})
  outw value port d = ok (tt, ports.out_port 16 (u16 value) (u16 port) d)

  unfoldable pub outl : ℕ → ℕ → Io D (Unit {0})
  outl value port d = ok (tt, ports.out_port 32 (u32 value) (u16 port) d)

  unfoldable pub inb : ℕ → Io D ℕ
  inb port d = let (value, d') = ports.in_port 8 (u16 port) d in ok (u8 value, d')

  unfoldable pub inw : ℕ → Io D ℕ
  inw port d = let (value, d') = ports.in_port 16 (u16 port) d in ok (u16 value, d')

  unfoldable pub inl : ℕ → Io D ℕ
  inl port d = let (value, d') = ports.in_port 32 (u16 port) d in ok (u32 value, d')
