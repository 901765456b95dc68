-- ===== src/Snes/Arithmetic.antt =====
-- The multiplication and division registers, and the WRAM port.
use snesrecomp.Base.{
  ℕ, ◌+◌, ◌*◌, ◌/◌, ◌%◌, ◌^◌, ◌≤◌, ◌<◌, ◌≡◌, ◌≢◌, word, byte_lo, byte_hi, arith, ap, update,
}
use native.Mathlib.Nat.{div-add-mod', mod-lt, div-le_self}
use snesrecomp.Snes.{Snes, Devices, read_reg, write_reg, write_divisor, read_b_bus, write_b_bus}

-- The quotient and the remainder of natural numbers.
quotient : (n d : ℕ) → d ≢ 0 → (n / d * d + n % d ≡ n) × (n % d < d) × (n / d ≤ n)
quotient n d h = (div-add-mod' n d, mod-lt n (omega arith), div-le_self n d)

module _ {S : Type 0} where
  -- The word at a register and the next one.
  abbrev pub reg_word : Snes S → ℕ → ℕ
  reg_word s adr = word (read_reg s adr).0 (read_reg s (adr + 1)).0

module _ {S : Type 0} (devices : Devices S) where
  -- The dividend in two bytes and the divisor are stored.
  abbrev pub divide : Snes S → ℕ → ℕ → Snes S
  divide s n d =
      write_reg devices
        (write_reg devices (write_reg devices s 0x4204 (byte_lo n)) 0x4205 (byte_hi n)) 0x4206 d

  -- The WRAM port is pointed to an address of 17 bits.
  abbrev pub point : Snes S → ℕ → Snes S
  point s a =
      write_b_bus devices
        (write_b_bus devices (write_b_bus devices s 0x81 (a % 2 ^ 8)) 0x82 (a / 2 ^ 8 % 2 ^ 8)) 0x83
        (a / 2 ^ 16)

  divide-fields :
      (s : Snes S) (n d : ℕ)
      → n < 2 ^ 16
      → divide s n d ≡ write_divisor devices (record s { divide_a = n }) d
  unfolding write_reg
  divide-fields s n d h = ap (λ k. write_divisor devices (record s { divide_a = k }) d) joined
    where
      joined : byte_lo (byte_hi s.divide_a * 2 ^ 8 + byte_lo n) + byte_hi n * 2 ^ 8 ≡ n
      joined = omega arith

  -- After a store of a dividend and a divisor other than 0, the quotient at $4214 and the
  -- remainder at $4216 are those of the division; for a divisor of 0 they are $FFFF and the
  -- dividend.
  pub divide_lem :
      (s : Snes S) (n d : ℕ)
      → n < 2 ^ 16
      → d < 2 ^ 8
      → let q = reg_word (divide s n d) 0x4214 in
        let r = reg_word (divide s n d) 0x4216 in
        (d ≢ 0 → (q * d + r ≡ n) × (r < d)) × (d ≡ 0 → (q ≡ 0xffff) × (r ≡ n))
  divide_lem s n d hn hd =
      let same = divide-fields s n d hn in
      rw same (
        unfold read_reg write_divisor in
        (
          λ h.
              let (whole, less, small) = quotient n d h in
              (ground (arith, whole, less, small), ground (arith, whole, less, small)),
          λ h. (ground arith, ground arith),
        ))

  -- A byte stored through the WRAM port at an address is read through it after the port is pointed
  -- there again, and both leave the port at the next address.
  pub wram_port :
      (s : Snes S) (a v : ℕ)
      → a < 2 ^ 17
      → let s1 = write_b_bus devices (point s a) 0x80 v in
        let r = read_b_bus devices (point s1 a) 0x80 in
        (r.0 ≡ v)
        × (s1.ram_adr ≡ (a + 1) % 2 ^ 17)
        × (r.1.ram_adr ≡ (a + 1) % 2 ^ 17)
        × (s1.ram ≡ update s.ram a v)
  unfolding read_b_bus write_b_bus
  wram_port s a v h = (ground arith, ground arith, ground arith, ground arith)
