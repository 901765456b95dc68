-- ===== src/Frame/Registers/OnBus.antt =====
-- The arithmetic registers of runner/src/snes/snes.c as compiled code uses them: through the CPU bus
-- of runner/src/cpu_state.c and the register functions of runner/src/common_rtl.c.
use snesrecomp.Base.{
  ℕ, ◌+◌, ◌*◌, ◌^◌, ◌<◌, ◌≤◌, ◌≡◌, ◌≢◌, refl, ap, ◌∙◌, arith, true, none, word, byte_lo, byte_hi,
}
use native.Mathlib.Nat.{mul-le-mul}
use snesrecomp.Msu.Files.{Disk}
use snesrecomp.Snes.{Snes, Devices, read_reg, write_reg}
use snesrecomp.Snes.Arithmetic.{reg_word, divide, divide_lem}
use snesrecomp.Bus.Map.{low_bank, ram_offset, is_hw_reg}
use snesrecomp.Bus.Access.{
  Machine, Registers, read16, write8, write16, pace_cycles, hw_log, ram_word_offset,
}
use snesrecomp.Frame.Registers.{
  Rtl, Ports, registers, attach, store_reg, store_internal, load_reg, load_reg_word, store_reg_word,
}

-- Every address of $2000-$5FFF in a system bank is a register.
register_space :
    (bank addr : ℕ)
    → low_bank bank ≡ true
    → 0x2000 ≤ addr
    → addr < 0x6000
    → (ram_offset bank addr ≡ none) × (is_hw_reg bank addr ≡ true)
unfolding ram_offset is_hw_reg
register_space bank addr low p q = ground arith

-- The console as the registers see it.
abbrev pub console : {S : Type 0} → Machine (Rtl S) → Snes S
console m = (attach m).snes

whole_word : (x : ℕ) → x < 2 ^ 16 → word (byte_lo x) (byte_hi x) ≡ x
whole_word x h = omega arith

module _ {S : Type 0} (devices : Devices S) (ports : Ports S) (disk : Disk) where
  abbrev pub bus : Registers (Rtl S)
  bus = registers devices ports disk

  -- What the registers do to the console, the bus does.
  write8-console :
      (m : Machine (Rtl S)) (bank addr v : ℕ) (f : Snes S → Snes S)
      → low_bank bank ≡ true
      → 0x2000 ≤ addr
      → addr < 0x6000
      → ((r : Rtl S) → (store_reg devices ports disk r addr v).snes ≡ f r.snes)
      → console (write8 bus m bank addr v) ≡ f (console m)
  unfolding write8 registers hw_log pace_cycles
  write8-console m bank addr v f low p q h =
      let s = register_space bank addr low p q in rw (s.0, s.1, write8) (h (attach m))

  write16-console :
      (m : Machine (Rtl S)) (bank addr v : ℕ) (f : Snes S → Snes S)
      → low_bank bank ≡ true
      → 0x2000 ≤ addr
      → addr < 0x6000
      → ((r : Rtl S) → (store_reg_word devices ports disk r addr v).snes ≡ f r.snes)
      → console (write16 bus m bank addr v) ≡ f (console m)
  unfolding write16 ram_word_offset registers hw_log pace_cycles
  write16-console m bank addr v f low p q h =
      let s = register_space bank addr low p q in
      rw (s.0, s.1, write16, ram_word_offset) (h (attach m))

  read16-console :
      (m : Machine (Rtl S)) (bank addr : ℕ) (f : Snes S → ℕ)
      → low_bank bank ≡ true
      → 0x2000 ≤ addr
      → addr < 0x6000
      → ((r : Rtl S) → (load_reg_word devices ports disk r addr).0 ≡ f r.snes)
      → (read16 bus m bank addr).0 ≡ f (console m)
  unfolding read16 ram_word_offset registers hw_log pace_cycles
  read16-console m bank addr f low p q h =
      let s = register_space bank addr low p q in
      rw (s.0, s.1, read16, ram_word_offset) (h (attach m))

  product_of :
      (m : Machine (Rtl S)) (bank : ℕ)
      → low_bank bank ≡ true
      → (read16 bus m bank 0x4216).0 ≡ reg_word (console m) 0x4216
  unfolding load_reg_word load_reg read_reg
  product_of m bank low =
      read16-console m bank 0x4216 (λ s. reg_word s 0x4216) low (omega arith) (omega arith)
        (λ r. refl)

  -- A word to the dividend registers and a byte to the divisor.
  abbrev pub divide_on : Machine (Rtl S) → ℕ → ℕ → ℕ → Machine (Rtl S)
  divide_on m bank n d = write8 bus (write16 bus m bank 0x4204 n) bank 0x4206 d

  divide_on-console :
      (m : Machine (Rtl S)) (bank n d : ℕ)
      → low_bank bank ≡ true
      → console (divide_on m bank n d) ≡ divide devices (console m) n d
  unfolding store_reg_word store_reg store_internal
  divide_on-console m bank n d low =
      write8-console (write16 bus m bank 0x4204 n) bank 0x4206 d (λ s. write_reg devices s 0x4206 d)
        low (omega arith) (omega arith) (λ r. refl)
      ∙ ap (λ s. write_reg devices s 0x4206 d)
          (write16-console m bank 0x4204 n
            (λ s. write_reg devices (write_reg devices s 0x4204 (byte_lo n)) 0x4205 (byte_hi n)) low
            (omega arith) (omega arith) (λ r. refl))

  -- Compiled code that stores a dividend and a divisor other than 0 to the registers of a system bank
  -- reads back from $4214 and $4216, as words, the quotient and the remainder.
  pub division_on_bus :
      (m : Machine (Rtl S)) (bank n d : ℕ)
      → low_bank bank ≡ true
      → n < 2 ^ 16
      → d < 2 ^ 8
      → d ≢ 0
      → let q = (read16 bus (divide_on m bank n d) bank 0x4214).0 in
        let r = (read16 bus (divide_on m bank n d) bank 0x4216).0 in (q * d + r ≡ n) × (r < d)
  unfolding load_reg_word load_reg read_reg
  division_on_bus m bank n d low hn hd ne =
      let m1 = divide_on m bank n d in
      let same = divide_on-console m bank n d low in
      let quotient =
        read16-console m1 bank 0x4214 (λ s. reg_word s 0x4214) low (omega arith) (omega arith)
          (λ r. refl) in
      rw (quotient, product_of m1 bank low, same) ((divide_lem devices (console m) n d hn hd).0 ne)

  product_registers :
      (s : Snes S) (a b : ℕ)
      → a < 2 ^ 8
      → b < 2 ^ 8
      → reg_word (write_reg devices (write_reg devices s 0x4202 a) 0x4203 b) 0x4216 ≡ a * b
  unfolding read_reg write_reg
  product_registers s a b ha hb =
      let small : a * b ≤ 255 * 255 =
        mul-le-mul {n₁ = a} {m₁ = b} {n₂ = 255} {m₂ = 255} (omega arith) (omega arith) in
      whole_word (a * b) (omega arith)

  -- Compiled code that stores two factors, as one word or byte by byte, to $4202 and $4203 of a system
  -- bank reads the product back from $4216.
  pub product_on_bus :
      (m : Machine (Rtl S)) (bank a b : ℕ)
      → low_bank bank ≡ true
      → a < 2 ^ 8
      → b < 2 ^ 8
      → ((read16 bus (write16 bus m bank 0x4202 (word a b)) bank 0x4216).0 ≡ a * b)
        × ((read16 bus (write8 bus (write8 bus m bank 0x4202 a) bank 0x4203 b) bank 0x4216).0
            ≡ a * b)
  unfolding store_reg_word store_reg store_internal load_reg_word load_reg read_reg
  product_on_bus m bank a b low ha hb =
      let store = λ (s : Snes S). write_reg devices (write_reg devices s 0x4202 a) 0x4203 b in
      let m1 = write16 bus m bank 0x4202 (word a b) in
      let m2 = write8 bus m bank 0x4202 a in
      let m3 = write8 bus m2 bank 0x4203 b in
      let low_byte : byte_lo (word a b) ≡ a = omega arith in
      let high_byte : byte_hi (word a b) ≡ b = omega arith in
      let at_once : console m1 ≡ store (console m) =
        write16-console m bank 0x4202 (word a b) store low (omega arith) (omega arith) (λ r.
          ap
            (λ x. write_reg devices (write_reg devices r.snes 0x4202 x) 0x4203 (byte_hi (word a b)))
            low_byte
          ∙ ap (λ x. write_reg devices (write_reg devices r.snes 0x4202 a) 0x4203 x) high_byte) in
      let in_turn : console m3 ≡ store (console m) =
        write8-console m2 bank 0x4203 b (λ s. write_reg devices s 0x4203 b) low (omega arith)
          (omega arith) (λ r. refl)
        ∙ ap (λ s. write_reg devices s 0x4203 b)
            (write8-console m bank 0x4202 a (λ s. write_reg devices s 0x4202 a) low (omega arith)
              (omega arith) (λ r. refl)) in
      let product = product_registers (console m) a b ha hb in
      (
        product_of m1 bank low ∙ ap (λ s. reg_word s 0x4216) at_once ∙ product,
        product_of m3 bank low ∙ ap (λ s. reg_word s 0x4216) in_turn ∙ product,
      )
