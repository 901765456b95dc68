-- ===== src/Cpu/Flags.antt =====
-- The packed status register against its mirrors (`cpu_p_to_mirrors`, `cpu_mirrors_to_p`).
use snesrecomp.Base.{ℕ, ◌+◌, ◌*◌, ◌/◌, ◌%◌, ◌^◌, ◌≤◌, ◌<◌, ◌≡◌, refl, arith}
use snesrecomp.Cpu.{CpuState, p_bit, flag_bit, p_to_mirrors, mirrors_to_p, pack_p}

-- Every mirror is 0 or 1.
pub record HasBits (c : CpuState) : Type 0 where
  pub m_le : c.m_flag ≤ 1
  pub x_le : c.x_flag ≤ 1
  pub n_le : c.flag_n ≤ 1
  pub v_le : c.flag_v ≤ 1
  pub z_le : c.flag_z ≤ 1
  pub c_le : c.flag_c ≤ 1
  pub i_le : c.flag_i ≤ 1
  pub d_le : c.flag_d ≤ 1

-- The mirrors say what P says.
abbrev pub InSync : CpuState → Type 0
InSync c = HasBits c × (c.p ≡ pack_p c)

-- A flag of 0 or 1 contributes its multiple of the mask.
flag_bit_of_le : (f b : ℕ) → f ≤ 1 → flag_bit f b ≡ f * b
flag_bit_of_le f b h = grind arith

p_bit_eq : (p k : ℕ) → p_bit p k ≡ p / 2 ^ k % 2
p_bit_eq p k = grind arith

pub pack_p-sum :
    (c : CpuState)
    → HasBits c
    → pack_p c
      ≡ c.m_flag * 32
        + c.x_flag * 16
        + c.flag_c
        + c.flag_z * 2
        + c.flag_i * 4
        + c.flag_d * 8
        + c.flag_v * 64
        + c.flag_n * 128
unfolding pack_p
pack_p-sum c h = omega (
  arith,
  flag_bit_of_le c.m_flag 0x20 h.m_le,
  flag_bit_of_le c.x_flag 0x10 h.x_le,
  flag_bit_of_le c.flag_c 0x01 h.c_le,
  flag_bit_of_le c.flag_z 0x02 h.z_le,
  flag_bit_of_le c.flag_i 0x04 h.i_le,
  flag_bit_of_le c.flag_d 0x08 h.d_le,
  flag_bit_of_le c.flag_v 0x40 h.v_le,
  flag_bit_of_le c.flag_n 0x80 h.n_le,
)

-- The mirrors after `cpu_p_to_mirrors` are the bits of P.
p_to_mirrors-HasBits : (c : CpuState) → HasBits (p_to_mirrors c)
unfolding p_to_mirrors
p_to_mirrors-HasBits c = omega (
  arith,
  p_bit_eq c.p 0,
  p_bit_eq c.p 1,
  p_bit_eq c.p 2,
  p_bit_eq c.p 3,
  p_bit_eq c.p 4,
  p_bit_eq c.p 5,
  p_bit_eq c.p 6,
  p_bit_eq c.p 7,
)

-- A byte is the sum of its bits.
byte-bits :
    (p : ℕ)
    → p < 2 ^ 8
    → p / 2 ^ 5 % 2 * 32
        + p / 2 ^ 4 % 2 * 16
        + p / 2 ^ 0 % 2
        + p / 2 ^ 1 % 2 * 2
        + p / 2 ^ 2 % 2 * 4
        + p / 2 ^ 3 % 2 * 8
        + p / 2 ^ 6 % 2 * 64
        + p / 2 ^ 7 % 2 * 128
      ≡ p
byte-bits p h = omega arith

ruleset p_bits = (arith, p_bit_eq)

pack_p-p_to_mirrors : (c : CpuState) → c.p < 2 ^ 8 → pack_p (p_to_mirrors c) ≡ c.p
pack_p-p_to_mirrors c h =
    omega (
      p_bits,
      bits_of_mirrors,
      pack_p-sum (p_to_mirrors c) (p_to_mirrors-HasBits c),
      byte-bits c.p h,
    )
  where
    bits_of_mirrors :
        ((p_to_mirrors c).m_flag ≡ p_bit c.p 5)
        × ((p_to_mirrors c).x_flag ≡ p_bit c.p 4)
        × ((p_to_mirrors c).flag_c ≡ p_bit c.p 0)
        × ((p_to_mirrors c).flag_z ≡ p_bit c.p 1)
        × ((p_to_mirrors c).flag_i ≡ p_bit c.p 2)
        × ((p_to_mirrors c).flag_d ≡ p_bit c.p 3)
        × ((p_to_mirrors c).flag_v ≡ p_bit c.p 6)
        × ((p_to_mirrors c).flag_n ≡ p_bit c.p 7)
    bits_of_mirrors = unfold p_to_mirrors in (refl, refl, refl, refl, refl, refl, refl, refl)

pack_p-lt : (c : CpuState) → HasBits c → pack_p c < 2 ^ 8
pack_p-lt c h = omega (arith, pack_p-sum c h)

mirrors_to_p-HasBits : (c : CpuState) → HasBits c → HasBits (mirrors_to_p c)
unfolding mirrors_to_p
mirrors_to_p-HasBits c h = omega arith

-- After `cpu_mirrors_to_p` the mirrors, each 0 or 1, say what P says.
pub mirrors_to_p-InSync : (c : CpuState) → HasBits c → InSync (mirrors_to_p c)
mirrors_to_p-InSync c h = (mirrors_to_p-HasBits c h, packed)
  where
    packed : (mirrors_to_p c).p ≡ pack_p (mirrors_to_p c)
    packed = unfold mirrors_to_p pack_p in omega (arith, pack_p-lt c h)

-- Unpacking P into the mirrors and packing them again gives P back, for every byte P, and leaves
-- the mirrors saying what P says.
pub mirrors_to_p-p_to_mirrors :
    (c : CpuState)
    → c.p < 2 ^ 8
    → ((mirrors_to_p (p_to_mirrors c)).p ≡ c.p) × InSync (mirrors_to_p (p_to_mirrors c))
mirrors_to_p-p_to_mirrors c h =
    (same, mirrors_to_p-InSync (p_to_mirrors c) (p_to_mirrors-HasBits c))
  where
    same : (mirrors_to_p (p_to_mirrors c)).p ≡ c.p
    same = unfold mirrors_to_p in omega (arith, pack_p-p_to_mirrors c h)

bits_of_packed :
    (c : CpuState)
    → HasBits c
    → let q = (mirrors_to_p c).p in
      (p_bit q 5 ≡ c.m_flag)
      × (p_bit q 4 ≡ c.x_flag)
      × (p_bit q 0 ≡ c.flag_c)
      × (p_bit q 1 ≡ c.flag_z)
      × (p_bit q 2 ≡ c.flag_i)
      × (p_bit q 3 ≡ c.flag_d)
      × (p_bit q 6 ≡ c.flag_v)
      × (p_bit q 7 ≡ c.flag_n)
bits_of_packed c h = omega (p_bits, packed)
  where
    packed :
        (mirrors_to_p c).p
        ≡ c.m_flag * 32
          + c.x_flag * 16
          + c.flag_c
          + c.flag_z * 2
          + c.flag_i * 4
          + c.flag_d * 8
          + c.flag_v * 64
          + c.flag_n * 128
    packed = unfold mirrors_to_p in omega (arith, pack_p-sum c h, pack_p-lt c h)

-- Packing the mirrors, each 0 or 1, into P and unpacking P again changes no register and no flag.
pub p_to_mirrors-mirrors_to_p :
    (c : CpuState) → HasBits c → p_to_mirrors (mirrors_to_p c) ≡ mirrors_to_p c
unfolding p_to_mirrors
p_to_mirrors-mirrors_to_p c h = ground (arith, bits_of_packed c h, kept)
  where
    kept :
        ((mirrors_to_p c).m_flag ≡ c.m_flag)
        × ((mirrors_to_p c).x_flag ≡ c.x_flag)
        × ((mirrors_to_p c).flag_c ≡ c.flag_c)
        × ((mirrors_to_p c).flag_z ≡ c.flag_z)
        × ((mirrors_to_p c).flag_i ≡ c.flag_i)
        × ((mirrors_to_p c).flag_d ≡ c.flag_d)
        × ((mirrors_to_p c).flag_v ≡ c.flag_v)
        × ((mirrors_to_p c).flag_n ≡ c.flag_n)
    kept = unfold mirrors_to_p in (refl, refl, refl, refl, refl, refl, refl, refl)
