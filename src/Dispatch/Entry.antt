-- ===== src/Dispatch/Entry.antt =====
-- The lookup with the LoROM bank mirror, which `cpu_dispatch_pc_from`, `cpu_dispatch_call_pc` and
-- `cpu_dispatch_pc_paired` share, and `cpu_dispatch_has_entry`.
use snesrecomp.Base.{
  ℕ, ◌+◌, ◌-◌, ◌/◌, ◌%◌, ◌^◌, ◌<◌, ◌≡◌, List, Bool, true, false, ◌&&◌, ◌||◌, Option, none, some,
  ltb, leb, if◌then◌else◌, test_bit, arith,
}
use snesrecomp.Cpu.{CpuState}
use snesrecomp.Dispatch.Table.{DispatchEntry, mx_index, lookup}

-- `pc24 ^ 0x800000`
unfoldable pub flip_mirror : ℕ → ℕ
flip_mirror pc = if test_bit pc 23 then pc - 2 ^ 23 else pc + 2 ^ 23

-- Banks $00-$3F and $80-$BF share their bytes.
abbrev pub has_mirror : ℕ → Bool
has_mirror pc = let bank = pc / 2 ^ 16 % 2 ^ 8 in ltb bank 0x40 || (leb 0x80 bank && ltb bank 0xc0)

abbrev pub is_some : {A : Type 0} → Option A → Bool
is_some none = false
is_some (some a) = true

module _ {F : Type 0} (table : List (DispatchEntry F)) where
  -- The body for a program counter of 24 bits, and whether it was found through the mirror.
  unfoldable pub find_entry : CpuState → ℕ → Option F × Bool
  unfolding flip_mirror
  find_entry c pc = elim (lookup table (mx_index c) pc) [
    | some f ↦ (some f, false)
    | none ↦
        if has_mirror pc
        then elim (lookup table (mx_index c) (flip_mirror pc)) [
          | some f ↦ (some f, true)
          | none ↦ (none, false)
        ]
        else (none, false)
  ]

  unfoldable pub has_entry : CpuState → ℕ → Bool
  unfolding flip_mirror
  has_entry c pc24 =
      let pc = pc24 % 2 ^ 24 in
      elim (lookup table (mx_index c) pc) [
        | some f ↦ true
        | none ↦
            if has_mirror pc
            then elim (lookup table (mx_index c) (flip_mirror pc)) [ some f ↦ true | none ↦ false ]
            else false
      ]

  -- The probe `cpu_dispatch_has_entry` answers whether a dispatch would find a body.
  pub has_entry-find_entry :
      (c : CpuState) (pc24 : ℕ) → has_entry c pc24 ≡ is_some (find_entry c (pc24 % 2 ^ 24)).0
  unfolding has_entry find_entry
  has_entry-find_entry c pc24 = ground arith

  flip_mirror_twice : (pc : ℕ) → pc < 2 ^ 24 → flip_mirror (flip_mirror pc) ≡ pc
  unfolding flip_mirror
  flip_mirror_twice pc h = ground arith

  has_mirror-flip_mirror : (pc : ℕ) → pc < 2 ^ 24 → has_mirror (flip_mirror pc) ≡ has_mirror pc
  unfolding flip_mirror
  has_mirror-flip_mirror pc h = ground arith

  flip_mirror-lt : (pc : ℕ) → pc < 2 ^ 24 → flip_mirror pc < 2 ^ 24
  unfolding flip_mirror
  flip_mirror-lt pc h = ground arith

  -- An address in a mirrored bank has an entry exactly when its mirror image has one.
  pub has_entry-flip_mirror :
      (c : CpuState) (pc : ℕ)
      → pc < 2 ^ 24
      → has_mirror pc ≡ true
      → has_entry c (flip_mirror pc) ≡ has_entry c pc
  unfolding has_entry
  has_entry-flip_mirror c pc h m =
      ground (arith, flip_mirror_twice pc h, has_mirror-flip_mirror pc h, flip_mirror-lt pc h)
