-- ===== src/Frame/Hdma/Pointers.antt =====
-- The pointers of HDMA and of the block moves against the address map of the CPU.
use snesrecomp.Base.{ℕ, ◌+◌, ◌*◌, ◌/◌, ◌^◌, ◌<◌, ◌≡◌, arith, Option, some, u8, u16}
use snesrecomp.Bus.Map.{ram_offset}
use snesrecomp.Frame.Hdma.{in_ram, get_ptr, mvn_ptr}

-- Where the CPU addresses WRAM, an HDMA table and a block move reach the same byte of it.
pub pointers-ram_offset :
    (cart : Option ℕ) (bank addr off : ℕ)
    → bank < 2 ^ 8
    → addr < 2 ^ 16
    → ram_offset bank addr ≡ some off
    → (get_ptr cart (addr + bank * 2 ^ 16) ≡ in_ram off) × (mvn_ptr bank addr ≡ in_ram off)
unfolding ram_offset get_ptr mvn_ptr
pointers-ram_offset cart bank addr off h g e =
    let e1 : u8 ((addr + bank * 2 ^ 16) / 2 ^ 16) ≡ bank = omega arith in
    let e2 : u16 (addr + bank * 2 ^ 16) ≡ addr = omega arith in
    rw (e1, e2) (ground arith, ground arith)
