-- ===== src/Riscv/Csr.antt =====
-- The CSRs that the kernel uses, by their numbers.
use beyond_os1k.Base.{ℕ}

abbrev pub sstatus : ℕ
sstatus = 0x100

abbrev pub sie : ℕ
sie = 0x104

abbrev pub stvec : ℕ
stvec = 0x105

abbrev pub sscratch : ℕ
sscratch = 0x140

abbrev pub sepc : ℕ
sepc = 0x141

abbrev pub scause : ℕ
scause = 0x142

abbrev pub satp : ℕ
satp = 0x180
