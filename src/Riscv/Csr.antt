-- ===== src/Riscv/Csr.antt =====
-- `lib/riscv/src/csr.rs`: control and status register numbers.
use r2vm.Base.{ℕ, Bool, ◌==◌, ◌>>>◌, bit_and}

-- `struct Csr(pub u16)`.
abbrev pub Csr : Type 0
Csr = ℕ

abbrev pub fflags : Csr
fflags = 0x001

abbrev pub frm : Csr
frm = 0x002

abbrev pub fcsr : Csr
fcsr = 0x003

abbrev pub cycle : Csr
cycle = 0xc00

abbrev pub time : Csr
time = 0xc01

abbrev pub instret : Csr
instret = 0xc02

abbrev pub cycleh : Csr
cycleh = 0xc80

abbrev pub timeh : Csr
timeh = 0xc81

abbrev pub instreth : Csr
instreth = 0xc82

abbrev pub sstatus : Csr
sstatus = 0x100

abbrev pub sie : Csr
sie = 0x104

abbrev pub stvec : Csr
stvec = 0x105

abbrev pub scounteren : Csr
scounteren = 0x106

abbrev pub sscratch : Csr
sscratch = 0x140

abbrev pub sepc : Csr
sepc = 0x141

abbrev pub scause : Csr
scause = 0x142

abbrev pub stval : Csr
stval = 0x143

abbrev pub sip : Csr
sip = 0x144

abbrev pub satp : Csr
satp = 0x180

abbrev pub mvendorid : Csr
mvendorid = 0xf11

abbrev pub marchid : Csr
marchid = 0xf12

abbrev pub mimpid : Csr
mimpid = 0xf13

abbrev pub mhartid : Csr
mhartid = 0xf14

abbrev pub mstatus : Csr
mstatus = 0x300

abbrev pub misa : Csr
misa = 0x301

abbrev pub medeleg : Csr
medeleg = 0x302

abbrev pub mideleg : Csr
mideleg = 0x303

abbrev pub mie : Csr
mie = 0x304

abbrev pub mtvec : Csr
mtvec = 0x305

abbrev pub mcounteren : Csr
mcounteren = 0x306

abbrev pub mscratch : Csr
mscratch = 0x340

abbrev pub mepc : Csr
mepc = 0x341

abbrev pub mcause : Csr
mcause = 0x342

abbrev pub mtval : Csr
mtval = 0x343

abbrev pub mip : Csr
mip = 0x344

abbrev pub mcycle : Csr
mcycle = 0xb00

abbrev pub mtime : Csr
mtime = 0xb01

abbrev pub minstret : Csr
minstret = 0xb02

-- The minimal privilege level required to access the CSR.
unfoldable pub min_prv_level : Csr → ℕ
min_prv_level csr = bit_and (csr >>> 8) 0b11

unfoldable pub readonly : Csr → Bool
readonly csr = bit_and (csr >>> 10) 0b11 == 0b11
