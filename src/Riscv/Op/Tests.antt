-- ===== src/Riscv/Op/Tests.antt =====
-- Concrete values of the tables on operations.
use r2vm.Base.{◌≡◌, refl, true, false}
use r2vm.Riscv.Csr
use r2vm.Riscv.Op
use r2vm.Riscv.Op.Info.{can_change_control_flow, is_special_csr, min_prv_level}

satp-ends_block : can_change_control_flow (Op.csrrw 0 5 Csr.satp) ≡ true
unfolding can_change_control_flow is_special_csr
satp-ends_block = refl

mstatus-stays_in_block : can_change_control_flow (Op.csrrw 0 5 Csr.mstatus) ≡ false
unfolding can_change_control_flow is_special_csr
mstatus-stays_in_block = refl

mstatus-needs_machine : min_prv_level (Op.csrrw 0 5 Csr.mstatus) ≡ 3
unfolding min_prv_level Csr.min_prv_level
mstatus-needs_machine = refl
