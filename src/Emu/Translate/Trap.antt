-- ===== src/Emu/Translate/Trap.antt =====
-- Traps and the returns from them flush the caches where they change the translation.
use r2vm.Base.{
  ℕ, ◌<◌, ◌≤◌, leb, ◌≡◌, ◌≢◌, ◌⊎◌, inl, inr, refl, sym, ◌∙◌, arith, Bool, Bool-cases, ◌==◌,
}
use r2vm.Base.{
  true, false, not, ◌&&◌, if◌then◌else◌, bit_and, flag, is_set, is_set-flag, ◌>>>◌, Option, some,
  none_ne_some, some_injective,
}
use mathlib.Core.Path.{subst}
use r2vm.Emu.Context.{Context, Env, SharedContext, Leaves, clear_caches, alert_if_pending}
use r2vm.Emu.Trap.{
  trap, trap_to_s, trap_to_m, sret, mret, status_to_s, status_to_m, status_of_sret, status_of_mret,
  delegated,
}
use r2vm.Emu.Trap.Status.{
  flag-status_to_s, flag-status_to_m, flag-status_of_mret, flag-status_of_sret,
}
use r2vm.Emu.Translate.{MemoryModel, access_prv}
use r2vm.Emu.Translate.Coherence.{HasCoherentCaches, IsCoherent}
use r2vm.Emu.Translate.Switch.{
  SameView, refl-SameView, flags-SameView, same-IsCoherent, clear_caches-IsCoherent,
}
use r2vm.Emu.Translate.Csr.{alert_if_pending-SameLines}

-- Without MPRV an access is made at the privilege of the hart.
plain_mode : (prv a : ℕ) (access : _) → flag a 17 ≡ 0 → access_prv prv a access ≡ prv
unfolding access_prv
plain_mode prv a access off = ground (arith, is_set-flag a 17, off)

plain-SameView :
    (prv a b : ℕ)
    → flag a 17 ≡ 0
    → flag b 17 ≡ 0
    → flag a 18 ≡ flag b 18
    → flag a 19 ≡ flag b 19
    → SameView prv a b
plain-SameView prv a b p q sum mxr = record {
  sum = sum;
  mxr = mxr;
  mode = λ access. plain_mode prv a access p ∙ sym (plain_mode prv b access q);
}

-- To and from S mode the bits that matter stay.
to_s-SameView : (prv p m : ℕ) → SameView p (status_to_s prv m) m
to_s-SameView prv p m =
    flags-SameView p (status_to_s prv m) m (keep 11 refl (omega arith)) (keep 12 refl (omega arith))
      (keep 17 refl (omega arith)) (keep 18 refl (omega arith)) (keep 19 refl (omega arith))
  where
    keep : (k : ℕ) → (leb 10 k) ≡ true → k < 64 → flag (status_to_s prv m) k ≡ flag m k
    keep k far h = ground (arith, flag-status_to_s prv m k h, far)

from_s-SameView : (prv m : ℕ) → SameView prv (status_of_sret m) m
from_s-SameView prv m =
    flags-SameView prv (status_of_sret m) m (keep 11 refl (omega arith))
      (keep 12 refl (omega arith)) (keep 17 refl (omega arith)) (keep 18 refl (omega arith))
      (keep 19 refl (omega arith))
  where
    keep : (k : ℕ) → (leb 10 k) ≡ true → k < 64 → flag (status_of_sret m) k ≡ flag m k
    keep k far h = ground (arith, flag-status_of_sret m k h, far)

to_m-SameView : (prv p m : ℕ) → prv < 4 → flag m 17 ≡ 0 → SameView p (status_to_m prv m) m
to_m-SameView prv p m h off =
    plain-SameView p (status_to_m prv m) m (keep 17 refl (omega arith) ∙ off) off
      (keep 18 refl (omega arith)) (keep 19 refl (omega arith))
  where
    keep : (k : ℕ) → (leb 13 k) ≡ true → k < 64 → flag (status_to_m prv m) k ≡ flag m k
    keep k far hk = ground (arith, flag-status_to_m prv m k h hk, far)

from_m-SameView : (prv m : ℕ) → flag m 17 ≡ 0 → SameView prv (status_of_mret m) m
from_m-SameView prv m off =
    plain-SameView prv (status_of_mret m) m (keep 17 refl (omega arith) ∙ off) off
      (keep 18 refl (omega arith)) (keep 19 refl (omega arith))
  where
    keep : (k : ℕ) → (leb 13 k) ≡ true → k < 64 → flag (status_of_mret m) k ≡ flag m k
    keep k far hk = ground (arith, flag-status_of_mret m k hk, far)

below_m : (c : Context) → delegated c ≡ true → (c.prv == 3) ≡ false
unfolding delegated
below_m c t = both (c.prv == 3) _ t
  where
    both : (b x : Bool) → (not b && x) ≡ true → b ≡ false
    both true x h = absurd (ground (arith, h))
    both false x h = refl

module _ (model : MemoryModel) (read_memory : ℕ → ℕ) where
  abbrev Fine : Context → Type 0
  Fine = HasCoherentCaches model read_memory

  flushed :
      (satp prv status : ℕ) (c : Context)
      → Fine c
      → IsCoherent model read_memory satp prv status (clear_caches c.shared)
  flushed satp prv status c fine =
      clear_caches-IsCoherent model read_memory satp prv status c.shared fine.size fine.i_size

  -- The alarm is not part of it.
  alerted : (c : Context) → Fine c → Fine (alert_if_pending c)
  unfolding alert_if_pending
  alerted c fine =
      let lines = alert_if_pending-SameLines c in
      same-IsCoherent model read_memory c.satp c.prv c.mstatus c.mstatus c.shared
        (alert_if_pending c).shared (refl-SameView c.prv c.mstatus) lines.data_lines
        lines.code_lines fine

  either_way :
      (b : Bool) (satp prv status : ℕ) (s t : SharedContext)
      → (b ≡ true → IsCoherent model read_memory satp prv status s)
      → (b ≡ false → IsCoherent model read_memory satp prv status t)
      → IsCoherent model read_memory satp prv status (if b then s else t)
  either_way true satp prv status s t p q = p refl
  either_way false satp prv status s t p q = q refl

  -- The lines stay, for a privilege that is the old one and a status word with the same view.
  stays :
      (c : Context) (prv status : ℕ)
      → Fine c
      → c.prv ≡ prv
      → SameView prv status c.mstatus
      → IsCoherent model read_memory c.satp prv status c.shared
  stays c prv status fine e view =
      same-IsCoherent model read_memory c.satp prv status c.mstatus c.shared c.shared view refl refl
        (subst (λ p. IsCoherent model read_memory c.satp p c.mstatus c.shared) e fine)

  to_s-Fine : (c : Context) → c.prv ≤ 1 → Fine c → Fine (trap_to_s c)
  unfolding trap_to_s
  to_s-Fine c h fine =
      let status = status_to_s c.prv c.mstatus in
      either_way (not (c.prv == 0)) c.satp 1 status c.shared (clear_caches c.shared)
        (λ e. stays c 1 status fine (ground (arith, e, h)) (to_s-SameView c.prv 1 c.mstatus))
        (λ _. flushed c.satp 1 status c fine)

  to_m-Fine : (c : Context) → c.prv < 4 → flag c.mstatus 17 ≡ 0 → Fine c → Fine (trap_to_m c)
  unfolding trap_to_m
  to_m-Fine c h off fine =
      let status = status_to_m c.prv c.mstatus in
      either_way (not (c.prv == 3)) c.satp 3 status (clear_caches c.shared) c.shared
        (λ _. flushed c.satp 3 status c fine)
        (λ e. stays c 3 status fine (ground (arith, e)) (to_m-SameView c.prv 3 c.mstatus h off))

  chosen :
      (b : Bool) (c : Context) {o : Option Context} {d : Context}
      → ((e : Context) → o ≡ some e → Fine e)
      → (b ≡ true → Fine c)
      → (if b then some c else o) ≡ some d
      → Fine d
  chosen true c p q h = subst Fine (some_injective h) (q refl)
  chosen false c p q h = p _ h

  -- A trap leaves the caches coherent, to whichever mode it goes, if MPRV is clear.
  pub trap-HasCoherentCaches :
      (env : Env) (c d : Context)
      → (c.prv ≤ 1) ⊎ (c.prv ≡ 3)
      → flag c.mstatus 17 ≡ 0
      → HasCoherentCaches model read_memory c
      → trap env c ≡ some d
      → HasCoherentCaches model read_memory d
  unfolding trap delegated
  trap-HasCoherentCaches env c d modes off fine h = elim (Bool-cases (env.flags_prv == 0)) [
    | inl e ↦ absurd (none_ne_some (rw e at h))
    | inr e ↦
        chosen (delegated c) (trap_to_s c)
          (λ x q.
            chosen (env.flags_prv == 3) (trap_to_m c) (λ y r. absurd (none_ne_some r))
              (λ _. to_m-Fine c (ground (arith, modes)) off fine) q)
          (λ t. to_s-Fine c (ground (arith, modes, below_m c t)) fine) (rw e at h)
  ]

  -- SRET from S mode leaves the caches coherent.
  pub sret-HasCoherentCaches :
      (c : Context)
      → c.prv ≡ 1
      → HasCoherentCaches model read_memory c
      → Leaves (sret c) (HasCoherentCaches model read_memory)
  unfolding sret
  sret-HasCoherentCaches c h fine =
      let status = status_of_sret c.mstatus in
      let from_s = is_set c.mstatus 0x100 in
      let prv : ℕ = if from_s then 1 else 0 in
      let shared = if from_s then c.shared else clear_caches c.shared in
      alerted (record c { pc = c.sepc; prv = prv; mstatus = status; shared = shared })
        (either_way from_s c.satp prv status c.shared (clear_caches c.shared)
          (λ e. stays c prv status fine (h ∙ ground (arith, e)) (from_s-SameView prv c.mstatus))
          (λ _. flushed c.satp prv status c fine))

  -- MRET from M mode leaves the caches coherent, if MPRV is clear and MPP is not the reserved mode 2.
  pub mret-HasCoherentCaches :
      (c : Context)
      → c.prv ≡ 3
      → flag c.mstatus 17 ≡ 0
      → bit_and c.mstatus 0x1800 >>> 11 ≢ 2
      → HasCoherentCaches model read_memory c
      → Leaves (mret c) (HasCoherentCaches model read_memory)
  unfolding mret
  mret-HasCoherentCaches c h off legal fine =
      let status = status_of_mret c.mstatus in
      let prv = bit_and c.mstatus 0x1800 >>> 11 in
      let shared = if not (prv == 3) then clear_caches c.shared else c.shared in
      elim (Bool-cases (prv == 2)) [
        | inl e ↦ absurd (legal (ground (arith, e)))
        | inr e ↦ rw e (
            alerted (record c { pc = c.mepc; prv = prv; mstatus = status; shared = shared })
              (either_way (not (prv == 3)) c.satp prv status (clear_caches c.shared) c.shared
                (λ _. flushed c.satp prv status c fine)
                (λ q.
                  stays c prv status fine (h ∙ ground (arith, q))
                    (from_m-SameView prv c.mstatus off))))
      ]
