-- ===== src/Io/Clint/Expiry.antt =====
-- The timer interrupt over the life of the interruptor: no expiry is lost, and none is made up.
use r2vm.Base.{
  ℕ, ◌-◌, ◌/◌, ◌<◌, ◌≤◌, ◌≡◌, ◌≢◌, ◌⊎◌, inl, inr, refl, sym, ◌∙◌, arith, List, Bool, true, false,
  ◌||◌, ◌&&◌, not, ◌==◌, ltb, leb, if◌then◌else◌,
}
use r2vm.Base.{
  zero, suc, replicate, bit_and, not64, get_or, set, length, length-set, length-replicate,
  get_or-replicate_self, get_or-set_self, get_or-set_ne, ◌∷◌,
}
use mathlib.Core.Path.{subst}
use native.Mathlib.Decide.{ℕ_discrete}
use r2vm.Io.Clint.{Clint, Timer, new, write, write_msip, write_mtimecmp, expire, u64_max}

-- A task waits to set the pin of a hart at a time.
pub data Waits (hart time : ℕ) : List Timer → Type 0 where
  here : (rest : List Timer) → Waits hart time (record { hart = hart; time = time } ∷ rest)
  there : (t : Timer) {rest : List Timer} → Waits hart time rest → Waits hart time (t ∷ rest)

-- The second list is the first without one entry `t`.
pub data Takes (t : Timer) : List Timer → List Timer → Type 0 where
  first : (rest : List Timer) → Takes t (t ∷ rest) rest
  further : (u : Timer) {xs ys : List Timer} → Takes t xs ys → Takes t (u ∷ xs) (u ∷ ys)

-- What can become of a new interruptor: time goes on, the bus writes registers, and the tasks whose
-- time has come run, in any order.
pub data Runs (harts : ℕ) : Clint → ℕ → Type 0 where
  start : (now : ℕ) → Runs harts (new harts) now
  goes_on : {s : Clint} {now : ℕ} (later : ℕ) → now ≤ later → Runs harts s now → Runs harts s later
  writes :
      {s : Clint} {now : ℕ} (addr value size : ℕ)
      → Runs harts s now
      → Runs harts (write s now addr value size) now
  expires :
      {s : Clint} {now : ℕ} (t : Timer) (rest : List Timer)
      → Takes t s.timers rest
      → t.time ≤ now
      → Runs harts s now
      → Runs harts (expire (record s { timers = rest }) now t.hart) now

-- A comparator at a time: its pin is high and its time has come, or the pin is low and a task waits for
-- exactly its time, or it has the value of the start.
data Timed (hart cmp : ℕ) (timers : List Timer) (now : ℕ) : Bool → Type 0 where
  raised : cmp ≤ now → Timed hart cmp timers now true
  waiting : Waits hart cmp timers → Timed hart cmp timers now false
  unset : cmp ≡ u64_max → Timed hart cmp timers now false

record IsTimed (s : Clint) (now : ℕ) : Type 0 where
  size : length s.mtip_irqs ≡ length s.mtimecmp
  timed :
      (hart : ℕ)
      → hart < length s.mtimecmp
      → Timed hart (get_or s.mtimecmp hart 0) s.timers now (get_or s.mtip_irqs hart false)

taken :
    {hart time : ℕ} {t : Timer} {xs ys : List Timer}
    → Takes t xs ys
    → Waits hart time xs
    → Waits hart time ys ⊎ ((t.hart ≡ hart) × (t.time ≡ time))
taken (first rest) (here _) = inr (refl, refl)
taken (first rest) (there t w) = inl w
taken (further u p) (here _) = inl (here _)
taken (further u p) (there _ w) = elim (taken p w) [ inl v ↦ inl (there u v) | inr e ↦ inr e ]

later_Timed :
    {hart cmp now : ℕ} {timers : List Timer} {level : Bool} (later : ℕ)
    → now ≤ later
    → Timed hart cmp timers now level
    → Timed hart cmp timers later level
later_Timed later h (raised e) = raised (omega (arith, h, e))
later_Timed later h (waiting w) = waiting w
later_Timed later h (unset e) = unset e

more_Timed :
    {hart cmp now : ℕ} {timers : List Timer} {level : Bool} (t : Timer)
    → Timed hart cmp timers now level
    → Timed hart cmp (t ∷ timers) now level
more_Timed t (raised e) = raised e
more_Timed t (waiting w) = waiting (there t w)
more_Timed t (unset e) = unset e

-- The comparator after a write of it.
fresh_Timed :
    (hart value now : ℕ) (timers : List Timer) (b : Bool)
    → leb value now ≡ b
    → Timed hart value (if b then timers else record { hart = hart; time = value } ∷ timers) now b
fresh_Timed hart value now timers true e = raised (ground (arith, e))
fresh_Timed hart value now timers false e = waiting (here timers)

-- And the other comparators.
other_Timed :
    {hart cmp now : ℕ} {timers : List Timer} {level : Bool} (t : Timer) (b : Bool)
    → Timed hart cmp timers now level
    → Timed hart cmp (if b then timers else t ∷ timers) now level
other_Timed t true h = h
other_Timed t false h = more_Timed t h

module _ (s : Clint) (now : ℕ) (i : IsTimed s now) where
  abbrev At : ℕ → ℕ → ℕ → Type 0
  At hart value n =
      Timed n (get_or (set s.mtimecmp hart value) n 0)
        (if leb value now then s.timers else record { hart = hart; time = value } ∷ s.timers) now
        (get_or (set s.mtip_irqs hart (leb value now)) n false)

  write_mtimecmp-IsTimed :
      (hart value : ℕ) → hart < length s.mtimecmp → IsTimed (write_mtimecmp s now hart value) now
  unfolding write_mtimecmp
  write_mtimecmp-IsTimed hart value h =
      let b = leb value now in
      record {
        size = length-set s.mtip_irqs hart b ∙ i.size ∙ sym (length-set s.mtimecmp hart value);
        timed = λ k hk. elim (ℕ_discrete hart k) [
          | yes e ↦ subst (At hart value) e at_hart
          | no ne ↦
              rw
                (
                  get_or-set_ne s.mtimecmp hart k value 0 ne,
                  get_or-set_ne s.mtip_irqs hart k b false ne,
                )
                (other_Timed (record { hart = hart; time = value }) b
                  (i.timed k (subst (λ n. k < n) (length-set s.mtimecmp hart value) hk)))
        ];
      }
    where
      at_hart : At hart value hart
      at_hart =
          rw
            (
              get_or-set_self s.mtimecmp hart value 0 h,
              get_or-set_self s.mtip_irqs hart (leb value now) false (omega (arith, i.size, h)),
            )
            (fresh_Timed hart value now s.timers (leb value now) refl)

  write_msip-IsTimed : (hart value : ℕ) → IsTimed (write_msip s now hart value) now
  unfolding write_msip
  write_msip-IsTimed hart value = record { size = i.size; timed = i.timed }

  guarded :
      (b : Bool) {x y : Clint}
      → (b ≡ true → IsTimed x now)
      → (b ≡ false → IsTimed y now)
      → IsTimed (if b then x else y) now
  guarded true p q = p refl
  guarded false p q = q refl

  write-IsTimed : (addr value size : ℕ) → IsTimed (write s now addr value size) now
  unfolding write
  write-IsTimed addr value size =
      let base = bit_and addr (not64 4) in
      let hart = (addr - 0x4000) / 8 in
      guarded (ltb size 4) (λ _. i)
        (λ _.
          guarded (leb base 0x3FFF)
            (λ _.
              guarded (not (size == 4) || leb (length s.msip) (addr / 4)) (λ _. i)
                (λ _. write_msip-IsTimed (addr / 4) value))
            (λ _.
              guarded (leb 0x4000 base && leb base 0xBFF7)
                (λ _.
                  guarded (not (size == 8) || leb (length s.mtimecmp) hart) (λ _. i)
                    (λ e. write_mtimecmp-IsTimed hart value (ground (arith, e))))
                (λ _. i)))

  -- The pin of the hart whose task ran.
  run_Timed :
      {hart cmp : ℕ} {xs ys : List Timer} {level : Bool} (t : Timer) (b : Bool)
      → leb cmp now ≡ b
      → Takes t xs ys
      → t.time ≤ now
      → Timed hart cmp xs now level
      → Timed hart cmp ys now b
  run_Timed t true e p due h = raised (ground (arith, e))
  run_Timed t false e p due (raised g) = absurd (ground (arith, e, g))
  run_Timed t false e p due (waiting w) = elim (taken p w) [
    | inl v ↦ waiting v
    | inr q ↦ absurd (ground (arith, e, q.1, due))
  ]
  run_Timed t false e p due (unset u) = unset u

  -- The pins of the others.
  spared_Timed :
      {hart cmp : ℕ} {xs ys : List Timer} {level : Bool} (t : Timer)
      → t.hart ≢ hart
      → Takes t xs ys
      → Timed hart cmp xs now level
      → Timed hart cmp ys now level
  spared_Timed t ne p (raised g) = raised g
  spared_Timed t ne p (waiting w) = elim (taken p w) [
    | inl v ↦ waiting v
    | inr q ↦ absurd (ne (q.0))
  ]
  spared_Timed t ne p (unset u) = unset u

  expire-IsTimed :
      (t : Timer) (rest : List Timer)
      → Takes t s.timers rest
      → t.time ≤ now
      → IsTimed (expire (record s { timers = rest }) now t.hart) now
  unfolding expire
  expire-IsTimed t rest p due =
      let b = leb (get_or s.mtimecmp t.hart 0) now in
      record {
        size = length-set s.mtip_irqs t.hart b ∙ i.size;
        timed = λ k hk. elim (ℕ_discrete t.hart k) [
          | yes e ↦
              subst
                (λ n.
                  n < length s.mtimecmp
                  → Timed n (get_or s.mtimecmp n 0) rest now
                      (get_or (set s.mtip_irqs t.hart b) n false))
                e
                (λ hn.
                  rw (get_or-set_self s.mtip_irqs t.hart b false (omega (arith, i.size, hn)))
                    (run_Timed t b refl p due (i.timed t.hart hn)))
                hk
          | no ne ↦
              rw (get_or-set_ne s.mtip_irqs t.hart k b false ne)
                (spared_Timed t ne p (i.timed k hk))
        ];
      }

new-IsTimed : (harts now : ℕ) → IsTimed (new harts) now
unfolding new
new-IsTimed harts now = record {
  size = length-replicate harts false ∙ sym (length-replicate harts u64_max);
  timed = λ k hk.
      rw (get_or-replicate_self harts k false)
        (unset (inside harts k (subst (λ n. k < n) (length-replicate harts u64_max) hk)));
}
  where
    inside : (n k : ℕ) → k < n → get_or (replicate n u64_max) k 0 ≡ u64_max
    inside zero k h = absurd (omega arith)
    inside (suc n) zero h = refl
    inside (suc n) (suc k) h = inside n k (omega arith)

Runs-IsTimed : {harts now : ℕ} {s : Clint} → Runs harts s now → IsTimed s now
Runs-IsTimed {harts} (start now) = new-IsTimed harts now
Runs-IsTimed (goes_on later h r) =
    let i = Runs-IsTimed r in
    record { size = i.size; timed = λ k hk. later_Timed later h (i.timed k hk) }
Runs-IsTimed {s = _} (writes {s} {now} addr value size r) =
    write-IsTimed s now (Runs-IsTimed r) addr value size
Runs-IsTimed (expires {s} {now} t rest p due r) = expire-IsTimed s now (Runs-IsTimed r) t rest p due

settled :
    {hart cmp now : ℕ} {timers : List Timer} {level : Bool}
    → Timed hart cmp timers now level
    → now < u64_max
    → ((time : ℕ) → Waits hart time timers → now < time)
    → level ≡ leb cmp now
settled (raised e) h idle = ground (arith, e)
settled (waiting w) h idle = ground (arith, idle _ w)
settled (unset e) h idle = ground (arith, e, h)

-- In every state that an interruptor can reach, before the clock reaches 2^64 - 1: once no task of a
-- hart is due, the hart's timer pin is high exactly when the time has reached its comparator. So every
-- expiry raises the pin as soon as the tasks that are due have run, and no pin is high early.
pub timer_pin :
    {harts now : ℕ} {s : Clint}
    → Runs harts s now
    → now < u64_max
    → (hart : ℕ) → hart < length s.mtimecmp
    → ((time : ℕ) → Waits hart time s.timers → now < time)
    → get_or s.mtip_irqs hart false ≡ leb (get_or s.mtimecmp hart 0) now
timer_pin r h hart inside idle = settled ((Runs-IsTimed r).timed hart inside) h idle
