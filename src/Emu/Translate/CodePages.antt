-- ===== src/Emu/Translate/CodePages.antt =====
-- Which pages `icache_invalidate` of `src/emu/interp.rs` takes out of `CODE_PROT`, and which harts it tells.
use Prim.Native.Nat.{◌≤◌}
use r2vm.Base.{
  ℕ, zero, suc, ◌+◌, ◌-◌, ◌*◌, ◌/◌, ◌^◌, ◌<◌, ◌≡◌, ◌⊎◌, inl, inr, refl, sym, ap, ◌∙◌, arith, List,
  [], ◌∷◌, map, Bool, Bool-cases, true, false, ◌||◌, ◌==◌, if◌then◌else◌, bit_and, bit_and-field,
  not64, ◌>>>◌, wrapping_add,
}
use mathlib.Core.Path.{subst}
use r2vm.Emu.Context.{SharedContext, Context, run_on}
use r2vm.Emu.Translate.Invalidate.{contains, remove, remove_pages, run_if, icache_invalidate}

contains-remove_self : (page : ℕ) (pages : List ℕ) → contains page (remove page pages) ≡ false
unfolding contains remove
contains-remove_self page [] = refl
contains-remove_self page (q ∷ pages) = elim (Bool-cases (q == page)) [
  | inl e ↦ rw e (contains-remove_self page pages)
  | inr e ↦ rw (e, e) (contains-remove_self page pages)
]

contains-remove_ne :
    (page other : ℕ) (pages : List ℕ)
    → (page == other) ≡ false
    → contains other (remove page pages) ≡ contains other pages
unfolding contains remove
contains-remove_ne page other [] ne = refl
contains-remove_ne page other (q ∷ pages) ne = elim (Bool-cases (q == page)) [
  | inl e ↦ rw e (
      contains-remove_ne page other pages ne
      ∙ sym (ap (λ b. if b then true else contains other pages) (other_page e)))
  | inr e ↦ rw e (ap (λ b. if q == other then true else b) (contains-remove_ne page other pages ne))
]
  where
    other_page : (q == page) ≡ true → (q == other) ≡ false
    other_page e = ground (arith, e, ne)

next_page : (start : ℕ) → (start + 4096) >>> 12 ≡ suc (start >>> 12)
next_page start = omega arith

absent-remove :
    (page other : ℕ) (pages : List ℕ)
    → contains other pages ≡ false
    → contains other (remove page pages) ≡ false
absent-remove page other pages h = elim (Bool-cases (page == other)) [
  | inl e ↦
      subst (λ n. contains n (remove page pages) ≡ false) (ground (arith, e))
        (contains-remove_self page pages)
  | inr e ↦ contains-remove_ne page other pages e ∙ h
]

absent_stays :
    (rounds start page : ℕ) (prot : List ℕ) (need_inv : Bool)
    → contains page prot ≡ false
    → contains page (remove_pages rounds start prot need_inv).1 ≡ false
unfolding remove_pages
absent_stays zero start page prot need_inv h = h
absent_stays (suc rounds) start page prot need_inv h =
    absent_stays rounds (start + 4096) page _ _ (absent-remove (start >>> 12) page prot h)

remove_pages-gone :
    (rounds start page : ℕ) (prot : List ℕ) (need_inv : Bool)
    → start >>> 12 ≤ page
    → page < (start >>> 12) + rounds
    → contains page (remove_pages rounds start prot need_inv).1 ≡ false
unfolding remove_pages
remove_pages-gone zero start page prot need_inv l h = absurd (omega (arith, l, h))
remove_pages-gone (suc rounds) start page prot need_inv l h =
    elim (Bool-cases (start >>> 12 == page)) [
      | inl e ↦ absent_stays rounds (start + 4096) page _ _ (
          subst (λ n. contains n (remove (start >>> 12) prot) ≡ false) (ground (arith, e))
            (contains-remove_self (start >>> 12) prot))
      | inr e ↦
          remove_pages-gone rounds (start + 4096) page _ _ (ground (arith, l, e))
            (omega (arith, h, next_page start))
    ]

remove_pages-kept :
    (rounds start page : ℕ) (prot : List ℕ) (need_inv : Bool)
    → (page < start >>> 12) ⊎ ((start >>> 12) + rounds ≤ page)
    → contains page (remove_pages rounds start prot need_inv).1 ≡ contains page prot
unfolding remove_pages
remove_pages-kept zero start page prot need_inv out = refl
remove_pages-kept (suc rounds) start page prot need_inv out =
    remove_pages-kept rounds (start + 4096) page _ _ (later out)
    ∙ contains-remove_ne (start >>> 12) page prot (other out)
  where
    later :
        (page < start >>> 12) ⊎ ((start >>> 12) + suc rounds ≤ page)
        → (page < (start + 4096) >>> 12) ⊎ (((start + 4096) >>> 12) + rounds ≤ page)
    later (inl p) = inl (omega (arith, p))
    later (inr p) = inr (omega (arith, p))

    other :
        (page < start >>> 12) ⊎ ((start >>> 12) + suc rounds ≤ page)
        → (start >>> 12 == page) ≡ false
    other (inl p) = ground (arith, p)
    other (inr p) = ground (arith, p)

needed_stays : (rounds start : ℕ) (prot : List ℕ) → (remove_pages rounds start prot true).0 ≡ true
unfolding remove_pages
needed_stays zero start prot = refl
needed_stays (suc rounds) start prot = needed_stays rounds (start + 4096) _

remove_pages-needed :
    (rounds start page : ℕ) (prot : List ℕ) (need_inv : Bool)
    → start >>> 12 ≤ page
    → page < (start >>> 12) + rounds
    → contains page prot ≡ true
    → (remove_pages rounds start prot need_inv).0 ≡ true
unfolding remove_pages
remove_pages-needed zero start page prot need_inv l h c = absurd (omega (arith, l, h))
remove_pages-needed (suc rounds) start page prot need_inv l h c =
    elim (Bool-cases (start >>> 12 == page)) [
      | inl e ↦
          ap (λ b. (remove_pages rounds (start + 4096) (remove (start >>> 12) prot) b).0) (found e)
          ∙ needed_stays rounds (start + 4096) _
      | inr e ↦
          remove_pages-needed rounds (start + 4096) page _ _ (ground (arith, l, e))
            (omega (arith, h, next_page start)) (contains-remove_ne (start >>> 12) page prot e ∙ c)
    ]
  where
    found : (start >>> 12 == page) ≡ true → (need_inv || contains (start >>> 12) prot) ≡ true
    found e =
        ap (λ n. need_inv || contains n prot) (ground (arith, e))
        ∙ ap (λ b. need_inv || b) c
        ∙ always need_inv
      where
        always : (b : Bool) → (b || true) ≡ true
        always true = refl
        always false = refl

remove_pages-idle :
    (rounds start : ℕ) (prot : List ℕ)
    → ((page : ℕ)
        → start >>> 12 ≤ page
        → page < (start >>> 12) + rounds
        → contains page prot ≡ false)
    → (remove_pages rounds start prot false).0 ≡ false
unfolding remove_pages
remove_pages-idle zero start prot none_there = refl
remove_pages-idle (suc rounds) start prot none_there =
    ap (λ b. (remove_pages rounds (start + 4096) (remove (start >>> 12) prot) b).0)
      (none_there (start >>> 12) (omega arith) (omega arith))
    ∙ remove_pages-idle rounds (start + 4096) (remove (start >>> 12) prot) (λ page l h.
      absent-remove (start >>> 12) page prot
        (none_there page (omega (arith, l, next_page start)) (omega (arith, h, next_page start))))

-- Rounding to pages.
page_floor : (a : ℕ) → a < 2 ^ 64 → bit_and a (not64 4095) ≡ a / 4096 * 4096
page_floor a h = bit_and-field 12 52 a ∙ omega (arith, h)

map_idle : (task : ℕ × ℕ) (peers : List SharedContext) → map (run_if false task) peers ≡ peers
unfolding run_if
map_idle task [] = refl
map_idle task (s ∷ peers) = ap (λ l. s ∷ l) (map_idle task peers)

map_told :
    (task : ℕ × ℕ) (peers : List SharedContext)
    → map (run_if true task) peers ≡ map (λ s. run_on s task) peers
unfolding run_if
map_told task [] = refl
map_told task (s ∷ peers) = ap (λ l. run_on s task ∷ l) (map_told task peers)

-- What a removal of the code in the pages from `first` up to `last` leaves.
pub record IsInvalidated (ctx : Context) (first last : ℕ) (c : Context) : Type 0 where
  pub gone : (page : ℕ) → first ≤ page → page < last → contains page c.code_prot ≡ false
  pub kept :
      (page : ℕ)
      → (page < first) ⊎ (last ≤ page)
      → contains page c.code_prot ≡ contains page ctx.code_prot
  pub told :
      (page : ℕ)
      → first ≤ page
      → page < last
      → contains page ctx.code_prot ≡ true
      → (c.shared ≡ run_on ctx.shared (first * 4096, last * 4096))
        × (c.peers ≡ map (λ s. run_on s (first * 4096, last * 4096)) ctx.peers)
  pub idle :
      ((page : ℕ) → first ≤ page → page < last → contains page ctx.code_prot ≡ false)
      → (c.shared ≡ ctx.shared) × (c.peers ≡ ctx.peers)

-- The removal of code between two addresses, in order and the second not in the last page of the address
-- space: every page that the range touches leaves the set of code pages and every other page stays. If
-- one of them was in the set, this hart and every other one gets the task of forgetting its code there
-- and is alerted; if none was, no hart is.
pub icache_invalidate-IsInvalidated :
    (ctx : Context) (start end : ℕ)
    → start ≤ end
    → end + 4095 < 2 ^ 64
    → IsInvalidated ctx (start / 4096) ((end + 4095) / 4096) (icache_invalidate ctx start end)
unfolding icache_invalidate run_if
icache_invalidate-IsInvalidated ctx start end l h = record {
  gone = λ page p q.
      remove_pages-gone rounds first page ctx.code_prot false (omega (arith, low, p))
        (omega (arith, high, q));
  kept = λ page out. remove_pages-kept rounds first page ctx.code_prot false (outside out);
  told = λ page p q c.
      let needed =
        remove_pages-needed rounds first page ctx.code_prot false (omega (arith, low, p))
          (omega (arith, high, q)) c in
      (
        ap (λ b. run_if b (first, last) ctx.shared) needed ∙ ap (λ t. run_on ctx.shared t) task,
        ap (λ b. map (run_if b (first, last)) ctx.peers) needed
            ∙ map_told (first, last) ctx.peers
            ∙ ap (λ (t : ℕ × ℕ). map (λ s. run_on s t) ctx.peers) task,
      );
  idle = λ none_there.
      let quiet =
        remove_pages-idle rounds first ctx.code_prot
          (λ page p q. none_there page (omega (arith, low, p)) (omega (arith, high, q))) in
      (
        ap (λ b. run_if b (first, last) ctx.shared) quiet,
        ap (λ b. map (run_if b (first, last)) ctx.peers) quiet ∙ map_idle (first, last) ctx.peers,
      );
}
  where
    first : ℕ
    first = bit_and start (not64 4095)

    last : ℕ
    last = bit_and (wrapping_add 64 end 4095) (not64 4095)

    rounds : ℕ
    rounds = (last - first) / 4096

    first_lem : first ≡ start / 4096 * 4096
    first_lem = page_floor start (omega (arith, l, h))

    last_lem : last ≡ (end + 4095) / 4096 * 4096
    last_lem = page_floor (wrapping_add 64 end 4095) (omega arith) ∙ omega (arith, h)

    low : first >>> 12 ≡ start / 4096
    low = omega (arith, first_lem)

    high : (first >>> 12) + rounds ≡ (end + 4095) / 4096
    high = omega (arith, first_lem, last_lem, l)

    task : ◌≡◌ {A = ℕ × ℕ} (first, last) (start / 4096 * 4096, (end + 4095) / 4096 * 4096)
    task = ap (λ (a : ℕ). (a, last)) first_lem ∙ ap (λ (b : ℕ). (start / 4096 * 4096, b)) last_lem

    outside :
        {page : ℕ}
        → (page < start / 4096) ⊎ ((end + 4095) / 4096 ≤ page)
        → (page < first >>> 12) ⊎ ((first >>> 12) + rounds ≤ page)
    outside (inl p) = inl (omega (arith, p, low))
    outside (inr p) = inr (omega (arith, p, high))
