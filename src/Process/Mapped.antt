-- ===== src/Process/Mapped.antt =====
-- Where the addresses lead that map_mmio_for_user of kernel/src/process.rs returns.
use hep_os.Prelude.{
  Option, [], add64, ap, arith, false, if◌then◌else◌, leb, ltb, none, not, refl, some, subst, suc,
  sym, true, zero, ℕ, ◌%◌, ◌&&◌, ◌*◌, ◌+◌, ◌-◌, ◌/◌, ◌<◌, ◌==◌, ◌^◌, ◌||◌, ◌∙◌, ◌∷◌, ◌≡◌, ◌≤◌,
}
use hep_os.HepFs.Bitmap.{test_bit}
use hep_os.Paging.{write, nocache, Table, map_page_current_user}
use hep_os.Paging.Walk.{entry_of, leads, translate, Mapped, map_page_current_user-Mapped}
use hep_os.Process.{Space, and_then, map_pages, granted, map_mmio_for_user}

-- The pages from `v + i` on, `n` of them, are mapped to the frames from `p + i` on, and the entries of all
-- other pages are as they were.
abbrev Ranged : ℕ → ℕ → ℕ → ℕ → Table 3 → ℕ → Option (Table 3 × ℕ) → Type 0
Ranged v p i n table frames none = ⊥
Ranged v p i n table frames (some (table', frames')) =
    (a : ℕ)
    → a < 2 ^ 48
    → entry_of 3 a table' ≡ (
        if leb (v + i) (a / 4096) && ltb (a / 4096) (v + i + n)
        then (p + (a / 4096 - v)) * 4096 + 23
        else entry_of 3 a table)

Ranged-suc :
    (v p i n frames frames' : ℕ) (table table' : Table 3) (r : Option (Table 3 × ℕ))
    → Mapped (v + i) (p + i) table frames (some (table', frames'))
    → Ranged v p (i + 1) n table' frames' r
    → Ranged v p i (suc n) table frames r
Ranged-suc v p i n frames frames' table table' none one c = c
Ranged-suc v p i n frames frames' table table' (some (t, f)) one c =
    λ a h. ground (arith, one.1 a h, c a h)

map_pages-Ranged :
    (v p i n : ℕ) (table : Table 3) (frames : ℕ)
    → v + i + n ≤ 2 ^ 36
    → p + i + n ≤ 2 ^ 40
    → 3 * n ≤ frames
    → Ranged v p i n table frames
        (map_pages (v * 4096) (p * 4096) (write ∷ nocache ∷ []) i n table frames)
unfolding map_pages
map_pages-Ranged v p i zero table frames fits backed enough = λ a h. ground arith
map_pages-Ranged v p i (suc n) table frames fits backed enough =
    let flags = write ∷ nocache ∷ [] in
    let rest = map_pages (v * 4096) (p * 4096) flags (i + 1) n in
    let virt : (v + i) * 4096 ≡ add64 (v * 4096) (i * 4096) = omega arith in
    let phys : (p + i) * 4096 ≡ add64 (p * 4096) (i * 4096) = omega arith in
    subst (λ r. Ranged v p i (suc n) table frames (and_then rest r))
      (λ j. map_page_current_user (virt j) (phys j) flags table frames)
      (go rest (λ t f h. map_pages-Ranged v p (i + 1) n t f (omega arith) (omega arith) h)
        (map_page_current_user ((v + i) * 4096) ((p + i) * 4096) flags table frames)
        (map_page_current_user-Mapped (v + i) (p + i) table frames (omega arith) (omega arith)))
  where
    go :
        (rest : Table 3 → ℕ → Option (Table 3 × ℕ))
        → ((t : Table 3) (f : ℕ) → 3 * n ≤ f → Ranged v p (i + 1) n t f (rest t f))
        → (r : Option (Table 3 × ℕ)) → Mapped (v + i) (p + i) table frames r
        → Ranged v p i (suc n) table frames (and_then rest r)
    go rest ih none one = one
    go rest ih (some (t, f)) one =
        Ranged-suc v p i n frames f table t (rest t f) one (ih t f (omega (arith, one.0)))

leads-frame : (a p : ℕ) → p < 2 ^ 40 → leads a (p * 4096 + 23) ≡ some (p * 4096 + a % 4096)
unfolding leads test_bit
leads-frame a p small =
    let frame : (p * 4096 + 23) / 4096 % 2 ^ 40 ≡ p = omega arith in
    let bit0 : ((p * 4096 + 23) / 2 ^ 0 % 2 == 1) ≡ true = ground arith in
    let bit2 : ((p * 4096 + 23) / 2 ^ 2 % 2 == 1) ≡ true = ground arith in
    rw (bit0, bit2, frame) refl

-- What `map_mmio_for_user` returns for the byte `k` of a request and an address `a` below the cursor.
abbrev pub Answers : ℕ → ℕ → ℕ → ℕ → Space → Option (ℕ × Space) → Type 0
Answers phys len k a s none = ⊥
Answers phys len k a s (some (va, s')) =
    (translate (va + k) s'.tables ≡ some (phys + k))
    × (translate a s'.tables ≡ translate a s.tables)
    × (s'.mmio_next_va % 4096 ≡ 0)
    × (va + len ≤ s'.mmio_next_va)

Ranged-Answers :
    (phys len k a v n : ℕ) (s : Space) (r : Option (Table 3 × ℕ))
    → Ranged v (phys / 4096) 0 n s.tables s.frames r
    → phys % 4096 + len ≤ n * 4096
    → v + n < 2 ^ 36
    → phys / 4096 + n ≤ 2 ^ 40
    → k < len
    → a < v * 4096
    → Answers phys len k a s (granted (v * 4096 + phys % 4096) (v * 4096 + n * 4096) s r)
Ranged-Answers phys len k a v n s none c room high backed within old = c
Ranged-Answers phys len k a v n s (some (t, f)) c room high backed within old =
    let b = v * 4096 + phys % 4096 + k in
    let p = phys / 4096 + (b / 4096 - v) in
    let inside : leb (v + 0) (b / 4096) && ltb (b / 4096) (v + 0 + n) ≡ true = ground arith in
    let outside : leb (v + 0) (a / 4096) && ltb (a / 4096) (v + 0 + n) ≡ false = ground arith in
    let here : entry_of 3 b t ≡ p * 4096 + 23 =
      c b (omega arith) ∙ ap (λ x. if x then p * 4096 + 23 else entry_of 3 b s.tables) inside in
    let there : entry_of 3 a t ≡ entry_of 3 a s.tables =
      c a (omega arith)
      ∙ ap (λ x. if x then (phys / 4096 + (a / 4096 - v)) * 4096 + 23 else entry_of 3 a s.tables)
          outside in
    (
      ap (leads b) here
          ∙ leads-frame b p (omega arith)
          ∙ ap some {x = p * 4096 + b % 4096} {y = phys + k} (omega arith),
      ap (leads a) there,
      omega arith,
      omega arith,
    )

-- For a running process with a page-aligned cursor that asks for 1 byte up to 16 MB, where its range ends
-- below 2 ^ 47, the device's below 2 ^ 52, and three frames are left for each page, `map_mmio_for_user` does
-- not panic: the processor's walk of the page tables takes each byte of the request from its place behind
-- the returned address to its physical address, and each address below the old cursor to where it led; the
-- new cursor is page-aligned and not below the end of the request.
pub map_mmio_for_user_lem :
    (phys len k a : ℕ) (s : Space)
    → s.user_running ≡ true
    → s.mmio_next_va % 4096 ≡ 0
    → 0 < len
    → len ≤ 16 * 1024 * 1024
    → s.mmio_next_va + len + 8192 ≤ 2 ^ 47
    → phys + len + 8192 ≤ 2 ^ 52
    → 3 * ((phys % 4096 + len + 0xFFF) / 4096) ≤ s.frames
    → k < len
    → a < s.mmio_next_va
    → Answers phys len k a s (map_mmio_for_user phys len s)
unfolding map_mmio_for_user
map_mmio_for_user_lem phys len k a s live aligned pos small fits backed enough within old =
    let v = s.mmio_next_va / 4096 in
    let p = phys / 4096 in
    let n = (phys % 4096 + len + 0xFFF) / 4096 in
    let flags = write ∷ nocache ∷ [] in
    let some_bytes : (len == 0) ≡ false = ground arith in
    let in_limit : ltb (16 * 1024 * 1024) len ≡ false = ground arith in
    let ev : v * 4096 ≡ s.mmio_next_va = omega arith in
    let ep : p * 4096 ≡ phys - phys % 4096 = omega arith in
    let few : n * 4096 ≤ phys % 4096 + len + 4095 = omega arith in
    let va : v * 4096 + phys % 4096 ≡ add64 s.mmio_next_va (phys % 4096) = omega arith in
    let next : v * 4096 + n * 4096 ≡ add64 s.mmio_next_va (n * 4096) = omega arith in
    let refused : not s.user_running || len == 0 || ltb (16 * 1024 * 1024) len ≡ false =
      rw (live, some_bytes, in_limit) refl in
    let run = map_pages s.mmio_next_va (phys - phys % 4096) flags 0 n s.tables s.frames in
    let given =
      granted (add64 s.mmio_next_va (phys % 4096)) (add64 s.mmio_next_va (n * 4096)) s run in
    subst (λ b. Answers phys len k a s (if b then some (0, s) else given)) (sym refused)
      (subst (Answers phys len k a s)
        (λ j. granted (va j) (next j) s (map_pages (ev j) (ep j) flags 0 n s.tables s.frames))
        (Ranged-Answers phys len k a v n s
          (map_pages (v * 4096) (p * 4096) flags 0 n s.tables s.frames)
          (map_pages-Ranged v p 0 n s.tables s.frames (omega arith) (omega arith) enough)
          (omega arith) (omega arith) (omega arith) within (omega arith)))
