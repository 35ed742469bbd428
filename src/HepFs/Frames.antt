-- ===== src/HepFs/Frames.antt =====
-- How an operation of kernel/src/hepfs.rs that only reads runs while pmm::alloc_page has frames.
use hep_os.Prelude.{ap, arith, some, suc, zero, ℕ, ◌+◌, ◌-◌, ◌<◌, ◌≡◌, ◌≤◌}
use hep_os.HepFs.Disk.{Fs, with_frames, M, take_from, take_frame}

-- With `n` frames left `m` gives `a`, takes at most `cost` of them, and changes nothing else.
abbrev pub Reads : {A : Type 0} → M A → A → ℕ → ℕ → Fs → Type 0
Reads m a n cost s = (f : ℕ) × (m (with_frames n s) ≡ some (a, with_frames f s)) × (n ≤ f + cost)

-- One frame fewer.
abbrev pub spent : Fs → Fs
spent s = with_frames (s.frames - 1) s

pub take_frame_run : (s : Fs) → 0 < s.frames → take_frame s ≡ some (tt, spent s)
take_frame_run s h = go s.frames h
  where
    go : (n : ℕ) → 0 < n → take_from n s ≡ some (tt, with_frames (n - 1) s)
    go zero h = absurd (omega arith)
    go (suc n) h = ap (λ m. some (tt, with_frames m s)) {x = n} {y = suc n - 1} (omega arith)
