-- ===== src/Input/Keyboard/Queue.antt =====
-- What the key ring of kernel/src/ps2.rs promises: a first-in first-out queue of at most 63 bytes
-- that drops what does not fit.
use hep_os.Prelude.{List, Option, [], if◌then◌else◌, length, ltb, none, some, ℕ, ◌++◌, ◌∷◌}

abbrev pub KeyQueue : Type 0
KeyQueue = List ℕ

abbrev pub capacity : ℕ
capacity = 63

unfoldable pub enqueue : ℕ → KeyQueue → KeyQueue
enqueue c q = if ltb (length q) capacity then q ++ (c ∷ []) else q

unfoldable pub dequeue : KeyQueue → Option ℕ × KeyQueue
dequeue [] = (none, [])
dequeue (c ∷ q) = (some c, q)
