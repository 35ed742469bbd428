-- ===== src/Input/Keyboard/Refine.antt =====
-- The key ring of kernel/src/ps2.rs behaves as the bounded queue of the bytes that it holds.
use hep_os.Prelude.{
  Bool-cases, List, [], ap, arith, false, get_or, get_or-set_ne, get_or-set_self, inl, inr, length,
  length-set, ltb, refl, set, suc, true, zero, ℕ, ◌%◌, ◌++◌, ◌+◌, ◌-◌, ◌<◌, ◌==◌, ◌∷◌, ◌≡◌, ◌≢◌,
}
use hep_os.Input.Keyboard.{KeyBuf, push, pop}
use hep_os.Input.Keyboard.Queue.{KeyQueue, capacity, enqueue, dequeue}

pub record IsValid (k : KeyBuf) : Type 0 where
  pub size : length k.buf ≡ 64
  pub head_in : k.head < 64
  pub tail_in : k.tail < 64

-- The `n` bytes from index `h` on, going round at 64.
abbrev pub from_index : List ℕ → ℕ → ℕ → KeyQueue
from_index buf h zero = []
from_index buf h (suc n) = get_or buf h 0 ∷ from_index buf ((h + 1) % 64) n

abbrev pub held : KeyBuf → ℕ
held k = (k.tail + 64 - k.head) % 64

abbrev pub contents : KeyBuf → KeyQueue
contents k = from_index k.buf k.head (held k)

length-from_index : (buf : List ℕ) (h n : ℕ) → length (from_index buf h n) ≡ n
length-from_index buf h zero = refl
length-from_index buf h (suc n) = ap suc (length-from_index buf ((h + 1) % 64) n)

-- A byte written behind `n < 63` held ones is the next of them.
from_index-set :
    (buf : List ℕ) (c n h i : ℕ)
    → length buf ≡ 64
    → h < 64
    → n < 64
    → i ≡ (h + n) % 64
    → from_index (set buf i c) h (suc n) ≡ from_index buf h n ++ (c ∷ [])
from_index-set buf c zero h i size lt small e =
    let here : i ≡ h = omega arith in rw (here, get_or-set_self buf h c 0 (omega arith))
from_index-set buf c (suc n) h i size lt small e =
    let apart : i ≢ h = omega arith in
    let rest =
      from_index-set buf c n ((h + 1) % 64) i size (omega arith) (omega arith) (omega arith) in
    rw (get_or-set_ne buf i h c 0 apart) (ap (λ q. get_or buf h 0 ∷ q) rest)

pub push-IsValid : (c : ℕ) (k : KeyBuf) → IsValid k → IsValid (push c k)
unfolding push
push-IsValid c k v = ground (arith, length-set k.buf k.tail c)

pub pop-IsValid : (k : KeyBuf) → IsValid k → IsValid (pop k).1
unfolding pop
pop-IsValid k v = ground arith

push_refines : (c : ℕ) (k : KeyBuf) → IsValid k → contents (push c k) ≡ enqueue c (contents k)
unfolding push enqueue
push_refines c k v = elim (Bool-cases ((k.tail + 1) % 64 == k.head)) [
  | inl full ↦
      let most : ltb (held k) capacity ≡ false = ground arith in
      rw (full, length-from_index k.buf k.head (held k), most)
  | inr room ↦
      let fits : ltb (held k) capacity ≡ true = ground arith in
      let one_more : ((k.tail + 1) % 64 + 64 - k.head) % 64 ≡ suc (held k) = ground arith in
      rw (room, length-from_index k.buf k.head (held k), fits, one_more)
        (from_index-set k.buf c (held k) k.head k.tail v.size v.head_in (omega arith) (omega arith))
]

pop_matches :
    (k : KeyBuf) (n : ℕ)
    → n ≡ held k
    → IsValid k
    → ((pop k).0, contents (pop k).1) ≡ dequeue (from_index k.buf k.head n)
unfolding pop dequeue
pop_matches k zero e v = let empty : (k.head == k.tail) ≡ true = ground arith in rw (empty, ← e)
pop_matches k (suc n) e v =
    let some_held : (k.head == k.tail) ≡ false = ground arith in
    let one_less : (k.tail + 64 - (k.head + 1) % 64) % 64 ≡ n = omega arith in
    rw (some_held, one_less)

-- On a valid ring `push` is the queue's: the byte goes to the end, or is dropped when 63 are held; and
-- `pop` is the queue's: the oldest byte, or none when the ring is empty.
pub ring_refines :
    (c : ℕ) (k : KeyBuf)
    → IsValid k
    → (contents (push c k) ≡ enqueue c (contents k))
      × (((pop k).0, contents (pop k).1) ≡ dequeue (contents k))
ring_refines c k v = (push_refines c k v, pop_matches k (held k) refl v)
