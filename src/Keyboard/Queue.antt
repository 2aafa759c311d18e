-- ===== src/Keyboard/Queue.antt =====
-- The ring of drivers/keyboard.c is a queue of at most 255 characters.
use uix.Base.{
  ℕ, zero, suc, ◌+◌, ◌-◌, ◌%◌, ◌<◌, ◌≡◌, ◌≢◌, refl, ap, ap₂, true, inl, inr, List, [], ◌∷◌, ◌++◌,
  ltb, ◌==◌, if◌then◌else◌, get_or, set, length, length-set, get_or-set_self, get_or-set_ne, take,
  drop, arith, Bool-cases, ==→eq, ==→ne, ◌&&◌, not,
}
use uix.Keyboard.{Keyboard, kbuf_size, init, key_char, put_char, irq, read}

pub record IsValid (k : Keyboard) : Type 0 where
  pub whole : length k.kbuf ≡ 256
  pub head_in : k.head < 256
  pub tail_in : k.tail < 256

-- the `n` characters from index `t` on, round the ring
abbrev pub window : List ℕ → ℕ → ℕ → List ℕ
window buf t zero = []
window buf t (suc n) = get_or buf t 0 ∷ window buf ((t + 1) % 256) n

-- how many characters wait
abbrev pub waiting : Keyboard → ℕ
waiting k = (k.head + 256 - k.tail) % 256

-- the characters that wait, the oldest first
abbrev pub contents : Keyboard → List ℕ
contents k = window k.kbuf k.tail (waiting k)

length-window : (buf : List ℕ) (t n : ℕ) → length (window buf t n) ≡ n
length-window buf t zero = refl
length-window buf t (suc n) = ap suc (length-window buf ((t + 1) % 256) n)

window-set :
    (buf : List ℕ) (t n i c : ℕ)
    → length buf ≡ 256
    → t < 256
    → n < 256
    → i ≡ (t + n) % 256
    → window (set buf i c) t (suc n) ≡ window buf t n ++ c ∷ []
window-set buf t zero i c w ht hn e =
    let same : i ≡ t = omega arith in rw (same, get_or-set_self buf t c 0 (omega arith))
window-set buf t (suc n) i c w ht hn e =
    ap₂ ◌∷◌ (get_or-set_ne buf i t c 0 (omega arith))
      (window-set buf ((t + 1) % 256) n i c w (omega arith) (omega arith) (omega arith))

put_char-full : (k : Keyboard) (c : ℕ) → IsValid k → waiting k ≡ 255 → put_char k c ≡ k
unfolding put_char
put_char-full k c v h = ground arith

put_char-room :
    (k : Keyboard) (c : ℕ)
    → IsValid k
    → waiting k ≢ 255
    → put_char k c ≡ record k { kbuf = set k.kbuf k.head c; head = (k.head + 1) % 256 }
unfolding put_char
put_char-room k c v h = ground arith

-- Writing past the last character and moving the head appends to the queue.
appended :
    (k : Keyboard) (c : ℕ)
    → IsValid k
    → waiting k ≢ 255
    → let k' : Keyboard = record k { kbuf = set k.kbuf k.head c; head = (k.head + 1) % 256 } in
      IsValid k'
      × (contents k' ≡ (if ltb (waiting k) 255 then contents k ++ c ∷ [] else contents k))
appended k c v w =
    let below : ltb (waiting k) 255 ≡ true = ground arith in
    let more : ((k.head + 1) % 256 + 256 - k.tail) % 256 ≡ suc (waiting k) = omega arith in
    (
      ground (arith, length-set k.kbuf k.head c),
      rw (below, more)
          (window-set k.kbuf k.tail (waiting k) k.head c v.whole v.tail_in (omega arith)
            (omega arith)),
    )

-- `keyboard_irq` keeps a well-formed ring well formed, and appends the character of the key
-- pressed if it has one and fewer than 255 characters wait; otherwise the same characters wait.
pub irq_lem :
    (k : Keyboard) (sc : ℕ)
    → IsValid k
    → IsValid (irq k sc)
      × (contents (irq k sc) ≡ (
          if not (key_char sc == 0) && ltb (length (contents k)) 255
          then contents k ++ key_char sc ∷ []
          else contents k))
unfolding irq
irq_lem k sc v = elim (Bool-cases (key_char sc == 0)) [
  | inl none_there ↦ rw none_there (v, refl)
  | inr some_there ↦ elim (Bool-cases (waiting k == 255)) [
    | inl full ↦
        let w : waiting k ≡ 255 = ==→eq _ _ full in
        rw
          (
            some_there,
            put_char-full k (key_char sc) v w,
            length-window k.kbuf k.tail (waiting k),
            w,
          )
          (v, refl)
    | inr room ↦
        let w : waiting k ≢ 255 = ==→ne _ _ room in
        rw (some_there, put_char-room k (key_char sc) v w, length-window k.kbuf k.tail (waiting k))
          (appended k (key_char sc) v w)
  ]
]

-- the state after one character is read
abbrev advance : Keyboard → Keyboard
advance k = record k { tail = (k.tail + 1) % kbuf_size }

contents-advance :
    (k : Keyboard)
    → IsValid k
    → k.tail ≢ k.head
    → contents k ≡ get_or k.kbuf k.tail 0 ∷ contents (advance k)
contents-advance k v h =
    let more : (k.head + 256 - k.tail) % 256 ≡ suc ((k.head + 256 - (k.tail + 1) % 256) % 256) =
      omega arith in
    rw more

contents-empty : (k : Keyboard) → IsValid k → k.tail ≡ k.head → contents k ≡ []
contents-empty k v h =
    let none_left : (k.head + 256 - k.tail) % 256 ≡ 0 = omega arith in rw none_left

-- On a well-formed ring, `keyboard_read` returns the oldest characters, as many as wait and at most
-- `len`, leaves the others waiting in order, and keeps the ring well formed.
pub read_lem :
    (k : Keyboard) (len : ℕ)
    → IsValid k
    → ((read k len).0 ≡ take len (contents k))
      × (contents (read k len).1 ≡ drop len (contents k))
      × IsValid (read k len).1
unfolding read
read_lem k zero v = (refl, refl, v)
read_lem k (suc len) v = elim (Bool-cases (k.tail == k.head)) [
  | inl e ↦
      let nothing : contents k ≡ [] = contents-empty k v (==→eq _ _ e) in
      rw (e, nothing) (refl, refl, v)
  | inr e ↦
      let later = read_lem (advance k) len (ground arith) in
      rw (e, contents-advance k v (==→ne _ _ e))
        (ap (λ cs. get_or k.kbuf k.tail 0 ∷ cs) later.0, later.1, later.2)
]

-- `keyboard_init` leaves an empty ring.
pub init-IsValid : IsValid init × (contents init ≡ [])
unfolding init
init-IsValid = (record { whole = refl; head_in = omega arith; tail_in = omega arith }, refl)
