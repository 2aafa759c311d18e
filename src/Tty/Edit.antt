-- ===== src/Tty/Edit.antt =====
-- The line discipline of personality/tty.c as an editor of one line of text.
use uix.Base.{
  ℕ, zero, suc, ◌+◌, ◌-◌, ◌%◌, ◌^◌, ◌<◌, ◌≤◌, ◌≡◌, refl, sym, ◌∙◌, ap, Bool, true, false, inl, inr,
  List, [], ◌∷◌, ◌++◌, ltb, ◌==◌, if◌then◌else◌, set, length, length-set, take, drop, arith,
  Bool-cases, ==→eq, min, length-take,
}
use uix.Tty.{
  Tty, backspace, newline, cr_to_lf, add_char, echo, handle, process_char, process, poll, readline,
}
use uix.Keyboard
use uix.Keyboard.{Keyboard}
use uix.Keyboard.Queue

pub record IsValid (t : Tty) : Type 0 where
  pub whole : length t.line ≡ 128
  pub fits : t.line_len ≤ 127

-- the text of the line so far
abbrev pub text : Tty → List ℕ
text t = take t.line_len t.line

unfoldable pub drop_last : List ℕ → List ℕ
drop_last [] = []
drop_last (x ∷ []) = []
drop_last (x ∷ y ∷ ys) = x ∷ drop_last (y ∷ ys)

take-set : (xs : List ℕ) (n c : ℕ) → n < length xs → take (suc n) (set xs n c) ≡ take n xs ++ c ∷ []
take-set [] n c h = absurd (omega arith)
take-set (x ∷ xs) zero c h = refl
take-set (x ∷ xs) (suc n) c h = ap (λ ys. x ∷ ys) (take-set xs n c (omega arith))

take_pred : (xs : List ℕ) (n : ℕ) → suc n ≤ length xs → take n xs ≡ drop_last (take (suc n) xs)
unfolding drop_last
take_pred [] n h = absurd (omega arith)
take_pred (x ∷ xs) zero h = refl
take_pred (x ∷ []) (suc n) h = absurd (omega arith)
take_pred (x ∷ y ∷ ys) (suc n) h = ap (λ zs. x ∷ zs) (take_pred (y ∷ ys) n (omega arith))

-- An editor of lines of at most 127 characters: the text, and whether a line is complete.
pub record Editor : Type 0 where
  pub chars : List ℕ
  pub complete : Bool

abbrev pub view : Tty → Editor
view t = record { chars = text t; complete = t.line_ready }

-- Its response to a character. A backspace takes off the last character, also of a complete line.
unfoldable pub edit : Editor → ℕ → Editor
unfolding drop_last
edit e c =
    if c == backspace
    then record e { chars = drop_last e.chars }
    else if e.complete
    then e
    else record {
      chars = if ltb (length e.chars) 127 then e.chars ++ c ∷ [] else e.chars;
      complete = c == newline;
    }

unfoldable pub edit_all : Editor → List ℕ → Editor
edit_all e [] = e
edit_all e (c ∷ cs) = edit_all (edit e (cr_to_lf c)) cs

length-text : (t : Tty) → IsValid t → length (text t) ≡ t.line_len
length-text t v = omega (arith, length-take {A = ℕ} t.line_len t.line)

take-pred : (xs : List ℕ) (n : ℕ) → n ≤ length xs → take (n - 1) xs ≡ drop_last (take n xs)
unfolding drop_last
take-pred xs zero h = refl
take-pred xs (suc n) h = let e : suc n - 1 ≡ n = omega arith in rw e (take_pred xs n h)

drop_last-nil : (xs : List ℕ) → length xs ≡ 0 → drop_last xs ≡ xs
unfolding drop_last
drop_last-nil [] h = refl
drop_last-nil (x ∷ xs) h = absurd (omega arith)

-- What a character adds to a line that is not complete.
view-add_char :
    (t : Tty) (c : ℕ)
    → IsValid t
    → IsValid (add_char t c)
      × (text (add_char t c) ≡ (if ltb (length (text t)) 127 then text t ++ c ∷ [] else text t))
unfolding add_char
view-add_char t c v = elim (Bool-cases (ltb t.line_len 127)) [
  | inl room ↦
      rw (room, length-text t v, room)
        (ground (arith, length-set t.line t.line_len c), take-set' (ground arith))
  | inr full ↦ rw (full, length-text t v, full) (v, refl)
]
  where
    take-set' :
        t.line_len < length t.line
        → take (t.line_len + 1) (set t.line t.line_len c) ≡ text t ++ c ∷ []
    take-set' h =
        let e : t.line_len + 1 ≡ suc t.line_len = omega arith in
        rw e (take-set t.line t.line_len c h)

line_ready-add_char : (t : Tty) (c : ℕ) → (add_char t c).line_ready ≡ t.line_ready
unfolding add_char
line_ready-add_char t c = ground arith

module _ (t : Tty) (c : ℕ) (v : IsValid t) where
  -- Each character changes the line as the editor says, and keeps the buffer within its bounds.
  handle_lem : IsValid (handle t c) × (view (handle t c) ≡ edit (view t) c)
  unfolding handle echo edit
  handle_lem = elim (Bool-cases (c == backspace)) [
    | inl back ↦ elim (Bool-cases (ltb 0 t.line_len)) [
      | inl some_left ↦
          rw (back, some_left)
            (
              ground arith,
              ap (λ (cs : List ℕ). record { chars = cs; complete = t.line_ready })
                  (take-pred t.line t.line_len (omega arith)),
            )
      | inr nothing ↦
          rw (back, nothing)
            (
              v,
              ap (λ (cs : List ℕ). record { chars = cs; complete = t.line_ready })
                  (sym (drop_last-nil (text t) (ground (arith, length-text t v)))),
            )
    ]
    | inr other ↦ elim (Bool-cases t.line_ready) [
      | inl ready ↦ ground arith
      | inr open_line ↦ elim (Bool-cases (c == newline)) [
        | inl end ↦ ground (arith, view-add_char t c v, ==→eq c newline end)
        | inr char ↦ ground (arith, view-add_char t c v, line_ready-add_char t c, length-text t v)
      ]
    ]
  ]

process_lem :
    (t : Tty) (cs : List ℕ)
    → IsValid t
    → IsValid (process t cs) × (view (process t cs) ≡ edit_all (view t) cs)
unfolding process process_char edit_all
process_lem t [] v = (v, refl)
process_lem t (c ∷ cs) v =
    let here = handle_lem t (cr_to_lf c) v in
    let later = process_lem (handle t (cr_to_lf c)) cs here.0 in
    (later.0, later.1 ∙ ap (λ e. edit_all e cs) here.1)

-- `tty_poll` takes the oldest 32 waiting characters out of the keyboard ring, or all if there are
-- fewer, edits the line by exactly these in order, and keeps the ring and the line buffer within
-- their bounds.
pub poll_lem :
    (k : Keyboard) (t : Tty)
    → Queue.IsValid k
    → IsValid t
    → let (k', t') = poll k t in
      Queue.IsValid k'
      × IsValid t'
      × (Queue.contents k' ≡ drop 32 (Queue.contents k))
      × (view t' ≡ edit_all (view t) (take 32 (Queue.contents k)))
unfolding poll
poll_lem k t kv tv =
    let got = Queue.read_lem k 32 kv in
    let done = process_lem t (Keyboard.read k 32).0 tv in
    (got.2, done.0, got.1, done.1 ∙ ap (edit_all (view t)) got.0)

take-min : (xs : List ℕ) (m n : ℕ) → take (min m n) xs ≡ take m (take n xs)
take-min xs zero n = let e : min 0 n ≡ 0 = omega arith in rw e
take-min xs (suc m) zero = let e : min (suc m) 0 ≡ 0 = omega arith in rw e
take-min [] (suc m) (suc n) = let e : min (suc m) (suc n) ≡ suc (min m n) = omega arith in rw e
take-min (x ∷ xs) (suc m) (suc n) =
    let e : min (suc m) (suc n) ≡ suc (min m n) = omega arith in
    rw e (ap (λ ys. x ∷ ys) (take-min xs m n))

-- the number of characters returned from a complete line
abbrev returned : Tty → ℕ → ℕ
returned t len = min (len - 1) t.line_len

readline-wait : (t : Tty) (len : ℕ) → t.line_ready ≡ false → readline t len ≡ ([], 0, t)
unfolding readline
readline-wait t len wait = ground arith

readline-ready :
    (t : Tty) (len : ℕ)
    → 0 < len
    → len < 2 ^ 32
    → t.line_ready ≡ true
    → readline t len ≡ (
      take (returned t len) t.line,
      returned t len,
      record t { line_len = 0; line_ready = false },
    )
unfolding readline
readline-ready t len pos small ready =
    let n : (if ltb ((len + 2 ^ 32 - 1) % 2 ^ 32) t.line_len
          then (len + 2 ^ 32 - 1) % 2 ^ 32
          else t.line_len)
        ≡ returned t len =
      ground arith in
    simp ready (rw n)

-- `tty_readline` into a buffer of `len` bytes, at least one and fewer than 2 ^ 32, returns nothing
-- while the line is not complete; otherwise at most the first `len - 1` characters of the line,
-- with their number, and the line is cleared, the rest of it dropped. The line buffer stays within
-- its bounds.
pub readline_lem :
    (t : Tty) (len : ℕ)
    → IsValid t
    → 0 < len
    → len < 2 ^ 32
    → let (out, n, t') = readline t len in
      (n ≡ length out)
      × (out ≡ (if t.line_ready then take (len - 1) (text t) else []))
      × IsValid t'
      × (view t' ≡ (if t.line_ready then record { chars = []; complete = false } else view t))
readline_lem t len v pos small = elim (Bool-cases t.line_ready) [
  | inl ready ↦ rw (readline-ready t len pos small ready) (
    omega (arith, length-take {A = ℕ} (returned t len) t.line, v.whole, v.fits),
    simp ready (take-min t.line (len - 1) t.line_len),
    omega (arith, v.whole),
    simp ready refl,
  )
  | inr wait ↦ rw (readline-wait t len wait) (refl, simp wait refl, v, simp wait refl)
]

-- A backspace takes the last character off a line that is complete, which stays complete: the line
-- feed is gone from the end of the text that `tty_readline` then returns.
pub backspace_complete :
    (t : Tty)
    → IsValid t
    → t.line_ready ≡ true
    → view (process_char t backspace) ≡ record { chars = drop_last (text t); complete = true }
unfolding process_char edit
backspace_complete t v ready = (handle_lem t backspace v).1 ∙ ground arith
