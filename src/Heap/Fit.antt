-- ===== src/Heap/Fit.antt =====
-- The first fit of `kmalloc` of core/memory/heap.c: what the block it takes leaves on the list.
use uix.Base.{
  ℕ, ◌+◌, ◌-◌, ◌<◌, ◌≤◌, ◌≡◌, refl, ◌∙◌, ap, true, false, inl, inr, ◌⊎◌, List, [], ◌∷◌, leb, ◌==◌,
  ◌||◌, arith, Bool-cases, ok, none, some,
}
use uix.Heap.{Header, Headers, put, hdr_size, take_fit, magic_free, magic_used}
use uix.Heap.Blocks.{within, covers, Disjoint, starts, covers-put}

-- every block on the list is marked free
abbrev pub AllMarked : Headers → List ℕ → Type 0
AllMarked hdr [] = Unit {0}
AllMarked hdr (b ∷ bs) = ((hdr b).magic ≡ magic_free) × AllMarked hdr bs

pub AllMarked-put :
    (hdr : Headers) (bs : List ℕ) (d : ℕ) (h : Header)
    → Disjoint hdr bs
    → covers hdr bs d ≡ false
    → AllMarked hdr bs
    → AllMarked (put hdr d h) bs
unfolding covers
AllMarked-put hdr [] d h dis out m = tt
AllMarked-put hdr (b ∷ bs) d h dis out m =
    let other : (d == b) ≡ false = ground (arith, starts hdr b dis.0) in
    rw other (m.0, AllMarked-put hdr bs d h dis.3 (ground arith) m.1)

-- What taking block `b` of at least `need` bytes off the list `bs` gives.
pub record Taken (need : ℕ) (hdr : Headers) (bs : List ℕ) (b : ℕ) (hdr' : Headers) (bs' : List ℕ)
    : Type 0 where
  -- the block is large enough, and marked used
  pub large : need ≤ (hdr' b).size
  pub used : (hdr' b).magic ≡ magic_used
  -- the bytes of the list before are those of the block and of the list after
  pub bytes : (a : ℕ) → covers hdr bs a ≡ (within b (hdr' b).size a || covers hdr' bs' a)
  -- no block is left that shares a byte with it or with another
  pub apart : (a : ℕ) → within b (hdr' b).size a ≡ true → covers hdr' bs' a ≡ false
  pub dis : Disjoint hdr' bs'
  pub marked : AllMarked hdr bs → AllMarked hdr' bs'
  -- the block was on the list, and headers outside the list stay as they were
  pub taken_from : covers hdr bs b ≡ true
  pub outside : (d : ℕ) → covers hdr bs d ≡ false → hdr' d ≡ hdr d

take_here :
    (need : ℕ) (hdr : Headers) (b : ℕ) (bs : List ℕ)
    → Disjoint hdr (b ∷ bs)
    → need ≤ (hdr b).size
    → Taken need hdr (b ∷ bs) b (put hdr b (record { size = (hdr b).size; magic = magic_used })) bs
unfolding covers
take_here need hdr b bs dis le =
    let out : covers hdr bs b ≡ false = dis.2 b (starts hdr b dis.0) in
    let same = covers-put hdr bs b (record { size = (hdr b).size; magic = magic_used }) dis.3 out in
    record {
      large = ground arith;
      used = ground arith;
      bytes = λ a. ground (arith, same.0 a);
      apart = λ a i. same.0 a ∙ dis.2 a (ground arith);
      dis = same.1;
      marked = λ m.
          AllMarked-put hdr bs b (record { size = (hdr b).size; magic = magic_used }) dis.3 out m.1;
      taken_from = ground (arith, starts hdr b dis.0);
      outside = λ d o. ground (arith, starts hdr b dis.0, ap (covers hdr (b ∷ bs)) {x = b} {y = d});
    }

-- the headers after block `b` is split at `need`
abbrev split : ℕ → Headers → ℕ → Headers
split need hdr b =
    put (put hdr (b + need) (record { size = (hdr b).size - need; magic = magic_free })) b
      (record { size = need; magic = magic_used })

take_split :
    (need : ℕ) (hdr : Headers) (b : ℕ) (bs : List ℕ)
    → Disjoint hdr (b ∷ bs)
    → 0 < need
    → need + hdr_size ≤ (hdr b).size
    → Taken need hdr (b ∷ bs) b (split need hdr b) ((b + need) ∷ bs)
unfolding covers
take_split need hdr b bs dis pos le =
    let out : covers hdr bs b ≡ false = dis.2 b (starts hdr b dis.0) in
    let out' : covers hdr bs (b + need) ≡ false = dis.2 (b + need) (ground arith) in
    let h1 : Header = record { size = (hdr b).size - need; magic = magic_free } in
    let first = covers-put hdr bs (b + need) h1 dis.3 out' in
    let second =
      covers-put (put hdr (b + need) h1) bs b (record { size = need; magic = magic_used }) first.1
        (first.0 b ∙ out) in
    let left : (split need hdr b (b + need)).size ≡ (hdr b).size - need = ground arith in
    let here : (split need hdr b b).size ≡ need = ground arith in
    let tail_free : (a : ℕ)
        → within b (hdr b).size a ≡ true
        → covers (split need hdr b) bs a ≡ false =
      λ a i. second.0 a ∙ first.0 a ∙ dis.2 a i in
    record {
      large = omega (arith, here);
      used = ground arith;
      bytes = λ a. rw (here, left) (ground (arith, first.0 a, second.0 a));
      apart = λ a i. rw left (ground (arith, here, tail_free a));
      dis =
          rw left (omega arith, omega (arith, dis.1), λ a i. tail_free a (ground arith), second.1);
      marked = λ m. (
        ground arith,
        AllMarked-put (put hdr (b + need) h1) bs b (record { size = need; magic = magic_used })
            first.1 (first.0 b ∙ out) (AllMarked-put hdr bs (b + need) h1 dis.3 out' m.1),
      );
      taken_from = ground (arith, starts hdr b dis.0);
      outside = λ d o. ground (arith, starts hdr b dis.0, ap (covers hdr (b ∷ bs)) {x = b} {y = d});
    }

take_skip :
    (need : ℕ) (hdr : Headers) (b : ℕ) (bs : List ℕ) {c : ℕ} {hdr' : Headers} {bs' : List ℕ}
    → Disjoint hdr (b ∷ bs)
    → Taken need hdr bs c hdr' bs'
    → Taken need hdr (b ∷ bs) c hdr' (b ∷ bs')
unfolding covers
take_skip need hdr b bs {c} {hdr'} {bs'} dis t =
    let same : hdr' b ≡ hdr b = t.outside b (dis.2 b (starts hdr b dis.0)) in
    record {
      large = t.large;
      used = t.used;
      bytes = λ a. rw same (ground (arith, t.bytes a));
      apart = λ a i. rw same (ground (arith, t.bytes a, t.apart a i, dis.2 a));
      dis = rw same (dis.0, dis.1, λ a i. ground (arith, dis.2 a i, t.bytes a), t.dis);
      marked = λ m. rw same (m.0, t.marked m.1);
      taken_from = ground (arith, t.taken_from);
      outside = λ d o. t.outside d (ground arith);
    }

-- every block on the list is smaller than `need`
abbrev pub AllSmall : ℕ → Headers → List ℕ → Type 0
AllSmall need hdr [] = Unit {0}
AllSmall need hdr (b ∷ bs) = ((hdr b).size < need) × AllSmall need hdr bs

-- What a scan of the list finds: nothing, if every block is too small, or a block that it takes.
abbrev pub FitResult : ℕ → Headers → List ℕ → Type 0
FitResult need hdr bs =
    ((take_fit need hdr bs ≡ ok none) × AllSmall need hdr bs)
    ⊎ ((b : ℕ) × (hdr' : Headers) × (bs' : List ℕ) × (take_fit need hdr bs
          ≡ ok (some (b, hdr', bs')))
        × Taken need hdr bs b hdr' bs')

pub take_fit-FitResult :
    (need : ℕ) (hdr : Headers) (bs : List ℕ)
    → 0 < need
    → Disjoint hdr bs
    → AllMarked hdr bs
    → FitResult need hdr bs
unfolding take_fit
take_fit-FitResult need hdr [] pos dis marked = inl (refl, tt)
take_fit-FitResult need hdr (b ∷ bs) pos dis marked =
    let sound : ((hdr b).magic == magic_free) ≡ true = ground (arith, marked.0) in
    elim (Bool-cases (leb need (hdr b).size)) [
      | inl fits ↦ elim (Bool-cases (leb (hdr_size + 16) ((hdr b).size - need))) [
        | inl big ↦
            inr (b, _, _, rw (sound, fits, big), take_split need hdr b bs dis pos (ground arith))
        | inr exact ↦
            inr (b, _, _, rw (sound, fits, exact), take_here need hdr b bs dis (ground arith))
      ]
      | inr small ↦ elim (take_fit-FitResult need hdr bs pos dis.3 marked.1) [
        | inl missing ↦ inl (rw (sound, small, missing.0), (ground arith, missing.1))
        | inr (c, hdr', bs', e, t) ↦
            inr (c, hdr', b ∷ bs', rw (sound, small, e), take_skip need hdr b bs dis t)
      ]
    ]
