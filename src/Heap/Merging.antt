-- ===== src/Heap/Merging.antt =====
-- The loop of `kfree` of core/memory/heap.c that merges neighbours keeps the bytes of the list.
use uix.Base.{
  ℕ, ◌+◌, ◌%◌, ◌^◌, ◌<◌, ◌≤◌, ◌≡◌, refl, ◌∙◌, ap, false, inl, inr, List, [], ◌∷◌, ◌==◌, ◌||◌, arith,
  Bool-cases,
}
use uix.Heap.{Header, Headers, put, merge_from, merge, heap_va_base}
use uix.Heap.Blocks.{within, covers}
use uix.Heap.Fit.{AllMarked}
use uix.Heap.Sorting.{Ascending, Ascending-weaken}

-- A header that lies before the blocks of a list can change.
put-before :
    (gap : ℕ) (hdr : Headers) (d : ℕ) (h : Header) (lo : ℕ) (bs : List ℕ)
    → d < lo
    → Ascending gap hdr lo bs
    → Ascending gap (put hdr d h) lo bs
      × (AllMarked hdr bs → AllMarked (put hdr d h) bs)
      × ((a : ℕ) → covers (put hdr d h) bs a ≡ covers hdr bs a)
unfolding covers
put-before gap hdr d h lo [] lt o = (tt, λ m. tt, λ a. refl)
put-before gap hdr d h lo (b ∷ bs) lt o =
    let other : (d == b) ≡ false = ground (arith, o.0) in
    let rest = put-before gap hdr d h (b + (hdr b).size + gap) bs (omega (arith, o.0)) o.3 in
    (
      rw other (o.0, o.1, o.2, rest.0),
      λ m. rw other (m.0, rest.1 m.1),
      λ a. rw other (ap (λ c. within b (hdr b).size a || c) (rest.2 a)),
    )

-- What merging the block `tail` with those of `rest` gives: blocks that do not touch, which cover
-- the same bytes.
pub record Merged (hdr : Headers) (tail : ℕ) (rest : List ℕ) (hdr' : Headers) (out : List ℕ)
    : Type 0 where
  pub apart : Ascending 1 hdr' tail out
  pub marked : AllMarked hdr (tail ∷ rest) → AllMarked hdr' out
  pub bytes : (a : ℕ) → covers hdr' out a ≡ covers hdr (tail ∷ rest) a
  pub before : (d : ℕ) → d < tail → hdr' d ≡ hdr d

-- A list from `heap_va_base` on has less than 2 ^ 32 bytes, so that the sum of two sizes fits a u32.
pub merge_from-Merged :
    (hdr : Headers) (tail : ℕ) (rest : List ℕ)
    → heap_va_base ≤ tail
    → Ascending 0 hdr tail (tail ∷ rest)
    → let (hdr', out) = merge_from hdr tail rest in Merged hdr tail rest hdr' out
unfolding merge_from covers
merge_from-Merged hdr tail [] base o = record {
  apart = (o.0, o.1, o.2, tt);
  marked = λ m. m;
  bytes = λ a. refl;
  before = λ d lt. refl;
}
merge_from-Merged hdr tail (cur ∷ rest) base o =
    let m = (hdr tail).size in
    let n = (hdr cur).size in
    elim (Bool-cases ((tail + m) % 2 ^ 64 == cur)) [
      | inr e ↦
          let (after, big, top, more) = o.3 in
          let later =
            merge_from-Merged hdr cur rest (omega (arith, o.1)) (omega arith, big, top, more) in
          let (hdr', out) = merge_from hdr cur rest in
          let same : hdr' tail ≡ hdr tail = later.before tail (omega (arith, o.1)) in
          rw e (record {
            apart = rw same (
              o.0,
              o.1,
              o.2,
              Ascending-weaken 1 hdr' cur (tail + m + 1) out (ground arith) later.apart,
            );
            marked = λ k. rw same (k.0, later.marked k.1);
            bytes = λ a. rw same (ap (λ c. within tail m a || c) (later.bytes a));
            before = λ d lt. later.before d (omega (arith, o.1));
          })
      | inl e ↦
          let (after, big, top, more) = o.3 in
          let touch : tail + m ≡ cur = ground arith in
          let h : Header = record (hdr tail) { size = (m + n) % 2 ^ 32 } in
          let fits : (m + n) % 2 ^ 32 ≡ m + n = omega arith in
          let grown : (put hdr tail h tail).size ≡ m + n = ground arith in
          let kept = put-before 0 hdr tail h (cur + n + 0) rest (omega arith) more in
          let later = merge_from-Merged (put hdr tail h) tail rest base (
            omega arith,
            omega (arith, grown),
            omega (arith, grown),
            Ascending-weaken 0 (put hdr tail h) (cur + n + 0)
                (tail + (put hdr tail h tail).size + 0) rest (omega (arith, grown)) kept.0,
          ) in
          rw e (record {
            apart = later.apart;
            marked = λ k. later.marked (ground (arith, k.0), kept.1 k.1.1);
            bytes = λ a. later.bytes a ∙ rw grown (ground (arith, kept.2 a));
            before = λ d lt. later.before d lt ∙ ground arith;
          })
    ]

pub merge_lem :
    (hdr : Headers) (bs : List ℕ)
    → Ascending 0 hdr heap_va_base bs
    → AllMarked hdr bs
    → let (hdr', out) = merge hdr bs in
      Ascending 1 hdr' heap_va_base out
      × AllMarked hdr' out
      × ((a : ℕ) → covers hdr' out a ≡ covers hdr bs a)
unfolding merge
merge_lem hdr [] o m = (tt, tt, λ a. refl)
merge_lem hdr (cur ∷ rest) o m =
    let done = merge_from-Merged hdr cur rest o.0 (omega arith, o.1, o.2, o.3) in
    let (hdr', out) = merge_from hdr cur rest in
    (Ascending-weaken 1 hdr' cur heap_va_base out o.0 done.apart, done.marked m, done.bytes)
