-- ===== src/Boot/Pages.antt =====
-- `selftest_memory` of core/kmain.c on the page allocator: 64 pages are taken and given back.
use uix.Base.{
  ℕ, zero, suc, ◌+◌, ◌*◌, ◌/◌, ◌<◌, ◌≤◌, ◌≡◌, ◌≢◌, refl, sym, ◌∙◌, ap, Bool, true, false, inl, inr,
  ◌⊎◌, List, [], ◌∷◌, ◌==◌, ◌||◌, not, if◌then◌else◌, leb, length, arith, Bool-cases, ==→eq, ne→==,
  ==_self, Outcome, ok, panic, ◌>>=◌,
}
use uix.Pmm
use uix.Pmm.{Pmm, page_index, is_free, take_page, free_pages, set_used}
use uix.Pmm.Bitmap.{is_free-set_used, count_free, count_free-pos, count_free-le}
use uix.Pmm.Valid.{IsValid, take_page-IsValid}
use uix.Pmm.Alloc.{alloc_result}
use uix.Pmm.Free.{free_lem}
use uix.Boot.{take_pages, give_back, selftest_pages}

-- whether page `j` is that of one of the addresses
owned : List ℕ → ℕ → Bool
owned [] j = false
owned (a ∷ rest) j = (page_index a == j) || owned rest j

abbrev Apart : List ℕ → Type 0
Apart [] = Unit {0}
Apart (a ∷ rest) = (owned rest (page_index a) ≡ false) × Apart rest

-- The pages of `list` have been taken from `p`, which has become `q`.
record Taken (p q : Pmm) (list : List ℕ) : Type 0 where
  valid : IsValid q
  pages : q.bitmap_len ≡ p.bitmap_len
  union : (j : ℕ) → is_free p.bitmap j ≡ (is_free q.bitmap j || owned list j)
  used : (j : ℕ) → owned list j ≡ true → is_free q.bitmap j ≡ false
  inside : (j : ℕ) → owned list j ≡ true → j < q.bitmap_len
  apart : Apart list
  counted : free_pages q + length list ≡ free_pages p

Taken-start : (p : Pmm) → IsValid p → Taken p p []
unfolding owned
Taken-start p v = record {
  valid = v;
  pages = refl;
  union = λ j. ground arith;
  used = λ j o. absurd (ground arith);
  inside = λ j o. absurd (ground arith);
  apart = tt;
  counted = omega arith;
}

freed :
    (q : Pmm) (a : ℕ)
    → leb q.bitmap_len (page_index a) ≡ false
    → is_free q.bitmap (page_index a) ≡ false
    → (r : Pmm) × (Pmm.free q a ≡ ok r)
unfolding Pmm.free
freed q a below in_use = (
  record q { bitmap = Pmm.set_free q.bitmap (page_index a); free_count = Pmm.add64 q.free_count 1 },
  rw (Pmm.free, below, in_use) refl,
)

move_bit : (x b o : Bool) → (x || (b || o)) ≡ ((if b then true else x) || o)
move_bit true true o = refl
move_bit true false o = refl
move_bit false true o = refl
move_bit false false o = refl

either : (b o : Bool) → o ≡ true → (b || o) ≡ true
either true o e = refl
either false o e = e

other_page :
    (a j : ℕ) (list : List ℕ)
    → owned list (page_index a) ≡ false
    → owned list j ≡ true
    → (page_index a == j) ≡ false
other_page a j list out o = elim (Bool-cases (page_index a == j)) [
  | inr e ↦ e
  | inl e ↦
      let same : owned list (page_index a) ≡ owned list j =
        ap (owned list) (==→eq (page_index a) j e) in
      cc
]

-- A page that is given back makes the list shorter.
Taken-free :
    (p q : Pmm) (a : ℕ) (list : List ℕ)
    → Taken p q (a ∷ list)
    → (r : Pmm) × (Pmm.free q a ≡ ok r) × Taken p r list
unfolding owned
Taken-free p q a list t =
    let here : ((page_index a == page_index a) || owned list (page_index a)) ≡ true =
      rw (==_self (page_index a)) refl in
    let in_use = t.used (page_index a) here in
    let below : leb q.bitmap_len (page_index a) ≡ false =
      ground (arith, t.inside (page_index a) here) in
    let (r, run) = freed q a below in_use in
    let (v, len, free, count) = free_lem a t.valid run in
    (
      r,
      run,
      record {
        valid = v;
        pages = len ∙ t.pages;
        union = λ j.
            t.union j
            ∙ move_bit (is_free q.bitmap j) (page_index a == j) (owned list j)
            ∙ ap (λ x. x || owned list j) (sym (free j));
        used = λ j o.
            free j
            ∙ rw (other_page a j list t.apart.0 o)
                (t.used j (either (page_index a == j) (owned list j) o));
        inside = λ j o. rw len (t.inside j (either (page_index a == j) (owned list j) o));
        apart = t.apart.1;
        counted = omega (arith, count, t.counted);
      },
    )

-- All of them can be given back; the same pages are free then as at the start.
give_back_lem :
    (p q : Pmm) (list : List ℕ)
    → Taken p q list
    → (r : Pmm) × (give_back list q ≡ ok r) × Taken p r []
unfolding give_back
give_back_lem p q [] t = (q, refl, t)
give_back_lem p q (a ∷ list) t =
    let (r, run, t') = Taken-free p q a list t in
    let (r', run', done) = give_back_lem p r list t' in
    (r', ap (λ m. m >>= give_back list) run ∙ run', done)

neither : (b o : Bool) → false ≡ (b || o) → (b ≡ false) × (o ≡ false)
neither true o e = cc
neither false o e = (refl, sym e)

or_true : (b o : Bool) → (b || (true || o)) ≡ true
or_true true o = refl
or_true false o = refl

-- A page that is taken first is none of those that are taken after it.
Taken-take :
    (p r : Pmm) (i : ℕ) (list : List ℕ)
    → IsValid p
    → i < p.bitmap_len
    → is_free p.bitmap i ≡ true
    → Taken (take_page p i) r list
    → Taken p r (i * 4096 ∷ list)
unfolding owned take_page free_pages
Taken-take p r i list v lt f t =
    let index : i * 4096 / 4096 ≡ i = omega arith in
    let mark = λ (j : ℕ). is_free-set_used p.bitmap i j (omega (arith, v.covered)) in
    let gone : is_free (set_used p.bitmap i) i ≡ false = mark i ∙ rw (==_self i) refl in
    let (r_used, unlisted) = neither (is_free r.bitmap i) (owned list i) (sym gone ∙ t.union i) in
    let pos = count_free-pos p.bitmap i p.bitmap_len lt f in
    let bound = count_free-le p.bitmap p.bitmap_len in
    record {
      valid = t.valid;
      pages = t.pages;
      union = λ j. elim (Bool-cases (i == j)) [
        | inl e ↦
            let free : is_free p.bitmap j ≡ true = ap (is_free p.bitmap) (sym (==→eq i j e)) ∙ f in
            free ∙ rw (index, e) (sym (or_true (is_free r.bitmap j) (owned list j)))
        | inr e ↦
            let same : is_free (set_used p.bitmap i) j ≡ is_free p.bitmap j = mark j ∙ rw e refl in
            sym same ∙ t.union j ∙ rw (index, e) refl
      ];
      used = λ j. rw index (elim (Bool-cases (i == j)) [
        | inl e ↦ λ o. ap (is_free r.bitmap) (sym (==→eq i j e)) ∙ r_used
        | inr e ↦ λ o. t.used j (rw e at o)
      ]);
      inside = λ j. rw index (elim (Bool-cases (i == j)) [
        | inl e ↦ λ o. omega (arith, ==→eq i j e, t.pages)
        | inr e ↦ λ o. t.inside j (rw e at o)
      ]);
      apart = (rw index unlisted, t.apart);
      counted = omega (arith, t.counted, v.counted, pos, bound, v.small);
    }

count_free-none :
    (bitmap : List ℕ) (n : ℕ)
    → ((i : ℕ) → i < n → is_free bitmap i ≡ false)
    → count_free bitmap n ≡ 0
unfolding count_free
count_free-none bitmap zero none_free = refl
count_free-none bitmap (suc n) none_free =
    ground (
      arith,
      none_free n (omega arith),
      count_free-none bitmap n (λ i lt. none_free i (omega arith)),
    )

-- one round of the first loop, with what `pmm_alloc` gives
abbrev take_next : ℕ → Pmm × ℕ → Outcome (Pmm × List ℕ)
take_next n (q, a) =
    let rest = take_pages n q >>= λ r. ok (r.0, a ∷ r.1) in if a == 0 then panic else rest

still_used :
    (p : Pmm) (i : ℕ)
    → IsValid p
    → is_free p.bitmap 0 ≡ false
    → i < p.bitmap_len
    → is_free p.bitmap i ≡ true
    → (i ≢ 0)
      × (is_free (take_page p i).bitmap 0 ≡ false)
      × (free_pages (take_page p i) + 1 ≡ free_pages p)
unfolding take_page free_pages
still_used p i v page_0 lt f =
    let some_page : i ≢ 0 =
      λ z. let free : is_free p.bitmap i ≡ is_free p.bitmap 0 = ap (is_free p.bitmap) z in cc in
    (
      some_page,
      is_free-set_used p.bitmap i 0 (omega (arith, v.covered)) ∙ rw (ne→== i 0 some_page) page_0,
      omega (
        arith,
        v.counted,
        v.small,
        count_free-pos p.bitmap i p.bitmap_len lt f,
        count_free-le p.bitmap p.bitmap_len,
      ),
    )

-- While pages are left, they can be taken; page 0, whose address stands for a failure, is in use.
take_pages_lem :
    (n : ℕ) (p : Pmm)
    → IsValid p
    → is_free p.bitmap 0 ≡ false
    → n ≤ free_pages p
    → (q : Pmm) × (list : List ℕ) × (take_pages n p ≡ ok (q, list)) × Taken p q list
unfolding take_pages
take_pages_lem zero p v page_0 enough = (p, [], refl, Taken-start p v)
take_pages_lem (suc n) p v page_0 enough = elim (alloc_result v) [
  | inl (e, none_free) ↦
      let empty = count_free-none p.bitmap p.bitmap_len none_free in
      absurd (unfold free_pages in omega (arith, v.counted))
  | inr (i, lt, f, e) ↦
      let q = take_page p i in
      let (some_page, page_0', left) = still_used p i v page_0 lt f in
      let (r, list, run, t) =
        take_pages_lem n q (take_page-IsValid v i lt f) page_0' (omega arith) in
      let address : (i * 4096 == 0) ≡ false = ne→== (i * 4096) 0 (λ z. some_page (omega arith)) in
      (
        r,
        i * 4096 ∷ list,
        ap (take_next n) e ∙ rw address (ap (λ m. m >>= λ x. ok (x.0, i * 4096 ∷ x.1)) run),
        Taken-take p r i list v lt f t,
      )
]

-- With too few pages, it panics.
take_pages_short :
    (n : ℕ) (p : Pmm)
    → IsValid p
    → is_free p.bitmap 0 ≡ false
    → free_pages p < n
    → take_pages n p ≡ panic
unfolding take_pages
take_pages_short zero p v page_0 few = absurd (omega arith)
take_pages_short (suc n) p v page_0 few = elim (alloc_result v) [
  | inl (e, none_free) ↦ ap (take_next n) e
  | inr (i, lt, f, e) ↦
      let q = take_page p i in
      let (some_page, page_0', left) = still_used p i v page_0 lt f in
      let run = take_pages_short n q (take_page-IsValid v i lt f) page_0' (omega arith) in
      let address : (i * 4096 == 0) ≡ false = ne→== (i * 4096) 0 (λ z. some_page (omega arith)) in
      ap (take_next n) e ∙ rw address (ap (λ m. m >>= λ x. ok (x.0, i * 4096 ∷ x.1)) run)
]

-- In a valid state in which page 0 is in use, the first part of `selftest_memory` panics if fewer than
-- 64 pages are free. Otherwise it passes: none of its calls panics, its two counts agree, and
-- afterwards the state is valid and the same pages are free.
pub selftest_pages_lem :
    (p : Pmm)
    → IsValid p
    → is_free p.bitmap 0 ≡ false
    → ((free_pages p < 64) × (selftest_pages p ≡ panic))
      ⊎ ((64 ≤ free_pages p)
          × (q : Pmm) × (selftest_pages p ≡ ok q)
          × IsValid q
          × ((j : ℕ) → is_free q.bitmap j ≡ is_free p.bitmap j)
          × (free_pages q ≡ free_pages p))
unfolding selftest_pages owned
selftest_pages_lem p v page_0 =
    let check = λ (x : Pmm). if not (free_pages x == free_pages p) then panic else ok x in
    let back = λ (m : Outcome (Pmm × List ℕ)). m >>= λ x. give_back x.1 x.0 >>= check in
    elim (Bool-cases (leb 64 (free_pages p))) [
      | inr few ↦ inl (ground arith, ap back (take_pages_short 64 p v page_0 (ground arith)))
      | inl enough ↦
          let (q, list, taken, t) = take_pages_lem 64 p v page_0 (ground arith) in
          let (r, given, t') = give_back_lem p q list t in
          let same : free_pages r ≡ free_pages p = omega (arith, t'.counted) in
          let equal : (free_pages r == free_pages p) ≡ true = rw same (==_self (free_pages p)) in
          inr (
            ground arith,
            r,
            ap back taken
                ∙ ap (λ m. m >>= check) given
                ∙ ap (λ b. if not b then panic else ok r) equal,
            t'.valid,
            λ j. ground (arith, t'.union j),
            same,
          )
    ]
