-- ===== src/Exec/Released.antt =====
-- What the freeing of an address space in core/cpu/exec.c keeps.
use mathlib.Core.Path.{subst}
use uix.Base.{
  ℕ, zero, suc, ◌≡◌, refl, sym, ◌∙◌, ap, true, inl, inr, ◌⊎◌, ◌-◌, Option, none, some, List, ltb,
  leb, if◌then◌else◌, arith, Outcome, ok, ◌>>=◌, sequence_returns, ok-injective, Bool-cases, get_or,
  set,
}
use uix.Pmm
use uix.Pmm.{Pmm, page_index, is_free, free_pages}
use uix.Pmm.Valid.{IsValid}
use uix.Pmm.Free.{free_lem}
use uix.Vmm.{Vmm, is_present, frame, for_each}
use uix.Vmm.Space.{for_each_inv}
use uix.Exec.Freeing.{free_leaf, free_under, free_user_tables}

-- The allocator is as it should be, and has taken no page since `p`.
pub record Grown (p q : Pmm) : Type 0 where
  pub valid : IsValid q
  pub pages : q.bitmap_len ≡ p.bitmap_len
  pub kept : (j : ℕ) → is_free p.bitmap j ≡ true → is_free q.bitmap j ≡ true

Grown-free : (p q r : Pmm) (page : ℕ) → Grown p q → Pmm.free q page ≡ ok r → Grown p r
Grown-free p q r page g e =
    let (v, len, free, count) = free_lem page g.valid e in
    record { valid = v; pages = len ∙ g.pages; kept = λ j h. free j ∙ ground (arith, g.kept j h) }

-- `pmm_unref`, with the reference counts as an argument
abbrev unref_with : Pmm → ℕ → Option (List ℕ) → Outcome Pmm
unref_with q page counts = elim counts [
  | none ↦ ok q
  | some cs ↦ if leb q.total_pages (page_index page) then ok q else Pmm.unref_count q cs page
]

abbrev UnrefForm : Pmm → ℕ → Outcome Pmm → Type 0
UnrefForm q page m =
    (m ≡ ok q)
    ⊎ (((counts : List ℕ) × (m ≡ ok (record q { refcounts = some counts })))
        ⊎ ((counts : List ℕ) × (m ≡ Pmm.free (record q { refcounts = some counts }) page)))

-- `pmm_unref` does nothing, changes a count, or frees the page.
unref_with_forms :
    (q : Pmm) (page : ℕ) (counts : Option (List ℕ)) → UnrefForm q page (unref_with q page counts)
unfolding Pmm.unref_count
unref_with_forms q page none = inl refl
unref_with_forms q page (some cs) = elim (Bool-cases (leb q.total_pages (page_index page))) [
  | inl past ↦ inl (rw past refl)
  | inr in_range ↦ rw in_range (elim (Bool-cases (ltb 1 (get_or cs (page_index page) 0))) [
    | inl shared ↦
        inr (inl (set cs (page_index page) (get_or cs (page_index page) 0 - 1), rw shared refl))
    | inr last ↦ inr (inr (set cs (page_index page) 0, rw last refl))
  ])
]

unref_forms : (q : Pmm) (page : ℕ) → UnrefForm q page (Pmm.unref q page)
unfolding Pmm.unref
unref_forms q page = unref_with_forms q page q.refcounts

-- The invariant does not look at the counts.
Grown-counts :
    (p q : Pmm) (counts : List ℕ) → Grown p q → Grown p (record q { refcounts = some counts })
Grown-counts p q counts g = record {
  valid = record {
    covered = g.valid.covered;
    small = g.valid.small;
    cursor = g.valid.cursor;
    counted = g.valid.counted;
  };
  pages = g.pages;
  kept = g.kept;
}

Grown-unref : (p q r : Pmm) (page : ℕ) → Grown p q → Pmm.unref q page ≡ ok r → Grown p r
Grown-unref p q r page g e = elim (unref_forms q page) [
  | inl same ↦ subst (Grown p) (ok-injective (sym same ∙ e)) g
  | inr (inl (counts, shared)) ↦
      subst (Grown p) (ok-injective (sym shared ∙ e)) (Grown-counts p q counts g)
  | inr (inr (counts, last)) ↦
      Grown-free p (record q { refcounts = some counts }) r page (Grown-counts p q counts g)
        (sym last ∙ e)
]

-- Memory and the top table are as in `s`, and the allocator has taken no page.
pub record Released (s u : Vmm) : Type 0 where
  pub words : u.words ≡ s.words
  pub top : u.pml4 ≡ s.pml4
  pub grown : Grown s.pmm u.pmm

pub Released-free :
    (s u w : Vmm) (page : ℕ)
    → Released s u
    → (Pmm.free u.pmm page >>= λ p. ok (record u { pmm = p })) ≡ ok w
    → Released s w × (Pmm.free u.pmm page ≡ ok w.pmm)
Released-free s u w page r e =
    let (p, tail, head) = sequence_returns (Pmm.free u.pmm page) _ w e in
    let same : record u { pmm = p } ≡ w = ok-injective tail in
    (
      subst (Released s) same (record {
        words = r.words;
        top = r.top;
        grown = Grown-free s.pmm u.pmm p page r.grown head;
      }),
      head ∙ ap (λ (v : Vmm). ok v.pmm) same,
    )

free_leaf-Released :
    (s u w : Vmm) (table i : ℕ) → Released s u → free_leaf table u i ≡ ok w → Released s w
unfolding free_leaf
free_leaf-Released s u w table i r e = elim (Bool-cases (is_present (u.words table i))) [
  | inl here ↦
      let page = frame (u.words table i) in
      let (p, tail, head) = sequence_returns (Pmm.unref u.pmm page) _ w (rw here at e) in
      subst (Released s) (ok-injective tail) (record {
        words = r.words;
        top = r.top;
        grown = Grown-unref s.pmm u.pmm p page r.grown head;
      })
  | inr gone ↦ subst (Released s) (ok-injective (rw gone at e)) r
]

free_under-Released :
    (below : ℕ → Vmm → Outcome Vmm) (s u w : Vmm) (table i : ℕ)
    → ((t : ℕ) (v v' : Vmm) → Released s v → below t v ≡ ok v' → Released s v')
    → Released s u
    → free_under below table u i ≡ ok w
    → Released s w
unfolding free_under
free_under-Released below s u w table i keeps r e =
    elim (Bool-cases (is_present (u.words table i))) [
      | inl here ↦
          let page = frame (u.words table i) in
          let (v, tail, head) = sequence_returns (below page u) _ w (rw here at e) in
          (Released-free s v w page (keeps page u v r head) tail).0
      | inr gone ↦ subst (Released s) (ok-injective (rw gone at e)) r
    ]

pub free_user_tables-Released :
    (level table : ℕ) (s u w : Vmm)
    → Released s u
    → free_user_tables level table u ≡ ok w
    → Released s w
unfolding free_user_tables
free_user_tables-Released zero table s u w r e =
    for_each_inv (Released s) (free_leaf table) 512 0 u w
      (λ i v v'. free_leaf-Released s v v' table i) r e
free_user_tables-Released (suc level) table s u w r e =
    for_each_inv (Released s) (free_under (free_user_tables level) table) 512 0 u w
      (λ i v v' rv step.
        free_under-Released (free_user_tables level) s v v' table i
          (λ t x x'. free_user_tables-Released level t s x x') rv step)
      r e

-- Any entries of a table.
pub entries-Released :
    (level table rounds first : ℕ) (s u w : Vmm)
    → Released s u
    → for_each (free_under (free_user_tables level) table) rounds first u ≡ ok w
    → Released s w
entries-Released level table rounds first s u w r e =
    for_each_inv (Released s) (free_under (free_user_tables level) table) rounds first u w
      (λ i v v' rv step.
        free_under-Released (free_user_tables level) s v v' table i
          (λ t x x'. free_user_tables-Released level t s x x') rv step)
      r e

pub Released-refl : (s : Vmm) → IsValid s.pmm → Released s s
Released-refl s v = record {
  words = refl;
  top = refl;
  grown = record { valid = v; pages = refl; kept = λ j h. h };
}
