-- ===== src/Wrapper/Order/Deduplicate.antt =====
-- `deduplicate_facts` keeps one fact of each class, in ascending order.
use Prim.Native.Nat.{Ordering}
use mathlib.Core.List.{Permᴰ}
use mathlib.Core.List.Permᴰ
use p101_audit.Base.{
  ℕ, ◌≡◌, ◌≢◌, refl, sym, ◌∙◌, inl, inr, true, false, List, [], ◌∷◌, Memᴰ, arith, Bool-cases, subst,
  leb, length,
}
use p101_audit.Base.Scan.{mem_cons_cases}
use p101_audit.Wrapper.{Kind, Fact, Model}
use p101_audit.Wrapper.Order.{
  compare_facts, same_fact, keep_changes, deduplicate_sorted, deduplicate_facts,
}
use p101_audit.Wrapper.Order.Comparison.{IsComparison, compare_facts-IsComparison, right}

module _ (code : Kind → ℕ) where
  -- Each fact is behind no later one.
  abbrev pub IsSorted : List Fact → Type 0
  IsSorted [] = Unit
  IsSorted (x ∷ xs) = ((y : Fact) → Memᴰ y xs → compare_facts code x y ≢ Ordering.gt) × IsSorted xs

  -- Each fact is before every later one.
  abbrev pub IsAscending : List Fact → Type 0
  IsAscending [] = Unit
  IsAscending (x ∷ xs) =
      ((y : Fact) → Memᴰ y xs → compare_facts code x y ≡ Ordering.lt) × IsAscending xs

  -- A fact that compares equal to `x` is in the list.
  abbrev pub Represents : Fact → List Fact → Type 0
  Represents x ys = (y : Fact) × Memᴰ y ys × (compare_facts code y x ≡ Ordering.eq)

  abbrev laws : IsComparison (compare_facts code)
  laws = compare_facts-IsComparison code

  same_iff : (x y : Fact) → same_fact code x y ≡ true → compare_facts code x y ≡ Ordering.eq
  unfolding same_fact
  same_iff x y h = ground arith

  less_of_change :
      (x y : Fact)
      → same_fact code x y ≡ false
      → compare_facts code x y ≢ Ordering.gt
      → compare_facts code x y ≡ Ordering.lt
  unfolding same_fact
  less_of_change x y h k = ground arith

  -- Everything kept is at or behind `last`, and from the list.
  keep_changes-mem :
      (last : Fact) (xs : List Fact) (y : Fact)
      → Memᴰ y (keep_changes code last xs)
      → Memᴰ y (last ∷ xs)
  unfolding keep_changes
  keep_changes-mem last [] y m = m
  keep_changes-mem last (x ∷ xs) y m = elim (Bool-cases (same_fact code last x)) [
    | inl e ↦ widen (keep_changes-mem last xs y (rw e at m))
    | inr e ↦ step (keep_changes-mem x xs y) (rw e at m)
  ]
    where
      widen : Memᴰ y (last ∷ xs) → Memᴰ y (last ∷ x ∷ xs)
      widen (Memᴰ.head q) = Memᴰ.head q
      widen (Memᴰ.tail q) = Memᴰ.tail (Memᴰ.tail q)

      step :
          (Memᴰ y (keep_changes code x xs) → Memᴰ y (x ∷ xs))
          → Memᴰ y (last ∷ keep_changes code x xs)
          → Memᴰ y (last ∷ x ∷ xs)
      step from (Memᴰ.head q) = Memᴰ.head q
      step from (Memᴰ.tail q) = Memᴰ.tail (from q)

  less_trans :
      (x y z : Fact)
      → compare_facts code x y ≡ Ordering.lt
      → compare_facts code y z ≢ Ordering.gt
      → compare_facts code x z ≡ Ordering.lt
  less_trans x y z h k = ground (arith, laws.trans x y z, right laws x y z)

  keep_changes-IsAscending :
      (last : Fact) (xs : List Fact)
      → IsSorted (last ∷ xs)
      → IsAscending (keep_changes code last xs)
  unfolding keep_changes
  keep_changes-IsAscending last [] s = ((λ y m. elim m [ ]), tt)
  keep_changes-IsAscending last (x ∷ xs) (first, (second, s)) =
      elim (Bool-cases (same_fact code last x)) [
        | inl e ↦ rw e (keep_changes-IsAscending last xs ((λ y m. first y (Memᴰ.tail m)), s))
        | inr e ↦
            let less = less_of_change last x e (first x (Memᴰ.head refl)) in
            rw e (
              (λ y m. behind less y (keep_changes-mem x xs y m)),
              keep_changes-IsAscending x xs (second, s),
            )
      ]
    where
      behind :
          compare_facts code last x ≡ Ordering.lt
          → (y : Fact) → Memᴰ y (x ∷ xs)
          → compare_facts code last y ≡ Ordering.lt
      behind less y (Memᴰ.head q) =
          subst (λ z. compare_facts code last z ≡ Ordering.lt) (sym q) less
      behind less y (Memᴰ.tail m) = less_trans last x y less (second y m)

  mem-keep_changes : (last : Fact) (xs : List Fact) → Memᴰ last (keep_changes code last xs)
  unfolding keep_changes
  mem-keep_changes last [] = Memᴰ.head refl
  mem-keep_changes last (x ∷ xs) = elim (Bool-cases (same_fact code last x)) [
    | inl e ↦ rw e (mem-keep_changes last xs)
    | inr e ↦ rw e (Memᴰ.head refl)
  ]

  equal_to : (x z : Fact) → z ≡ x → compare_facts code x z ≡ Ordering.eq
  equal_to x z q = subst (λ y. compare_facts code x y ≡ Ordering.eq) (sym q) (laws.same x)

  Represents-head :
      (last : Fact) (xs : List Fact) (z : Fact)
      → z ≡ last
      → Represents z (keep_changes code last xs)
  Represents-head last xs z q = (last, mem-keep_changes last xs, equal_to last z q)

  Represents-cons : (x z : Fact) (ys : List Fact) → Represents z ys → Represents z (x ∷ ys)
  Represents-cons x z ys (y, m, e) = (y, Memᴰ.tail m, e)

  keep_changes_same :
      (last x : Fact) (xs : List Fact)
      → same_fact code last x ≡ true
      → keep_changes code last (x ∷ xs) ≡ keep_changes code last xs
  unfolding keep_changes
  keep_changes_same last x xs e = rw e refl

  keep_changes_new :
      (last x : Fact) (xs : List Fact)
      → same_fact code last x ≡ false
      → keep_changes code last (x ∷ xs) ≡ last ∷ keep_changes code x xs
  unfolding keep_changes
  keep_changes_new last x xs e = rw e refl

  keep_changes-Represents :
      (z last : Fact) (xs : List Fact)
      → Memᴰ z (last ∷ xs)
      → Represents z (keep_changes code last xs)
  keep_changes-Represents z last [] m = elim (mem_cons_cases m) [
    | inl q ↦ Represents-head last [] z q
    | inr k ↦ elim k [ ]
  ]
  keep_changes-Represents z last (x ∷ xs) m =
      let here = keep_changes-Represents z last xs in
      let there = keep_changes-Represents z x xs in
      elim (Bool-cases (same_fact code last x)) [
        | inr e ↦ rw (keep_changes_new last x xs e) (elim (mem_cons_cases m) [
          | inl q ↦ (last, Memᴰ.head refl, equal_to last z q)
          | inr k ↦ Represents-cons last z (keep_changes code x xs) (there k)
        ])
        | inl e ↦ rw (keep_changes_same last x xs e) (elim (mem_cons_cases m) [
          | inl q ↦ here (Memᴰ.head q)
          | inr k ↦ elim (mem_cons_cases k) [
            | inl q ↦ (
              last,
              mem-keep_changes last xs,
              subst (λ y. compare_facts code last y ≡ Ordering.eq) (sym q) (same_iff last x e),
            )
            | inr l ↦ here (Memᴰ.tail l)
          ]
        ])
      ]

Permᴰ-mem {ℓ} : {A : Type ℓ} {a : A} {xs ys : List A} → Permᴰ xs ys → Memᴰ a xs → Memᴰ a ys
Permᴰ-mem Permᴰ.nil m = m
Permᴰ-mem (Permᴰ.cons e p) (Memᴰ.head q) = Memᴰ.head (q ∙ e)
Permᴰ-mem (Permᴰ.cons e p) (Memᴰ.tail m) = Memᴰ.tail (Permᴰ-mem p m)
Permᴰ-mem (Permᴰ.swap e e') (Memᴰ.head q) = Memᴰ.tail (Memᴰ.head (q ∙ e))
Permᴰ-mem (Permᴰ.swap e e') (Memᴰ.tail (Memᴰ.head q)) = Memᴰ.head (q ∙ e')
Permᴰ-mem (Permᴰ.swap e e') (Memᴰ.tail (Memᴰ.tail m)) = Memᴰ.tail (Memᴰ.tail m)
Permᴰ-mem (Permᴰ.trans p q) m = Permᴰ-mem q (Permᴰ-mem p m)

-- What the C library says of qsort on the array of facts.
pub record Sorts (code : Kind → ℕ) (sort : List Fact → List Fact) (facts : List Fact) : Type 0 where
  pub sorted : IsSorted code (sort facts)
  pub permuted : Permᴰ (sort facts) facts

-- The facts left are strictly ascending, are facts of the model, and represent all of them.
pub record IsDeduplicated (code : Kind → ℕ) (before after : List Fact) : Type 0 where
  pub ascending : IsAscending code after
  pub kept : (x : Fact) → Memᴰ x after → Memᴰ x before
  pub represented : (x : Fact) → Memᴰ x before → Represents code x after

module _ (code : Kind → ℕ) where
  sorted_IsDeduplicated :
      (xs : List Fact) → IsSorted code xs → IsDeduplicated code xs (deduplicate_sorted code xs)
  unfolding deduplicate_sorted
  sorted_IsDeduplicated [] s = record {
    ascending = tt;
    kept = λ x m. m;
    represented = λ x m. elim m [ ];
  }
  sorted_IsDeduplicated (x ∷ xs) s = record {
    ascending = keep_changes-IsAscending code x xs s;
    kept = keep_changes-mem code x xs;
    represented = λ z. keep_changes-Represents code z x xs;
  }

  short_IsDeduplicated : (xs : List Fact) → leb 2 (length xs) ≡ false → IsDeduplicated code xs xs
  short_IsDeduplicated [] h = record {
    ascending = tt;
    kept = λ x m. m;
    represented = λ x m. elim m [ ];
  }
  short_IsDeduplicated (x ∷ []) h = record {
    ascending = ((λ y m. elim m [ ]), tt);
    kept = λ y m. m;
    represented = λ y m. (x, Memᴰ.head refl, single y m);
  }
    where
      single : (y : Fact) → Memᴰ y (x ∷ []) → compare_facts code x y ≡ Ordering.eq
      single y (Memᴰ.head q) = equal_to code x y q
      single y (Memᴰ.tail m) = elim m [ ]
  short_IsDeduplicated (x ∷ y ∷ xs) h = absurd (ground arith)

-- If qsort sorts the facts of the model by their comparison and permutes them, then the facts behind
-- `deduplicate_facts` stand in strictly ascending order, each of them is a fact of the model, and
-- each fact of the model compares equal to one of them.
pub deduplicate_facts-IsDeduplicated :
    (code : Kind → ℕ) (sort : List Fact → List Fact) (m : Model)
    → Sorts code sort m.facts
    → IsDeduplicated code m.facts (deduplicate_facts code sort m).facts
unfolding deduplicate_facts
deduplicate_facts-IsDeduplicated code sort m s = elim (Bool-cases (leb 2 (length m.facts))) [
  | inr e ↦ rw e (short_IsDeduplicated code m.facts e)
  | inl e ↦
      let d = sorted_IsDeduplicated code (sort m.facts) s.sorted in
      rw e (record {
        ascending = d.ascending;
        kept = λ x k. Permᴰ-mem s.permuted (d.kept x k);
        represented = λ x k. d.represented x (Permᴰ-mem (Permᴰ.symm s.permuted) k);
      })
]
