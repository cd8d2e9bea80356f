-- ===== src/Wrapper/Order/Comparison.antt =====
-- The comparisons of src/model.c are total orders on what they compare.
use Prim.Native.Nat.{Ordering}
use p101_audit.Base.{ℕ, ◌≡◌, refl, [], ◌∷◌, arith}
use p101_audit.Base.Text.{Text}
use p101_audit.Wrapper.{Kind, Fact}
use p101_audit.Wrapper.Order.{compare_size, or_else, compare_text, size_of_flag, compare_facts}

abbrev pub flip : Ordering → Ordering
flip Ordering.lt = Ordering.gt
flip Ordering.eq = Ordering.eq
flip Ordering.gt = Ordering.lt

-- What makes a comparison fit for qsort: it orders the classes of what it does not tell apart.
pub record IsComparison {ℓ} {A : Type ℓ} (c : A → A → Ordering) : Type ℓ where
  pub same : (x : A) → c x x ≡ Ordering.eq
  pub flipped : (x y : A) → c y x ≡ flip (c x y)
  pub trans : (x y z : A) → c x y ≡ Ordering.lt → c y z ≡ Ordering.lt → c x z ≡ Ordering.lt
  pub left : (x y z : A) → c x y ≡ Ordering.eq → c x z ≡ c y z

module _ {ℓ} {A : Type ℓ} {c : A → A → Ordering} (i : IsComparison c) where
  pub right : (x y z : A) → c y z ≡ Ordering.eq → c x z ≡ c x y
  right x y z h =
      let back = i.left z y x (ground (arith, i.flipped y z)) in
      ground (arith, back, i.flipped z x, i.flipped y x)

compare_size-IsComparison : IsComparison compare_size
unfolding compare_size
compare_size-IsComparison = record {
  same = λ x. ground arith;
  flipped = λ x y. ground arith;
  trans = λ x y z h k. ground arith;
  left = λ x y z h. ground arith;
}

on-IsComparison {ℓ κ} :
    {A : Type ℓ} {B : Type κ} (f : B → A) {c : A → A → Ordering}
    → IsComparison c
    → IsComparison (λ x y. c (f x) (f y))
on-IsComparison f i = record {
  same = λ x. i.same (f x);
  flipped = λ x y. i.flipped (f x) (f y);
  trans = λ x y z. i.trans (f x) (f y) (f z);
  left = λ x y z. i.left (f x) (f y) (f z);
}

or_else-IsComparison {ℓ} :
    {A : Type ℓ} {c d : A → A → Ordering}
    → IsComparison c
    → IsComparison d
    → IsComparison (λ x y. or_else (c x y) (d x y))
unfolding or_else
or_else-IsComparison i j = record {
  same = λ x. ground (arith, i.same x, j.same x);
  flipped = λ x y. ground (arith, i.flipped x y, j.flipped x y);
  trans = λ x y z h k. ground (arith, i.trans x y z, j.trans x y z, i.left x y z, right i x y z);
  left = λ x y z h. ground (arith, i.left x y z, j.left x y z);
}

text_same : (s : Text) → compare_text s s ≡ Ordering.eq
unfolding compare_text
text_same [] = refl
text_same (x ∷ s) = ground (arith, text_same s)

text_flipped : (s t : Text) → compare_text t s ≡ flip (compare_text s t)
unfolding compare_text
text_flipped [] [] = refl
text_flipped [] (y ∷ t) = refl
text_flipped (x ∷ s) [] = refl
text_flipped (x ∷ s) (y ∷ t) = ground (arith, text_flipped s t)

text_left : (s t u : Text) → compare_text s t ≡ Ordering.eq → compare_text s u ≡ compare_text t u
unfolding compare_text
text_left [] [] u h = refl
text_left [] (y ∷ t) u h = ground arith
text_left (x ∷ s) [] u h = ground arith
text_left (x ∷ s) (y ∷ t) [] h = refl
text_left (x ∷ s) (y ∷ t) (z ∷ u) h = ground (arith, text_left s t u)

text_trans :
    (s t u : Text)
    → compare_text s t ≡ Ordering.lt
    → compare_text t u ≡ Ordering.lt
    → compare_text s u ≡ Ordering.lt
unfolding compare_text
text_trans [] [] u h k = ground arith
text_trans [] (y ∷ t) [] h k = ground arith
text_trans [] (y ∷ t) (z ∷ u) h k = refl
text_trans (x ∷ s) [] u h k = ground arith
text_trans (x ∷ s) (y ∷ t) [] h k = ground arith
text_trans (x ∷ s) (y ∷ t) (z ∷ u) h k =
    ground (arith, text_trans s t u, text_left s t u, text_right s t u)
  where
    text_right :
        (s t u : Text) → compare_text t u ≡ Ordering.eq → compare_text s u ≡ compare_text s t
    text_right s t u e =
        let back = text_left u t s (ground (arith, text_flipped t u)) in
        ground (arith, back, text_flipped u s, text_flipped t s)

compare_text-IsComparison : IsComparison compare_text
compare_text-IsComparison = record {
  same = text_same;
  flipped = text_flipped;
  trans = text_trans;
  left = text_left;
}

-- The comparison of facts that is given to qsort, whatever the numbers of the kinds are: a fact
-- equals itself, the result turns round with the arguments, it is transitive, and facts that compare
-- equal compare alike with every other fact.
pub compare_facts-IsComparison : (code : Kind → ℕ) → IsComparison (compare_facts code)
unfolding compare_facts
compare_facts-IsComparison code =
    let size = λ (f : Fact → ℕ). on-IsComparison f compare_size-IsComparison in
    let text = λ (f : Fact → Text). on-IsComparison f compare_text-IsComparison in
    or_else-IsComparison (text (λ f. f.path)) (
      or_else-IsComparison (size (λ f. f.line)) (
        or_else-IsComparison (size (λ f. f.column)) (
          or_else-IsComparison (size (λ f. code f.kind)) (
            or_else-IsComparison (text (λ f. f.name)) (
              or_else-IsComparison (text (λ f. f.caller)) (
                or_else-IsComparison (text (λ f. f.usr)) (
                  or_else-IsComparison (text (λ f. f.caller_usr)) (
                    or_else-IsComparison (size (λ f. f.start)) (
                      or_else-IsComparison (size (λ f. f.end))
                        (size (λ f. size_of_flag f.is_definition)))))))))))
