-- ===== src/Wrapper/Callers/Independent.antt =====
-- `assign_macro_callers` updates the array that it reads; no macro's caller depends on that.
use mathlib.Core.List.{map, append_assoc, append-nil}
use p101_audit.Base.{
  ℕ, ◌-◌, ◌≡◌, refl, sym, ◌∙◌, ap, ◌⊎◌, inl, inr, Bool, true, false, not, ◌&&◌, ◌||◌, List, [], ◌∷◌,
  ◌++◌, arith, Bool-cases, if◌then◌else◌, ltb, is_nil,
}
use p101_audit.Base.Scan.{find}
use p101_audit.Wrapper.{Kind, Fact, Model, is_macro, is_call, is_function}
use p101_audit.Wrapper.Support.{size_max}
use p101_audit.Wrapper.Callers.{
  is_lowered_to, adopt_call, covers, adopt, adopt_function, assign_caller, assign_from,
  assign_macro_callers,
}

-- One fact, or two macros.
abbrev Alike : Fact → Fact → Type 0
Alike x y = (x ≡ y) ⊎ ((is_macro x.kind ≡ true) × (is_macro y.kind ≡ true))

abbrev Agree : List Fact → List Fact → Type 0
Agree [] [] = Unit
Agree [] (y ∷ ys) = ⊥
Agree (x ∷ xs) [] = ⊥
Agree (x ∷ xs) (y ∷ ys) = Alike x y × Agree xs ys

Agree-refl : (xs : List Fact) → Agree xs xs
Agree-refl [] = tt
Agree-refl (x ∷ xs) = (inl refl, Agree-refl xs)

Alike-trans : (x y z : Fact) → Alike x y → Alike y z → Alike x z
Alike-trans x y z (inl e) h = rw e h
Alike-trans x y z (inr (a, b)) (inl e) = inr (a, rw e at b)
Alike-trans x y z (inr (a, b)) (inr (c, d)) = inr (a, d)

other_kinds : (k : Kind) → is_macro k ≡ true → (is_call k ≡ false) × (is_function k ≡ false)
unfolding is_macro is_call is_function
other_kinds Kind.macro h = (refl, refl)
other_kinds _ h = cc

module _ (f : Fact) where
  not_lowered_to : (x : Fact) → is_macro x.kind ≡ true → is_lowered_to f x ≡ false
  unfolding is_lowered_to
  not_lowered_to x h = ground (arith, other_kinds x.kind h)

  not_covered : (x : Fact) → is_macro x.kind ≡ true → covers f x ≡ false
  unfolding covers
  not_covered x h = ground (arith, other_kinds x.kind h)

find-Agree :
    (f : Fact) (xs ys : List Fact)
    → Agree xs ys
    → find (is_lowered_to f) xs ≡ find (is_lowered_to f) ys
unfolding find
find-Agree f [] [] a = refl
find-Agree f [] (y ∷ ys) a = elim a [ ]
find-Agree f (x ∷ xs) [] a = elim a [ ]
find-Agree f (x ∷ xs) (y ∷ ys) (inl e, a) = rw (e, find-Agree f xs ys a) refl
find-Agree f (x ∷ xs) (y ∷ ys) (inr (h, k), a) =
    rw (not_lowered_to f x h, not_lowered_to f y k) (find-Agree f xs ys a)

adopt_function-Agree :
    (xs ys : List Fact) (f : Fact) (span : ℕ)
    → Agree xs ys
    → adopt_function xs f span ≡ adopt_function ys f span
unfolding adopt_function
adopt_function-Agree [] [] f span a = refl
adopt_function-Agree [] (y ∷ ys) f span a = elim a [ ]
adopt_function-Agree (x ∷ xs) [] f span a = elim a [ ]
adopt_function-Agree (x ∷ xs) (y ∷ ys) f span (inl e, a) = rw e (adopt_function-Agree xs ys _ _ a)
adopt_function-Agree (x ∷ xs) (y ∷ ys) f span (inr (h, k), a) =
    rw (not_covered f x h, not_covered f y k) (adopt_function-Agree xs ys f span a)

adopt_call-Agree : (xs ys : List Fact) (f : Fact) → Agree xs ys → adopt_call xs f ≡ adopt_call ys f
unfolding adopt_call
adopt_call-Agree xs ys f a = rw (find-Agree f xs ys a, adopt_call) refl

assign_caller-Agree :
    (xs ys : List Fact) (f : Fact) → Agree xs ys → assign_caller xs f ≡ assign_caller ys f
unfolding assign_caller
assign_caller-Agree xs ys f a =
    rw (adopt_call-Agree xs ys f a, adopt_function-Agree xs ys (adopt_call ys f) size_max a) refl

adopt_call-kind : (facts : List Fact) (f : Fact) → (adopt_call facts f).kind ≡ f.kind
unfolding adopt_call
adopt_call-kind facts f = ground arith

adopt-kind : (b : Bool) (f g : Fact) → (if b then adopt f g else f).kind ≡ f.kind
unfolding adopt
adopt-kind true f g = refl
adopt-kind false f g = refl

adopt_function-kind :
    (gs : List Fact) (f : Fact) (span : ℕ) → (adopt_function gs f span).kind ≡ f.kind
unfolding adopt_function
adopt_function-kind [] f span = refl
adopt_function-kind (g ∷ gs) f span =
    let nearer = covers f g && ltb (g.end - g.start) span in
    adopt_function-kind gs (if nearer then adopt f g else f)
      (if nearer then g.end - g.start else span)
    ∙ adopt-kind nearer f g

assign_caller-Alike : (facts : List Fact) (f : Fact) → Alike (assign_caller facts f) f
unfolding assign_caller
assign_caller-Alike facts f =
    elim (Bool-cases (not (is_macro f.kind) || f.is_definition || not (is_nil f.caller))) [
      | inl e ↦ rw e (inl refl)
      | inr e ↦
          let of_macro : is_macro f.kind ≡ true = ground arith in
          elim (Bool-cases (not (is_nil (adopt_call facts f).caller))) [
            | inl q ↦ rw (e, q) (inr (rw (adopt_call-kind facts f) of_macro, of_macro))
            | inr q ↦
                rw (e, q)
                  (inr (
                    rw
                        (
                          adopt_function-kind facts (adopt_call facts f) size_max,
                          adopt_call-kind facts f,
                        )
                        of_macro,
                    of_macro,
                  ))
          ]
    ]

-- A fact is replaced by one that is alike.
Agree-replace :
    (done : List Fact) (f f' : Fact) (todo orig : List Fact)
    → Alike f' f
    → Agree (done ++ f ∷ todo) orig
    → Agree ((done ++ f' ∷ []) ++ todo) orig
Agree-replace [] f f' todo [] h a = elim a [ ]
Agree-replace [] f f' todo (y ∷ orig) h (b, a) = (Alike-trans f' f y h b, a)
Agree-replace (x ∷ done) f f' todo [] h a = elim a [ ]
Agree-replace (x ∷ done) f f' todo (y ∷ orig) h (b, a) = (b, Agree-replace done f f' todo orig h a)

assign_from-map :
    (orig done todo : List Fact)
    → Agree (done ++ todo) orig
    → assign_from done todo ≡ done ++ map (assign_caller orig) todo
unfolding assign_from
assign_from-map orig done [] a = sym (append-nil done)
assign_from-map orig done (f ∷ todo) a =
    let f' = assign_caller (done ++ f ∷ todo) f in
    let same = assign_caller-Agree (done ++ f ∷ todo) orig f a in
    assign_from-map orig (done ++ f' ∷ []) todo
      (Agree-replace done f f' todo orig (assign_caller-Alike (done ++ f ∷ todo) f) a)
    ∙ append_assoc done (f' ∷ []) (map (assign_caller orig) todo)
    ∙ ap (λ x. done ++ x ∷ map (assign_caller orig) todo) same

-- The loop over the array, which reads the callers that earlier rounds wrote, gives every fact the
-- caller that it has by the array as it was at the start.
pub assign_macro_callers-map :
    (m : Model) → (assign_macro_callers m).facts ≡ map (assign_caller m.facts) m.facts
unfolding assign_macro_callers
assign_macro_callers-map m = assign_from-map m.facts [] m.facts (Agree-refl m.facts)
