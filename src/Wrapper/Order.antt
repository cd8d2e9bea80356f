-- ===== src/Wrapper/Order.antt =====
-- src/model.c: the order of the facts, and `deduplicate_facts`.
pub mod Comparison
pub mod Deduplicate
use Prim.Native.Nat.{compare, Ordering}
use p101_audit.Base.{ℕ, Bool, true, false, List, [], ◌∷◌, leb, if◌then◌else◌, length}
use p101_audit.Base.Text.{Text}
use p101_audit.Wrapper.{Kind, Fact, Model}

-- The three results -1, 0 and 1 of a comparison are `lt`, `eq` and `gt`.
unfoldable pub compare_size : ℕ → ℕ → Ordering
compare_size left right = compare left right

-- `if(result == 0) result = next;`
unfoldable pub or_else : Ordering → Ordering → Ordering
or_else Ordering.eq next = next
or_else Ordering.lt next = Ordering.lt
or_else Ordering.gt next = Ordering.gt

-- The closing NUL is below every byte.
unfoldable pub compare_text : Text → Text → Ordering
unfolding or_else compare_size
compare_text [] [] = Ordering.eq
compare_text [] (y ∷ right) = Ordering.lt
compare_text (x ∷ left) [] = Ordering.gt
compare_text (x ∷ left) (y ∷ right) = or_else (compare_size x y) (compare_text left right)

-- `(size_t)flag`
unfoldable pub size_of_flag : Bool → ℕ
size_of_flag true = 1
size_of_flag false = 0

-- `code` gives the numbers of the enumeration of lib_c_facts.
module _ (code : Kind → ℕ) where
  unfoldable pub compare_facts : Fact → Fact → Ordering
  unfolding or_else
  compare_facts a b = or_else (compare_text a.path b.path) (
      or_else (compare_size a.line b.line) (
        or_else (compare_size a.column b.column) (
          or_else (compare_size (code a.kind) (code b.kind)) (
            or_else (compare_text a.name b.name) (
              or_else (compare_text a.caller b.caller) (
                or_else (compare_text a.usr b.usr) (
                  or_else (compare_text a.caller_usr b.caller_usr) (
                    or_else (compare_size a.start b.start) (
                      or_else (compare_size a.end b.end) (
                        compare_size (size_of_flag a.is_definition)
                          (size_of_flag b.is_definition)))))))))))

  unfoldable pub same_fact : Fact → Fact → Bool
  same_fact a b = elim (compare_facts a b) [ Ordering.eq ↦ true | _ ↦ false ]

  -- The loop behind the sort: `last` is the fact at `write_index - 1`.
  unfoldable pub keep_changes : Fact → List Fact → List Fact
  unfolding same_fact
  keep_changes last [] = last ∷ []
  keep_changes last (f ∷ fs) =
      let skipped = keep_changes last fs in
      let kept = last ∷ keep_changes f fs in if same_fact last f then skipped else kept

  unfoldable pub deduplicate_sorted : List Fact → List Fact
  unfolding keep_changes
  deduplicate_sorted [] = []
  deduplicate_sorted (f ∷ fs) = keep_changes f fs

  -- `sort` is qsort on the array of facts under `compare_facts`.
  unfoldable pub deduplicate_facts : (List Fact → List Fact) → Model → Model
  unfolding deduplicate_sorted
  deduplicate_facts sort m =
      if leb 2 (length m.facts) then record m { facts = deduplicate_sorted (sort m.facts) } else m
