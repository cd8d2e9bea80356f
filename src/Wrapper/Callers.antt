-- ===== src/Wrapper/Callers.antt =====
-- src/model.c: `assign_macro_callers`, which names the function around each macro use.
pub mod Independent
use p101_audit.Base.{
  ℕ, ◌-◌, Bool, not, ◌&&◌, ◌||◌, List, [], ◌∷◌, ◌++◌, none, some, leb, ltb, if◌then◌else◌, is_nil,
}
use p101_audit.Base.Text.{str_eq}
use p101_audit.Base.Scan.{find}
use p101_audit.Wrapper.{Fact, Model, copy_field, name_size, is_macro, is_call, is_function}
use p101_audit.Wrapper.Support.{size_max}

-- A call with a known caller whose text covers the macro's.
unfoldable pub is_lowered_to : Fact → Fact → Bool
is_lowered_to f c =
    is_call c.kind
    && not (is_nil c.caller_usr)
    && leb c.start f.start
    && leb f.end c.end
    && str_eq c.path f.path

unfoldable pub adopt_call : List Fact → Fact → Fact
adopt_call facts f = elim (find (is_lowered_to f) facts) [
  | none ↦ f
  | some c ↦ record f {
    caller = copy_field name_size (some c.caller);
    caller_usr = copy_field name_size (some c.caller_usr);
  }
]

-- The negation of the nested tests: a function definition whose text covers the macro's.
unfoldable pub covers : Fact → Fact → Bool
covers f g =
    is_function g.kind
    && g.is_definition
    && leb g.start g.end
    && leb f.start f.end
    && str_eq g.path f.path
    && leb g.start f.start
    && leb f.end g.end

-- The two copies: the macro is named after the function.
unfoldable pub adopt : Fact → Fact → Fact
adopt f g = record f {
  caller = copy_field name_size (some g.name);
  caller_usr = copy_field name_size (some g.usr);
}

unfoldable pub adopt_function : List Fact → Fact → ℕ → Fact
adopt_function [] f span = f
adopt_function (g ∷ gs) f span =
    let nearer = covers f g && ltb (g.end - g.start) span in
    adopt_function gs (if nearer then adopt f g else f) (if nearer then g.end - g.start else span)

-- The body of the outer loop, for one fact of the array.
unfoldable pub assign_caller : List Fact → Fact → Fact
assign_caller facts f =
    let called = adopt_call facts f in
    if not (is_macro f.kind) || f.is_definition || not (is_nil f.caller)
    then f
    else if not (is_nil called.caller)
    then called
    else adopt_function facts called size_max

-- The array is `done ++ todo`, and each round reads it as the earlier rounds left it.
unfoldable pub assign_from : List Fact → List Fact → List Fact
assign_from done [] = done
assign_from done (f ∷ todo) = assign_from (done ++ assign_caller (done ++ f ∷ todo) f ∷ []) todo

unfoldable pub assign_macro_callers : Model → Model
assign_macro_callers m = record m { facts = assign_from [] m.facts }
