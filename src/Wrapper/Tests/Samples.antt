-- ===== src/Wrapper/Tests/Samples.antt =====
-- A small program for the tests: `main` in app.c calls `puts`, for which there is a wrapper.
use p101_audit.Base.{◌-◌, ◌^◌, ◌||◌, Bool, true, false, [], ◌∷◌, ltb, take}
use p101_audit.Base.Text.{Text, codes, str_eq}
use p101_audit.Wrapper.{Kind, Fact, Inventory, AllowRule, Arguments, Model, Platform}

-- Patterns are the path itself, or a star.
abbrev pub demo_fnmatch : Text → Text → Bool
unfolding str_eq
demo_fnmatch pattern path = str_eq pattern path || str_eq pattern (codes "*")

abbrev pub generous : Platform
generous = record {
  grant = λ n. true;
  printed = λ size t. take (size - 1) t;
  fnmatch = demo_fnmatch;
  fact_bytes = 12_000;
  finding_bytes = 9_232;
}

abbrev pub bounded : Platform
bounded = record {
  grant = λ n. ltb n (2 ^ 63);
  printed = λ size t. take (size - 1) t;
  fnmatch = demo_fnmatch;
  fact_bytes = 12_000;
  finding_bytes = 9_232;
}

abbrev pub blank : Fact
blank = record {
  kind = Kind.note;
  path = codes "app.c";
  resolved = [];
  name = [];
  type = [];
  canonical_type = [];
  return_type = [];
  caller = [];
  usr = [];
  caller_usr = [];
  parent_usr = [];
  replacement = [];
  line = 1;
  column = 1;
  start = 0;
  end = 0;
  parameter_index = 0;
  mutation = 0;
  is_header = false;
  is_definition = false;
  is_static = false;
  is_public = false;
  is_variadic = false;
  is_local_include = false;
  is_indirect = false;
  needs_env = false;
  needs_error = false;
}

abbrev pub main_function : Fact
main_function = record blank {
  kind = Kind.function;
  name = codes "main";
  usr = codes "c:@F@main";
  is_definition = true;
  end = 100;
}

abbrev pub puts_call : Fact
puts_call = record blank {
  kind = Kind.call;
  name = codes "puts";
  usr = codes "c:@F@puts";
  caller = codes "main";
  caller_usr = codes "c:@F@main";
  line = 3;
  column = 5;
  start = 40;
  end = 50;
}

-- The macro `errno` in `main`, before its caller is known, and the call to which it lowers.
abbrev pub errno_macro : Fact
errno_macro = record blank {
  kind = Kind.macro;
  name = codes "errno";
  line = 4;
  column = 5;
  start = 60;
  end = 65;
}

abbrev pub puts_entry : Inventory
puts_entry = record {
  original = codes "puts";
  original_usr = codes "c:@F@puts";
  wrapper = codes "p101_puts";
  wrapper_usr = codes "c:@F@p101_puts";
}

abbrev pub program : Model
program = record {
  facts = main_function ∷ puts_call ∷ [];
  fact_capacity = 256;
  inventory = puts_entry ∷ [];
  inventory_capacity = 256;
  findings = [];
  finding_capacity = 0;
  parse_failures = 0;
}

abbrev pub puts_rule : AllowRule
puts_rule = record { path = codes "*"; caller_usr = []; callee_usr = codes "c:@F@puts"; uses = 0 }

abbrev pub strict : Arguments
strict = record { allowed_usrs = []; allow_rules = []; check_portability = true }

abbrev pub lenient : Arguments
lenient = record { allowed_usrs = []; allow_rules = puts_rule ∷ []; check_portability = true }
