-- ===== src/ErrorContract/Builder.antt =====
-- components/error-contract/src/contract_builder.c: the operations that fill the contract model.
pub mod Ledger
use p101_audit.Base.{
  ℕ, ◌+◌, ◌-◌, ◌%◌, ◌^◌, Bool, true, false, not, ◌&&◌, ◌||◌, List, [], ◌∷◌, ◌++◌, Option, none,
  some, ltb, leb, ◌==◌, if◌then◌else◌, length, take, is_nil,
}
use p101_audit.Base.Text.{Text, str_eq}
use p101_audit.Base.Scan.{any}
use p101_audit.ErrorContract.{
  EventKind, OwnershipKind, ContractFunction, ContractEvent, OwnershipFile, ContractModel,
  contract_path_len, max_fact_functions, max_fact_events, function_name_len,
}

-- The errors that the operations raise.
pub data Failure : Type 0 where
  too_many_functions function_identity too_many_events call_identity too_many_ownership_files :
      Failure
  parse_failure : Failure

-- What an operation leaves: the model, and the error that it raised.
abbrev pub Outcome : Type 0
Outcome = ContractModel × Option Failure

unfoldable pub copy_text : ℕ → Option Text → Text
copy_text size none = []
copy_text size (some source) = take (size - 1) source

unfoldable pub text_fits : Option Text → Bool
text_fits none = true
text_fits (some identity) = ltb (length identity) function_name_len

unfoldable pub add_function : ContractModel → Text → Option Text → Option Text → ℕ → ℕ → ℕ → Outcome
add_function model path name usr line start end =
    let function : ContractFunction = record {
      path = copy_text contract_path_len (some path);
      name = copy_text function_name_len name;
      usr = copy_text function_name_len usr;
      line = line;
      start = start;
      end = end;
      has_env_contract = false;
      has_error_contract = false;
      is_termination_adapter = false;
      env_reported = false;
      error_reported = false;
    } in
    if leb max_fact_functions (length model.functions)
    then (model, some too_many_functions)
    else if not (text_fits usr)
    then (model, some function_identity)
    else (record model { functions = model.functions ++ function ∷ [] }, none)

-- The arguments of `p101_contract_model_add_event` behind the kind.
pub record EventFields : Type 0 where
  pub path : Text
  pub name : Option Text
  pub caller : Option Text
  pub usr : Option Text
  pub caller_usr : Option Text
  pub line : ℕ
  pub start : ℕ
  pub end : ℕ
  pub needs_env : Bool
  pub needs_error : Bool

unfoldable pub event_of : EventKind → EventFields → ContractEvent
event_of kind x = record {
  kind = kind;
  path = copy_text contract_path_len (some x.path);
  name = copy_text function_name_len x.name;
  caller = copy_text function_name_len x.caller;
  usr = copy_text function_name_len x.usr;
  caller_usr = copy_text function_name_len x.caller_usr;
  line = x.line;
  start = x.start;
  end = x.end;
  needs_env = x.needs_env;
  needs_error = x.needs_error;
}

unfoldable pub add_event : ContractModel → EventKind → EventFields → Outcome
add_event model kind x =
    if leb max_fact_events (length model.events)
    then (model, some too_many_events)
    else if not (text_fits x.usr) || not (text_fits x.caller_usr)
    then (model, some call_identity)
    else (record model { events = model.events ++ event_of kind x ∷ [] }, none)

-- The function that a note is about.
unfoldable pub is_function_at : Text → Option Text → ContractFunction → Bool
is_function_at path none f = false
is_function_at path (some function_usr) f =
    not (is_nil function_usr) && str_eq f.usr function_usr && str_eq f.path path

-- The loops that write to the first function and break.
unfoldable pub update_first {ℓ} : {A : Type ℓ} → (A → Bool) → (A → A) → List A → List A
update_first test write [] = []
update_first test write (f ∷ fs) =
    let rest = update_first test write fs in if test f then write f ∷ fs else f ∷ rest

unfoldable pub grant_contract : Bool → ContractFunction → ContractFunction
grant_contract true f = record f { has_env_contract = true }
grant_contract false f = record f { has_error_contract = true }

unfoldable pub set_contract : ContractModel → Text → Option Text → Bool → ContractModel
set_contract model path function_usr is_env = record model {
  functions =
      update_first (is_function_at path function_usr) (grant_contract is_env) model.functions;
}

unfoldable pub set_termination_adapter : ContractModel → Text → Option Text → ContractModel
set_termination_adapter model path function_usr = record model {
  functions =
      update_first (is_function_at path function_usr)
        (λ f. record f { is_termination_adapter = true }) model.functions;
}

unfoldable pub is_owner : Text → OwnershipFile → Bool
is_owner path owner = str_eq owner.path path

-- The last cascade: the counter of the kind, and the first line of an acquisition.
unfoldable pub count_ownership : OwnershipKind → ℕ → OwnershipFile → OwnershipFile
count_ownership OwnershipKind.error_acquire line owner = record owner {
  error_create_count = (owner.error_create_count + 1) % 2 ^ 64;
  first_error_create_line =
      if owner.first_error_create_line == 0 then line else owner.first_error_create_line;
}
count_ownership OwnershipKind.error_release line owner = record owner {
  error_destroy_count = (owner.error_destroy_count + 1) % 2 ^ 64;
}
count_ownership OwnershipKind.env_acquire line owner = record owner {
  env_create_count = (owner.env_create_count + 1) % 2 ^ 64;
  first_env_create_line =
      if owner.first_env_create_line == 0 then line else owner.first_env_create_line;
}
count_ownership OwnershipKind.env_release line owner = record owner {
  env_destroy_count = (owner.env_destroy_count + 1) % 2 ^ 64;
}

unfoldable pub new_owner : Text → OwnershipFile
new_owner path = record {
  path = copy_text contract_path_len (some path);
  error_create_count = 0;
  error_destroy_count = 0;
  env_create_count = 0;
  env_destroy_count = 0;
  first_error_create_line = 0;
  first_env_create_line = 0;
}

unfoldable pub record_ownership : ContractModel → Text → ℕ → OwnershipKind → Outcome
record_ownership model path line kind =
    let owner = count_ownership kind line (new_owner path) in
    if any (is_owner path) model.ownership_files
    then (
      record model {
        ownership_files =
            update_first (is_owner path) (count_ownership kind line) model.ownership_files;
      },
      none,
    )
    else if leb max_fact_functions (length model.ownership_files)
    then (model, some too_many_ownership_files)
    else (record model { ownership_files = model.ownership_files ++ owner ∷ [] }, none)
