-- ===== src/Wrapper/Scan.antt =====
-- src/model.c: `p101_wrapper_model_init` and `p101_wrapper_model_scan`, which put the steps of the
-- file together.
pub mod Complete
use p101_audit.Base.{ℕ, Bool, List, [], Option, if◌then◌else◌}
use p101_audit.Wrapper.{Kind, Fact, Model, Platform}
use p101_audit.Wrapper.Observer.{Record, Refusal, observe_all}
use p101_audit.Wrapper.Callers.{assign_macro_callers}
use p101_audit.Wrapper.Order.{deduplicate_facts}

-- A run of `p101_c_analysis_scan`, which belongs to lib_c_facts: the records that it would hand to
-- the callback, and what it returns by whether the callback refused one.
pub record Analysis : Type 0 where
  pub records : List Record
  pub returned : Option Refusal → Bool

unfoldable pub model_init : Model
model_init = record {
  facts = [];
  fact_capacity = 0;
  inventory = [];
  inventory_capacity = 0;
  findings = [];
  finding_capacity = 0;
  parse_failures = 0;
}

module _ (p : Platform) (code : Kind → ℕ) (sort : List Fact → List Fact) where
  unfoldable pub model_scan : Analysis → Model → Bool × Model
  model_scan analysis m =
      let (m', refusal) = observe_all p analysis.records m in
      let scanned = analysis.returned refusal in
      (scanned, if scanned then deduplicate_facts code sort (assign_macro_callers m') else m')
