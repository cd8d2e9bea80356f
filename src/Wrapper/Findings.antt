-- ===== src/Wrapper/Findings.antt =====
-- src/judge.c: the array of findings, and which includes are specific to a platform.
pub mod Add
pub mod Places
use p101_audit.Base.{
  ℕ, ◌*◌, ◌%◌, ◌^◌, Bool, true, false, not, ◌&&◌, List, [], ◌∷◌, ◌++◌, Option, none, some, ◌==◌,
  if◌then◌else◌, length, is_nil,
}
use p101_audit.Base.Text.{Text, codes, str_eq}
use p101_audit.Base.Scan.{any}
use p101_audit.Wrapper.{
  Fact, Finding, FindingKind, Model, Platform, copy_field, path_size, name_size,
}
use p101_audit.Wrapper.Support.{path_has_directory_component, path_has_trailing_components}

abbrev pub initial_capacity : ℕ
initial_capacity = 256

-- The next capacity, in a size_t.
unfoldable pub next_capacity : ℕ → ℕ
next_capacity capacity = if capacity == 0 then initial_capacity else (capacity * 2) % 2 ^ 64

unfoldable pub grow_findings : Platform → Model → Option Model
grow_findings p m =
    let capacity = next_capacity m.finding_capacity in
    if p.grant (capacity * p.finding_bytes % 2 ^ 64)
    then some (record m { finding_capacity = capacity })
    else none

-- The duplicate test of `add_finding`: the finding stands at the fact's place, under the name.
unfoldable pub is_at : Fact → Text → Finding → Bool
is_at f name g =
    g.line == f.line && g.column == f.column && str_eq g.path f.path && str_eq g.name name

unfoldable pub finding_of : FindingKind → Fact → Text → Text → Text → Finding
finding_of kind f name replacement identity = record {
  kind = kind;
  path = copy_field path_size (some f.path);
  name = copy_field name_size (some name);
  caller = copy_field name_size (some (if is_nil f.caller then codes "?" else f.caller));
  replacement = copy_field name_size (some replacement);
  allow_identity = copy_field name_size (some identity);
  line = f.line;
  column = f.column;
}

-- The flag says whether the finding is in the model now; without memory it is not.
unfoldable pub add_finding :
    Platform → FindingKind → Fact → Text → Text → Text → Model → Bool × Model
unfolding finding_of
add_finding p kind f name replacement identity m =
    let room = if length m.findings == m.finding_capacity then grow_findings p m else some m in
    let finding = finding_of kind f name replacement identity in
    if any (is_at f name) m.findings then (true, m) else elim room [
      | none ↦ (false, m)
      | some m' ↦ (true, record m' { findings = m'.findings ++ finding ∷ [] })
    ]

pub data IncludeMatch : Type 0 where
  directory suffix : IncludeMatch

unfoldable pub platform_patterns : List (IncludeMatch × Text)
platform_patterns =
    (IncludeMatch.directory, codes "/linux/")
    ∷ (IncludeMatch.directory, codes "/mach/")
    ∷ (IncludeMatch.directory, codes "/windows/")
    ∷ (IncludeMatch.suffix, codes "sys/event.h")
    ∷ (IncludeMatch.suffix, codes "sys/kqueue.h")
    ∷ (IncludeMatch.suffix, codes "sys/sysctl.h")
    ∷ (IncludeMatch.suffix, codes "sys/epoll.h")
    ∷ (IncludeMatch.suffix, codes "sys/eventfd.h")
    ∷ (IncludeMatch.suffix, codes "sys/inotify.h")
    ∷ (IncludeMatch.suffix, codes "sys/signalfd.h")
    ∷ (IncludeMatch.suffix, codes "sys/timerfd.h")
    ∷ (IncludeMatch.suffix, codes "windows.h")
    ∷ (IncludeMatch.suffix, codes "pthread_np.h")
    ∷ []

unfoldable pub include_matches : Text → IncludeMatch × Text → Bool
include_matches subject (IncludeMatch.directory, text) = path_has_directory_component subject text
include_matches subject (IncludeMatch.suffix, text) = path_has_trailing_components subject text

unfoldable pub include_is_platform_specific : Text → Text → Bool
unfolding platform_patterns
include_is_platform_specific name resolved =
    any (include_matches (if not (is_nil resolved) then resolved else name)) platform_patterns
