-- ===== src/ErrorContract/Loader/Invariant.antt =====
-- What the records of an analysis leave in the contract model.
use p101_audit.Base.{
  ℕ, ◌≡◌, ◌≤◌, refl, sym, subst, inl, inr, Bool, true, false, not, ◌||◌, List, [], ◌∷◌, ◌++◌,
  Option, none, some, Memᴰ, leb, arith, Bool-cases, Option-cases, length, length-append,
}
use p101_audit.Base.Text.{Text}
use p101_audit.Base.Scan.{any, mem_snoc_cases, mem_cons_cases}
use p101_audit.Wrapper.{Kind}
use p101_audit.ErrorContract.{
  EventKind, OwnershipKind, ContractFunction, ContractModel, max_fact_functions, max_fact_events,
}
use p101_audit.ErrorContract.Event.{NoteKind, event_kind_from_note, ownership_kind_from_note}
use p101_audit.ErrorContract.Builder.{
  Outcome, EventFields, text_fits, add_function, add_event, update_first, grant_contract,
  set_contract, set_termination_adapter, is_owner, count_ownership, record_ownership,
}
use p101_audit.ErrorContract.Loader.{
  NativeRecord, count_file, is_process_termination_call, record_fields, event_start,
  apply_other_note, apply_note, apply_record, apply_records, empty_model,
}
use p101_audit.ErrorContract.Run.Clean.{IsFresh}

-- The arrays hold what was written, and no function is marked as reported on.
pub record IsBuilt (model : ContractModel) : Type 0 where
  pub functions : length model.functions ≤ max_fact_functions
  pub events : length model.events ≤ max_fact_events
  pub owners : length model.ownership_files ≤ max_fact_functions
  pub fresh : IsFresh model

one_longer {ℓ} :
    {A : Type ℓ} (bound : ℕ) (xs : List A) (x : A)
    → leb bound (length xs) ≡ false
    → length (xs ++ x ∷ []) ≤ bound
one_longer bound xs x h = ground (arith, length-append xs (x ∷ []))

length-update_first {ℓ} :
    {A : Type ℓ} (test : A → Bool) (write : A → A) (xs : List A)
    → length (update_first test write xs) ≡ length xs
unfolding update_first
length-update_first test write [] = refl
length-update_first test write (x ∷ xs) =
    let rest = length-update_first test write xs in ground arith

-- A write that keeps a property of the elements.
update_first-keeps {ℓ κ} :
    {A : Type ℓ} (P : A → Type κ) (test : A → Bool) (write : A → A) (xs : List A)
    → ((x : A) → P x → P (write x))
    → ((x : A) → Memᴰ x xs → P x)
    → (x : A) → Memᴰ x (update_first test write xs)
    → P x
unfolding update_first
update_first-keeps P test write [] kept all x m = elim m [ ]
update_first-keeps P test write (y ∷ xs) kept all x m = elim (Bool-cases (test y)) [
  | inl e ↦ elim (mem_cons_cases (rw e at m)) [
    | inl q ↦ subst P (sym q) (kept y (all y (Memᴰ.head refl)))
    | inr k ↦ all x (Memᴰ.tail k)
  ]
  | inr e ↦ elim (mem_cons_cases (rw e at m)) [
    | inl q ↦ subst P (sym q) (all y (Memᴰ.head refl))
    | inr k ↦ update_first-keeps P test write xs kept (λ z l. all z (Memᴰ.tail l)) x k
  ]
]

abbrev Unreported : ContractFunction → Type 0
Unreported f = (f.env_reported ≡ false) × (f.error_reported ≡ false)

module _ (model : ContractModel) (built : IsBuilt model) where
  count_file-IsBuilt : IsBuilt (count_file model)
  unfolding count_file
  count_file-IsBuilt = record {
    functions = built.functions;
    events = built.events;
    owners = built.owners;
    fresh = built.fresh;
  }

  add_function-IsBuilt :
      (path : Text) (name usr : Option Text) (line start end : ℕ)
      → IsBuilt (add_function model path name usr line start end).0
  unfolding add_function
  add_function-IsBuilt path name usr line start end =
      elim (Bool-cases (leb max_fact_functions (length model.functions))) [
        | inl full ↦ rw full built
        | inr room ↦ elim (Bool-cases (text_fits usr)) [
          | inr e ↦ rw (room, e) built
          | inl e ↦
              rw (room, e)
                (record {
                  functions = one_longer max_fact_functions model.functions _ room;
                  events = built.events;
                  owners = built.owners;
                  fresh = λ f m. elim (mem_snoc_cases model.functions m) [
                    | inl old ↦ built.fresh f old
                    | inr last ↦ rw last (refl, refl)
                  ];
                })
        ]
      ]

  add_event-IsBuilt : (kind : EventKind) (x : EventFields) → IsBuilt (add_event model kind x).0
  unfolding add_event
  add_event-IsBuilt kind x = elim (Bool-cases (leb max_fact_events (length model.events))) [
    | inl full ↦ rw full built
    | inr room ↦ elim (Bool-cases (not (text_fits x.usr) || not (text_fits x.caller_usr))) [
      | inl e ↦ rw (room, e) built
      | inr e ↦
          rw (room, e)
            (record {
              functions = built.functions;
              events = one_longer max_fact_events model.events _ room;
              owners = built.owners;
              fresh = built.fresh;
            })
    ]
  ]

  functions-IsBuilt :
      (test : ContractFunction → Bool) (write : ContractFunction → ContractFunction)
      → ((f : ContractFunction) → Unreported f → Unreported (write f))
      → IsBuilt (record model { functions = update_first test write model.functions })
  functions-IsBuilt test write kept = record {
    functions = rw (length-update_first test write model.functions) built.functions;
    events = built.events;
    owners = built.owners;
    fresh = update_first-keeps Unreported test write model.functions kept built.fresh;
  }

  grant_contract-Unreported :
      (is_env : Bool) (f : ContractFunction) → Unreported f → Unreported (grant_contract is_env f)
  unfolding grant_contract
  grant_contract-Unreported true f h = h
  grant_contract-Unreported false f h = h

  set_contract-IsBuilt :
      (path : Text) (usr : Option Text) (is_env : Bool)
      → IsBuilt (set_contract model path usr is_env)
  unfolding set_contract
  set_contract-IsBuilt path usr is_env = functions-IsBuilt _ _ (grant_contract-Unreported is_env)

  set_termination_adapter-IsBuilt :
      (path : Text) (usr : Option Text) → IsBuilt (set_termination_adapter model path usr)
  unfolding set_termination_adapter
  set_termination_adapter-IsBuilt path usr = functions-IsBuilt _ _ (λ f h. h)

  record_ownership-IsBuilt :
      (path : Text) (line : ℕ) (kind : OwnershipKind)
      → IsBuilt (record_ownership model path line kind).0
  unfolding record_ownership
  record_ownership-IsBuilt path line kind =
      elim (Bool-cases (any (is_owner path) model.ownership_files)) [
        | inl e ↦ rw e (record {
          functions = built.functions;
          events = built.events;
          owners =
              rw
                (length-update_first (is_owner path) (count_ownership kind line)
                  model.ownership_files)
                built.owners;
          fresh = built.fresh;
        })
        | inr e ↦ elim (Bool-cases (leb max_fact_functions (length model.ownership_files))) [
          | inl full ↦ rw (e, full) built
          | inr room ↦
              rw (e, room)
                (record {
                  functions = built.functions;
                  events = built.events;
                  owners = one_longer max_fact_functions model.ownership_files _ room;
                  fresh = built.fresh;
                })
        ]
      ]

  event_note-IsBuilt :
      (r : NativeRecord) (role : NoteKind)
      → IsBuilt
          (elim (event_kind_from_note role) as (λ o. Outcome) [
            | none ↦ (model, none)
            | some kind ↦
                add_event model kind
                  (record_fields r (event_start kind r.start_offset r.column) false false)
          ]).0
  event_note-IsBuilt r role = elim (Option-cases (event_kind_from_note role)) [
    | inl e ↦ rw e built
    | inr (kind, e) ↦ rw e (add_event-IsBuilt kind _)
  ]

  apply_other_note-IsBuilt :
      (r : NativeRecord) (role : NoteKind) → IsBuilt (apply_other_note model r role).0
  unfolding apply_other_note
  apply_other_note-IsBuilt r NoteKind.env_contract = set_contract-IsBuilt r.path r.caller_usr true
  apply_other_note-IsBuilt r NoteKind.error_contract =
      set_contract-IsBuilt r.path r.caller_usr false
  apply_other_note-IsBuilt r role = event_note-IsBuilt r role

  ownership_note-IsBuilt :
      (r : NativeRecord) (role : NoteKind)
      → IsBuilt
          (elim (ownership_kind_from_note role) as (λ o. Outcome) [
            | some kind ↦ record_ownership model r.path r.line kind
            | none ↦ apply_other_note model r role
          ]).0
  ownership_note-IsBuilt r role = elim (Option-cases (ownership_kind_from_note role)) [
    | inl e ↦ rw e (apply_other_note-IsBuilt r role)
    | inr (kind, e) ↦ rw e (record_ownership-IsBuilt r.path r.line kind)
  ]

  apply_note-IsBuilt : (r : NativeRecord) (role : NoteKind) → IsBuilt (apply_note model r role).0
  unfolding apply_note
  apply_note-IsBuilt r NoteKind.termination_adapter =
      set_termination_adapter-IsBuilt r.path r.caller_usr
  apply_note-IsBuilt r role = ownership_note-IsBuilt r role

  apply_record-IsBuilt :
      (note_kind : Option Text → NoteKind) (r : NativeRecord)
      → IsBuilt (apply_record note_kind model r).0
  unfolding apply_record count_file
  apply_record-IsBuilt note_kind r = by_kind r.kind refl
    where
      by_kind : (k : Kind) → r.kind ≡ k → IsBuilt (apply_record note_kind model r).0
      by_kind Kind.file e = rw e count_file-IsBuilt
      by_kind Kind.function e = elim (Bool-cases r.is_definition) [
        | inl d ↦
            rw (e, d) (add_function-IsBuilt r.path r.name r.usr r.line r.start_offset r.end_offset)
        | inr d ↦ rw (e, d) built
      ]
      by_kind Kind.call e = elim (Bool-cases (is_process_termination_call r.usr)) [
        | inl d ↦ rw (e, d) (add_event-IsBuilt EventKind.process_termination _)
        | inr d ↦ rw (e, d) (add_event-IsBuilt EventKind.call _)
      ]
      by_kind Kind.note e =
          rw e (apply_note-IsBuilt (record r { kind = Kind.note }) (note_kind r.name))
      by_kind _ e = rw e built

-- Whatever the records, and also where one raises an error and stops the scan: the arrays of functions,
-- events and ownership files are never written past their ends, and no function is marked as reported
-- on, if that is so before.
pub apply_records-IsBuilt :
    (note_kind : Option Text → NoteKind) (rs : List NativeRecord) (model : ContractModel)
    → IsBuilt model
    → IsBuilt (apply_records note_kind rs model).0
unfolding apply_records
apply_records-IsBuilt note_kind [] model built = built
apply_records-IsBuilt note_kind (r ∷ rs) model built =
    let next = apply_record-IsBuilt model built note_kind r in
    let rest = apply_records-IsBuilt note_kind rs (apply_record note_kind model r).0 next in
    elim (Option-cases (apply_record note_kind model r).1) [
      | inl e ↦ rw (e, apply_records) rest
      | inr (failure, e) ↦ rw (e, apply_records) next
    ]

pub empty-IsBuilt : IsBuilt empty_model
unfolding empty_model
empty-IsBuilt = record {
  functions = omega arith;
  events = omega arith;
  owners = omega arith;
  fresh = λ f m. elim m [ ];
}
