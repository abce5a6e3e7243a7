-- ===== src/Status.antt =====
-- The status codes of status.h other than SUCCESS, and the result of a function that
-- works on a state: a C function returns a status code and leaves the state changed or not.
pub mod After
pub mod Keeps
use virtual_file_system_c.Prelude.{◌≡◌}

-- `StatusCode` without SUCCESS
pub data StatusCode : Type 0 where
  null_pointer_passed invalid_argument index_out_of_bounds : StatusCode
  no_space insufficient_array_passed free_chunk_access_attempt : StatusCode
  data_over_flow data_set_is_empty allocation_failed : StatusCode
  file_chunk_extent_limit_exceeded chunk_does_not_belong_to_file : StatusCode
  not_found_chunks_terminated file_is_empty : StatusCode
  invalid_operation invalid_root_operation : StatusCode
  attempted_to_delete_folder_with_sub_entries attempted_to_enforce_cyclic_relation : StatusCode
  search_target_not_found path_is_too_long path_is_empty : StatusCode
  identifier_not_available identifier_is_too_long invalid_charecter_in_identifier : StatusCode
  unknown_entry uninitialised_entry recursive_operation_limit_exceeded : StatusCode
  test_assertion_failed implementation_incomplete : StatusCode
  expected_folder_got_file expected_file_got_folder invalid_safe_mode_op : StatusCode
  too_many_arguments too_many_options too_many_tokens cmd_is_too_long cmd_is_empty : StatusCode
  invalid_cmd_function invalid_cmd_opt : StatusCode
  read_error attempted_to_read_at_eof input_buffer_over_flow : StatusCode
  too_many_lines input_line_is_too_long : StatusCode
  command_function_not_found : StatusCode
  cmd_too_few_args cmd_too_many_args cmd_too_few_opts cmd_too_many_opts : StatusCode
  cmd_unknown_opt cmd_unknown_arg cmd_expected_int : StatusCode
  cmd_expected_posative_number cmd_input_out_of_range requested_too_many_bytes : StatusCode

-- `ok a s` is SUCCESS with what goes through the output parameters, `fail c s` any other code, and
-- `fault` a read or write outside the object that is accessed, which C leaves undefined.
pub data Outcome (S A : Type 0) : Type 0 where
  ok : A → S → Outcome S A
  fail : StatusCode → S → Outcome S A
  fault : Outcome S A

abbrev pub Act : Type 0 → Type 0 → Type 0
Act S A = S → Outcome S A

-- `if (status != SUCCESS) return status;`
infixl 5 ◌>>=◌ ◌>>◌
abbrev pub ◌>>=◌ : {S A B : Type 0} → Act S A → (A → Act S B) → Act S B
◌>>=◌ m f s = elim (m s) [ ok a t ↦ f a t | fail c t ↦ fail c t | fault ↦ fault ]

abbrev pub ◌>>◌ : {S B : Type 0} → Act S (Unit {0}) → Act S B → Act S B
m >> k = m >>= λ _. k

abbrev pub pure : {S A : Type 0} → A → Act S A
pure a s = ok a s

abbrev pub raise : {S A : Type 0} → StatusCode → Act S A
raise c s = fail c s

-- A total result without a state of its own.
pub data Result (A : Type 0) : Type 0 where
  done : A → Result A
  error : StatusCode → Result A

infixl 5 ◌>>>◌
-- `if (status != SUCCESS) return status;` where nothing is changed.
abbrev pub ◌>>>◌ : {A B : Type 0} → Result A → (A → Result B) → Result B
r >>> f = elim r [ done a ↦ f a | error c ↦ error c ]

abbrev pub lift : {S A : Type 0} → (S → Result A) → Act S A
lift r s = elim (r s) [ done a ↦ ok a s | error c ↦ fail c s ]

-- A step that succeeds hands its value on.
pub bind-ok :
    {S A B : Type 0} (m : Act S A) (f : A → Act S B) {s t : S} {a : A}
    → m s ≡ ok a t
    → (m >>= f) s ≡ f a t
bind-ok m f {s} e = rw (e, ◌>>=◌)

-- A step that fails ends the sequence.
pub bind-fail :
    {S A B : Type 0} (m : Act S A) (f : A → Act S B) {s t : S} {c : StatusCode}
    → m s ≡ fail c t
    → (m >>= f) s ≡ fail c t
bind-fail m f {s} e = rw (e, ◌>>=◌)
