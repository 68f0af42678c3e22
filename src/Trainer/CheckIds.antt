-- ===== src/Trainer/CheckIds.antt =====
-- verify_example_ids of src/Trainer/fl_comm_libs/flenv.py: the operation that compares the example
-- ids of a batch between the parties, by the flags. The graph is the operation with what runs
-- before it.
use n_mpc.Prelude.{◌==◌, if◌then◌else◌, ℕ, String, Bool, str_eq}
use n_mpc.Prelude.Result.{Result, ok, err, name_error}

-- `none_needed` is the assertion that holds always; the leader sends its hashes, the follower
-- receives and compares. `printed` tells whether the hashes are printed first.
pub data CheckOp : Type 0 where
  none_needed : CheckOp
  send_hashes : (printed : Bool) → CheckOp
  compare_hashes : (printed : Bool) → CheckOp

-- A role of another name meets `role`, which is no name of the function.
unfoldable pub verify_example_ids :
    (check_exampleid : ℕ) (role : String) (debug_mode : Bool) → Result CheckOp
verify_example_ids check_exampleid role debug_mode =
    if check_exampleid == 0
    then ok none_needed
    else if str_eq role "leader"
    then ok (send_hashes debug_mode)
    else if str_eq role "follower"
    then ok (compare_hashes debug_mode)
    else err name_error
