-- ===== src/Actors/Result.antt =====
-- The result of `run_app` does not depend on the order in which its jobs end.
use n_mpc.Prelude.{
  ℕ, zero, suc, ◌+◌, ◌<◌, ◌≤◌, ◌≡◌, refl, ap, sym, ◌∙◌, Bool, true, false, ◌&&◌, Option, none, some,
  List, [], ◌∷◌, length, get_elem?, replicate, ltb, if◌then◌else◌, arith, All, inl, inr, Bool-cases,
  String,
}
use n_mpc.Prelude.Result.{Result, ok, ◌>>=◌}
use n_mpc.Actors.Dispatch.{
  add_counts, sum_results, Counts, Dispatcher, Work, one_file, block_path, is_init, no_counts,
  get_results, get_data_block_count,
}
use n_mpc.Actors.Dispatched.{supply, work_at, get_elem-lt}
use n_mpc.Actors.Paths.{Format}
use n_mpc.Actors.Action.{psi}
use n_mpc.Actors.Schedule.{Schedule, Done}
use n_mpc.Actors.Counting.{count}
use n_mpc.Actors.Scheduled.{done_ids}
use n_mpc.Actors.Started.{run_jobs-Completed}
use n_mpc.Actors.Tracked.{Tracks, done_of, done_block}
use n_mpc.Actors.Output.{Lines, OutputFile, output_single_output_file}
use n_mpc.Actors.App.{
  AppResult, generate_result, report_results, run_dispatched, place_outputs, last_has_data,
}
use n_mpc.Actors.Collected.{
  All-counted, entries-data, some_entry, tabulate, total, tabulate-eq, place_outputs-all,
  last_has_data-true, entries-below, sum_results-total,
}

get_elem-length :
    {A : Type 0} (xs : List A) (i : ℕ) (a : A) → get_elem? xs i ≡ some a → i < length xs
get_elem-length [] i a h = absurd (cc)
get_elem-length (x ∷ xs) zero a h = omega arith
get_elem-length (x ∷ xs) (suc i) a h = omega (arith, get_elem-length xs i a h)

module _ {Data : Type 0} where
  -- The work on a block of a dispatcher; behind its end some path.
  abbrev pub work_of : Dispatcher Data → ℕ → Work Data
  work_of d i = elim (work_at d i) [ some work ↦ work | none ↦ block_path (one_file "") ]

  work_at-some : (d : Dispatcher Data) (i : ℕ) → i < supply d → work_at d i ≡ some (work_of d i)
  work_at-some d i lt = elim (Bool-cases d.is_single_file) [
    | inl single ↦
        let found = get_elem-lt d.data_blocks i (ground (arith, lt, single)) in
        ground (arith, single, found.1)
    | inr several ↦
        let found = get_elem-lt d.data_paths i (ground (arith, lt, several)) in
        ground (arith, several, found.1)
  ]

module _ {Data : Type 0} (do_action : (block_id : ℕ) → Work Data → Done Lines) where
  abbrev pub output_of : Dispatcher Data → ℕ → Option Lines
  output_of d i = (done_of do_action (work_of d) i).block_data

  fresh-Tracks :
      (d : Dispatcher Data)
      → supply d ≡ length d.data_status
      → Tracks do_action (work_of d) (length d.data_status) d [] []
  fresh-Tracks d ready = record {
    size = refl;
    waits = λ j block e fresh.
        work_at-some d j (omega (arith, ready, get_elem-length d.data_status j block e));
    jobs = tt;
    outputs = tt;
    statuses = tt;
  }

  module _ (header : Lines) (with_head : Bool) (output_dir : String) (format : Format) where
    -- The result without any word about the jobs: the outputs of the blocks in order in the single
    -- file, and their counts added up.
    abbrev pub expected :
        (data_format : Format) → OutputFile → Dispatcher Data → Result (OutputFile × AppResult)
    expected data_format file d =
        let n = length d.data_status in
        let done = done_of do_action (work_of d) in
        (if d.is_single_file
          then output_single_output_file header data_format format with_head
              (tabulate (output_of d) 0 n) file
          else ok file)
        >>= λ written.
            generate_result psi
              (total (λ i. (done i).original) 0 n, total (λ i. (done i).joined) 0 n) output_dir
            >>= λ result. ok (written, result)

    module _ (data_format : Format) (file : OutputFile) (d : Dispatcher Data)
        (s : Schedule Data Lines)
        (t : Tracks do_action
          (work_of d)
          (length d.data_status)
          s.dispatcher
          s.result_refs
          s.completed)
        (counts : (x : ℕ)
          → count x (done_ids s.completed) ≡ (if ltb x (length d.data_status) then 1 else 0)) where
      counted : (i : ℕ) → i < length d.data_status → 0 < count i (done_ids s.completed)
      counted i lt = ground (arith, counts i, lt)

      statuses-done :
          s.dispatcher.data_status
          ≡ tabulate (done_block do_action (work_of d)) 0 (length d.data_status)
      statuses-done =
          let blocks = s.dispatcher.data_status in
          tabulate-eq (done_block do_action (work_of d)) 0 blocks (λ i lt.
            let start : 0 + i ≡ i = omega arith in
            All-counted (output_of d)
              (λ k. get_elem? blocks k ≡ some (done_block do_action (work_of d) k)) s.completed i
              t.statuses (counted i (omega (arith, lt, t.size)))
            ∙ ap (λ k. some (done_block do_action (work_of d) k)) (sym start))
          ∙ ap (λ k. tabulate (done_block do_action (work_of d)) 0 k) t.size

      add_nothing : (c : Counts) → add_counts (some c) no_counts ≡ c
      add_nothing c = ground arith

      totals : get_results s.dispatcher ≡ (
        total (λ i. (done_of do_action (work_of d) i).original) 0 (length d.data_status),
        total (λ i. (done_of do_action (work_of d) i).joined) 0 (length d.data_status),
      )
      unfolding get_results
      totals =
          let done = done_of do_action (work_of d) in
          ap (λ l. sum_results l no_counts no_counts) statuses-done
          ∙ sum_results-total (λ i. (done i).original) (λ i. (done i).joined) 0
              (length d.data_status) no_counts no_counts (done_block do_action (work_of d))
              (λ i. refl) (λ i. refl)
          ∙ ap
              (λ c. (
                c,
                add_counts (some (total (λ i. (done i).joined) 0 (length d.data_status))) no_counts,
              ))
              (add_nothing (total (λ i. (done i).original) 0 (length d.data_status)))
          ∙ ap (λ c. (total (λ i. (done i).original) 0 (length d.data_status), c))
              (add_nothing (total (λ i. (done i).joined) 0 (length d.data_status)))

      placed :
          place_outputs s.completed (replicate (length d.data_status) none)
          ≡ tabulate (output_of d) 0 (length d.data_status)
      placed = place_outputs-all (output_of d) (length d.data_status) s.completed t.outputs counted

      report-expected :
          0 < length d.data_status
          → (d.is_single_file ≡ true
              → (i : ℕ) → i < length d.data_status
              → (out : Lines) × (output_of d i ≡ some out))
          → report_results do_action header with_head output_dir format d.is_single_file
              (length d.data_status)
              data_format
              file
              s
            ≡ expected data_format file d
      unfolding report_results
      report-expected some_blocks has_data =
          let written : (d.is_single_file && last_has_data false s.completed) ≡ d.is_single_file =
            elim (Bool-cases d.is_single_file) [
              | inl single ↦
                  let below =
                    entries-below (output_of d) (length d.data_status) s.completed
                      (λ i lt. ground (arith, counts i, lt)) in
                  let all_data =
                    entries-data (output_of d) (length d.data_status) s.completed t.outputs below
                      (has_data single) in
                  let there = some_entry (output_of d) s.completed 0 (counted 0 some_blocks) in
                  ground (
                    arith,
                    single,
                    last_has_data-true (output_of d) s.completed false all_data (inr there),
                  )
              | inr several ↦ ground (arith, several)
            ] in
          rw (written, placed, totals) refl

    -- From blocks that nobody has, each with something to work on, and where they are of a single
    -- file, each with data for it: at least one actor and as many ends of jobs as there are blocks,
    -- in any order, come to the expected result.
    pub run_dispatched-expected :
        (max_actors : ℕ) (turns : List ℕ) (data_format : Format) (file : OutputFile)
        (d : Dispatcher Data)
        → supply d ≡ length d.data_status
        → All (λ block. is_init block.status ≡ true) d.data_status
        → 0 < length d.data_status
        → 0 < max_actors
        → length d.data_status ≤ length turns
        → (d.is_single_file ≡ true
            → (i : ℕ) → i < length d.data_status
            → (out : Lines) × (output_of d i ≡ some out))
        → run_dispatched do_action header with_head output_dir format max_actors turns data_format
            file d
          ≡ (expected data_format file d >>= λ results. ok (some results))
    unfolding run_dispatched get_data_block_count
    run_dispatched-expected max_actors turns data_format file d ready fresh some_blocks some_actors
          enough has_data =
        let c =
          run_jobs-Completed do_action max_actors turns d ready fresh some_blocks some_actors
            enough in
        let t = c.tracked (work_of d) (length d.data_status) (fresh-Tracks d ready) in
        rw (c.result, report-expected data_format file d c.final t c.counts some_blocks has_data)
          refl
