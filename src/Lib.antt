-- ===== src/Lib.antt =====
-- Autosubmit runs the jobs of an experiment on remote platforms. This library models the core of
-- its scheduler, in Python under autosubmit/, and a few functions that feed it.
--
-- The main loop of the program (autosubmit/autosubmit.py) repeats three steps: it asks the platforms
-- for the statuses of the jobs, calls `JobList.update_list`, which moves the jobs that can go on, and
-- asks a `JobPackager` for each platform which READY jobs to submit, alone or in wrappers.
--
-- Parts and files:
-- - Job: autosubmit/job/job_common.py and autosubmit/job/job.py. Job.Status has the codes of class
--   `Status` and its tables; Job.Record has the attributes of class `Job` that the modelled code
--   reads or writes. Jobs are shared objects: a job is a reference, a number, and a store maps
--   references to records, so a change of a parent is seen by its children.
-- - JobList: autosubmit/job/job_list.py. JobList.State has the fields of the class and the assignment
--   to an attribute; JobList.Getters the selections by status and platform; JobList.Links the edges
--   between jobs; JobList.Recovery the check after a recovery; JobList.Edges
--   `add_special_conditions`, with the well-formed lists in JobList.Edges.WellFormed; JobList.Update
--   the method `update_list`, one child for each phase: File (the update file), Retry (failed jobs;
--   Delay reads the delays), Special (checkpoints), Sync (synchronised and delayed jobs), Waiting,
--   Skip, TwoStep, while Keeps, Frame and Moves say which statuses a phase may change;
--   JobList.Members the setter of `run_members`; JobList.Distance
--   `_calculate_dependency_metadata`; JobList.Filters `get_filters_to_apply`, with Ranges and Parse
--   for the values that a filter names, Levels for `_check_relationship`, Elements and Unify for the
--   union of the filters, and Check for the rest; JobList.Graph the edges of the graph: Context,
--   Natural and Filtered `_calculate_natural_dependencies` and `_calculate_filter_dependencies`,
--   Frequency `handle_frequency_interval_dependencies`, which both call, and Redundant
--   `find_and_delete_redundant_relations`; JobList.Cancel `cancel_jobs` of
--   autosubmit/job/job_utils.py.
-- - Packager: autosubmit/job/job_packager.py. Limits has `calculate_job_limits`, Bounds
--   `calculate_wrapper_bounds`, Package the sizes of a package and `check_jobs_to_run_first`, Policy
--   `check_packages_respect_wrapper_policy` with the handlers of the policies, Simple the loops of
--   `build_packages` on the limits of the sections and on the jobs outside wrappers, Vertical
--   `build_vertical_package`, Horizontal `build_horizontal_package`, Divide
--   `_divide_list_by_section`, Weight `compute_weight` and Ready
--   `check_if_packages_are_ready_to_build`.
-- - SubJobs: `SubJobManager` of autosubmit/job/job_utils.py. Walk has the branch of `process_times`
--   with a structure, Order that without one and the whole; Drained is about its loop, Lowered,
--   Structured and Corrected about the times afterwards.
-- - JobDict: autosubmit/job/job_dict.py. Names has `build_job` and `_create_jobs_split`, Create
--   `read_section` with the loops over dates, members and chunks, Get `get_jobs`; Loops, Refines,
--   Chunks, Synchronize, Counted and Zero prove what is in the dictionary after the loops.
-- - Job.Ancestors: `is_ancestor` of autosubmit/job/job.py. Job.Update: `update_status` of class
--   `Job` and the methods it calls. Wrapper: the class `WrapperJob` of the same file, with the
--   reasons to cancel in Reason, the wrapper and the platform's answers in State and the methods in
--   Running and Check.
-- - Experiment: the identifiers of autosubmit/experiment/experiment_common.py.
-- - Calendar: the sizes of chunks and splits of autosubmit/job/job_utils.py.
-- - Statistics: nodes and processing elements of autosubmit/statistics/jobs_stat.py.
-- - Prelude has the shared types and lemmas, Tests the sample inputs.
--
-- Conventions. Code that raises returns a `Result`; a loop over jobs is a recursion over the list,
-- with a flag where the source breaks. Numbers are natural numbers, and ℤ where the source may go
-- below zero. Fuel: that of `encode_from` and `digits_from` is the number itself, which each
-- division makes smaller; that of `update_children_status` is an input, and its theorem says how much
-- is enough; that of `build_vertical_package` is one more than the sorted jobs, which its index
-- passes; that of `trim` is one more than the jobs, of which each round deletes one; that of
-- `walk_roots` is the roots and the names of the package, each of which becomes a root once at most;
-- that of `is_ancestor` is an input, for which the number of the job is enough where parents
-- come first. Texts that the code looks into are lists of code points, other texts are strings.
--
-- Inputs of the model: what the platforms answer to the questions on jobs and wrappers, each numbered
-- by its turn (Job.Update and Wrapper.State), and the test of the wallclock, which computes with
-- floats; the readings of the clock, the connections and checkpoint files of the platforms, and
-- `date2str` and `sum_str_hours` of the bscearth package (JobList.Update.Inputs); the values of
-- the configuration; and Python's `upper` and `lower`.
--
-- Not modelled: the command line, the configuration files, the platforms' remote commands, the text
-- of scripts and wrappers, databases, history, plots and mail, which are input and output; the
-- caller of the two calculations of edges, the sorting and the filters of DicJobs, and the packages
-- that mix both directions. The text of log and error messages is left out everywhere. Of the method
-- `build_packages` itself only the two loops of Packager.Simple are modelled: the part between
-- them, which chooses the builder and hands its packages to the policy, is not.
pub mod Prelude
pub mod Job
pub mod JobDict
pub mod JobList
pub mod Wrapper
pub mod Packager
pub mod Experiment
pub mod Calendar
pub mod Statistics
pub mod SubJobs
mod Tests
