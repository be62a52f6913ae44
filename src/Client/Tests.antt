-- ===== src/Client/Tests.antt =====
-- The theorems on the client's options at fixed arguments.
use binder.Prelude.{
  ℕ, ◌*◌, ◌<◌, ◌↔◌, List, ◌++◌, length, arith, true, [], ◌∷◌, none, some, ◌≡◌, ◌≢◌, refl, pos,
}
use binder.Text.{Bytes, codes, equal, starts_with, find_if, find_last_if, find_text}
use binder.Text.Search.{none_of}
use binder.Download.Task.{
  Env, fetched, Thread, worker_steps, response_starts, completed, Call, on_started, on_ending,
  completing, percent_of, run, step, worker_step, relay_start, new_world,
}
use binder.Client.Bar.{bar, bar-percent_of}
use binder.Client.Waiting.{
  Event, called, died, looks, await, Exit, links_to_death, enqueues, describes, client_main,
}
use binder.Client.Waiting.Told.{delivered}
use binder.Client.Waiting.Exits.{client_main-run, client_main-died, client_main-completed}
use binder.Client.Options.{
  Options, is_slash, file_name_from_url, absolute_path, parse_arg, parse_arg_list, parse_args,
}
use binder.Client.Options.Destination.{file_name_from_url-IsName, IsAbsolute, parse_args-IsAbsolute}

file_name_from_url-IsName_example :
    (file_name_from_url (codes "http://a/b/c.bin?x=/y") ≢ [])
    × (none_of is_slash (file_name_from_url (codes "http://a/b/c.bin?x=/y")) ≡ true)
file_name_from_url-IsName_example = file_name_from_url-IsName (codes "http://a/b/c.bin?x=/y")

abbrev sample_options : Options
sample_options = record {
  url = codes "http://a/b";
  dest_path = codes "/home/downloads/b";
  cancel_after_ms = pos 0;
  quiet = true;
}

parse_args-sample :
    parse_args (some (codes "/home")) (codes "--quiet" ∷ codes "http://a/b" ∷ [])
    ≡ some sample_options
unfolding parse_args parse_arg_list parse_arg file_name_from_url absolute_path equal starts_with
    find_if find_last_if find_text
parse_args-sample = refl

parse_args-IsAbsolute_example : IsAbsolute (codes "/home/downloads/b") × (codes "http://a/b" ≢ [])
parse_args-IsAbsolute_example =
    parse_args-IsAbsolute (codes "/home") (codes "--quiet" ∷ codes "http://a/b" ∷ []) sample_options
      refl parse_args-sample

abbrev all_well : Env
all_well = record {
  parent_dir = none;
  part_size = 100;
  open_part = none;
  http_service = none;
  new_request_id = some 7;
  id_error = [];
  dup_part = none;
  fetch = fetched 900;
  rename_part = none;
  final_size = 1000;
  elapsed = 5;
  left_over = 0;
  cancel_proxy = true;
}

abbrev four : List Thread
four = worker_steps ∷ worker_steps ∷ worker_steps ∷ worker_steps ∷ []

abbrev whole_download : List Thread
whole_download = four ++ (four ++ (response_starts 100 (pos 1000) 5 ∷ (four ++ four)))

-- `main` looks on entry, and then after the last call.
abbrev calls_and_looks : List Event
calls_and_looks =
    looks ∷ called (on_started (pos 1000) 100) ∷ called (on_ending (completing 1000 5)) ∷ []

calls_and_looks-told : delivered calls_and_looks ≡ (run all_well whole_download new_world).calls
unfolding run step worker_step relay_start
calls_and_looks-told = refl

client_main-run_example :
    let w = run all_well whole_download new_world in
    (e : Exit) × (client_main
        (some (codes "/home"))
        (codes "--quiet" ∷ codes "http://a/b" ∷ [])
        true
        (some 1)
        (calls_and_looks ++ (looks ∷ died ∷ []))
      ≡ some e)
    × ((e.code ≡ 0) ↔ (w.task.state ≡ completed))
client_main-run_example =
    client_main-run all_well whole_download (some (codes "/home"))
      (codes "--quiet" ∷ codes "http://a/b" ∷ []) sample_options 1 calls_and_looks (died ∷ [])
      (omega arith) parse_args-sample calls_and_looks-told refl

client_main-died_example :
    client_main
      (some (codes "/home"))
      (codes "http://a/b" ∷ [])
      true
      (some 1)
      ((looks ∷ []) ++ (died ∷ ([] ++ (looks ∷ []))))
    ≢ none
client_main-died_example =
    client_main-died (some (codes "/home")) (codes "http://a/b" ∷ []) true (some 1) (looks ∷ []) []
      []

-- The exit of a completed download.
abbrev good_exit : Exit
good_exit = record {
  code = 0;
  actions =
      links_to_death ∷ enqueues (codes "http://a/b") (codes "/home/downloads/b") ∷ describes 1 ∷ [];
}

client_main-good :
    client_main
      (some (codes "/home"))
      (codes "--quiet" ∷ codes "http://a/b" ∷ [])
      true
      (some 1)
      (calls_and_looks ++ (looks ∷ []))
    ≡ some good_exit
unfolding client_main await
client_main-good = rw parse_args-sample refl

client_main-completed_example :
    (n ms : ℕ) × (front back : List Call) × (delivered (calls_and_looks ++ (looks ∷ []))
      ≡ front ++ (on_ending (completing n ms) ∷ back))
client_main-completed_example =
    client_main-completed (some (codes "/home")) (codes "--quiet" ∷ codes "http://a/b" ∷ []) true
      (some 1) (calls_and_looks ++ (looks ∷ [])) good_exit client_main-good refl

bar-percent_of_example :
    ((cells : Bytes) × (bar (percent_of 500 (pos 1000)) ≡ some cells) × (length cells ≡ 40))
    ↔ (500 * 100 < 103 * 1000)
bar-percent_of_example = bar-percent_of 500 999 (omega arith)
