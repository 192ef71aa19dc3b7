-- ===== src/Lib.antt =====
-- Chers is a rhythm game on two to sixteen lanes with a Python toolchain around it: a verifier that
-- replays the public evidence of a run, a bridge through which a vision model sees frames and presses
-- keys, a runner of trials with such models, and a report that selects runs for publication. This
-- library models those parts.
--
-- The verifier, tools/verify_run.py, is in Verifier:
--   Verifier/Rules      the constants, TARGET_WINDOWS and _stage_at
--   Verifier/Audit      EvidenceError and the list `errors`: a result with what was reported so far
--   Verifier/Fields     INTEGER, _integer and _csv_integer on texts as lists of code points
--   Verifier/Table      _rows, on the records that csv.DictReader has split
--   Verifier/Chart      the loop of _verify over notes.csv
--   Verifier/Replay     the loop of _verify over inputs.csv
--   Verifier/Json       the values of result.json, the hooks of json.load, _integer, _number,
--                       _boolean and _mapping
--   Verifier/Manifest   the checks of the settings, the claimed summaries, the generation and the
--                       observation; _close and _distribution
--   Verifier/Timing     _replay_timing
--   Verifier/Reading    the parts of _verify that only read and compare, composed
--   Verifier/Report     _verify and verify_run, on the report that they fill in
--   Verifier/Spec       the scoring rules of agent.md, with no cursors, next to the two loops
-- Both loops are structural recursion on the rows, and the loop on a lane's cursor on what is left of
-- the lane. Numbers are natural numbers, and integers where the code may go below zero: Python's do
-- not wrap. The labels of errors are data, not texts. Python's floats are an interface,
-- Numbers, with no laws.
--
-- The bridge, NativeVisionBridge of examples/codex_vision_bridge.py, is in Bridge:
--   Bridge/Opening      __init__, on Keyboard/Opening and Client
--   Bridge/State        the fields and the events of the log; _check
--   Bridge/Queue        the heap of scheduled taps, as the list in its order
--   Bridge/Actions      the validation of submit, on every kind of Python value
--   Bridge/Operations   _fail, _capture_once, observe and submit
--   Bridge/Dispatch     start, _dispatch_due and close
--   Bridge/Snapshot     snapshot, without its texts and times
--   Bridge/Ledger       where each proposed action is
--   Bridge/Timely       when keys are pressed
--   Bridge/Steps        the interleavings of the threads and callers, and what holds in all of them
-- Each section under the lock is one step, and what a thread raises goes to _fail. The clock is a
-- sequence of readings, which is a parameter, as are the frames that the client returns, the presses
-- of keys that succeed, and Python's floats as far as submit uses them. An exception of the client
-- itself while it waits for a frame is not modelled, nor are the waits of the threads.
--
-- Its keyboard and its encoder stand beside it:
--   Keyboard            _checked_x11 and the methods of XTestKeyboard, which give the calls that reach
--                       X11 and XTest to a history
--   Keyboard/Opening    _property32, find_window_for_pid and XTestKeyboard.__init__
--   Bridge/Png          rgba_png; Bridge/Png/Reading is a reader of its images, the specification
-- What X11 and XTest answer, and zlib, are parameters; an answer may depend on all calls before, those
-- without a display, which start makes on a closed keyboard, among them. The fuel of
-- find_window_for_pid is a number of rounds; it is enough if the deadline passes in one of them.
--
-- The runner of trials, tools/run_codex_evaluations.py, is in Trial and Evaluations:
--   Trial               the state of run_trial and what its loop receives
--   Trial/Calls         a tool call of the model: its tests, the bridge's steps and the response
--   Trial/Rounds        a turn of the loop: the game's exit, the two deadlines, the messages
--   Trial/Ending        the end of a trial: the bridge is closed, the game's result goes to the verifier
--   Trial/Bridged       that the trial's steps on the bridge are steps of Bridge/Steps
--   Trial/Tally         the decisions, the requests, the responses and the proposed actions
--   Evaluations/Probe   probe_vision, on the messages that arrive
--   Evaluations/Events  safe_event, which takes images out of the log
--   Evaluations/Plan    main's loops over models, efforts and repetitions
-- The bridge of a trial is the state of Bridge/State, and its game's result goes to verify_run of
-- Verifier/Report. The turns of the loop are a list, with the readings of the clock in it; a list that
-- goes past both deadlines is long enough.
--
-- The report, tools/report_codex_runs.py, is in Runs: select_runs in Runs itself, on the rows of runs,
-- with texts as lists of code points; Runs/Rank and Runs/Order on the sorting, Runs/Chosen on what is
-- selected. Runs/Summary has summarize_run, on what the files of a run hold, and generate_report, which
-- makes the rows of all directories and selects among them.
--
-- AppServer of examples/codex_appserver_client.py is in Server: request and call in Server itself,
-- _read in Server/Reader, models, start_thread and close in Server/Catalog. The deadline of call is
-- the number of rounds of arrivals, on which its loop recurs; the fuel of models is a number of pages,
-- and as many as the server has are enough. Client of examples/python_client.py is in Client, with
-- _TransportKeys of the bridge; the library that it binds is a parameter.
--
-- The modules of Base hold what the parts share: tests on numbers, lists, integers, decimals and
-- predicates on lists.
--
-- Not modelled: the game itself, which is C++; the declarations for ctypes and the loading of
-- libraries; the processes and the files of a trial, and the statistics of its latencies; the image of
-- the preflight; the text of the Markdown report; how json and csv split their files; the earlier copy
-- of the bridge and the script of keyboard checks under evidence, which are kept as data of past runs.
pub mod Base
pub mod Verifier
pub mod Bridge
pub mod Runs
pub mod Server
pub mod Keyboard
pub mod Trial
pub mod Evaluations
pub mod Client
