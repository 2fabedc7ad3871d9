-- ===== src/Lib.antt =====
-- ccc, a Telegram bot and phone app in front of coding agents: a model of its access control, its hub relay and file
-- transfers, its accounts, its turn queue, watches and background jobs, its secrets and its maintenance.
--
-- Parts.
--   Base: the shared names. Base/Tests and Base/Lists are tests and lists over the native numbers, Base/Int the integers,
--     Base/Texts Go strings as code points with the functions of `strings`, `strconv` and `encoding/hex` that the code calls, and
--     Base/Tables the database: a table is the list of its rows, and each statement of GORM is an operation that may fail, with
--     what it does when it succeeds as a law. The table in memory shows that the laws can hold.
--   Access: access.go. `gate` is the method through which every Telegram update passes; it calls `classify_access` and
--     `handle_unknown_user`, and sends what `Message` lists. Access/Commands is `/access …` and the buttons under the
--     owner's notice, which call `approve_by_code`, `set_access_state` and `revoke_access`. Access/Safety, Access/Pairing,
--     Access/Replies and Access/Codes hold theorems.
--   Relay: hub_server.go, with parseHubPublic of hub_crypto.go and hubFrame of hub_proto.go. The relay's two maps are the
--     state; `handle_open` is the first message of handleWS, `handle_frame` one turn of its loop, `handle_close` its deferred
--     removal and `gc` one tick of the collector. Relay/Registry makes them the steps of a transition system over the
--     relay and the connections opened so far, so interleavings of connections are sequences of steps.
--     Relay/Offers and Relay/Standing are about pairing codes.
--   Upload: hub_file.go, with sanitizeFileName of listenv3.go. The client's map of uploads and the files on disk are the
--     state; `rpc_put_begin`, `rpc_put_chunk`, `rpc_put_commit` and `rpc_get_chunk` are the four RPCs.
--   Accounts: profiles.go and the parts of runner.go that pick an account: the statistics, the choice, the cooldowns,
--     `pick_account` and `classify_failure`. Accounts/Usage has
--     the words for quotas and the engine of a new worker, Accounts/Notices the session of a turn and the notices of its end.
--     Accounts/Attempts is the loop of `execute` over accounts: `attempts` counts the
--     attempts left, three in all, and `continue` is the rest of the loop. The other files hold theorems.
--   Turns: the queue of runner.go over the rows of Turn and InboxMessage of store.go: `enqueue`, `stop`, `fold_queue` and
--     `deliver_inbox`. Turns/Writes holds what a run of writes by key clears and keeps; Turns/Folding and Turns/Delivery hold
--     the theorems. Access and Turns both use the tables of Base/Tables.
--   Watches: lineDiff of scheduler.go, and in Watches/Rows `upsert_watch`, `run_watch` and `expire_watches`, which put their
--     messages into the queue of Turns by `enqueue`. Watches/Renewal, Watches/Expiry, Watches/Diff and Watches/Limit hold
--     theorems.
--   Env: envfile.go. `render_env_file` writes the file from a lookup, `load_env_file` reads it into an environment, a function that os.LookupEnv
--     reads. Env/Quoting, Env/Lines and Env/RoundTrip lead to the round trip.
--   Secrets: secrets.go. The vault is a map or the error of reading it; `resolve_secret_env` and `resolve_stdin_secret` look secrets up,
--     and `overlay_env` is the environment that a command gets. Secrets/Overlay and Secrets/Resolving hold the theorems.
--   Background: background.go. Background holds the data, Background/Rows the rows and the tools' operations, Background/Words the texts,
--     Background/Supervisor the goroutines of the supervisor, and Background/Watching the loop of `watchBackgroundJob`. Finished jobs wake their bot
--     through `enqueue` of Turns, and get their secrets through Secrets. Background/Steps is the life of a job as a step relation, Background/Advancing what
--     the steps leave of a job, and Background/Cap their bound.
--     Background/Operations lists what the supervisor and the tools do. The reading of the queued rows and the start of each are operations of their own, so that the tools,
--     which are other processes, may come in between; a cancel and a start of a process go by a row read earlier as well. A start itself, a look at a job's files with the finish that follows,
--     the reattaching and the cleanup of old jobs, which is maintenance.go's, are one step each. Background/Starting, Background/Holding, Background/Writes
--     and Background/Sound show the writes of each operation to be steps, and Background/Life puts
--     them together. The other files hold theorems on a job's end.
--   Turns/Recovery: recoverAfterRestart of listenv3.go, as far as it is about turns.
--   Maintenance: maintenance.go. `trim_turn_bodies` counts the pages that it may read; one more than there are turns is enough.
--     Maintenance/Compaction is the swap of memories and its undoing, Maintenance/Termination, Maintenance/Restoring and
--     Maintenance/Undoing lead to the theorems, and Maintenance/Inserts is about runs of inserts.
--
-- Conventions. Times are natural numbers of nanoseconds since Go's zero time. Integers from outside are ℤ where the code tests their
-- sign, and natural numbers where it cannot be negative. The clock, random bytes, JSON and base64 decoding, the network and the
-- operating system are arguments of the definitions. Strings are lists of code points; `to_lower` maps A-Z alone,
-- which is what matters for the ASCII words and codes that it is used on. `decimal` has fuel for twenty digits, which is enough
-- for every number of 64 bits. A write to an upload's file that fails leaves the file as it was. The pages of `trim_turn_bodies`
-- are counted too. All other recursion is structural.
--
-- Not modelled: the text of fixed replies and of the access list; deadlines and HTTP handlers of the relay; the NaCl boxes;
-- the collection of stale uploads and the sending of files to the phone; how usage is read, child processes and their sessions, the
-- goroutines of the turn queue and its debounce; the writing of the files of the environment and of the vault; and the other parts of the program: the rest of the scheduler, the
-- store, configuration, the Telegram and phone surfaces, which are I/O or still to be modelled.
pub mod Base
pub mod Access
pub mod Maintenance
pub mod Relay
pub mod Upload
pub mod Accounts
pub mod Turns
pub mod Watches
pub mod Background
pub mod Env
pub mod Secrets
