-- ===== src/Lib.antt =====
-- The core of dicode, a daemon that runs tasks from git repositories: which version of a task may be
-- armed and fired, how layers of overrides change a task, how tasks are registered, and how the
-- always-on tasks are kept running.
--
-- The parts and how they interact. A task is read from its folder and changed by the overrides of
-- the task sets above it (Taskset). The reconciler (Registry.Reconciler) registers it, once the
-- providers of its secrets are, and hands every new or changed task to the approval gate
-- (Approval.Gate), which arms it, or holds it until an operator approves it, by hand or through a
-- one-click link (Approval.Token). What was approved is in a signed lock file (Approval.Lock).
-- Before every run the trigger engine asks the gate again (`fire_guard`). A daemon task
-- (Trigger.Daemon) has one slot (Trigger.Slots), which its body holds while it runs, a counter of
-- quick failures (Trigger.Crashloop), and a phase that is reported (Trigger.DaemonState). A webhook
-- (Trigger.Webhook) passes the gateway's guard, the check of its signature and a replay cache
-- (Trigger.Replay). A run that ends fires the tasks chained to it (Trigger.Chain), with parameters
-- that refer to its output (Task.InputRef); chains that a failure starts pass a cooldown, two caps
-- and a storm breaker (Trigger.Guards). A run that suspends itself waits in the table of runs for
-- the token that continues it (Registry.Runs). Parameters and pipelines are checked when they are
-- given (Task.Params, Task.Pipeline), and a subprocess gets the environment that its task declares
-- (Runtime.Env). Images that no task needs any more are collected (Runtime.ImageGc).
--
-- The files, with the source that each models:
--   Prelude              shared tests, lists and association lists, the lemmas on them
--   Approval/Lock        pkg/approval/lock.go: LoadSignedLock, Record, Remove, MarkBootstrapped, save
--   Approval/Gate        pkg/approval/gate.go: Admit; Gate/Decisions: Approve, ApproveIfHash, Forget,
--                        FireGuard
--   Approval/Token       pkg/approval/token.go: Mint, Peek, Redeem
--   Trigger/Slots        pkg/trigger/daemon_slot.go, with the heap of entries that handles share
--   Trigger/Crashloop    pkg/trigger/crashloop.go
--   Trigger/Replay       pkg/trigger/replay_cache.go
--   Trigger/Guards       pkg/trigger/engine_guardrails.go
--   Trigger/DaemonState  pkg/trigger/daemon_state.go
--   Trigger/Daemon       pkg/trigger/daemon.go: registerDaemon, startDaemon, launchDaemon,
--                        resumeDaemonBody, restartDaemonAfterExit, and the part of
--                        unregisterTriggersKeeping in pkg/trigger/engine.go that is about daemons;
--                        Daemon/Finish: onDaemonRunFinished, onDaemonSuspensionSwept
--   Registry/Reconciler  pkg/registry/reconciler.go: handle, retryPending, validateTaskProviders,
--                        markInitialSourceSynced, the loop of Run
--   Runtime/ImageGc      pkg/runtime/imagegc/imagegc.go: CurrentTags, SelectOrphans
--   Trigger/Chain        pkg/trigger/chain.go: hasSuccessChainCycle, checkSuccessChainCycle;
--                        Chain/Input: buildChainInput, buildChainPayload; Chain/Edges: chainDepth,
--                        nextChainDepth, chainEdgeMatches, fireSuccessChains; Chain/Failure:
--                        fireFailureChain, with pkg/task/onfailurechain.go
--   Trigger/Webhook      pkg/trigger/webhook.go, pkg/webhooksign: registerWebhookPath,
--                        resolveWebhookPath, verifyWebhookSignatureSecret, checkWebhookReplay;
--                        Webhook/Guard: webhookAuthGuard (pkg/webui/auth.go), WebhookHandler,
--                        fireWebhookTask
--   Task/InputRef        pkg/task/inputref.go: resolveToken, resolveString, ResolveInputOutputMap;
--                        InputRef/Checked: ValidateInputRefs
--   Task/Params          pkg/task/params.go: validateParams, coerceParam, MissingRequiredParams;
--                        pkg/runtime/socketbridge.go: MergeParams
--   Task/Pipeline        pkg/task/pipeline.go: Validate, detectStageCycle;
--                        pkg/task/overrides.go: validatePipelineStageOverrides
--   Runtime/Env          pkg/runtime/subprocenv.go, pkg/runtime/envwildcard.go
--   Runtime/EnvCache     pkg/runtime/envresolve/cache.go
--   Registry/Runs        pkg/registry/registry.go, pkg/registry/resume.go: the calls that write a run's
--                        status; pkg/trigger/resume.go: ResumeRun
--   Taskset/Override     pkg/taskset/override.go: applyTriggerPatch, mergeParams
--   Taskset/Merge        pkg/taskset/override.go: mergeEnvEntries, unionStrings, mergeDicodePerms
--   Taskset/Layers       pkg/taskset/override.go: applyLayer, applyOverrides
-- The modules below each of these prove its theorems; the Tests modules run them at concrete states.
--
-- Operations are functions from a state to a result and a state. A mutex of the source makes an
-- operation one step, so the model runs operations one after another. A restart sleeps for its
-- backoff, so it is two operations (`exit_decision`, `after_backoff`), between which others may run;
-- the retry goroutine of the reconciler is cut in the same way (`check_retry`, `send_retry`), and
-- `resume_run` takes what other calls do to the table of runs after its first read. Maps are
-- association lists in which an insertion replaces the key's entry. Times and durations are numbers
-- of nanoseconds (seconds for tokens, as in their table), since the source only adds and compares
-- them; a record with no time is `none`. Most loops run over a list. Five run on fuel, each with a
-- theorem that it suffices: the search for a cycle (the number of tasks and two), since a visited
-- name is never visited again; the walk from a webhook's path to its parents (the length of the path
-- and one); the scan for references and the check of their shape (the length of the text and one);
-- and the search for a cycle among the stages of a pipeline (the number of stages and one).
--
-- Parameters, since their code is not in this repository or is the standard library's: the HMAC and
-- its encoding (`Signer`), the hash of a token, the content hash and the git commit of a task, the
-- error of arming it, and whether a file can be written (`Outside`). The hash of a Dockerfile is
-- part of its task, and a request's session, the HMAC of a webhook and what `fireAsync` answers are
-- arguments. The ids of new runs, the clock, the record of a finished run and the failure of
-- `fireAsync` are arguments of the operations.
--
-- Not modelled: the rendering of pending tasks, the enabled flag that `approve` reports, logging,
-- and interleavings inside `approve` and `Admit`, which take the gate's mutex several times. The
-- engine's execution of runs and of pipelines, the responses of a webhook, the reading of task
-- files, IPC, the other parts of the runtimes, the web interface and the command line are not
-- modelled.
pub mod Prelude
pub mod Approval
pub mod Task
pub mod Trigger
pub mod Taskset
pub mod Registry
pub mod Runtime
