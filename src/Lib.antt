-- ===== src/Lib.antt =====
-- The access control of hwprivacy, which decides which programs may use the microphone, the camera
-- and the sound that is played (a monitor tap).
--
-- The daemon watches the graph of PipeWire, which a monitor prints in blocks. Each link on a protected device goes through the ledger of
-- links, is decided by the policy engine from the rules of the configuration, and is tracked, asked
-- about or destroyed. The kernel layer is given the executables that the rules let open a camera or a
-- capture device. The model follows these parts:
--
--   Common, Common/*           shared names: equality tests, lists, maps, sorting and texts.
--   Device, Stream, Graph      the records of hwprivacy-common/src/device.rs, stream.rs and of the
--                              graph in hwprivacy-daemon/src/pipewire_monitor.rs.
--   Names, Names/*             normalize_app_name, sanitize_rule_name and short_name of
--                              hwprivacy-common/src/config.rs.
--   Config, Config/*           permissions, rules, find_rule, get_permission, set_rule, set_rule_exe,
--                              remove_rule and the kernel allowlists, of the same file.
--   Preset, Preset/Laws        Preset::plan of hwprivacy-common/src/preset.rs and
--                              Config::apply_preset.
--   RuleMerge, RuleMerge/*     Config::merge_rules and find_rule_splits of
--                              hwprivacy-common/src/rule_merge.rs.
--   Edits                      the edits of a configuration as a relation of steps.
--   PolicyEngine,              evaluate and classify_link of
--   PolicyEngine/*             hwprivacy-daemon/src/policy_engine.rs.
--   LinkAudit, LinkAudit/*     LinkLedger::reconcile, still_alive and verify_denial of
--                              hwprivacy-daemon/src/link_audit.rs.
--   StreamTracker,             connections, sessions, prompts and events, of
--   StreamTracker/*            hwprivacy-daemon/src/stream_tracker.rs.
--   NotifyAllow                AllowNotifier of hwprivacy-daemon/src/notify_allow.rs.
--   History                    the table of hwprivacy-daemon/src/history.rs.
--   KernelPerms, KernelPolicy, perms_word, parse_perms, Policy::parse, to_map and render_cache of
--   KernelPolicy/Cache, Merge  hwprivacy-lsm/src/policy.rs.
--   DeviceIndex                DeviceIndex of hwprivacy-lsm/src/device_index.rs, over a listing of
--                              the device files.
--   Graph/Parse, Graph/State,  parse_node, parse_port, parse_link, GraphState, capture_graph,
--   Graph/Splitter             diff_links, BlockSplitter and run_monitor, of
--                              hwprivacy-daemon/src/pipewire_monitor.rs; Graph/Json has what they use
--                              of JSON and of /proc.
--   Graph/Blocks, Graph/Links, the streams that a splitter is for, the links of a graph, what a block says
--   Graph/Sightings,           of them, and the invariant that the ledger of links relies on.
--   Graph/Invariant
--   Discovery                  hwprivacy-daemon/src/device_discovery.rs and link_manager.rs: devices of
--                              the graph, and how a link is destroyed.
--   KernelEvents               the bytes of events and bursts in hwprivacy-lsm/src/event.rs.
--   Identity, Identity/Laws    Identities of hwprivacy-daemon/src/identity.rs.
--   Prompt                     outcomes and actions of hwprivacy-daemon/src/notification.rs.
--   Daemon                     DaemonState, log_denied and log_allowed of
--                              hwprivacy-daemon/src/state.rs.
--   Daemon/Groups,             group_links, and monitoring_loop of hwprivacy-daemon/src/main.rs for
--   Daemon/Enforce,            one group, for one update of the graph, and for the answer to a prompt.
--   Daemon/Loop                A task's effects on the world are a list, in order.
--   Daemon/Grouped, Safety,    what a group holds, which links are destroyed, when the user is asked and
--   BlockAll, Asking, Sessions what an answer changes, and which connections and sessions are left.
--   Proto                      requests, replies and events of hwprivacy-proto/src/lib.rs.
--   KernelClient,              handle_event, the intended policy, its pushes, and the answer to a
--   KernelClient/*             kernel prompt, of hwprivacy-daemon/src/lsm_client.rs.
--   KernelLoader,              the helper, hwprivacy-lsm/src/main.rs: a map of the BPF program as a map
--   KernelLoader/*             from bytes to bytes. Replace is replace_policy, Minors
--                              push_capture_minors, Requests read_policy, write_config and
--                              handle_request, Bursts flush_stale_bursts, and Boot the start of main,
--                              before it attaches, and what ends its loop. Calls, Wanted, Stale, Allowlist, Flushed,
--                              Captured, Programmed, Answers, Reboot and Restart have the lemmas.
--   Bus, Bus/*                 the methods of hwprivacy-daemon/src/dbus_service.rs: Bus has those that
--                              change the daemon, Bus/Queries those that read it; Bus/Cases, Laws,
--                              Refinement and Promises have the lemmas.
--   Tests, Tests/*             runs at concrete inputs.
--
-- How the code is read. A method on `&mut self` is a function from the state to the state; one that
-- refuses gives `none`, or an error that names its reason. A text is the list of its code points, and a
-- list stands for a `Vec`, a `HashMap` and a `HashSet`. The number types are ℕ, with the wrap of a
-- counter written out. An instant is a number of nanoseconds, and the present is an argument.
--
-- What is a parameter. `Lowercase` stands for `str::to_lowercase`, with what the code relies on: its
-- output has lowercase characters only, it leaves such a text alone, ASCII letters are read as usual
-- and a trimmed text stays trimmed; Names/Ascii has an instance. The existence of a file, the
-- resolution of a path to an inode, and the state that a wait or a destroy changes, are parameters too.
-- So are the values of JSON (`Json`), the parser of a block, what /proc says of a process (`Proc`), the
-- executable of a process, and the identity of a file. For the helper, what the machine answers during
-- a request is a record (`Machine`), which keys of a map the kernel refuses to write among it, and what
-- the BPF program writes between a read and the writes that follow is a function, `meanwhile`.
--
-- Other tasks. Where a task gives the shared state free, the model takes what others do to it then as a
-- function, `others`, of the place and the state. A theorem that speaks of one task alone says so.
--
-- Fuel. The loop of normalize_app_name that strips annotations runs on the length of the name; each
-- round makes the name shorter, so it ends before the fuel does. bit_or runs on the 32 bits of a
-- word. Every other loop runs along a list.
--
-- Not modelled. Reading and writing the configuration, the presets and the tables, journal and
-- notification wording, starting commands and waiting for them, loading and attaching the BPF program,
-- its ring buffer and the printing of events, the socket, the transport of the bus, the command line and
-- the interfaces. These are input and output, or calls of libraries.
pub mod Common
pub mod Device
pub mod Names
pub mod Config
pub mod Preset
pub mod RuleMerge
pub mod Edits
pub mod Stream
pub mod Graph
pub mod PolicyEngine
pub mod LinkAudit
pub mod StreamTracker
pub mod NotifyAllow
pub mod History
pub mod DeviceIndex
pub mod KernelPerms
pub mod KernelPolicy
pub mod Discovery
pub mod KernelEvents
pub mod KernelLoader
pub mod Identity
pub mod Prompt
pub mod Daemon
pub mod Proto
pub mod KernelClient
pub mod Bus
pub mod Tests
