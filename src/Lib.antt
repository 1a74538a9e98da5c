-- ===== src/Lib.antt =====
-- A verification of airgap, which runs a program in a view of its files where secrets are redacted.
--
-- The program has three parts. The overlay filesystem (src/fs.rs) mirrors a directory over FUSE; it
-- asks src/redact.rs which files hold secrets and what to show of them, serves that view, and
-- merges what is written to the view back into the real file. The profiles (src/profiles) say which
-- policy a program gets and, for package managers, keep a gate that the overlay asks before a file
-- is opened. The interception (src/mitm) answers the child's network. src/main.rs puts them together.
--
-- The files:
--   Prelude     what all share: Boolean tests, lists, results, association lists for hash maps
--   Std         what the code uses of Rust's standard library: UTF-8, `str` methods, `Path`
--   Redact      src/redact.rs: Detect (`detect` and the file name tests), Env (`parse_env`,
--               `format_value`, `redact_env`, `merge_env`), Npmrc (`redact_npmrc`, `merge_npmrc`), Key
--               (`redact_private_key`), Yaml (`redact_mitm_yaml`, `redact_headers`), Dispatch
--               (`redact`, `merge`)
--   Fs          src/fs.rs: Types (its data and the kernel's calls), Inodes (`InodeTable`), Handles,
--               Io (`read_all`, `write_all_at`), View (`view_for`, `lexically_normalize`), Files (`open`,
--               `create`, `read`, `write`, `flush` and `fsync` as `persist`, `release`), Attrs (`attr`,
--               `getattr`, `setattr`), Names (`lookup`, `readdir`, `mkdir`, `unlink`, `rename`, ...),
--               Session (`impl Filesystem for OverlayFs`: requests, one behind the other, on the state
--               that `OverlayFs::new` makes; its Contents is a file as a program sees it, and its
--               Gated an overlay whose hook is the gate of src/profiles/npm.rs)
--   Profiles    src/profiles: `resolve`, `by_name`, `preapproved_paths`, and the choice of
--               src/main.rs between them; Npm (`DirGate`)
--   Targets     src/main.rs: `overlay_targets`, `dedup_targets`
--   Logging     src/logging.rs: `default_log_path`, `init`
--   Launch      src/main.rs and src/mitm.rs: Steps (`setup`, `enter_namespaces`, the parts of `run`,
--               `spawn_and_wait`), Running (`run` and `main`)
--   Mitm        src/mitm: Dns (`build_response`), Tun (`drain`, `syn_dest_port`), Stream (`poll_read`,
--               `poll_write`), Stack (`push_out`, the body of `service_conns`; its Loop has
--               `ensure_listeners`, `promote_listeners` and `service_conns`, its Round `run` and
--               `service` of dns.rs), Config (`matching`), Proxy (`rewrite_head`; its Conn has
--               `handle_conn`), Cert (`mint` and its cache), Netns (src/mitm/netns.rs; its Create has
--               `Tun::create`, its Netstack `netstack_thread`, its Start `start_netstack`,
--               `start_proxy` and `child_setup_hook` of src/mitm.rs); Channels and Smoltcp are what these
--               use of tokio and smoltcp
--   Tests       runs at concrete inputs
--
-- A handler of the overlay is a function from the state (`Fs.Files.State`) to its reply, a result
-- with an errno, and the new state. The kernel is a parameter, `Fs.Types.System` for descriptors and
-- `Fs.Types.Tree` for names: a state of the files that each call takes and gives. Where a theorem
-- depends on what the calls do it takes `Fs.Io.Whole.Posix`, which says what is documented of them for
-- regular files. The crates dotenvy and serde_yaml_ng, and the answers of the user at the terminal,
-- are parameters too. A string is its bytes; a path is its list of components.
--
-- The stack and the proxy run in threads that share channels only. The channels of tokio, the
-- sockets of smoltcp and the TLS streams are records of operations (`Mitm.Channels.Channels`,
-- `Mitm.Smoltcp.Smoltcp`, `Mitm.Proxy.Conn.Net`), each with a record of laws that says what is
-- documented of it. Each end of a channel has a state of its own, and within one call of the
-- modelled code only that call changes it: what the other end adds meanwhile is taken as added
-- before or behind the call. The parser of httparse is a function. A panic of the stack is `none`. A
-- launch is a sequence of steps whose outcomes are given by `Launch.World`, and may depend on every
-- step before; what the step `start_netstack` does is modelled by Mitm.Netns, as calls whose outcomes
-- are given by `Mitm.Netns.Net` in the same way. The thread of the stack and the run that waits for
-- it meet in one channel: the run goes on with the first signal that the thread sent.
--
-- Loops are structural, or run on a bound. `read_from` has one round more than the file has bytes,
-- and `write_from` one for every byte: a round moves at least one. `redact_to` has the depth of the
-- document, and `skip_name` the length of the query, since a round moves at least one byte on.
-- `poll_read` and the servicing of a connection have one round more than there are items or bytes to
-- take, and the reading of a head one more than the 64 KiB that it allows, since a round takes at
-- least one. The theorems on these functions show that the bounds are enough. The name server's loop
-- has one round more than there are datagrams. Machine integers are kept where they wrap: the
-- saturating end of a read, the sum of a write's offset and length, which panics above 64 bits, and the
-- casts of attributes.
--
-- Not modelled: concurrency within the overlay (it serves one request at a time, and the locks are held
-- over each use of a table), the time to live of replies, modes with their mask (they come with the mask
-- taken off), the splice behind a request's head, the poisoned lock behind a panic, the timers of the
-- stack's loop, and the parts of the program that only call the kernel or other crates: the issuing of
-- certificates, the reading of the header config, the writing of packets, the logger.
pub mod Prelude
pub mod Std
pub mod Redact
pub mod Fs
pub mod Logging
pub mod Launch
pub mod Profiles
pub mod Targets
pub mod Mitm
pub mod Tests
