-- ===== src/Lib.antt =====
-- FALX V2, the control plane of an XDP packet filter: a model of its failsafe engine and of its
-- manager of the eBPF maps, with the policy rules and the AI engine's connection that feed the
-- blocklist, the hardened batch writer, the helpers of the data plane, the authentication of
-- operators, and the bus of events.
--
-- The program. The XDP program drops packets by the maps that it shares with the control plane:
-- the blocklists, the circuit's state, the rate buckets, and the per-CPU counters. The map manager
-- (control-plane/pkg/bpfmaps) reads and writes them for the Go side; an operation asks a token
-- bucket, calls the kernel, and writes an audit event. The failsafe engine
-- (control-plane/internal/failsafe) polls the counters: a detector compares the samples with its
-- thresholds and baselines, a circuit breaker decides by the number of violations in a row, and the
-- manager writes the circuit's flag, on which the XDP program drops the traffic that it does not
-- know. Operators force the circuit open or closed through a bounded channel. The policy engine
-- (control-plane/pkg/policy) matches flows with rules and applies the first that matches. The AI
-- engine asks for blocks in frames on a Unix socket (control-plane/internal/ipc). The hardened writer
-- (control-plane/pkg/bpfmaps/hardening.go) stands before the manager, with a cache, a write window,
-- and batches that are rolled back. The helpers (control-plane/control/failsafe.go) are the ring
-- between the packet reader and the analysis, the country lookup, the sweep of stale map entries,
-- the synchroniser of thresholds, and the checks before an object is loaded. A frame that the AF_XDP
-- socket redirects is parsed (control-plane/internal/afxdp), and the packets of redirected sources make
-- the honeypot's sessions (control-plane/internal/honeypot). Operators log in to the service of
-- control-plane/pkg/auth, which keeps users and sessions in a database with a cache before it, checks
-- passwords and one-time codes, and signs the tokens that each request brings. The subsystems publish
-- events on a bus (control-plane/pkg/events) with a bounded channel for each subscriber.
--
-- The files. Base holds the shared names, times, signed integers, maps with texts as keys, and the
-- interface of float64 operations.
--   Bpfmaps/Types        control-plane/pkg/bpfmaps/types.go: XdpStats.Add is add_stats,
--                        IPv4ToUint32 is ipv4_to_uint32, safeAdd is safe_add.
--   Bpfmaps/RateLimiter  control-plane/pkg/bpfmaps/ratelimiter.go: tokenBucket.Allow is allow,
--                        MapRateLimiter.Check is check.
--   Bpfmaps/Kernel       the maps as the eBPF library gives them, a parameter with its laws.
--   Bpfmaps/Audit        control-plane/pkg/bpfmaps/audit.go: Log is log.
--   Bpfmaps/Manager      control-plane/pkg/bpfmaps/manager.go and expiry.go: BlockIPv4 is
--                        block_ipv4, ReadStats is read_stats, SetCircuitOpen is set_circuit_open,
--                        and so on; More has the rest of the operations and Sweep the sweep of
--                        expired entries.
--   Bpfmaps/Hardening    control-plane/pkg/bpfmaps/hardening.go: BlockIPv4 is hardened_block_ipv4,
--                        checkWindow is check_window; Batch has WriteBatch as write_batch, rollback
--                        and PurgeExpiredDedup.
--   Control/Spsc         control-plane/control/failsafe.go: SPSCRing with Push as push and Pop as
--                        pop; Interleaved has both goroutines by single accesses, and Snapshot
--                        FromAfxdpMeta.
--   Control/Geoip        the same file: LookupIPv4, traverseTree and readRecord; Encoding has
--                        mmdbCtrl, skipMMDBValue and decodeISOCode, Table buildISOTable, and Open
--                        OpenGeoIP.
--   Control/Amnesty      the same file: AmnestySweeeper with sweep.
--   Control/Thresholds   the same file: ThresholdSynchronizer with SyncNow as sync_now.
--   Control/Startup      the same file: CheckKernelVersion, hexDecode, and ELFVerifier with Verify as
--                        verify.
--   Afxdp/Packet         control-plane/internal/afxdp/packet.go: ParseFrame is parse_frame, parseL4
--                        parse_l4, and computeFlowID compute_flow_id.
--   Afxdp/Umem           control-plane/internal/afxdp/umem.go: NewUMEM is new_umem, AllocFrame
--                        alloc_frame, FreeFrame free_frame, and FrameAt frame_at; Frames has the
--                        calls of a client that gives back what it holds.
--   Honeypot/Tracker     control-plane/internal/honeypot/tracker.go: processMeta is process_meta with
--                        track, cleanupExpiredSessions is cleanup_expired_sessions, and emit is emit;
--                        Tracked has the loop of Run as happens.
--   Failsafe/Breaker     control-plane/internal/failsafe/state.go: Trip, AttemptRecovery, Close and
--                        ReTrip.
--   Failsafe/Recovery    control-plane/internal/failsafe/recovery.go: CooldownFor is cooldown_for.
--   Failsafe/Detector    control-plane/internal/failsafe/detector.go: Analyze is analyze.
--   Failsafe/Latch       the latch of control-plane/internal/failsafe/engine.go.
--   Failsafe/Engine      control-plane/internal/failsafe/engine.go: tick and its cases; Override
--                        has ForceOpen, ForceClose, UpdateThresholds and applyOverride.
--   Policy/Rule          control-plane/pkg/policy/rule.go: Match is match, Validate is
--                        validate_rule.
--   Policy/Engine        control-plane/pkg/policy/engine.go: Evaluate, ApplyRule and
--                        EvaluateAndApplyBatch.
--   Ipc/Protocol         control-plane/internal/ipc/protocol.go and framing.go: Marshal,
--                        UnmarshalHeader, BuildFrame, readFrame and writeFrame.
--   Ipc/Server           control-plane/internal/ipc/server.go: handleConn's loop is receive_frame,
--                        dispatch, applyMapUpdate and applyVerdicts.
--   Auth/Models          control-plane/pkg/auth/models.go: Role, RolePermissions and HasPermission.
--   Auth/Password        control-plane/pkg/auth/password.go: ValidatePasswordStrength.
--   Auth/Totp            control-plane/pkg/auth/totp.go: VerifyTOTPCode is verify_totp_code, hotp
--                        is hotp; Replay is about codes used twice.
--   Auth/Action          methods that may fail, with what they wrote before; Keeps and Gives have the
--                        rules for their invariants and results.
--   Auth/Database        the transactions of the store; Auth/Bootstrap how it is filled.
--   Auth/Host            what the service calls, as parameters; Auth/Tokens the tokens of
--                        control-plane/pkg/auth/jwt.go.
--   Auth/Store           control-plane/pkg/auth/store.go: CreateUser is create_user, RevokeSession
--                        revoke_session, RecordFailedLogin record_failed_login, and so on.
--   Auth/Service         control-plane/pkg/auth/service.go: Login is login,
--                        checkLoginRate check_login_rate, ValidateRequest validate_request; Concurrent
--                        has Login in two parts, begin_login and finish_login, and
--                        interleavings of them; Methods has the other methods, and LockUser and
--                        UnlockUser of handlers.go.
--   Auth/Middleware      control-plane/pkg/auth/middleware.go: RequireAuth is require_auth, and so on;
--                        routes is the table of soc-backend/internal/server/server.go.
--   Events/Bus           control-plane/pkg/events/bus.go: Subscribe, Unsubscribe and Publish.
--   Tests                a small kernel, and each result applied at a concrete input.
--
-- How the code is read. A method is a function from the state to the new state and its result; the
-- time of a call is an argument, and no time passes in it. Each method is one step. Most run under a
-- mutex or in the engine's own goroutine, but three do not. Login holds no lock between its reads and
-- its writes: login is the call that nothing comes between, and Auth/Service/Concurrent has its two
-- parts, between which other logins may come. The manager's writes of the failsafe state hold none,
-- and the XDP program and others write that state too: Failsafe/Engine/Runs lets anyone change the maps
-- in any way between the engine's steps, and says what is left of the flag. A sweep is one step, although
-- other writers may come between its iteration and its deletions. Times are nanoseconds since Go's
-- zero time.
-- Unsigned arithmetic wraps where the source lets it wrap, and saturates where it says so; the
-- counters of trips and violations, of type int, are not bounded. The float64 operations are a
-- parameter of the detector, without laws; in the token bucket they are replaced by exact numbers,
-- in units of 10⁻⁹ of a token, from which the rounding of the source may depart; in CooldownFor the
-- logarithm is that of the whole part of the quotient, which has the same floor, and the products are
-- exact. A system call on a map may fail, and then changes nothing. In the ring, one atomic access or
-- one copy of a slot is a step, and the accesses are seen in one order, as Go's sync/atomic gives it.
-- In the authentication, a transaction of the database succeeds whole or changes nothing, the caches
-- are functions from texts, random texts are arguments, and Argon2id, the HMAC, and the signature of
-- tokens are parameters.
--
-- The fuel. The logarithm of the cooldown is by halving, for which the number itself is enough. The
-- search of a database's tree takes at most three rounds for each node, and one more; the recursion
-- on nested values goes at most as deep as the file has bytes, and two more.
--
-- Not modelled: opening and pinning the maps, the log texts, the JSON of the audit file, the Go
-- scheduler, sockets and heartbeats, the SQL store of the rules, and the rest of the repository,
-- among it the rings of the AF_XDP sockets, the rotation of the honeypots, the key files, QR codes and
-- HTTP handlers of the authentication, and the web services.
pub mod Base
pub mod Afxdp
pub mod Auth
pub mod Bpfmaps
pub mod Control
pub mod Failsafe
pub mod Honeypot
pub mod Ipc
pub mod Policy
pub mod Tests
pub mod Events
