-- ===== src/Lib.antt =====
-- SkillLedger: the building and install-time verification of skills and the core of the runtime
-- proxy.
--
-- The program has three parts. `skillledger build` packs a skill into an artifact and writes its
-- lockfile. `skillledger verify` runs a pipeline over an artifact: its hash
-- against the lockfile, a Sigstore bundle, the transparency log, and a policy in Rego. The proxy
-- stands between an agent and the network: it scans each request, looks up how far the skill is
-- trusted (which runs the same pipeline in the background), checks the skill's declared
-- capabilities with OPA, records a decision, and forwards or refuses.
--
-- Base           Go's strings as lists of bytes (Text), maps as association lists (Dict), and
--                (value, error) results (Outcome: ok or an error with its message)
-- Rego           the values that OPA returns, as cli/internal/policy/eval and
--                cli/internal/proxy/capability.go read them
-- Manifest       cli/internal/manifest: ParseAndValidate is parse_and_validate
-- Tlog           cli/internal/tlog/proof.go: VerifyInclusion is verify_inclusion
-- Policy         cli/internal/policy/eval: Evaluate is Policy.evaluate
-- Policy.Dsl     cli/internal/policy/dsl: Parse is parse; Compile has compiler.go up to
--                operatorToRego, and Runtime the rest of it
-- Ioc            cli/internal/ioc/ioc.go: the database and its lookups
-- Builder        cli/internal/builder: Collect is collect; Archive has the archive, lockfiles and
--                Build, whose files are a map from paths to bytes
-- ThreatSync     cli/internal/threatsync: doSync is do_sync, on the files of the cache directory
-- Credentials    cli/internal/credentials: EnsureFresh is ensure_fresh, on the files there are
-- EventReport    cli/internal/eventreport/report.go: what its goroutines send
-- UpdateCheck    cli/internal/updatecheck/check.go: doCheck is do_check, on the files there are
-- Verify         cli/internal/verify and ReadLockfile of cli/internal/builder. Types has the
--                records, Checks the functions of steps.go, Pipeline the method Verify cut at its
--                steps (hash_stage, signature_stage, tlog_stage, manifest_stage, policy_stage);
--                Evidence, Sound, Order, Trace and Warnings have the proofs
-- Proxy.Scanner  cli/internal/proxy/scanner.go: ScanPipeline.Run is run; HighestDecision, Redact
--                and FormatFindings keep their names
-- Proxy.Network  network_scanner.go
-- Proxy.DecisionLog    decision.go and violation.go: Record is add, Lookup is lookup_entry
-- Proxy.TrustVerifier  trust_verifier.go: the cache and the running goroutines are a State; Cache
--                has the steps of any interleaving and the states they reach
-- Proxy.PolicyConfig   policy_config.go
-- Proxy.Capability     capability.go and the runtime presets of cli/internal/policy/preset
-- Proxy.Pinning  pinning.go, MCPTool of mcp_types.go and cli/internal/canon
-- Proxy.JsonRpc  jsonrpc.go and mcp_types.go
-- Proxy.TwoPass  secret_scanner.go in Secrets, injection_scanner.go and injection_allowlist.go in
--                Injection; what both share is in TwoPass itself
-- Proxy.Mcp      mcp_stdio.go: the wrapper and its lists of tools, and in Messages the responses and
--                the relay
-- Proxy.Streamable     mcp_streamable.go: its lists of tools, and in Messages the responses and the
--                relay; Same and Relay compare them with Proxy.Mcp
-- Proxy.Entropy  entropy.go
-- Proxy.Profiler profiler.go
-- Proxy.Handler  handler.go, protocol.go, and reloadPolicyConfig of server.go
--
-- Each Tests module runs the definitions on small samples and applies the theorems to them.
--
-- How the code is read. A method that holds its mutex from begin to end is one function of the
-- state; where a lock is given up in between, each section is one step. Recursion is structural
-- everywhere, so there is no fuel. The arguments that stand for other code are fields of records:
-- Verify.Types.World (files, SHA-256, JSON), Verify.Types.Pipeline (the signature verifier, the log
-- client, the policy evaluator), Tlog.Log (the transparency-dev libraries), Manifest.Codec (YAML,
-- JSON, JSON Schema), Proxy.Capability.Opa, Proxy.Pinning.Json, Proxy.DecisionLog.Outside (action
-- ids, the clock, the log file), Proxy.Mcp.World (messages and the pin file), Proxy.Entropy.Floats
-- (floating point), Builder.Archive.BuildWorld (files, tar and gzip),
-- ThreatSync.SyncWorld (HTTP, credentials, files), UpdateCheck.UpdateWorld (HTTP, files, paths,
-- semver), Credentials.CredentialWorld (HTTP, files, JSON, base64), Policy.Dsl.Fmt (the verbs %q
-- and %d). Nothing is assumed of them but what a theorem says.
--
-- Conventions. Error messages are those of the code, with %q written without quotation marks (in
-- Policy.Dsl and Proxy.Profiler it is an argument). A range over a map goes by the order of the
-- list, which Go leaves open. A nil map is an empty one, and a nil slice an empty one, except
-- where the code tells them apart (policy results), where it is an option. ActionType has its
-- four constants only. Times are numbers, 0 being Go's zero time. Files are what the arguments
-- say for the length of one operation. strings.ToLower is modelled on ASCII. A pin file has no null
-- among its entries.
--
-- Not modelled: logging; contexts and cancellation; the command line; Sigstore, OPA, TLS, YARA, the
-- classifier and the other libraries; HTTP clients; the start and stop of the proxy, of its
-- certificates and of wrapped MCP servers; the upgrade and dialling of WebSockets; the tables of
-- secret and injection patterns; the allowlist's Rego; the dashboard, the service and
-- the log's personality.
pub mod Base
pub mod Rego
pub mod Manifest
pub mod Tlog
pub mod Policy
pub mod Builder
pub mod Verify
pub mod Ioc
pub mod ThreatSync
pub mod UpdateCheck
pub mod Credentials
pub mod EventReport
pub mod Proxy
