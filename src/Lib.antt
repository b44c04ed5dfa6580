-- ===== src/Lib.antt =====
-- Sentinel is a gate between an agent and what it wants to execute. The gateway (goserver/
-- sentinel_gateway.go) takes an action and a prompt, has the risk guard evaluate and record them,
-- chains the record, counts high-risk evaluations for the kill switch, and answers with a one-time
-- token, with a challenge for a human, or with a refusal; a token is later redeemed at the proxy,
-- which forwards the prompt to OpenClaw.
--
-- The files, each under the name of the part of goserver/ that it models:
--   Behavior       behavioral_detection.go: the agent's profile, DetectAnomaly, GetProfileSummary
--   PolicyGate     policy_gate.go: CheckCommand
--   Guard          sentinel_guard.go: Config (records and defaults), Tags (containsTag, dedupe),
--                  Evaluate (the keyword rules and the decision), Hash (computeHash, signHash),
--                  Anchor (anchorToSui), Audit (Enforce and its log)
--   KillSwitch     sentinel_controls.go: the latch and its counter, an int that wraps
--   Sandbox        sentinel_controls.go and inferCapability: defaults and overrides per agent
--   Executor       sentinel_executor.go: Issue, Redeem, PendingCount
--   Approval       sentinel_approval.go: StartChallenge, Confirm, CleanExpired, ListPending
--   ProofChain     sentinel_proof.go: Append, flushBatch, computeMerkleRoot, uploadToWalrus, VerifyChain
--   OpenClaw       openclaw_client.go: the forward to the agent
--   Gateway        sentinel_gateway.go: Gate is handleGate, Serve the other handlers and the routes, one
--                  request at a time; Threads has the handlers in flight together
--   Modes          main.go and config.go: Main is main by its flags, Eval, OneClick and Proxy the modes,
--                  Output what OneClick prints, Files the loading of the configuration, Report
--                  writeBenchmarkReport
--   Benchmark      sentinel_benchmark.go: the counts of a report and its ratios
-- Base holds the shared names, lists, maps and integers; Text holds strings as lists of bytes;
-- Rounding, Float32 and Float64 round as Go does. The child modules of a part hold its theorems, named
-- for what they prove. Tests holds runs on concrete inputs.
--
-- How state corresponds: a Go struct is a record with the same fields, a method is a function from
-- the record and the arguments to the new record and the result, an error is the case `err` of
-- Fallible with the source's message. Go maps are association lists; a lookup is by key, so that
-- only the order of a walk is a choice. Each method that holds a lock for its body is one step.
-- Gateway.Threads is the step relation of net/http: a request arrives at a handler that has not begun,
-- a handler makes one step, which is one call of a component, or the watcher ticks; a theorem on
-- interleavings speaks of every system that such steps reach. Ledger, below it, is the abstract view
-- of the tokens: the standing of each identifier, and which handler handed it out and which executed it.
-- Times are natural numbers, and every reading of the clock and of a random source is an argument.
-- A Go int is an integer whose counter wraps at 64 bits; a string is its bytes, and ToLower, ToUpper
-- and TrimSpace are their ASCII cases. SHA-256, encoding/json, commands, HTTP answers and file writes
-- are parameters: the records Outside, Services and Agents, gathered in World, and Files for the modes.
--
-- Fuel: the loop of computeMerkleRoot takes as many rounds as there are leaves, and each round at
-- least halves a layer rounded up; the printing of decimals takes one round for a digit, with as
-- much fuel as the number; the bits of a number are counted in as many rounds as the number. A handler
-- that no other interrupts takes seven steps at most.
--
-- Not modelled: the parsing of flags, the output that is printed and log lines; the sockets and the
-- shutdown of the server, and the decoding of request bodies, which a request carries as the value
-- that was found. The Move contracts, the Rust command line and the plugin are in other languages and
-- are reached through commands and HTTP.
pub mod Base
pub mod Text
pub mod Float32
pub mod Float64
pub mod Rounding
pub mod Behavior
pub mod PolicyGate
pub mod Guard
pub mod KillSwitch
pub mod Sandbox
pub mod Executor
pub mod Approval
pub mod ProofChain
pub mod OpenClaw
pub mod Gateway
pub mod Modes
pub mod Benchmark
pub mod Tests
