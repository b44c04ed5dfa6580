-- ===== src/Modes/Cleared.antt =====
-- What the one-click mode sends to OpenClaw.
use sentinel_protocol.Base.{
  ℕ, ◌≡◌, refl, ap, inl, inr, true, false, Option, none, some, List, [], ◌∷◌, ◌++◌, arith,
  Bool-cases, Fallible, ok, err,
}
use sentinel_protocol.Text.{Text, Text-discrete, is_empty, trim_space}
use sentinel_protocol.Guard.Config.{AuditRecord, SentinelGuard, new_sentinel_guard}
use sentinel_protocol.Guard.Hash.{Outside, hash_via_rust}
use sentinel_protocol.Guard.Audit.{Enforcement, enforce}
use sentinel_protocol.Guard.Audit.Anchoring.{enforce_logs}
use sentinel_protocol.OpenClaw.{OpenClawConfig}
use sentinel_protocol.Modes.{SentinelOneClickConfig, resolve_sentinel_config}
use sentinel_protocol.Modes.OneClick.{
  Sender, dispatch, verified, enforced, one_click_guarded, with_guard, with_sender, with_open_claw,
  with_loaded, run_sentinel_one_click_mode,
}
use sentinel_protocol.Modes.Output.{compare_hash, verify_rust_cli_hash}

-- A task that may be sent: the guard's verdict, its record in the log, and the hash of the record as
-- the command line recomputes it.
pub record IsCleared (out : Outside) (sg : SentinelGuard) (e : Enforcement) (log : List AuditRecord)
    : Type 0 where
  pub recorded : e.failure ≡ none
  pub unblocked : e.eval.should_block ≡ false
  pub hash_agrees : hash_via_rust out sg.cfg e.audit ≡ ok e.audit.record_hash
  pub logged : e.log ≡ log ++ e.audit ∷ []

compare_hash_lem :
    (expected : Text) (o : Fallible Text) → compare_hash expected o ≡ none → o ≡ ok expected
unfolding compare_hash
compare_hash_lem expected (err e) v = absurd (ground arith)
compare_hash_lem expected (ok h) v = elim (Text-discrete h expected) [
  | yes same ↦ ap ok same
  | no apart ↦ absurd (ground arith)
]

verify_rust_cli_hash_lem :
    (out : Outside) (sg : SentinelGuard) (r : AuditRecord)
    → verify_rust_cli_hash out sg.cfg r ≡ none
    → hash_via_rust out sg.cfg r ≡ ok r.record_hash
unfolding verify_rust_cli_hash
verify_rust_cli_hash_lem out sg r v = compare_hash_lem r.record_hash (hash_via_rust out sg.cfg r) v

verified-sent :
    (sender : Sender) (oc : OpenClawConfig) (url action prompt : Text) (sg : SentinelGuard)
    (e : Enforcement) (o : Option Text) (p : Text)
    → (verified sender oc url action prompt sg e o).sent ≡ some p
    → (o ≡ none) × ((e.eval.should_block ≡ false) × (p ≡ prompt))
unfolding dispatch
verified-sent sender oc url action prompt sg e (some why) p h = absurd (ground arith)
verified-sent sender oc url action prompt sg e none p h = ground arith

enforced-sent :
    (out : Outside) (sender : Sender) (oc : OpenClawConfig) (url action prompt : Text)
    (sg : SentinelGuard) (e : Enforcement) (failure : Option Text) (p : Text)
    → (enforced out sender oc url action prompt sg e failure).sent ≡ some p
    → (failure ≡ none)
      × ((verify_rust_cli_hash out sg.cfg e.audit ≡ none)
          × ((e.eval.should_block ≡ false) × (p ≡ prompt)))
enforced-sent out sender oc url action prompt sg e (some why) p h = absurd (ground arith)
enforced-sent out sender oc url action prompt sg e none p h =
    (refl, verified-sent sender oc url action prompt sg e _ p h)

guarded-sent :
    (out : Outside) (sender : Sender) (oc : OpenClawConfig) (url : Text) (now : ℕ)
    (action prompt : Text) (log : List AuditRecord) (sg : SentinelGuard) (p : Text)
    → (one_click_guarded out sender oc url now action prompt log sg).sent ≡ some p
    → IsCleared out sg (enforce out sg now action prompt log) log × (p ≡ prompt)
unfolding one_click_guarded
guarded-sent out sender oc url now action prompt log sg p h =
    let e = enforce out sg now action prompt log in
    let (recorded, (hashed, (unblocked, same))) =
      enforced-sent out sender oc url action prompt sg e e.failure p h in
    (
      record {
        recorded = recorded;
        unblocked = unblocked;
        hash_agrees = verify_rust_cli_hash_lem out sg e.audit hashed;
        logged = ground (arith, enforce_logs out sg now action prompt log);
      },
      same,
    )

-- What the one-click mode had at hand when it sent a task.
abbrev pub SentFor :
    Outside → Fallible SentinelOneClickConfig → ℕ → Text → Text → List AuditRecord → Type 0
SentFor out loaded now action prompt log =
    (cfg : SentinelOneClickConfig) × (oc : OpenClawConfig) × (sg : SentinelGuard) × (loaded
      ≡ ok cfg)
    × (cfg.openclaw ≡ some oc)
    × (oc.enabled ≡ true)
    × (new_sentinel_guard (some (resolve_sentinel_config cfg.sentinel)) now ≡ some sg)
    × IsCleared out sg (enforce out sg now action prompt log) log

with_guard-sent :
    (out : Outside) (sender : Sender) (oc : OpenClawConfig) (url : Text) (now : ℕ)
    (action prompt : Text) (log : List AuditRecord) (o : Option SentinelGuard) (p : Text)
    → (with_guard out sender oc url now action prompt log o).sent ≡ some p
    → (sg : SentinelGuard) × (o ≡ some sg)
      × IsCleared out sg (enforce out sg now action prompt log) log
      × (p ≡ prompt)
with_guard-sent out sender oc url now action prompt log none p h = absurd (ground arith)
with_guard-sent out sender oc url now action prompt log (some sg) p h =
    let (cleared, same) = guarded-sent out sender oc url now action prompt log sg p h in
    (sg, refl, cleared, same)

with_sender-sent :
    (out : Outside) (sender : Option Sender) (oc : OpenClawConfig) (cfg : SentinelOneClickConfig)
    (now : ℕ) (action prompt : Text) (log : List AuditRecord) (p : Text)
    → cfg.openclaw ≡ some oc
    → oc.enabled ≡ true
    → (with_sender out sender oc cfg now action prompt log).sent ≡ some p
    → SentFor out (ok cfg) now action prompt log × (p ≡ prompt)
with_sender-sent out none oc cfg now action prompt log p has on h = absurd (ground arith)
with_sender-sent out (some sender) oc cfg now action prompt log p has on h =
    let (sg, guard, cleared, same) =
      with_guard-sent out sender oc cfg.sui_rpc_url now action prompt log _ p h in
    ((cfg, oc, sg, refl, has, on, guard, cleared), same)

with_open_claw-sent :
    (out : Outside) (sender : Option Sender) (o : Option OpenClawConfig)
    (cfg : SentinelOneClickConfig) (now : ℕ) (action prompt : Text) (log : List AuditRecord)
    (p : Text)
    → cfg.openclaw ≡ o
    → (with_open_claw out sender o cfg now action prompt log).sent ≡ some p
    → SentFor out (ok cfg) now action prompt log × (p ≡ prompt)
with_open_claw-sent out sender none cfg now action prompt log p has h = absurd (ground arith)
with_open_claw-sent out sender (some oc) cfg now action prompt log p has h =
    elim (Bool-cases oc.enabled) [
      | inl on ↦
          with_sender-sent out sender oc cfg now action prompt log p has on (ground (arith, on, h))
      | inr off ↦ absurd (ground (arith, off, h))
    ]

with_loaded-sent :
    (out : Outside) (sender : Option Sender) (loaded : Fallible SentinelOneClickConfig) (now : ℕ)
    (action prompt : Text) (log : List AuditRecord) (p : Text)
    → (with_loaded out sender loaded now action prompt log).sent ≡ some p
    → SentFor out loaded now action prompt log × (p ≡ prompt)
with_loaded-sent out sender (err e) now action prompt log p h = absurd (ground arith)
with_loaded-sent out sender (ok cfg) now action prompt log p h =
    with_open_claw-sent out sender cfg.openclaw cfg now action prompt log p refl h

arguments-given :
    (out : Outside) (sender : Option Sender) (loaded : Fallible SentinelOneClickConfig) (now : ℕ)
    (action prompt : Text) (log : List AuditRecord) (p : Text)
    → (run_sentinel_one_click_mode out sender loaded now action prompt log).sent ≡ some p
    → (is_empty (trim_space action) ≡ false)
      × ((is_empty (trim_space prompt) ≡ false)
          × ((with_loaded out sender loaded now (trim_space action) (trim_space prompt) log).sent
              ≡ some p))
unfolding run_sentinel_one_click_mode
arguments-given out sender loaded now action prompt log p h = ground arith

-- The one-click mode sends a prompt to OpenClaw only if the prompt and the action are not blank, the
-- loaded configuration enables OpenClaw, the guard's evaluation does not block, its record was
-- written to the log, and the command line recomputes the hash of the record; and what it sends is
-- the trimmed prompt that was evaluated.
pub sent_was_cleared :
    (out : Outside) (sender : Option Sender) (loaded : Fallible SentinelOneClickConfig) (now : ℕ)
    (action prompt : Text) (log : List AuditRecord) (p : Text)
    → (run_sentinel_one_click_mode out sender loaded now action prompt log).sent ≡ some p
    → (is_empty (trim_space action) ≡ false)
      × (is_empty (trim_space prompt) ≡ false)
      × (p ≡ trim_space prompt)
      × SentFor out loaded now (trim_space action) (trim_space prompt) log
sent_was_cleared out sender loaded now action prompt log p h =
    let (acts, (prompts, sent)) = arguments-given out sender loaded now action prompt log p h in
    let (cleared, same) =
      with_loaded-sent out sender loaded now (trim_space action) (trim_space prompt) log p sent in
    (acts, prompts, same, cleared)
