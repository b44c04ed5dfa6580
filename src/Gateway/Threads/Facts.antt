-- ===== src/Gateway/Threads/Facts.antt =====
-- What is known of the handler of a gate, by how far it is, and that no later step takes it back.
use sentinel_protocol.Base.{ℕ, ◌≡◌, refl, true, false, none, some, List, [], ◌∷◌, ◌++◌, length}
use mathlib.Core.List.{append_assoc}
use sentinel_protocol.Guard.Config.{SentinelGuard, RiskEvaluation, AuditRecord}
use sentinel_protocol.Guard.Audit.{enforce}
use sentinel_protocol.Executor.{ExecuteToken}
use sentinel_protocol.ProofChain.{Services, ProofChain, ProofEntry, append, append_all}
use sentinel_protocol.ProofChain.Chain.{entries-append}
use sentinel_protocol.Gateway.{
  SentinelGateway, World, Draws, GateRequest, GateResponse, allow, gated, Body,
}
use sentinel_protocol.Gateway.Gate.{capability_denied}
use sentinel_protocol.Gateway.Runs.{Runs}
use sentinel_protocol.Gateway.Threads.{
  Pc, gate_entry, gate_cleared, gate_capable, gate_recorded, gate_chained, gate_counted,
  gate_passed, done,
}
use sentinel_protocol.Gateway.Serve.{gates}
use sentinel_protocol.Gateway.Threads.Every.{Asked}

-- Enforce made this evaluation and this record of the request, on some log, and wrote the record;
-- the sandbox lets the request pass.
pub record IsEnforced (w : World) (guard : SentinelGuard) (d : Draws) (req : GateRequest)
    (eval : RiskEvaluation) (rec : AuditRecord) : Type 0 where
  pub log : List AuditRecord
  pub written : (enforce w.outside guard d.evaluated_at req.action req.prompt log).failure ≡ none
  pub evaluated : (enforce w.outside guard d.evaluated_at req.action req.prompt log).eval ≡ eval
  pub audited : (enforce w.outside guard d.evaluated_at req.action req.prompt log).audit ≡ rec

-- The link stands in the chain at its index.
abbrev pub StandsIn : List ProofEntry → ProofEntry → Type 0
StandsIn entries e =
    (before : List ProofEntry) × (after : List ProofEntry) × (entries ≡ before ++ e ∷ after)
    × (length before ≡ e.index)

-- What is known of the handler of a gate, by how far it is.
pub data Fact : Type 0 where
  nothing : Fact
  requested : Draws → GateRequest → Fact
  capable : Draws → GateRequest → Fact
  enforced : Draws → GateRequest → RiskEvaluation → AuditRecord → Fact
  chained : Draws → GateRequest → RiskEvaluation → AuditRecord → ProofEntry → Fact
  answered : Draws → GateResponse → Fact

abbrev pub answer_of : Draws → Body → Fact
answer_of d (gated resp) = answered d resp
answer_of d _ = nothing

abbrev pub fact_of : Pc → Fact
fact_of (gate_entry d req) = requested d req
fact_of (gate_cleared d req) = requested d req
fact_of (gate_capable d req) = capable d req
fact_of (gate_recorded d req eval rec) = enforced d req eval rec
fact_of (gate_chained d req eval rec link) = chained d req eval rec link
fact_of (gate_counted d req eval rec link) = chained d req eval rec link
fact_of (gate_passed d req eval rec link) = chained d req eval rec link
fact_of (done d r) = answer_of d r.body
fact_of _ = nothing

-- How a gate that was asked this came to reply with a token.
pub record IsAllowed (w : World) (gw : SentinelGateway) (d : Draws) (req : GateRequest)
    (resp : GateResponse) (tok : ExecuteToken) : Type 0 where
  pub eval : RiskEvaluation
  pub rec : AuditRecord
  pub link : ProofEntry
  pub capable : capability_denied gw req ≡ false
  pub enforced : IsEnforced w gw.guard d req eval rec
  pub unblocked : eval.should_block ≡ false
  pub chained : StandsIn gw.proof.entries link
  pub same_record : link.record_hash ≡ rec.record_hash
  pub answers_allow : resp.decision ≡ allow
  pub answers_score : resp.score ≡ eval.score
  pub answers_record : resp.record_hash ≡ rec.record_hash
  pub answers_index : resp.proof_index ≡ link.index
  pub answers_action : tok.action ≡ req.action

-- The handler was asked for this gate.
abbrev pub IsAsked : Asked → Draws → GateRequest → Type 0
IsAsked o d req = o ≡ some (d, gates true (some req))

abbrev pub Holds : World → Asked → SentinelGateway → Fact → Type 0
Holds w o gw nothing = Unit {0}
Holds w o gw (requested d req) = IsAsked o d req
Holds w o gw (capable d req) = IsAsked o d req × (capability_denied gw req ≡ false)
Holds w o gw (enforced d req eval rec) =
    IsAsked o d req × (capability_denied gw req ≡ false) × IsEnforced w gw.guard d req eval rec
Holds w o gw (chained d req eval rec link) =
    IsAsked o d req
    × (capability_denied gw req ≡ false)
    × IsEnforced w gw.guard d req eval rec
    × StandsIn gw.proof.entries link
    × (link.record_hash ≡ rec.record_hash)
Holds w o gw (answered d resp) =
    (tok : ExecuteToken)
    → resp.token ≡ some tok
    → (req : GateRequest) × IsAsked o d req × IsAllowed w gw d req resp tok

StandsIn-append : (xs ys : List ProofEntry) (e : ProofEntry) → StandsIn xs e → StandsIn (xs ++ ys) e
StandsIn-append xs ys e (before, after, split, at) =
    (before, after ++ ys, rw (split, append_assoc before (e ∷ after) ys) refl, at)

pub append_all-StandsIn :
    (sv : Services) (pc : ProofChain) (recs : List (AuditRecord × ℕ)) (e : ProofEntry)
    → StandsIn pc.entries e
    → StandsIn (append_all sv pc recs).entries e
unfolding append_all
append_all-StandsIn sv pc [] e stands = stands
append_all-StandsIn sv pc ((rec, now) ∷ recs) e stands =
    append_all-StandsIn sv (append sv pc rec now).0 recs e
      (rw (entries-append sv pc rec now) (StandsIn-append pc.entries _ e stands))

-- What the components do later takes nothing back.
pub Runs-Holds :
    (w : World) (o : Asked) (gw gw' : SentinelGateway) (f : Fact)
    → Runs w gw gw'
    → Holds w o gw f
    → Holds w o gw' f
unfolding capability_denied
Runs-Holds w o gw gw' nothing r h = tt
Runs-Holds w o gw gw' (requested d req) r h = h
Runs-Holds w o gw gw' (capable d req) r (asked, clear) = (asked, rw r.same_sandbox clear)
Runs-Holds w o gw gw' (enforced d req eval rec) r (asked, clear, e) =
    (asked, rw r.same_sandbox clear, rw r.same_guard e)
Runs-Holds w o gw gw' (chained d req eval rec link) r (asked, clear, e, stands, same) = (
  asked,
  rw r.same_sandbox clear,
  rw r.same_guard e,
  rw r.proof_run (append_all-StandsIn w.services gw.proof r.records link stands),
  same,
)
Runs-Holds w o gw gw' (answered d resp) r h = λ tok given.
    let (req, asked, a) = h tok given in
    (
      req,
      asked,
      record {
        eval = a.eval;
        rec = a.rec;
        link = a.link;
        capable = rw r.same_sandbox a.capable;
        enforced = rw r.same_guard a.enforced;
        unblocked = a.unblocked;
        chained =
            rw r.proof_run (append_all-StandsIn w.services gw.proof r.records a.link a.chained);
        same_record = a.same_record;
        answers_allow = a.answers_allow;
        answers_score = a.answers_score;
        answers_record = a.answers_record;
        answers_index = a.answers_index;
        answers_action = a.answers_action;
      },
    )
