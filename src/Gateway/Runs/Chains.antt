-- ===== src/Gateway/Runs/Chains.antt =====
-- The proof chain after any run of a new gateway's components.
use sentinel_protocol.Base.{Option}
use sentinel_protocol.Guard.Config.{SentinelGuard}
use sentinel_protocol.OpenClaw.{OpenClawClient}
use sentinel_protocol.ProofChain.Chain.{IsChained, filled_chain_verifies}
use sentinel_protocol.ProofChain.Batches.{IsBatched, filled_chain_batches}
use sentinel_protocol.Gateway.{SentinelGateway, SentinelGatewayConfig, new_sentinel_gateway, World}
use sentinel_protocol.Gateway.Runs.{Runs}

pub Runs-IsChained :
    (w : World) (guard : SentinelGuard) (oc : Option OpenClawClient) (cfg : SentinelGatewayConfig)
    (gw : SentinelGateway)
    → Runs w (new_sentinel_gateway guard oc cfg) gw
    → IsChained w.services gw.proof × IsBatched w.services gw.proof
unfolding new_sentinel_gateway
Runs-IsChained w guard oc cfg gw r =
    let sv = w.services in
    let size = cfg.proof_batch_size in
    let url = cfg.walrus_publisher_url in
    (
      rw r.proof_run (filled_chain_verifies sv size url r.records),
      rw r.proof_run (filled_chain_batches sv size url r.records),
    )
