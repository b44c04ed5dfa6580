-- ===== src/OpenClaw.antt =====
-- goserver/openclaw_client.go: the client that forwards a prompt to OpenClaw, by its command line
-- and, when that fails, by HTTP. What the command and the server answer is the record `Agents`.
use sentinel_protocol.Base.{ℕ, Bool, not, Option, [], ◌++◌, if◌then◌else◌, ◌==◌, Fallible, ok, err}
use sentinel_protocol.Text.{Text, text, trim_space}
use sentinel_protocol.Guard.Config.{SentinelGuard, or_default}

pub record OpenClawConfig : Type 0 where
  pub enabled : Bool
  pub server_url : Text
  pub agent_id : Text

pub record OpenClawResponse : Type 0 where
  pub status : Text
  pub message : Text
  pub task_id : Text

pub record OpenClawClient : Type 0 where
  pub config : OpenClawConfig
  pub sentinel : Option SentinelGuard

-- The output of `openclaw agent --agent <id> --local --message <prompt>`, or its failure; and the
-- answer of the server at a URL to a task, a status code and what encoding/json makes of the body.
pub record Agents : Type 0 where
  pub run_agent : Text → Text → Fallible Text
  pub post_task : Text → Text → Fallible (ℕ × Fallible OpenClawResponse)

-- What the HTTP path makes of the server's answer.
unfoldable pub read_task_answer :
    Fallible (ℕ × Fallible OpenClawResponse) → Fallible OpenClawResponse
read_task_answer (err e) = err (text "OpenClaw connection failed: " ++ e)
read_task_answer (ok (code, err e)) = err (text "failed to parse response: " ++ e)
read_task_answer (ok (code, ok response)) =
    if code == 200
    then ok response
    else err
        (text "OpenClaw returned error: " ++ (response.status ++ (text " - " ++ response.message)))

unfoldable pub send_task_http : Agents → OpenClawClient → Text → Fallible OpenClawResponse
send_task_http ag oc prompt = read_task_answer (ag.post_task oc.config.server_url prompt)

-- sendTaskWithoutSentinel
unfoldable pub send_task : Agents → OpenClawClient → Text → Fallible OpenClawResponse
send_task ag oc prompt = elim (ag.run_agent (or_default oc.config.agent_id (text "main")) prompt) [
  | err e ↦ send_task_http ag oc prompt
  | ok output ↦ ok (record { status = text "ok"; message = trim_space output; task_id = [] })
]

-- SendTaskWithoutSentinel
unfoldable pub send_task_without_sentinel :
    Agents → OpenClawClient → Text → Fallible OpenClawResponse
send_task_without_sentinel ag oc prompt =
    if not oc.config.enabled then err (text "OpenClaw is disabled") else send_task ag oc prompt
