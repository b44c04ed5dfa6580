-- ===== src/Approval.antt =====
-- goserver/sentinel_approval.go: approval challenges. StartChallenge, Confirm and CleanExpired hold
-- the lock for their work on the map, so each is one step; clocks and random numbers are arguments.
-- The map is walked in the order in which its keys came, one of the orders that Go may take. The
-- callback onExpire is set nowhere in the repository: CleanExpired returns the challenges that it
-- would be called with.
pub mod Final
pub mod Expiry
pub mod RoundTrip
pub mod Keys
use sentinel_protocol.Base.{
  ℕ, ◌+◌, ◌%◌, Bool, true, false, not, ◌&&◌, Option, none, some, List, [], ◌∷◌, ◌++◌, map,
  if◌then◌else◌, ltb, ℤ, positive_or, get, put, Fallible, ok, err, drop, length,
}
use sentinel_protocol.Text.{Text, Text-discrete, text, decimal}

pub data Status : Type 0 where
  pending approved rejected expired : Status

-- The source's spelling of a status.
unfoldable pub status_text : Status → List ℕ
status_text pending = text "pending"
status_text approved = text "approved"
status_text rejected = text "rejected"
status_text expired = text "expired"

pub record ApprovalChallenge : Type 0 where
  pub id : Text
  pub action : Text
  pub prompt : Text
  pub risk_score : ℤ
  pub status : Status
  pub created_at : ℕ
  pub expires_at : ℕ
  pub decided_at : Option ℕ
  pub decision_by : Text

pub record ApprovalService : Type 0 where
  pub challenges : List (Text × ApprovalChallenge)
  pub timeout : ℕ

-- Five minutes.
abbrev pub default_timeout : ℕ
default_timeout = 300000000000

unfoldable pub new_approval_service : ℤ → ApprovalService
new_approval_service timeout = record {
  challenges = [];
  timeout = positive_or timeout default_timeout;
}

unfoldable pub chars : List ℕ
chars = text "abcdefghijklmnopqrstuvwxyz0123456789"

-- `chars[rand.Intn(len(chars))]`, for a random number.
abbrev one_char : List ℕ → List ℕ
one_char [] = []
one_char (c ∷ s) = c ∷ []

unfoldable pub random_char : ℕ → List ℕ
random_char r = one_char (drop (r % length chars) chars)

unfoldable pub random_chars : List ℕ → List ℕ
random_chars [] = []
random_chars (r ∷ rs) = random_char r ++ random_chars rs

-- The identifier of a time in milliseconds and four random numbers.
unfoldable pub generate_challenge_id : ℕ → List ℕ → List ℕ
generate_challenge_id millis rands =
    text "challenge-" ++ (decimal millis ++ (text "-" ++ random_chars rands))

unfoldable pub new_challenge : ApprovalService → Text → Text → ℤ → Text → ℕ → ApprovalChallenge
new_challenge svc action prompt score id now = record {
  id = id;
  action = action;
  prompt = prompt;
  risk_score = score;
  status = pending;
  created_at = now;
  expires_at = now + svc.timeout;
  decided_at = none;
  decision_by = [];
}

-- StartChallenge, with the identifier that it draws.
unfoldable pub start_challenge :
    ApprovalService → Text → Text → ℤ → Text → ℕ → ApprovalService × ApprovalChallenge
start_challenge svc action prompt score id now =
    let ch = new_challenge svc action prompt score id now in
    (record svc { challenges = put Text-discrete id ch svc.challenges }, ch)

abbrev pub is_pending : Status → Bool
is_pending pending = true
is_pending _ = false

unfoldable pub with_challenge : ApprovalService → Text → ApprovalChallenge → ApprovalService
with_challenge svc id ch = record svc { challenges = put Text-discrete id ch svc.challenges }

unfoldable pub decided_challenge : ApprovalChallenge → Bool → Text → ℕ → ApprovalChallenge
decided_challenge ch approves decided_by now = record ch {
  status = if approves then approved else rejected;
  decided_at = some now;
  decision_by = decided_by;
}

-- Confirm on what the map holds. The clock is read twice: for the expiry and for the decision.
unfoldable pub confirm_found :
    ApprovalService
    → Text
    → Bool
    → Text
    → ℕ
    → ℕ
    → Option ApprovalChallenge
    → ApprovalService × Fallible ApprovalChallenge
confirm_found svc id approves decided_by now decided none =
    (svc, err (text "challenge not found: " ++ id))
confirm_found svc id approves decided_by now decided (some ch) =
    let late = record ch { status = expired } in
    let settled = decided_challenge ch approves decided_by decided in
    if not (is_pending ch.status)
    then (svc, err (text "challenge " ++ (id ++ (text " is already " ++ status_text ch.status))))
    else if ltb ch.expires_at now
    then (with_challenge svc id late, err (text "challenge " ++ (id ++ text " has expired")))
    else (with_challenge svc id settled, ok settled)

unfoldable pub confirm :
    ApprovalService → Text → Bool → Text → ℕ → ℕ → ApprovalService × Fallible ApprovalChallenge
confirm svc id approves decided_by now decided =
    confirm_found svc id approves decided_by now decided (get Text-discrete id svc.challenges)

unfoldable pub get_challenge : ApprovalService → Text → Option ApprovalChallenge
get_challenge svc id = get Text-discrete id svc.challenges

unfoldable pub pending_of : List (Text × ApprovalChallenge) → List ApprovalChallenge
pending_of [] = []
pending_of ((id, ch) ∷ m) = if is_pending ch.status then ch ∷ pending_of m else pending_of m

unfoldable pub list_pending : ApprovalService → List ApprovalChallenge
list_pending svc = pending_of svc.challenges

-- A challenge that CleanExpired changes.
abbrev pub is_overdue : ℕ → ApprovalChallenge → Bool
is_overdue now ch = is_pending ch.status && ltb ch.expires_at now

abbrev pub expire : ℕ → ApprovalChallenge → ApprovalChallenge
expire now ch = if is_overdue now ch then record ch { status = expired } else ch

unfoldable pub expire_all : ℕ → List (Text × ApprovalChallenge) → List (Text × ApprovalChallenge)
expire_all now [] = []
expire_all now ((id, ch) ∷ m) = (id, expire now ch) ∷ expire_all now m

unfoldable pub overdue_of : ℕ → List (Text × ApprovalChallenge) → List ApprovalChallenge
overdue_of now [] = []
overdue_of now ((id, ch) ∷ m) =
    if is_overdue now ch then expire now ch ∷ overdue_of now m else overdue_of now m

-- CleanExpired, and the challenges that it expires.
unfoldable pub clean_expired : ApprovalService → ℕ → ApprovalService × List ApprovalChallenge
clean_expired svc now =
    (record svc { challenges = expire_all now svc.challenges }, overdue_of now svc.challenges)

-- The calls that change the service; the watcher's ticks are the cleanings.
pub data Call : Type 0 where
  starts : Text → Text → ℤ → Text → ℕ → Call
  confirms : Text → Bool → Text → ℕ → ℕ → Call
  cleans : ℕ → Call

unfoldable pub step : ApprovalService → Call → ApprovalService
step svc (starts action prompt score id now) = (start_challenge svc action prompt score id now).0
step svc (confirms id approves decided_by now decided) =
    (confirm svc id approves decided_by now decided).0
step svc (cleans now) = (clean_expired svc now).0

unfoldable pub run : ApprovalService → List Call → ApprovalService
run svc [] = svc
run svc (c ∷ cs) = run (step svc c) cs
