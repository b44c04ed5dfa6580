-- ===== src/Approval/Keys.antt =====
-- The map of challenges: each stands under its own identifier, and only StartChallenge adds one.
use sentinel_protocol.Base.{
  ℕ, ◌≡◌, refl, sym, ap, ◌∙◌, ◌⊎◌, inl, inr, Bool, not, ltb, Option, none, some, List, [], ◌∷◌,
  arith, ite, get, put, get-put, All, Fallible, if_both, ℤ,
}
use sentinel_protocol.Text.{Text, Text-discrete}
use sentinel_protocol.Approval.{
  ApprovalChallenge, ApprovalService, expired, new_challenge, start_challenge, with_challenge,
  decided_challenge, is_pending, confirm_found, confirm, expire, expire_all, clean_expired,
}
use sentinel_protocol.Approval.Final.{challenge_at}

abbrev IsUnder : Text × ApprovalChallenge → Type 0
IsUnder (id, ch) = ch.id ≡ id

-- Every challenge stands under its identifier.
abbrev pub IsKeyed : ApprovalService → Type 0
IsKeyed svc = All IsUnder svc.challenges

get-IsUnder :
    (id : Text) (ch : ApprovalChallenge) (m : List (Text × ApprovalChallenge))
    → All IsUnder m
    → get Text-discrete id m ≡ some ch
    → ch.id ≡ id
unfolding get
get-IsUnder id ch [] all at = absurd (ground (arith, at))
get-IsUnder id ch ((j, old) ∷ m) (this, rest) at =
    ground (arith, this, get-IsUnder id ch m rest, at)

pub challenge_at-IsKeyed :
    (svc : ApprovalService) (id : Text) (ch : ApprovalChallenge)
    → IsKeyed svc
    → challenge_at svc id ≡ some ch
    → ch.id ≡ id
challenge_at-IsKeyed svc id ch keyed at = get-IsUnder id ch svc.challenges keyed at

put-IsUnder :
    (id : Text) (ch : ApprovalChallenge) (m : List (Text × ApprovalChallenge))
    → ch.id ≡ id
    → All IsUnder m
    → All IsUnder (put Text-discrete id ch m)
unfolding put
put-IsUnder id ch [] same all = (same, tt)
put-IsUnder id ch ((j, old) ∷ m) same (this, rest) =
    elim (Text-discrete j id)
      as (λ c. All IsUnder (ite c ((id, ch) ∷ m) ((j, old) ∷ put Text-discrete id ch m))) [
        | yes e ↦ (same, rest)
        | no e ↦ (this, put-IsUnder id ch m same rest)
      ]

expire_all-IsUnder :
    (now : ℕ) (m : List (Text × ApprovalChallenge)) → All IsUnder m → All IsUnder (expire_all now m)
unfolding expire_all
expire_all-IsUnder now [] all = tt
expire_all-IsUnder now ((id, ch) ∷ m) (this, rest) =
    let same : (expire now ch).id ≡ ch.id = ground arith in
    (same ∙ this, expire_all-IsUnder now m rest)

pub start_challenge-IsKeyed :
    (svc : ApprovalService) (action prompt : Text) (score : ℤ) (id : Text) (now : ℕ)
    → IsKeyed svc
    → IsKeyed (start_challenge svc action prompt score id now).0
unfolding start_challenge new_challenge
start_challenge-IsKeyed svc action prompt score id now keyed =
    put-IsUnder id (new_challenge svc action prompt score id now) svc.challenges refl keyed

-- Confirm on a challenge that is there leaves the service alone, or marks it as expired, or decides it.
confirm_found_any :
    (P : ApprovalService → Type 0) (svc : ApprovalService) (id : Text) (approves : Bool)
    (who : Text) (now decided : ℕ) (ch : ApprovalChallenge)
    → P svc
    → P (with_challenge svc id (record ch { status = expired }))
    → P (with_challenge svc id (decided_challenge ch approves who decided))
    → P (confirm_found svc id approves who now decided (some ch)).0
unfolding confirm_found
confirm_found_any P svc id approves who now decided ch same late settled =
    if_both of_state (not (is_pending ch.status)) _ _ same
      (if_both of_state (ltb ch.expires_at now) _ _ late settled)
  where
    of_state : ApprovalService × Fallible ApprovalChallenge → Type 0
    of_state r = P r.0

confirm_found-IsKeyed :
    (svc : ApprovalService) (id : Text) (approves : Bool) (who : Text) (now decided : ℕ)
    (o : Option ApprovalChallenge)
    → o ≡ challenge_at svc id
    → IsKeyed svc
    → IsKeyed (confirm_found svc id approves who now decided o).0
unfolding with_challenge decided_challenge confirm_found
confirm_found-IsKeyed svc id approves who now decided none there keyed = keyed
confirm_found-IsKeyed svc id approves who now decided (some ch) there keyed =
    let same : ch.id ≡ id = challenge_at-IsKeyed svc id ch keyed (sym there) in
    confirm_found_any (λ r. IsKeyed r) svc id approves who now decided ch keyed
      (put-IsUnder id (record ch { status = expired }) svc.challenges same keyed)
      (put-IsUnder id (decided_challenge ch approves who decided) svc.challenges same keyed)

pub confirm-IsKeyed :
    (svc : ApprovalService) (id : Text) (approves : Bool) (who : Text) (now decided : ℕ)
    → IsKeyed svc
    → IsKeyed (confirm svc id approves who now decided).0
unfolding confirm
confirm-IsKeyed svc id approves who now decided keyed =
    confirm_found-IsKeyed svc id approves who now decided (challenge_at svc id) refl keyed

pub clean_expired-IsKeyed :
    (svc : ApprovalService) (now : ℕ) → IsKeyed svc → IsKeyed (clean_expired svc now).0
unfolding clean_expired
clean_expired-IsKeyed svc now keyed = expire_all-IsUnder now svc.challenges keyed

-- A challenge is there under the identifier.
abbrev pub IsThere : ApprovalService → Text → Type 0
IsThere svc id = (ch : ApprovalChallenge) × (challenge_at svc id ≡ some ch)

pub start_challenge-IsThere :
    (svc : ApprovalService) (action prompt : Text) (score : ℤ) (id : Text) (now : ℕ) (other : Text)
    → IsThere (start_challenge svc action prompt score id now).0 other
    → (id ≡ other) ⊎ IsThere svc other
unfolding start_challenge
start_challenge-IsThere svc action prompt score id now other (ch, at) =
    elim (Text-discrete id other) [
      | yes same ↦ inl same
      | no apart ↦ inr (
        ch,
        ground (
          arith,
          get-put Text-discrete id other (new_challenge svc action prompt score id now)
              svc.challenges,
        ),
      )
    ]

put-IsThere :
    (svc : ApprovalService) (id : Text) (ch old : ApprovalChallenge) (other : Text)
    → challenge_at svc id ≡ some old
    → IsThere (with_challenge svc id ch) other
    → IsThere svc other
unfolding with_challenge
put-IsThere svc id ch old other held (new, at) = elim (Text-discrete id other) [
  | yes same ↦ (old, ap (λ k. challenge_at svc k) (sym same) ∙ held)
  | no apart ↦ (new, ground (arith, get-put Text-discrete id other ch svc.challenges))
]

confirm_found-IsThere :
    (svc : ApprovalService) (id : Text) (approves : Bool) (who : Text) (now decided : ℕ)
    (o : Option ApprovalChallenge) (other : Text)
    → o ≡ challenge_at svc id
    → IsThere (confirm_found svc id approves who now decided o).0 other
    → IsThere svc other
unfolding confirm_found
confirm_found-IsThere svc id approves who now decided none other there = λ h. h
confirm_found-IsThere svc id approves who now decided (some ch) other there =
    confirm_found_any (λ r. IsThere r other → IsThere svc other) svc id approves who now decided ch
      (λ h. h) (put-IsThere svc id (record ch { status = expired }) ch other (sym there))
      (put-IsThere svc id (decided_challenge ch approves who decided) ch other (sym there))

pub confirm-IsThere :
    (svc : ApprovalService) (id : Text) (approves : Bool) (who : Text) (now decided : ℕ)
    (other : Text)
    → IsThere (confirm svc id approves who now decided).0 other
    → IsThere svc other
unfolding confirm
confirm-IsThere svc id approves who now decided other h =
    confirm_found-IsThere svc id approves who now decided (challenge_at svc id) other refl h

expire_all-IsThere :
    (now : ℕ) (id : Text) (new : ApprovalChallenge) (m : List (Text × ApprovalChallenge))
    → get Text-discrete id (expire_all now m) ≡ some new
    → (ch : ApprovalChallenge) × (get Text-discrete id m ≡ some ch)
unfolding get expire_all
expire_all-IsThere now id new [] at = absurd (ground (arith, at))
expire_all-IsThere now id new ((j, ch) ∷ m) at = elim (Text-discrete j id) [
  | yes same ↦ (ch, ground (arith, same))
  | no apart ↦
      let (old, before) = expire_all-IsThere now id new m (ground (arith, apart, at)) in
      (old, ground (arith, apart, before))
]

pub clean_expired-IsThere :
    (svc : ApprovalService) (now : ℕ) (id : Text)
    → IsThere (clean_expired svc now).0 id
    → IsThere svc id
unfolding clean_expired
clean_expired-IsThere svc now id (new, at) = expire_all-IsThere now id new svc.challenges at
