-- ===== src/Behavior/Summary.antt =====
-- goserver/behavioral_detection.go: GetProfileSummary, the line that is logged of a profile.
use sentinel_protocol.Base.{
  ℕ, ◌≡◌, sym, ap, List, [], ◌∷◌, ◌++◌, map, ltb, if◌then◌else◌, length, take, ℤ,
}
use mathlib.Core.List.Permᴰ
use mathlib.Core.List.{Permᴰ}
use sentinel_protocol.Text.{Text, text}
use sentinel_protocol.Text.Sort.{sort_strings, sort_strings_comm}
use sentinel_protocol.Behavior.{AgentProfile}

-- The words of fmt's %v for a slice of strings, without the brackets.
unfoldable pub words : List Text → List ℕ
words [] = []
words (s ∷ []) = s
words (s ∷ t ∷ ss) = s ++ (text " " ++ words (t ∷ ss))

abbrev pub bracketed : List Text → List ℕ
bracketed ss = text "[" ++ (words ss ++ text "]")

-- The keys of a map, in the order in which a walk finds them.
abbrev pub keys : List (Text × ℤ) → List Text
keys ops = map (λ (e : Text × ℤ). e.0) ops

abbrev pub first_five : List Text → List Text
first_five ss = if ltb 5 (length ss) then take 5 ss else ss

unfoldable pub get_profile_summary : AgentProfile → List ℕ
get_profile_summary profile =
    text "AgentID: "
    ++ (profile.agent_id
        ++ (text " | TypicalOps: "
            ++ (bracketed (first_five (sort_strings (keys profile.typical_ops)))
                ++ (text " | NeverOps: " ++ bracketed profile.never_ops))))

-- The summary of a profile is the same in whatever order the walk over the map of its operations
-- finds them.
pub get_profile_summary_ignores_order :
    (profile : AgentProfile) (found : List (Text × ℤ))
    → Permᴰ profile.typical_ops found
    → get_profile_summary (record profile { typical_ops = found }) ≡ get_profile_summary profile
unfolding get_profile_summary
get_profile_summary_ignores_order profile found p =
    ap
      (λ ops.
        text "AgentID: "
        ++ (profile.agent_id
            ++ (text " | TypicalOps: "
                ++ (bracketed (first_five ops)
                    ++ (text " | NeverOps: " ++ bracketed profile.never_ops)))))
      (sym (sort_strings_comm (Permᴰ.map (λ (e : Text × ℤ). e.0) p)))
