-- ===== src/DnsTools/Spf/Sound.antt =====
-- What an accepted SPF record keeps to.
use mrt_post_office.Prelude.{
  Bool, false, ◌≡◌, List, [], ◌∷◌, Text, ◌==◌, nat_eq, text_eq, any, ⊤, ◌⊎◌,
}
use mrt_post_office.Prelude.Chars.{codes}

abbrev pub IsKnown : Text → Type 0
IsKnown name = (name ≡ codes "redirect") ⊎ (name ≡ codes "exp")

-- Modifiers that are known, each once
abbrev pub AreOnce : List Text → Type 0
AreOnce [] = ⊤
AreOnce (name ∷ names) =
    (IsKnown name × (any (λ other. other == name) names ≡ false)) × AreOnce names

abbrev has_name : Text → List Text → Bool
has_name name names = any (λ other. other == name) names
