-- ===== src/Base/Texts.antt =====
-- White space, and the methods of texts that the source uses.
use Prim.Native.Nat.{ℕ, ◌+◌}
use Prim.Native.String.{String, ◌++◌ as text_append}
use Prim.Native.Char.{code}
use mathlib.Core.Bool.{Bool, true, false, ◌&&◌, ◌||◌}
use mathlib.Core.List.{[], ◌∷◌}
use ai_agent_platform.Base.Tests.{leb, ◌==◌, if◌then◌else◌}
use ai_agent_platform.Base.Lists.{any}

-- The numbers of the white space and line ends that `trim` removes.
abbrev pub is_space : ℕ → Bool
is_space c =
    leb 9 c && leb c 13
    || leb 8192 c && leb c 8202
    || any (λ d. c == d) (32 ∷ 160 ∷ 5760 ∷ 8232 ∷ 8233 ∷ 8239 ∷ 8287 ∷ 12288 ∷ 65279 ∷ [])

-- `text.trim().length === 0`.
abbrev pub is_blank : String → Bool
is_blank String.[] = true
is_blank (String.◌∷◌ c rest) = is_space (code c) && is_blank rest

-- `text.trim()`.
abbrev pub trim_start : String → String
trim_start String.[] = ""
trim_start (String.◌∷◌ c rest) =
    let trimmed = trim_start rest in if is_space (code c) then trimmed else String.◌∷◌ c rest

abbrev pub trim_end : String → String
trim_end String.[] = ""
trim_end (String.◌∷◌ c rest) =
    let trimmed = trim_end rest in
    if is_space (code c) && is_blank rest then "" else String.◌∷◌ c trimmed

abbrev pub trim : String → String
trim s = trim_end (trim_start s)

abbrev starts_with_space : String → Bool
starts_with_space String.[] = false
starts_with_space (String.◌∷◌ c rest) = is_space (code c)

-- `text.replace(/\s+/gu, " ")`.
abbrev pub collapse_spaces : String → String
collapse_spaces String.[] = ""
collapse_spaces (String.◌∷◌ c rest) =
    let collapsed = collapse_spaces rest in
    if is_space (code c)
    then (if starts_with_space rest then collapsed else text_append " " collapsed)
    else String.◌∷◌ c collapsed

-- `text.length`, in UTF-16 units.
abbrev pub units : String → ℕ
units String.[] = 0
units (String.◌∷◌ c rest) = (if leb (code c) 65535 then 1 else 2) + units rest

abbrev pub has_code : ℕ → String → Bool
has_code n String.[] = false
has_code n (String.◌∷◌ c rest) = (code c == n) || has_code n rest

abbrev pub is_empty : String → Bool
is_empty String.[] = true
is_empty (String.◌∷◌ c rest) = false
