-- ===== src/Text/Split.antt =====
-- `strings.Split`, `strings.SplitN(s, sep, 2)`, `strings.Cut` and `strings.Join`, with a separator of one character.
use Prim.Native.Char.{Char, code}
use ia_cstudio.Prelude.{
  Option, none, some, ℕ, ◌≡◌, refl, String, ◌<>◌, List, [], ◌∷◌, if◌then◌else◌, eqb,
}

split_cons : Char → List String → List String
split_cons c [] = []
split_cons c (part ∷ parts) = String.◌∷◌ c part ∷ parts

-- `strings.Split`
unfoldable pub split : ℕ → String → List String
unfolding split_cons
split sep String.[] = "" ∷ []
split sep (String.◌∷◌ c s) =
    let parts = split sep s in if eqb (code c) sep then "" ∷ parts else split_cons c parts

-- what stands before the first separator, and what stands after it: nothing if there is none
unfoldable pub split_once : ℕ → String → String × String
split_once sep String.[] = (String.[], "")
split_once sep (String.◌∷◌ c s) =
    let (before, after) = split_once sep s in
    if eqb (code c) sep then (String.[], s) else (String.◌∷◌ c before, after)

join_after : String → List String → String
join_after sep [] = ""
join_after sep (s ∷ ss) = sep <> s <> join_after sep ss

cut_cons : Char → Option (String × String) → Option (String × String)
cut_cons c none = none
cut_cons c (some (before, after)) = some (String.◌∷◌ c before, after)

-- `strings.Cut`, with a separator of one character: nothing if there is none
unfoldable pub cut : ℕ → String → Option (String × String)
unfolding cut_cons
cut sep String.[] = none
cut sep (String.◌∷◌ c s) =
    let found = cut sep s in if eqb (code c) sep then some ("", s) else cut_cons c found

-- `strings.Join`
unfoldable pub join : String → List String → String
unfolding join_after
join sep [] = ""
join sep (s ∷ ss) = s <> join_after sep ss

split_test : split b'.' "a.b." ≡ "a" ∷ "b" ∷ "" ∷ []
unfolding split
split_test = refl

join_test : join ", " (split b'.' "a.b") ≡ "a, b"
unfolding split join
join_test = refl
