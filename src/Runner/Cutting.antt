-- ===== src/Runner/Cutting.antt =====
-- `strings.Cut` on the variables that internal/runner/safe_runner.go puts together.
use Prim.Native.Char.{Char, code}
use Prim.Native.String.append
use mathlib.Core.Option.{none-ne-some, some-injective}
use ia_cstudio.Prelude.{
  ◌≡◌, refl, inl, inr, String, ◌<>◌, eqb, subst, false, some, Bool-cases, Option-cases,
}
use ia_cstudio.Text.Split.{cut}
use ia_cstudio.Runner.Environment.{env_entry}

unfoldable pub IsCut : String × String → Type 0
IsCut p = cut b'=' (env_entry p.0 p.1) ≡ some p

pub IsCut-separator : (s : String) → IsCut ("", s)
unfolding cut env_entry IsCut
IsCut-separator s = rw (append.nil ("=" <> s), append.cons "=" "" s, append.nil s) refl

pub IsCut-longer :
    (c : Char) (k v : String) → eqb (code c) b'=' ≡ false → IsCut (k, v) → IsCut (String.◌∷◌ c k, v)
unfolding cut env_entry IsCut
IsCut-longer c k v apart h = rw (append.cons c k ("=" <> v), apart) (rw h refl)

-- Cutting a variable that was put together again.
pub cut-IsCut : (e : String) (p : String × String) → cut b'=' e ≡ some p → IsCut p
unfolding cut env_entry IsCut
cut-IsCut String.[] p h = absurd (none-ne-some _ h)
cut-IsCut (String.◌∷◌ c s) p h = elim (Bool-cases (eqb (code c) b'=')) [
  | inl here ↦ subst IsCut (some-injective _ _ (rw here at h)) (IsCut-separator s)
  | inr apart ↦ elim (Option-cases (cut b'=' s)) [
    | inl nothing ↦ absurd (none-ne-some _ (rw (apart, nothing) at h))
    | inr ((k, v), found) ↦
        subst IsCut (some-injective _ _ (rw (apart, found) at h))
          (IsCut-longer c k v apart (cut-IsCut s (k, v) found))
  ]
]
